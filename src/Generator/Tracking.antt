-- ===== src/Generator/Tracking.antt =====
-- generator/go_helpers.go, `buildTemplateData`: which variables are declared behind a sequence.
use ssac.Base.{Bool, true, false, not, ◌||◌, List, ◌∷◌, Option, none, some}
use ssac.Text.{Text}
use ssac.Dict.{member}
use ssac.Parser.Types.{SeqType, get, post, put, delete, auth, call, publish, Binding, Sequence}

-- `*errDeclared` and `declaredVars`
pub record Tracking : Type 0 where
  pub err_declared : Bool
  pub declared : List Text

abbrev pub reassigns : Option Binding → List Text → Bool
reassigns none declared = false
reassigns (some r) declared = member r.name declared

abbrev pub declare_result : Option Binding → List Text → List Text
declare_result none declared = declared
declare_result (some r) declared = r.name ∷ declared

abbrev has_result : Option Binding → Bool
has_result none = false
has_result (some r) = true

-- `FirstErr`, where `err` has been declared or not
unfoldable pub first_err_of : SeqType → Option Binding → Bool → Bool
first_err_of get r declared = true
first_err_of post r declared = true
first_err_of auth r declared = not declared
first_err_of call r declared = has_result r || not declared
first_err_of put r declared = not declared
first_err_of delete r declared = not declared
first_err_of publish r declared = not declared
first_err_of _ r declared = false

-- `*errDeclared` behind the sequence
unfoldable pub err_behind : SeqType → Bool → Bool
err_behind get declared = true
err_behind post declared = true
err_behind auth declared = true
err_behind call declared = true
err_behind put declared = true
err_behind delete declared = true
err_behind publish declared = true
err_behind _ declared = declared

unfoldable pub track : Sequence → Tracking → Tracking
unfolding err_behind
track seq tr = record {
  err_declared = err_behind seq.type tr.err_declared;
  declared = declare_result seq.result tr.declared;
}
