-- ===== src/Validator/Guard.antt =====
-- validator/validator.go, `validateFKReferenceGuard`: a lookup by a field of an earlier result is
-- followed by an @empty guard on what it found.
pub mod Guarded
use ssac.Base.{
  ℕ, ◌+◌, Bool, true, false, ◌&&◌, ◌||◌, List, [], ◌∷◌, ◌++◌, Option, none, some, not, is_empty,
  any,
}
use ssac.Text.{Text, codes, text_eq, has_prefix}
use ssac.Dict.{values, member}
use ssac.Parser.Types.{SeqType, get, empty, Binding, Sequence, SubscribeInfo, ServiceFunc}
use ssac.Validator.Errors.{fk_guard, ValidationError, ErrCtx, at, err, when}
use ssac.Validator.Flow.{root_var, is_literal, declare}

-- The sources that are no result of an earlier sequence.
abbrev pub outer_sources : List Text
outer_sources =
    codes "request"
    ∷ codes "currentUser"
    ∷ codes "query"
    ∷ codes "message"
    ∷ codes "config"
    ∷ []
    ∷ []

-- One value of the inputs refers to a result.
unfoldable pub is_fk_ref : List Text → Text → Bool
is_fk_ref declared val =
    not (is_literal val)
    && not (member (root_var val) outer_sources)
    && member (root_var val) declared

abbrev pub is_empty_type : SeqType → Bool
is_empty_type empty = true
is_empty_type _ = false

-- An @empty guard on the variable.
unfoldable pub guards_var : Text → Sequence → Bool
guards_var var seq = is_empty_type seq.type && text_eq (root_var seq.target) var

abbrev pub is_slice_or_wrapped : Binding → Bool
is_slice_or_wrapped r = has_prefix (codes "[]") r.type_of || not (is_empty r.wrapper)

unfoldable pub guard_of_result :
    ErrCtx → List Text → Sequence → List Sequence → Option Binding → List ValidationError
guard_of_result c declared seq later none = []
guard_of_result c declared seq later (some r) =
    when
      (not (is_slice_or_wrapped r)
        && (any (is_fk_ref declared) (values seq.inputs) && not (any (guards_var r.name) later)))
      (err c (codes "@get") (fk_guard r.name))

unfoldable pub guard_errors :
    SeqType → ErrCtx → List Text → Sequence → List Sequence → List ValidationError
unfolding guard_of_result is_fk_ref guards_var
guard_errors get c declared seq later = guard_of_result c declared seq later seq.result
guard_errors _ c declared seq later = []

unfoldable pub guard_from : ServiceFunc → ℕ → List Text → List Sequence → List ValidationError
guard_from sf i declared [] = []
guard_from sf i declared (seq ∷ seqs) =
    let c : ErrCtx = record { file_name = sf.file_name; func_name = sf.name; seq_index = at i } in
    guard_errors seq.type c declared seq seqs
    ++ guard_from sf (i + 1) (declare seq.result declared) seqs

abbrev pub results_at_start : Option SubscribeInfo → List Text
results_at_start none = []
results_at_start (some _) = codes "message" ∷ []

unfoldable pub validate_fk_reference_guard : ServiceFunc → List ValidationError
unfolding guard_errors guard_from
validate_fk_reference_guard sf = guard_from sf 0 (results_at_start sf.subscribe) sf.sequences
