-- ===== src/Validator/Flow.antt =====
-- validator/validator.go, `validateVariableFlow`: a variable is used behind its declaration only.
pub mod Scope
use ssac.Base.{
  ℕ, ◌+◌, Bool, true, false, not, ◌&&◌, ◌||◌, List, [], ◌∷◌, ◌++◌, Option, none, some, is_empty,
  drop, take, flat_map, if◌then◌else◌,
}
use ssac.Text.{Text, codes, text_eq, has_prefix, index}
use ssac.Dict.{values, member}
use ssac.Parser.Types.{SeqType, publish, Arg, Binding, Sequence, SubscribeInfo, ServiceFunc}
use ssac.Validator.Errors.{
  undeclared, config_input, query_in_publish, ValidationError, ErrCtx, at, err, at_type, when,
}

-- `rootVar`: the text up to its first dot.
unfoldable pub root_var : Text → Text
root_var s = elim (index b'.' s) [ none ↦ s | some i ↦ take i s ]

-- `argVarRef`
unfoldable pub arg_var_ref : Arg → Text
arg_var_ref a =
    if not (is_empty a.literal)
    then []
    else if member a.source (codes "request" ∷ codes "currentUser" ∷ codes "query" ∷ [] ∷ [])
    then []
    else a.source

-- `ref != "" && !declared[ref]`
abbrev pub is_undeclared : List Text → Text → Bool
is_undeclared declared ref = not (is_empty ref) && not (member ref declared)

unfoldable pub target_errors : ErrCtx → SeqType → List Text → Text → List ValidationError
target_errors c t declared target =
    when (not (is_empty target) && not (member (root_var target) declared))
      (err c (at_type t) (undeclared (root_var target)))

unfoldable pub arg_errors : ErrCtx → SeqType → List Text → Arg → List ValidationError
arg_errors c t declared a =
    when (is_undeclared declared (arg_var_ref a)) (err c (at_type t) (undeclared (arg_var_ref a)))

-- `val == "query" || strings.HasPrefix(val, "query.")`
abbrev pub is_query : Text → Bool
is_query val = text_eq val (codes "query") || has_prefix (codes "query.") val

abbrev pub is_publish : SeqType → Bool
is_publish publish = true
is_publish _ = false

abbrev pub is_literal : Text → Bool
is_literal val = has_prefix (codes "\"") val

-- The sources that need no declaration in inputs.
abbrev pub open_sources : List Text
open_sources = codes "request" ∷ codes "currentUser" ∷ codes "query" ∷ [] ∷ []

unfoldable pub input_errors : ErrCtx → SeqType → List Text → Text → List ValidationError
input_errors c t declared val =
    if is_literal val
    then []
    else if has_prefix (codes "config.") val
    then err c (at_type t) (config_input (drop 7 val)) ∷ []
    else if is_publish t && is_query val
    then err c (codes "@publish") query_in_publish ∷ []
    else when (not (member (root_var val) open_sources) && not (member (root_var val) declared))
        (err c (at_type t) (undeclared (root_var val)))

unfoldable pub field_errors : ErrCtx → List Text → Text → List ValidationError
field_errors c declared val =
    if is_literal val
    then []
    else when (is_undeclared declared (root_var val))
        (err c (codes "@response") (undeclared (root_var val)))

-- The checks of one sequence, in the source's order.
unfoldable pub flow_errors : ErrCtx → List Text → Sequence → List ValidationError
unfolding target_errors arg_errors input_errors field_errors root_var arg_var_ref
flow_errors c declared seq =
    target_errors c seq.type declared seq.target
    ++ (flat_map (arg_errors c seq.type declared) seq.args
        ++ (flat_map (input_errors c seq.type declared) (values seq.inputs)
            ++ flat_map (field_errors c declared) (values seq.fields)))

-- `declared[seq.Result.Var] = true`
abbrev pub declare : Option Binding → List Text → List Text
declare none declared = declared
declare (some r) declared = r.name ∷ declared

unfoldable pub flow_from : ServiceFunc → ℕ → List Text → List Sequence → List ValidationError
flow_from sf i declared [] = []
flow_from sf i declared (seq ∷ seqs) =
    let c : ErrCtx = record { file_name = sf.file_name; func_name = sf.name; seq_index = at i } in
    flow_errors c declared seq ++ flow_from sf (i + 1) (declare seq.result declared) seqs

abbrev pub declared_at_start : Option SubscribeInfo → List Text
declared_at_start none = codes "currentUser" ∷ []
declared_at_start (some _) = codes "message" ∷ codes "currentUser" ∷ []

unfoldable pub validate_variable_flow : ServiceFunc → List ValidationError
unfolding flow_errors flow_from
validate_variable_flow sf = flow_from sf 0 (declared_at_start sf.subscribe) sf.sequences
