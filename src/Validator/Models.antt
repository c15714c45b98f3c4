-- ===== src/Validator/Models.antt =====
-- validator/validator.go, `validateModel`: the models and methods that the sequences name.
pub mod Parts
pub mod Known
use ssac.Base.{
  ℕ, suc, Bool, true, false, not, ◌||◌, ◌==◌, ltb, List, [], ◌∷◌, ◌++◌, Option, none, some,
  flat_map, if◌then◌else◌, is_empty, take, drop,
}
use ssac.Text.{Text, codes, index}
use ssac.Text.Sort.{sort_texts}
use ssac.Dict.{Dict, lookup, keys, member}
use ssac.Parser.Types.{SeqType, call, Sequence, ServiceFunc}
use ssac.Validator.Errors.{
  no_interface, no_package_method, extra_parameter, missing_parameter, unknown_model,
  unknown_method, ValidationError, ErrCtx, err, warn, at_type, when,
}
use ssac.Validator.Rules.{each_from}
use ssac.Validator.Symbols.{MethodInfo, ModelSymbol, SymbolTable, has_method}

-- `strings.SplitN(model, ".", 2)`; `none` for a single part
unfoldable pub model_parts : Text → Option (Text × Text)
model_parts model = elim (index b'.' model) [
  | none ↦ none
  | some i ↦ some (take i model, drop (suc i) model)
]

abbrev pub is_call : SeqType → Bool
is_call call = true
is_call _ = false

-- The keys of the sequence that are no parameters, then the parameters that are no keys.
unfoldable pub parameter_errors : ErrCtx → Sequence → Text → Text → List Text → List ValidationError
unfolding member sort_texts
parameter_errors c seq model method params =
    let given = sort_texts (keys seq.inputs) in
    flat_map
      (λ key. when (not (member key params)) (
        err c (at_type seq.type)
          (extra_parameter c.func_name seq.package_name model method key params)))
      given
    ++ flat_map
        (λ param. when (not (member param (keys seq.inputs))) (
          err c (at_type seq.type)
            (missing_parameter c.func_name seq.package_name model method param given)))
        params

-- A method without parameters asks for nothing.
abbrev method_errors : ErrCtx → Sequence → Text → Text → MethodInfo → List ValidationError
method_errors c seq model method mi =
    if is_empty mi.params then [] else parameter_errors c seq model method mi.params

abbrev package_model : ErrCtx → Sequence → Text → Text → ModelSymbol → List ValidationError
package_model c seq model method ms = elim (lookup method ms.methods) [
  | none ↦
      err c (at_type seq.type)
        (no_package_method seq.package_name model method (sort_texts (keys ms.methods)))
      ∷ []
  | some mi ↦ method_errors c seq model method mi
]

-- A model with a package in front; one that is not in the table is a warning.
unfoldable pub package_model_errors :
    ErrCtx → SymbolTable → Sequence → Text → Text → List ValidationError
unfolding parameter_errors sort_texts
package_model_errors c st seq model method =
    elim (lookup (seq.package_name ++ codes "." ++ model) st.models) [
      | none ↦ warn c (at_type seq.type) (no_interface seq.package_name model) ∷ []
      | some ms ↦ package_model c seq model method ms
    ]

unfoldable pub own_model_errors :
    ErrCtx → SymbolTable → SeqType → Text → Text → List ValidationError
unfolding has_method
own_model_errors c st t model method = elim (lookup model st.models) [
  | none ↦ err c (at_type t) (unknown_model model) ∷ []
  | some ms ↦ when (not (has_method ms method)) (err c (at_type t) (unknown_method model method))
]

unfoldable pub named_model_errors :
    SymbolTable → ErrCtx → Sequence → Option (Text × Text) → List ValidationError
named_model_errors st c seq none = []
named_model_errors st c seq (some (model, method)) =
    if is_empty seq.package_name
    then own_model_errors c st seq.type model method
    else package_model_errors c st seq model method

-- One round of the loop: a call is of another package, and passed over.
unfoldable pub model_check : SymbolTable → ErrCtx → Sequence → List ValidationError
unfolding named_model_errors model_parts package_model_errors own_model_errors
model_check st c seq =
    if is_empty seq.model || is_call seq.type
    then []
    else named_model_errors st c seq (model_parts seq.model)

unfoldable pub validate_model : ServiceFunc → SymbolTable → List ValidationError
unfolding model_check each_from
validate_model sf st = each_from (model_check st) sf 0 sf.sequences
