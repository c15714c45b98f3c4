-- ===== src/Validator/CallTypes.antt =====
-- validator/validator.go, `validateCallInputTypes` and `resolveCallInputType`: the types of what is
-- handed to a call, as far as the database tells them.
use ssac.Base.{
  suc, not, ◌&&◌, ◌||◌, List, [], ◌∷◌, ◌++◌, Option, none, some, ◌-◌, if◌then◌else◌, is_empty, take,
  drop, length,
}
use mathlib.Core.List.{reverse}
use ssac.Text.{Text, codes, text_eq, has_prefix, index}
use ssac.Dict.{Dict, lookup, put}
use ssac.Parser.Types.{Binding, Sequence, ServiceFunc}
use ssac.Validator.Errors.{input_type_mismatch, ValidationError, ErrCtx, err, when}
use ssac.Validator.Rules.{each_from}
use ssac.Validator.Symbols.{MethodInfo, ModelSymbol, SymbolTable}
use ssac.Validator.Models.{model_parts, is_call}
use ssac.Validator.Snake.{to_snake_case, before_dot, table_name, column_type, any_column}

abbrev bind_model : Text → Option Binding → Dict Text → Dict Text
bind_model model none models = models
bind_model model (some r) models =
    if is_empty model then models else put r.name (before_dot model) models

-- `resultModels`: the model behind each result; a later result of the same name wins.
unfoldable pub result_models : Dict Text → List Sequence → Dict Text
unfolding put before_dot
result_models models [] = models
result_models models (seq ∷ seqs) = result_models (bind_model seq.model seq.result models) seqs

abbrev method_types : Option MethodInfo → Option (Dict Text)
method_types none = none
method_types (some mi) = mi.param_types

-- The first model of the package that has the function with known types.
unfoldable pub call_param_types : Text → Text → Dict ModelSymbol → Option (Dict Text)
unfolding lookup has_prefix
call_param_types pkg func [] = none
call_param_types pkg func ((key, ms) ∷ models) =
    let rest = call_param_types pkg func models in
    if has_prefix (pkg ++ codes ".") key
    then (elim (method_types (lookup func ms.methods)) [ some types ↦ some types | none ↦ rest ])
    else rest

abbrev type_or_empty : Option Text → Text
type_or_empty none = []
type_or_empty (some t) = t

abbrev pair_type : Option (Text × Text) → Text
pair_type none = []
pair_type (some (table, type)) = type

-- The type of a foreign key `...ID`: that of the `id` column of the table it points to.
unfoldable pub id_type : SymbolTable → Text → Text
unfolding table_name column_type has_prefix
id_type st field =
    if has_prefix (codes "DI") (reverse field)
    then type_or_empty (column_type st (table_name (take (length field - 2) field)) (codes "id"))
    else []

-- A column of the model's table, else a foreign key.
unfoldable pub field_type : SymbolTable → Text → Text → Text
unfolding id_type
field_type st model field = elim (column_type st (table_name model) (to_snake_case field)) [
  | some type ↦ type
  | none ↦ id_type st field
]

unfoldable pub variable_type : SymbolTable → Option Text → Text → Text
unfolding field_type
variable_type st none field = []
variable_type st (some model) field = field_type st model field

-- `source.field`
unfoldable pub source_type : SymbolTable → Dict Text → Text → Text → Text
unfolding text_eq to_snake_case any_column variable_type lookup
source_type st models source field =
    if text_eq source (codes "currentUser")
    then []
    else if text_eq source (codes "request")
    then pair_type (any_column (to_snake_case field) st.ddl_tables)
    else variable_type st (lookup source models) field

-- `resolveCallInputType`; the empty text where the type is not known
unfoldable pub resolve_call_input_type : SymbolTable → Dict Text → Text → Text
unfolding source_type has_prefix
resolve_call_input_type st models val =
    if has_prefix (codes "\"") val then codes "string" else (elim (index b'.' val) [
      | none ↦ []
      | some i ↦ source_type st models (take i val) (drop (suc i) val)
    ])

unfoldable pub type_mismatch : ErrCtx → Text → Text → Text → Option Text → List ValidationError
unfolding text_eq
type_mismatch c key val actual none = []
type_mismatch c key val actual (some expected) =
    when (not (is_empty actual) && not (text_eq actual expected))
      (err c (codes "@call") (input_type_mismatch key val actual expected))

unfoldable pub inputs_mismatch :
    SymbolTable → Dict Text → ErrCtx → Dict Text → Dict Text → List ValidationError
unfolding type_mismatch resolve_call_input_type lookup
inputs_mismatch st models c types [] = []
inputs_mismatch st models c types ((key, val) ∷ inputs) =
    type_mismatch c key val (resolve_call_input_type st models val) (lookup key types)
    ++ inputs_mismatch st models c types inputs

unfoldable pub typed_call :
    SymbolTable → Dict Text → ErrCtx → Dict Text → Option (Dict Text) → List ValidationError
unfolding inputs_mismatch
typed_call st models c inputs none = []
typed_call st models c inputs (some types) = inputs_mismatch st models c types inputs

unfoldable pub named_call :
    SymbolTable → Dict Text → ErrCtx → Sequence → Option (Text × Text) → List ValidationError
unfolding typed_call call_param_types
named_call st models c seq none = []
named_call st models c seq (some (pkg, func)) =
    typed_call st models c seq.inputs (call_param_types pkg func st.models)

unfoldable pub call_check : SymbolTable → Dict Text → ErrCtx → Sequence → List ValidationError
unfolding named_call model_parts
call_check st models c seq =
    if not (is_call seq.type) || is_empty seq.model
    then []
    else named_call st models c seq (model_parts seq.model)

-- `none` is the nil symbol table.
unfoldable pub validate_call_input_types : ServiceFunc → Option SymbolTable → List ValidationError
unfolding call_check each_from result_models
validate_call_input_types sf none = []
validate_call_input_types sf (some st) =
    each_from (call_check st (result_models [] sf.sequences)) sf 0 sf.sequences
