-- ===== src/Generator/Interfaces.antt =====
-- generator/go_interface.go: the model interfaces that the functions ask for.
pub mod Calls
pub mod Methods
use ssac.Base.{
  suc, ◌-◌, Bool, not, ◌||◌, List, [], ◌∷◌, ◌++◌, Option, none, some, any, is_empty, if◌then◌else◌,
  take, drop, length,
}
use mathlib.Core.List.{reverse}
use ssac.Text.{Text, codes, text_eq, has_prefix, index}
use ssac.Text.Sort.{sort_texts}
use ssac.Dict.{Dict, lookup, keys, member}
use ssac.Parser.Types.{Binding}
use ssac.Validator.Symbols.{MethodInfo, ModelSymbol, SymbolTable}
use ssac.Validator.Requests.{is_query_input}
use ssac.Validator.Snake.{to_snake_case, table_name, column_type, any_column}
use ssac.Generator.Go.{Tools, concat}
use ssac.Generator.Args.{keep, value_of}
use ssac.Generator.Usages.{ModelUsage, model_names, used_methods, first_usage}

pub record DerivedParam : Type 0 where
  pub name : Text
  pub go_type : Text

pub record DerivedMethod : Type 0 where
  pub name : Text
  pub params : List DerivedParam
  pub has_query_opts : Bool
  pub return_type : Text

pub record DerivedInterface : Type 0 where
  pub name : Text
  pub methods : List DerivedMethod

-- The keys of the inputs, in the order of the parameters; the others behind them as the map gives
-- them. Without parameters, sorted.
unfoldable pub interface_keys : Dict Text → List Text → List Text
unfolding keep sort_texts member
interface_keys inputs params =
    if is_empty params
    then sort_texts (keys inputs)
    else keep (λ p. member p (keys inputs)) params
      ++ keep (λ k. not (member k (keep (λ p. member p (keys inputs)) params))) (keys inputs)

abbrev or_string : Option (Text × Text) → Text
or_string none = codes "string"
or_string (some (table, type)) = type

-- A lookup, then another one.
abbrev or_else : Option Text → Text → Text
or_else none other = other
or_else (some type) other = type

-- The foreign key `...ID`, then any table.
unfoldable pub id_or_any : SymbolTable → Text → Text
unfolding has_prefix table_name column_type any_column to_snake_case
id_or_any st field =
    let anywhere = or_string (any_column (to_snake_case field) st.ddl_tables) in
    if has_prefix (codes "DI") (reverse field)
    then or_else (column_type st (table_name (take (length field - 2) field)) (codes "id")) anywhere
    else anywhere

abbrev is_outer : Text → Bool
is_outer source = text_eq source (codes "request") || text_eq source (codes "currentUser")

-- The table of the source, then that of the model.
unfoldable pub source_param_type : SymbolTable → Text → Text → Text → Text
unfolding id_or_any table_name column_type to_snake_case text_eq
source_param_type st model source field =
    let known =
      or_else (column_type st (table_name model) (to_snake_case field)) (id_or_any st field) in
    if is_outer source
    then known
    else or_else (column_type st (table_name source) (to_snake_case field)) known

-- `resolveInputParamType`
unfoldable pub resolve_input_param_type : Text → Text → SymbolTable → Text
unfolding source_param_type has_prefix
resolve_input_param_type val model st =
    if has_prefix (codes "\"") val then codes "string" else (elim (index b'.' val) [
      | none ↦ codes "string"
      | some i ↦ source_param_type st model (take i val) (drop (suc i) val)
    ])

abbrev type_or_any : Option Binding → Text
type_or_any none = codes "interface{}"
type_or_any (some r) = r.type_of

-- Without the brackets of a slice.
abbrev element_type : Text → Text
element_type type = if has_prefix (codes "[]") type then drop 2 type else type

unfoldable pub return_of : Text → Option Binding → Bool → Text
unfolding text_eq has_prefix concat
return_of cardinality result query =
    if text_eq cardinality (codes "exec")
    then codes "error"
    else if text_eq cardinality (codes "many")
    then concat (
        codes "([]"
        ∷ element_type (type_or_any result)
        ∷ (if query then codes ", int, error)" else codes ", error)")
        ∷ [])
    else concat (codes "(*" ∷ type_or_any result ∷ codes ", error)" ∷ [])

-- `deriveReturnType`
unfoldable pub derive_return_type : Text → Option Binding → Bool → Text
unfolding return_of concat
derive_return_type cardinality none query = return_of cardinality none query
derive_return_type cardinality (some r) query =
    if is_empty r.wrapper
    then return_of cardinality (some r) query
    else concat (codes "(*pagination." ∷ r.wrapper ∷ codes "[" ∷ r.type_of ∷ codes "], error)" ∷ [])

abbrev cardinality_of : Option MethodInfo → Text
cardinality_of none = []
cardinality_of (some mi) = mi.cardinality

abbrev pub params_of_method : Option MethodInfo → List Text
params_of_method none = []
params_of_method (some mi) = mi.params

unfoldable pub named_param : Text → Text → List DerivedParam
named_param [] type = []
named_param (c ∷ name) type = record { name = c ∷ name; go_type = type } ∷ []

abbrev query_among : ModelUsage → List Text → Bool
query_among u ks = any (λ (k : Text). is_query_input (value_of k u.inputs)) ks

unfoldable pub no_usage : ModelUsage
no_usage = record { model_name = []; method_name = []; inputs = []; result = none; func_name = [] }

usage_or_none : Option ModelUsage → ModelUsage
unfolding no_usage
usage_or_none none = no_usage
usage_or_none (some u) = u

-- An interface without methods is left out.
abbrev interface_of : Text → List DerivedMethod → List DerivedInterface
interface_of model [] = []
interface_of model (m ∷ ms) = record { name = model ++ codes "Model"; methods = m ∷ ms } ∷ []

module _ (t : Tools) where
  -- The parameters; a `query` input is none.
  unfoldable pub derived_params : SymbolTable → ModelUsage → List Text → List DerivedParam
  unfolding named_param resolve_input_param_type is_query_input value_of
  derived_params st u [] = []
  derived_params st u (k ∷ ks) =
      let rest = derived_params st u ks in
      let val = value_of k u.inputs in
      if is_query_input val
      then rest
      else named_param (t.to_go_camel k) (resolve_input_param_type val u.model_name st) ++ rest

  unfoldable pub usage_method : SymbolTable → Option MethodInfo → Text → ModelUsage → DerivedMethod
  unfolding derived_params interface_keys derive_return_type is_query_input value_of
  usage_method st mi method u =
      let ks = interface_keys u.inputs (params_of_method mi) in
      record {
        name = method;
        params = derived_params st u ks;
        has_query_opts = query_among u ks;
        return_type = derive_return_type (cardinality_of mi) u.result (query_among u ks);
      }

  unfoldable pub derived_methods :
      SymbolTable → ModelSymbol → Text → List ModelUsage → List Text → List DerivedMethod
  unfolding usage_method first_usage usage_or_none lookup
  derived_methods st ms model us [] = []
  derived_methods st ms model us (method ∷ methods) =
      usage_method st (lookup method ms.methods) method
        (usage_or_none (first_usage model method us))
      ∷ derived_methods st ms model us methods

  unfoldable pub model_interface :
      SymbolTable → List ModelUsage → Text → Option ModelSymbol → List DerivedInterface
  unfolding derived_methods used_methods sort_texts
  model_interface st us model none = []
  model_interface st us model (some ms) =
      interface_of model (derived_methods st ms model us (sort_texts (used_methods model [] us)))

  unfoldable pub interfaces_of : SymbolTable → List ModelUsage → List Text → List DerivedInterface
  unfolding model_interface lookup
  interfaces_of st us [] = []
  interfaces_of st us (m ∷ ms) =
      model_interface st us m (lookup m st.models) ++ interfaces_of st us ms

  -- `deriveInterfaces`
  unfoldable pub derive_interfaces : List ModelUsage → SymbolTable → List DerivedInterface
  unfolding interfaces_of model_names sort_texts
  derive_interfaces us st = interfaces_of st us (sort_texts (model_names [] us))
