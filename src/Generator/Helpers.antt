-- ===== src/Generator/Helpers.antt =====
-- generator/go_helpers.go: messages, status constants and the small questions about sequences.
use ssac.Base.{
  ℕ, ◌==◌, Bool, not, ◌&&◌, ◌||◌, List, [], ◌∷◌, ◌++◌, Option, none, some, any, map, is_empty,
  if◌then◌else◌,
}
use ssac.Text.{Text, codes, text_eq, has_prefix}
use ssac.Dict.{Dict, lookup, values, member}
use ssac.Parser.Types.{SeqType, get, post, put, delete, empty, exists, state, auth, call, Sequence}
use ssac.Validator.Symbols.{
  ℤ, pos, negsuc, PathParam, XPagination, XSort, XFilter, OperationSymbol, ModelSymbol, SymbolTable,
}
use ssac.Validator.Flow.{root_var}
use ssac.Validator.Models.{model_parts}
use ssac.Validator.Snake.{before_dot}
use ssac.Generator.Go.{Tools, join, concat, decimal_int, quote}
use ssac.Generator.Args.{has_query_input}
use ssac.Generator.Params.{RequestParam}
use ssac.Generator.Imports.{add, current_user_input}

abbrev status_codes : List (ℕ × Text)
status_codes =
    (400, codes "http.StatusBadRequest")
    ∷ (401, codes "http.StatusUnauthorized")
    ∷ (402, codes "http.StatusPaymentRequired")
    ∷ (403, codes "http.StatusForbidden")
    ∷ (404, codes "http.StatusNotFound")
    ∷ (409, codes "http.StatusConflict")
    ∷ (422, codes "http.StatusUnprocessableEntity")
    ∷ (429, codes "http.StatusTooManyRequests")
    ∷ (500, codes "http.StatusInternalServerError")
    ∷ (502, codes "http.StatusBadGateway")
    ∷ (503, codes "http.StatusServiceUnavailable")
    ∷ []

-- The `switch` over the code; its `default` is the number itself.
unfoldable pub status_case : ℕ → List (ℕ × Text) → Text → Text
status_case n [] number = number
status_case n ((code, name) ∷ cases) number =
    let rest = status_case n cases number in if n == code then name else rest

-- `httpStatusConst`
unfoldable pub http_status_const : ℤ → Text
unfolding status_case decimal_int
http_status_const (pos n) = status_case n status_codes (decimal_int (pos n))
http_status_const (negsuc n) = decimal_int (negsuc n)

-- `zeroValueChecks`
unfoldable pub zero_value_checks : Text → Text × Text
unfolding text_eq member
zero_value_checks type =
    if member type (codes "int" ∷ codes "int32" ∷ codes "int64" ∷ codes "float64" ∷ [])
    then (codes "== 0", codes "> 0")
    else if text_eq type (codes "bool")
    then (codes "== false", codes "== true")
    else if text_eq type (codes "string")
    then (codes "== \"\"", codes "!= \"\"")
    else (codes "== nil", codes "!= nil")

abbrev with_package : Text → Text → Text
with_package [] name = name
with_package (c ∷ p) name = (c ∷ p) ++ (codes "." ++ name)

-- The model's name in messages.
unfoldable pub message_model : Sequence → Text
unfolding before_dot
message_model seq =
    if is_empty seq.model then [] else with_package seq.package_name (before_dot seq.model)

message_for : SeqType → Text → Text → Text
message_for get model target = model ++ codes " 조회 실패"
message_for post model target = model ++ codes " 생성 실패"
message_for put model target = model ++ codes " 수정 실패"
message_for delete model target = model ++ codes " 삭제 실패"
message_for empty model target = target ++ codes "가 존재하지 않습니다"
message_for exists model target = target ++ codes "가 이미 존재합니다"
message_for state model target = codes "상태 전이가 허용되지 않습니다"
message_for auth model target = codes "권한이 없습니다"
message_for call model target = codes "호출 실패"
message_for _ model target = codes "처리 실패"

-- `defaultMessage`
unfoldable pub default_message : Sequence → Text
unfolding message_model message_for
default_message seq = message_for seq.type (message_model seq) seq.target

-- `hasConversionErr`
abbrev may_fail : RequestParam → Bool
may_fail p = not (text_eq p.go_type (codes "string")) && not (text_eq p.go_type (codes "json_body"))

unfoldable pub has_conversion_err : List RequestParam → Bool
unfolding text_eq
has_conversion_err params = any may_fail params

-- An input that `collectUsedVars` passes over.
abbrev is_reserved_input : Text → Bool
is_reserved_input val =
    has_prefix (codes "request.") val
    || current_user_input val
    || has_prefix (codes "\"") val
    || text_eq val (codes "query")

use_inputs : List Text → List Text → List Text
unfolding has_prefix text_eq root_var member
use_inputs [] used = used
use_inputs (v ∷ vs) used =
    use_inputs vs (if is_reserved_input v then used else add (root_var v) used)

use_fields : List Text → List Text → List Text
unfolding has_prefix root_var member
use_fields [] used = used
use_fields (v ∷ vs) used =
    use_fields vs (if has_prefix (codes "\"") v then used else add (root_var v) used)

use_target : Text → List Text → List Text
unfolding root_var member
use_target target used = if is_empty target then used else add (root_var target) used

-- `collectUsedVars`
unfoldable pub collect_used_vars : List Sequence → List Text → List Text
unfolding use_target use_inputs use_fields
collect_used_vars [] used = used
collect_used_vars (seq ∷ seqs) used =
    collect_used_vars seqs
      (use_fields (values seq.fields) (use_inputs (values seq.inputs) (use_target seq.target used)))

abbrev has_query : Sequence → Bool
has_query seq = has_query_input seq.inputs

-- `needsQueryOpts`
unfoldable pub needs_query_opts : List Sequence → Bool
unfolding has_query_input
needs_query_opts seqs = any has_query seqs

abbrev params_of : Option OperationSymbol → List PathParam
params_of none = []
params_of (some op) = op.path_params

-- `getPathParams`
unfoldable pub get_path_params : Text → Option SymbolTable → List PathParam
unfolding lookup
get_path_params name none = []
get_path_params name (some st) = params_of (lookup name st.operations)

-- The first model of the package that has the method decides, whatever its status.
call_status_in : Text → Text → Dict ModelSymbol → ℤ
unfolding lookup has_prefix
call_status_in pkg func [] = pos 0
call_status_in pkg func ((key, ms) ∷ models) =
    let rest = call_status_in pkg func models in
    if has_prefix (pkg ++ codes ".") key
    then (elim (lookup func ms.methods) [ none ↦ rest | some mi ↦ mi.err_status ])
    else rest

-- `lookupCallErrStatus`
unfoldable pub lookup_call_err_status : Option SymbolTable → Text → ℤ
unfolding call_status_in model_parts
lookup_call_err_status none model = pos 0
lookup_call_err_status (some st) model = elim (model_parts model) [
  | none ↦ pos 0
  | some (pkg, func) ↦ call_status_in pkg func st.models
]

module _ (t : Tools) where
  quoted_list : List Text → Text
  unfolding join quote
  quoted_list xs = join (codes ", ") (map (quote t) xs)

  pagination_code : Option XPagination → Text
  unfolding concat quote decimal_int
  pagination_code none = []
  pagination_code (some p) = concat (
      codes "\t\tPagination: &model.PaginationConfig{Style: "
      ∷ quote t p.style
      ∷ codes ", DefaultLimit: "
      ∷ decimal_int p.default_limit
      ∷ codes ", MaxLimit: "
      ∷ decimal_int p.max_limit
      ∷ codes "},\n"
      ∷ [])

  option_code : Text → Text → Text
  unfolding quote
  option_code label [] = []
  option_code label (c ∷ s) = label ++ quote t (c ∷ s)

  allowed_code : List Text → Text
  unfolding quoted_list
  allowed_code [] = []
  allowed_code (x ∷ xs) = codes "Allowed: []string{" ++ (quoted_list (x ∷ xs) ++ codes "}")

  sort_code : Option XSort → Text
  unfolding concat option_code allowed_code
  sort_code none = []
  sort_code (some s) = concat (
      codes "\t\tSort: &model.SortConfig{"
      ∷ allowed_code s.allowed
      ∷ option_code (codes ", Default: ") s.default
      ∷ option_code (codes ", Direction: ") s.direction
      ∷ codes "},\n"
      ∷ [])

  filter_code : Option XFilter → Text
  unfolding quoted_list
  filter_code none = []
  filter_code (some f) =
      if is_empty f.allowed
      then []
      else codes "\t\tFilter: &model.FilterConfig{Allowed: []string{"
        ++ (quoted_list f.allowed ++ codes "}},\n")

  operation_opts : Option OperationSymbol → Text
  unfolding concat pagination_code sort_code filter_code
  operation_opts none = codes "\topts := model.ParseQueryOpts(c, model.QueryOptsConfig{})\n"
  operation_opts (some op) = concat (
      codes "\topts := model.ParseQueryOpts(c, model.QueryOptsConfig{\n"
      ∷ pagination_code op.x_pagination
      ∷ sort_code op.x_sort
      ∷ filter_code op.x_filter
      ∷ codes "\t})\n"
      ∷ [])

  -- `generateQueryOptsCode`
  unfoldable pub generate_query_opts_code : Text → Option SymbolTable → Text
  unfolding operation_opts lookup
  generate_query_opts_code name none = operation_opts none
  generate_query_opts_code name (some st) = operation_opts (lookup name st.operations)
