-- ===== src/Validator/Requests.antt =====
-- validator/validator.go, `validateRequest`, `validateQueryUsage` and `validatePaginationType`: a
-- function against the OpenAPI operation of its name.
pub mod Fields
pub mod Agrees
pub mod Query
use ssac.Base.{
  ℕ, Bool, true, false, not, ◌&&◌, ◌||◌, List, [], ◌∷◌, ◌++◌, Option, none, some, map, any,
  flat_map, if◌then◌else◌, is_empty, drop,
}
use ssac.Text.{Text, codes, text_eq, has_prefix}
use ssac.Dict.{lookup, member, values}
use ssac.Parser.Types.{SeqType, Arg, Binding, Sequence, ServiceFunc}
use ssac.Validator.Errors.{
  no_request_field, unused_request_field, query_without_options, options_without_query, not_a_page,
  not_a_cursor, wrapper_without_pagination, ValidationError, ErrCtx, whole, err, warn, at_type,
  when,
}
use ssac.Validator.Rules.{each_from}
use ssac.Validator.Symbols.{PathParam, XPagination, OperationSymbol, SymbolTable, has_query_opts}

-- The request fields that an argument or an input names.
unfoldable pub arg_field : Arg → List Text
unfolding text_eq
arg_field a = if text_eq a.source (codes "request") then a.field ∷ [] else []

unfoldable pub input_field : Text → List Text
unfolding has_prefix
input_field val = if has_prefix (codes "request.") val then drop 8 val ∷ [] else []

-- `usedRequestFields`, as far as one sequence fills it
unfoldable pub fields_in : Sequence → List Text
unfolding arg_field input_field
fields_in seq = flat_map arg_field seq.args ++ flat_map input_field (values seq.inputs)

unfoldable pub unknown_field : List Text → ErrCtx → SeqType → Text → List ValidationError
unfolding member
unknown_field known c t field =
    when (not (member field known)) (err c (at_type t) (no_request_field field))

unfoldable pub request_check : List Text → ErrCtx → Sequence → List ValidationError
unfolding fields_in unknown_field
request_check known c seq = flat_map (unknown_field known c seq.type) (fields_in seq)

unfoldable pub used_fields : List Sequence → List Text
unfolding fields_in
used_fields [] = []
used_fields (seq ∷ seqs) = fields_in seq ++ used_fields seqs

abbrev pub path_name : PathParam → Text
path_name p = p.name

abbrev pub func_ctx : ServiceFunc → ErrCtx
func_ctx sf = record { file_name = sf.file_name; func_name = sf.name; seq_index = whole }

-- A request field that is no path parameter and that no sequence uses.
unfoldable pub unused_field : List Text → List Text → ErrCtx → Text → List ValidationError
unfolding member
unused_field paths used c field =
    when (not (member field paths) && not (member field used))
      (warn c (codes "@request") (unused_request_field field))

unfoldable pub operation_errors : ServiceFunc → OperationSymbol → List ValidationError
unfolding request_check each_from used_fields unused_field
operation_errors sf op =
    each_from (request_check op.request_fields) sf 0 sf.sequences
    ++ flat_map
        (unused_field (map path_name op.path_params) (used_fields sf.sequences) (func_ctx sf))
        op.request_fields

unfoldable pub validate_request : ServiceFunc → SymbolTable → List ValidationError
unfolding operation_errors lookup
validate_request sf st = elim (lookup sf.name st.operations) [
  | none ↦ []
  | some op ↦ operation_errors sf op
]

abbrev pub op_has_query : Option OperationSymbol → Bool
op_has_query none = false
op_has_query (some op) = has_query_opts op

unfoldable pub is_query_input : Text → Bool
unfolding text_eq
is_query_input val = text_eq val (codes "query")

-- `specHasQuery`
unfoldable pub spec_has_query : List Sequence → Bool
unfolding is_query_input
spec_has_query [] = false
spec_has_query (seq ∷ seqs) = any is_query_input (values seq.inputs) || spec_has_query seqs

-- `none` is the nil symbol table.
unfoldable pub validate_query_usage : ServiceFunc → Option SymbolTable → List ValidationError
unfolding spec_has_query has_query_opts lookup
validate_query_usage sf none = []
validate_query_usage sf (some st) =
    let has = op_has_query (lookup sf.name st.operations) in
    let uses = spec_has_query sf.sequences in
    when (uses && not has) (err (func_ctx sf) (codes "@query") query_without_options)
    ++ when (has && not uses) (warn (func_ctx sf) (codes "@query") options_without_query)

-- The `switch` over the pagination's style.
unfoldable pub wrapper_errors : ErrCtx → Option XPagination → Text → List ValidationError
unfolding text_eq
wrapper_errors c none wrapper =
    when (not (is_empty wrapper)) (err c (codes "@get") (wrapper_without_pagination wrapper))
wrapper_errors c (some p) wrapper =
    if text_eq p.style (codes "offset")
    then when (not (text_eq wrapper (codes "Page"))) (err c (codes "@get") not_a_page)
    else if text_eq p.style (codes "cursor")
    then when (not (text_eq wrapper (codes "Cursor"))) (err c (codes "@get") not_a_cursor)
    else []

-- A result that is one value is passed over.
unfoldable pub result_page_errors :
    Option XPagination → ErrCtx → Option Binding → List ValidationError
unfolding wrapper_errors has_prefix
result_page_errors p c none = []
result_page_errors p c (some r) =
    if is_empty r.wrapper && not (has_prefix (codes "[]") r.type_of)
    then []
    else wrapper_errors c p r.wrapper

abbrev pub page_check : Option XPagination → ErrCtx → Sequence → List ValidationError
page_check p c seq = result_page_errors p c seq.result

unfoldable pub validate_pagination_type : ServiceFunc → Option SymbolTable → List ValidationError
unfolding result_page_errors each_from lookup
validate_pagination_type sf none = []
validate_pagination_type sf (some st) = elim (lookup sf.name st.operations) [
  | none ↦ []
  | some op ↦ each_from (page_check op.x_pagination) sf 0 sf.sequences
]
