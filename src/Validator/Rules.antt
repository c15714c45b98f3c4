-- ===== src/Validator/Rules.antt =====
-- validator/validator.go, `validateReservedSourceConflict` and `validateSubscribeRules`.
pub mod Loops
pub mod Subscribes
use ssac.Base.{
  ℕ, ◌+◌, Bool, true, false, not, ◌&&◌, ◌||◌, List, [], ◌∷◌, ◌++◌, Option, none, some, any, drop,
  is_empty, flat_map, if◌then◌else◌,
}
use ssac.Text.{Text, codes, text_eq, has_prefix}
use ssac.Dict.{values, member}
use ssac.Parser.Types.{
  SeqType, response, Binding, Sequence, SubscribeInfo, ParamInfo, StructField, StructInfo,
  ServiceFunc,
}
use ssac.Validator.Errors.{
  reserved_source, subscribe_without_param, param_name, unknown_message_type, response_in_subscribe,
  request_in_subscribe, query_in_subscribe, message_without_field, message_in_http, Message,
  ValidationError, ErrCtx, whole, at, err, at_type, when,
}
use ssac.Validator.Flow.{is_query}

-- `reservedSources`
abbrev pub reserved_sources : List Text
reserved_sources =
    codes "request" ∷ codes "currentUser" ∷ codes "config" ∷ codes "query" ∷ codes "message" ∷ []

abbrev pub ctx_at : ServiceFunc → ℕ → ErrCtx
ctx_at sf i = record { file_name = sf.file_name; func_name = sf.name; seq_index = at i }

unfoldable pub reserved_errors : ErrCtx → SeqType → Option Binding → List ValidationError
reserved_errors c t none = []
reserved_errors c t (some r) =
    when (member r.name reserved_sources) (err c (at_type t) (reserved_source r.name))

unfoldable pub reserved_from : ServiceFunc → ℕ → List Sequence → List ValidationError
reserved_from sf i [] = []
reserved_from sf i (seq ∷ seqs) =
    reserved_errors (ctx_at sf i) seq.type seq.result ++ reserved_from sf (i + 1) seqs

unfoldable pub validate_reserved_source_conflict : ServiceFunc → List ValidationError
unfolding reserved_errors reserved_from member
validate_reserved_source_conflict sf = reserved_from sf 0 sf.sequences

-- A loop over the sequences: the errors of each, in order.
unfoldable pub each_from :
    (ErrCtx → Sequence → List ValidationError)
    → ServiceFunc
    → ℕ
    → List Sequence
    → List ValidationError
each_from check sf i [] = []
each_from check sf i (seq ∷ seqs) = check (ctx_at sf i) seq ++ each_from check sf (i + 1) seqs

has_field : Text → List StructField → Bool
has_field field [] = false
has_field field (f ∷ fs) = text_eq f.name field || has_field field fs

-- `hasStructField`: the first struct of that name decides.
unfoldable pub has_struct_field : List StructInfo → Text → Text → Bool
unfolding has_field
has_struct_field [] type field = false
has_struct_field (si ∷ structs) type field =
    if text_eq si.name type then has_field field si.fields else has_struct_field structs type field

abbrev pub is_response : SeqType → Bool
is_response response = true
is_response _ = false

-- A function with @subscribe and no parameter, or with one of another name.
unfoldable pub param_errors : ErrCtx → Option ParamInfo → List ValidationError
param_errors c none = err c (codes "@subscribe") subscribe_without_param ∷ []
param_errors c (some p) =
    when (not (text_eq p.var_name (codes "message")))
      (err c (codes "@subscribe") (param_name p.var_name))

abbrev pub is_struct : Text → StructInfo → Bool
is_struct type si = text_eq si.name type

unfoldable pub type_errors : ErrCtx → Text → List StructInfo → List ValidationError
type_errors c type structs =
    when (not (is_empty type) && not (any (is_struct type) structs))
      (err c (codes "@subscribe") (unknown_message_type type))

abbrev pub response_check : ErrCtx → Sequence → List ValidationError
response_check c seq =
    when (is_response seq.type) (err c (codes "@subscribe") response_in_subscribe)

-- The loop over the inputs ends at the first hit.
abbrev pub input_check : (Text → Bool) → Text → Message → ErrCtx → Sequence → List ValidationError
input_check p tag msg c seq = when (any p (values seq.inputs)) (err c tag msg)

abbrev pub is_request : Text → Bool
is_request val = has_prefix (codes "request.") val

abbrev pub is_message : Text → Bool
is_message val = has_prefix (codes "message.") val

-- `message.Field`, for a field that the struct does not have.
unfoldable pub message_field_errors :
    ErrCtx → SeqType → List StructInfo → Text → Text → List ValidationError
message_field_errors c t structs type val =
    when (is_message val && not (has_struct_field structs type (drop 8 val)))
      (err c (at_type t) (message_without_field type (drop 8 val)))

abbrev pub message_check : List StructInfo → Text → ErrCtx → Sequence → List ValidationError
message_check structs type c seq =
    flat_map (message_field_errors c seq.type structs type) (values seq.inputs)

unfoldable pub fields_check : ServiceFunc → Text → List ValidationError
fields_check sf [] = []
fields_check sf (c ∷ type) = each_from (message_check sf.structs (c ∷ type)) sf 0 sf.sequences

unfoldable pub subscribe_rules : ServiceFunc → Option SubscribeInfo → List ValidationError
unfolding param_errors type_errors each_from has_struct_field message_field_errors fields_check
subscribe_rules sf none =
    each_from (input_check is_message (codes "@sequence") message_in_http) sf 0 sf.sequences
subscribe_rules sf (some sub) =
    let c : ErrCtx = record { file_name = sf.file_name; func_name = sf.name; seq_index = whole } in
    param_errors c sf.param
    ++ (type_errors c sub.message_type sf.structs
        ++ (each_from response_check sf 0 sf.sequences
            ++ (each_from (input_check is_request (codes "@subscribe") request_in_subscribe) sf 0
                  sf.sequences
                ++ (each_from (input_check is_query (codes "@subscribe") query_in_subscribe) sf 0
                      sf.sequences
                    ++ fields_check sf sub.message_type))))

unfoldable pub validate_subscribe_rules : ServiceFunc → List ValidationError
unfolding subscribe_rules
validate_subscribe_rules sf = subscribe_rules sf sf.subscribe
