-- ===== src/Validator/Errors.antt =====
-- validator/errors.go, and `errCtx` of validator/validator.go. A message is the constructor of its
-- format, with the values that the format shows.
use ssac.Base.{ℕ, Bool, true, false, List, [], ◌∷◌, ◌++◌}
use ssac.Text.{Text, codes}
use ssac.Parser.Types.{SeqType, type_name}

-- What a sequence lacks.
pub data Element : Type 0 where
  model_el result_el inputs_el target_el message_el diagram_id_el transition_el : Element
  action_el resource_el topic_el payload_el : Element

pub data Message : Type 0 where
  missing : Element → Message
  result_not_nil no_delete_inputs : Message
  primitive_result unknown_type model_format : Text → Message
  undeclared config_input : Text → Message
  query_in_publish : Message
  stale_response : Text → Text → Text → Message
  fk_guard reserved_source : Text → Message
  subscribe_without_param : Message
  param_name unknown_message_type : Text → Message
  response_in_subscribe request_in_subscribe query_in_subscribe : Message
  message_without_field : Text → Text → Message
  message_in_http : Message
  -- of the checks against the symbol table
  no_interface : Text → Text → Message
  no_package_method : Text → Text → Text → List Text → Message
  extra_parameter missing_parameter : Text → Text → Text → Text → Text → List Text → Message
  unknown_model : Text → Message
  unknown_method : Text → Text → Message
  no_request_field unused_request_field : Text → Message
  query_without_options options_without_query not_a_page not_a_cursor : Message
  wrapper_without_pagination : Text → Message
  input_type_mismatch : Text → Text → Text → Text → Message
  reserved_column : Text → Text → Message
  reserved_parameter : Text → Message

-- `Level`: the empty string, which counts as ERROR, or WARNING.
pub data Level : Type 0 where
  error warning : Level

-- `SeqIndex`: -1 for the function as a whole.
pub data SeqIndex : Type 0 where
  whole : SeqIndex
  at : ℕ → SeqIndex

pub record ValidationError : Type 0 where
  pub file_name : Text
  pub func_name : Text
  pub seq_index : SeqIndex
  pub tag : Text
  pub message : Message
  pub level : Level

pub record ErrCtx : Type 0 where
  pub file_name : Text
  pub func_name : Text
  pub seq_index : SeqIndex

-- `c.err(tag, msg)`
abbrev pub err : ErrCtx → Text → Message → ValidationError
err c tag msg = record {
  file_name = c.file_name;
  func_name = c.func_name;
  seq_index = c.seq_index;
  tag = tag;
  message = msg;
  level = error;
}

abbrev pub warn : ErrCtx → Text → Message → ValidationError
warn c tag msg = record (err c tag msg) { level = warning }

abbrev pub is_warning_level : Level → Bool
is_warning_level warning = true
is_warning_level error = false

-- `IsWarning`
unfoldable pub is_warning : ValidationError → Bool
is_warning e = is_warning_level e.level

-- `"@" + seq.Type`
abbrev pub at_type : SeqType → Text
at_type t = codes "@" ++ type_name t

-- `if b { errs = append(errs, e) }`
abbrev pub when : Bool → ValidationError → List ValidationError
when true e = e ∷ []
when false e = []
