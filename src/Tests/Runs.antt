-- ===== src/Tests/Runs.antt =====
-- A test that names `text_functions` or `scanners` runs all that these call.
use ssac.Base.{take, drop}
use ssac.Text.{
  text_eq, is_space, has_prefix, trim_prefix, ends_with, drop_last, trim_suffix, trim_left,
  trim_right, trim_space, trim_char, index, last_index, split, words_from, fields, digits_value,
  unsigned, atoi,
}
use ssac.Dict.{lookup, put, member}
use ssac.Parser.Scan.{
  response_field, parse_response_fields, input_pair, inputs_onto, parse_inputs, extract_inputs,
  unquote, extract_quoted, parse_two_quoted, split_target_message, split_package_prefix, binding_of,
  parse_result, parse_call_expr_inputs, status_of,
}
use ssac.Parser.Line.{
  crud_call, parse_crud, parse_guard, parse_state, parse_auth, parse_call, parse_publish,
  strip_mark, dispatch, parse_directive, response_line, parse_line,
}
use ssac.Parser.Comments.{
  comment_line, in_block, out_of_block, comment_step, comments_from, parse_comments,
}
use ssac.Parser.File.{
  expr_to_string, struct_fields, collect_structs, collect_imports, comments_before, last_param,
  subscribe_of, without_subscribe, service_func, funcs_of, parse_file,
}
use ssac.Generator.Args.{
  value_of, has_query_input, keep, ordered_keys, query_key, plain_keys, alphabetical_keys,
  argument_keys, lookup_param_order, arg_to_code, build_args_code, input_value_to_code,
  build_input_fields, build_args_code_from_inputs, build_publish_payload, publish_option,
  build_publish_options,
}
use ssac.Generator.Data.{
  status_or, call_status, guard_status, without_user, crud_parts, parts_of_model, args_of,
  fields_of, options_of, template_data, build_template_data, result_types,
}
use ssac.Generator.Go.{
  join, concat, contains, digits_onto, decimal, decimal_int, hex, escape, quote_char, quote_chars,
  quote,
}
use ssac.Generator.Handler.{
  print_piece, print_part, http_parts, subscribe_parts, http_body, subscribe_body, file_code,
  generate_http_func, generate_subscribe_func, generate_triggered, generate_func,
}
use ssac.Generator.Helpers.{
  status_case, http_status_const, zero_value_checks, message_model, default_message,
  has_conversion_err, collect_used_vars, needs_query_opts, get_path_params, lookup_call_err_status,
  generate_query_opts_code,
}
use ssac.Generator.Imports.{
  has_write_sequence, needs_current_user, kind_imports, fixed_first, candidate_imports,
  collect_imports_http, collect_subscribe_imports, package_of_import, filter_used_imports,
}
use ssac.Generator.Interfaces.{
  interface_keys, id_or_any, source_param_type, resolve_input_param_type, return_of,
  derive_return_type, derived_params, usage_method, derived_methods, model_interface, interfaces_of,
  derive_interfaces,
}
use ssac.Generator.Loop.{
  drop_unused, response_total, final_data, pieces, http_pieces, subscribe_pieces,
}
use ssac.Generator.Loop.Scope.{
  any_new, all_known, no_repeats, admits_head, admits, declared_behind, admits_all, names_result,
  is_if_scoped, declares_err, gives_total, result_fits, fits,
}
use ssac.Generator.Params.{
  lookup_ddl_type, new_fields, raw_params, in_body, generate_extract_code, generate_path_param_code,
  build_json_body_params, collect_request_params,
}
use ssac.Generator.Target.{
  needs_time_import, needs_pagination_import, render_params, render_method, render_interface,
  render_interfaces, table_has_query_opts, add_models, domain_set, collect_domain_models, trim_ssac,
  handler_struct, domain_files, generate_handler_struct, generate_model_interfaces, generate_with,
}
use ssac.Generator.Statements.{print_head, print_stmt, result_stmt, call_stmt, stmt_of}
use ssac.Generator.Templates.{on_err, rest_of, execute_template}
use ssac.Generator.Tracking.{first_err_of, err_behind, track}
use ssac.Generator.Usages.{
  sequence_usage, function_usages, collect_model_usages, model_names, first_usage,
}
use ssac.Text.Sort.{text_less, insert_text, sort_texts}
use ssac.Validator.Flow.{root_var}
use ssac.Validator.Models.{model_parts}
use ssac.Validator.Requests.{arg_field, input_field, fields_in, is_query_input}
use ssac.Validator.Snake.{
  snake_char, snake_from, to_snake_case, to_lower_first, before_dot, table_name, column_type,
  any_column, find_column_table,
}
use ssac.Validator.Symbols.{has_method, has_query_opts}
use ssac.Validator.Required.{validate_required_fields}
use ssac.Validator.Flow.{validate_variable_flow}
use ssac.Validator.Stale.{validate_stale_response}
use ssac.Validator.Rules.{validate_reserved_source_conflict, validate_subscribe_rules}
use ssac.Validator.Guard.{validate_fk_reference_guard}
use ssac.Auth.Store.{
  revoke_row, create_row, consume_row, consume_found, revoke_found, create, consume, revoke,
  match_claims, revoke_matching, revoke_rows, revoke_all,
}
use ssac.Auth.Tokens.{sign_token, issue_token, refresh_token, verify_token}
use ssac.Auth.Rotate.{lockout, after_consume, after_verify, rotate_in}

unfoldable pub text_functions : Unit {0}
unfolding take drop text_eq is_space has_prefix trim_prefix ends_with drop_last trim_suffix
    trim_left trim_right trim_space trim_char index last_index split words_from fields digits_value
    unsigned atoi lookup put member
text_functions = tt

unfoldable pub scanners : Unit {0}
unfolding text_functions response_field parse_response_fields input_pair inputs_onto parse_inputs
    extract_inputs unquote extract_quoted parse_two_quoted split_target_message split_package_prefix
    binding_of parse_result parse_call_expr_inputs status_of crud_call parse_crud parse_guard
    parse_state parse_auth parse_call parse_publish strip_mark dispatch parse_directive
    response_line parse_line
scanners = tt

unfoldable pub whole_files : Unit {0}
unfolding scanners comment_line in_block out_of_block comment_step comments_from parse_comments
    expr_to_string struct_fields collect_structs collect_imports comments_before last_param
    subscribe_of without_subscribe service_func funcs_of parse_file
whole_files = tt

-- The generator, and the rules on declared names.
unfoldable pub generators : Unit {0}
unfolding text_functions value_of has_query_input keep ordered_keys query_key plain_keys
    alphabetical_keys argument_keys lookup_param_order arg_to_code build_args_code
    input_value_to_code build_input_fields build_args_code_from_inputs build_publish_payload
    publish_option build_publish_options status_or call_status guard_status without_user crud_parts
    parts_of_model args_of fields_of options_of template_data build_template_data result_types join
    concat contains digits_onto decimal decimal_int hex escape quote_char quote_chars quote
    print_piece print_part http_parts subscribe_parts http_body subscribe_body file_code
    generate_http_func generate_subscribe_func generate_triggered generate_func status_case
    http_status_const zero_value_checks message_model default_message has_conversion_err
    collect_used_vars needs_query_opts get_path_params lookup_call_err_status
    generate_query_opts_code has_write_sequence needs_current_user kind_imports fixed_first
    candidate_imports collect_imports_http collect_subscribe_imports package_of_import
    filter_used_imports interface_keys id_or_any source_param_type resolve_input_param_type
    return_of derive_return_type derived_params usage_method derived_methods model_interface
    interfaces_of derive_interfaces drop_unused response_total final_data pieces http_pieces
    subscribe_pieces any_new all_known no_repeats admits_head admits declared_behind admits_all
    names_result is_if_scoped declares_err gives_total result_fits fits lookup_ddl_type new_fields
    raw_params in_body generate_extract_code generate_path_param_code build_json_body_params
    collect_request_params needs_time_import needs_pagination_import render_params render_method
    render_interface render_interfaces table_has_query_opts add_models domain_set
    collect_domain_models trim_ssac handler_struct domain_files generate_handler_struct
    generate_model_interfaces generate_with print_head print_stmt result_stmt call_stmt stmt_of
    on_err rest_of execute_template first_err_of err_behind track sequence_usage function_usages
    collect_model_usages model_names first_usage text_less insert_text sort_texts root_var
    model_parts arg_field input_field fields_in is_query_input snake_char snake_from to_snake_case
    to_lower_first before_dot table_name column_type any_column find_column_table has_method
    has_query_opts
generators = tt

unfoldable pub validators : Unit {0}
unfolding text_functions validate_required_fields validate_variable_flow validate_stale_response
    validate_reserved_source_conflict validate_subscribe_rules validate_fk_reference_guard
validators = tt

unfoldable pub refreshing : Unit {0}
unfolding text_functions revoke_row create_row consume_row consume_found revoke_found create consume
    revoke match_claims revoke_matching revoke_rows revoke_all sign_token issue_token refresh_token
    verify_token lockout after_consume after_verify rotate_in
refreshing = tt
