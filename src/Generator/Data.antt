-- ===== src/Generator/Data.antt =====
-- generator/go_helpers.go, `buildTemplateData`: what one sequence's template is given, and which
-- variables are declared behind it.
use ssac.Base.{
  ℕ, ◌==◌, Bool, true, false, ◌&&◌, ◌||◌, List, [], ◌∷◌, ◌++◌, Option, none, some, is_empty,
  if◌then◌else◌, ok, panic, Outcome, ◌>>=◌,
}
use ssac.Text.{Text, codes, text_eq, has_prefix}
use ssac.Dict.{Dict, member, put as write}
use ssac.Parser.Types.{
  SeqType, get, post, put, delete, empty, exists, state, auth, call, publish, Binding, Sequence,
}
use ssac.Validator.Symbols.{ℤ, pos, negsuc, SymbolTable}
use ssac.Validator.Flow.{root_var}
use ssac.Validator.Models.{model_parts, is_call}
use ssac.Validator.Snake.{before_dot}
use ssac.Generator.Go.{Tools}
use ssac.Generator.Args.{
  value_of, has_query_input, lookup_param_order, build_args_code, build_args_code_from_inputs,
  build_input_fields, build_publish_payload, build_publish_options,
}
use ssac.Generator.Helpers.{
  http_status_const, zero_value_checks, default_message, lookup_call_err_status,
}
use ssac.Generator.Tracking.{Tracking, reassigns, first_err_of}

-- `templateData`
pub record TemplateData : Type 0 where
  pub message : Text
  pub first_err : Bool
  pub model_call : Text
  pub args_code : Text
  pub result : Option Binding
  pub target : Text
  pub zero_check : Text
  pub exists_check : Text
  pub diagram_id : Text
  pub transition : Text
  pub input_fields : Text
  pub action : Text
  pub resource : Text
  pub pkg_name : Text
  pub func_method : Text
  pub err_status : Text
  pub topic : Text
  pub option_code : Text
  pub response_fields : Dict Text
  pub has_total : Bool
  pub re_assign : Bool
  pub unused : Bool
  pub err_declared : Bool

-- What the sequence's model gives.
pub record ModelParts : Type 0 where
  pub pkg_name : Text
  pub func_method : Text
  pub err_status : Text
  pub model_call : Text

abbrev no_model : ModelParts
no_model = record { pkg_name = []; func_method = []; err_status = []; model_call = [] }

-- The sequence's own status, or a default.
unfoldable pub status_or : ℕ → Text → Text
unfolding http_status_const
status_or n default = if n == 0 then default else http_status_const (pos n)

abbrev is_zero : ℤ → Bool
is_zero (pos n) = n == 0
is_zero (negsuc n) = false

unfoldable pub call_status : Option SymbolTable → Sequence → Text
unfolding status_or lookup_call_err_status http_status_const
call_status st seq =
    let known = lookup_call_err_status st seq.model in
    status_or seq.err_status
      (if is_zero known then codes "http.StatusInternalServerError" else http_status_const known)

-- The guard kinds' status; the others keep what the model gave.
unfoldable pub guard_status : SeqType → ℕ → Text → Text
unfolding status_or
guard_status empty n before = status_or n (codes "http.StatusNotFound")
guard_status exists n before = status_or n (codes "http.StatusConflict")
guard_status state n before = status_or n (codes "http.StatusConflict")
guard_status auth n before = status_or n (codes "http.StatusForbidden")
guard_status _ n before = before

abbrev is_guard : SeqType → Bool
is_guard empty = true
is_guard exists = true
is_guard _ = false

abbrev pub is_list : Option Binding → Bool
is_list none = false
is_list (some r) = has_prefix (codes "[]") r.type_of && is_empty r.wrapper

-- `UserID` and `Role` are written by the template.
unfoldable pub without_user : Dict Text → Dict Text
unfolding text_eq
without_user [] = []
without_user ((k, v) ∷ d) =
    let rest = without_user d in
    if text_eq k (codes "UserID") || text_eq k (codes "Role") then rest else (k, v) ∷ rest

abbrev param_order : Text → Option SymbolTable → List Text
param_order model none = []
param_order model (some st) = lookup_param_order model st

module _ (t : Tools) where
  -- The method of a call, if its model has a dot.
  abbrev call_method : Option (Text × Text) → Text
  call_method none = []
  call_method (some (pkg, func)) = t.to_go_pascal func

  -- `parts[1]` is out of range for a model without a dot.
  unfoldable pub crud_parts : {E : Type 0} → Bool → Option (Text × Text) → Outcome E ModelParts
  crud_parts use_tx none = panic
  crud_parts use_tx (some (model, method)) =
      let handle = codes "h." ++ (t.to_go_pascal model ++ codes "Model") in
      let bound = if use_tx then handle ++ codes ".WithTx(tx)" else handle in
      ok (record no_model { model_call = bound ++ (codes "." ++ method) })

  unfoldable pub parts_of_model :
      Option SymbolTable → Bool → Sequence → {E : Type 0} → Outcome E ModelParts
  unfolding crud_parts call_status model_parts before_dot
  parts_of_model st use_tx seq =
      if is_empty seq.model
      then ok no_model
      else if is_call seq.type
      then ok (record {
        pkg_name = before_dot seq.model;
        func_method = call_method (model_parts seq.model);
        err_status = call_status st seq;
        model_call = [];
      })
      else crud_parts use_tx (model_parts seq.model)

  -- The arguments of the four kinds that call a model, and of the others.
  unfoldable pub args_of : SeqType → Option SymbolTable → Sequence → Text
  unfolding build_args_code build_args_code_from_inputs lookup_param_order
  args_of get st seq = build_args_code_from_inputs t seq.inputs (param_order seq.model st)
  args_of post st seq = build_args_code_from_inputs t seq.inputs (param_order seq.model st)
  args_of put st seq = build_args_code_from_inputs t seq.inputs (param_order seq.model st)
  args_of delete st seq = build_args_code_from_inputs t seq.inputs (param_order seq.model st)
  args_of _ st seq = build_args_code t seq.args

  -- `InputFields`
  unfoldable pub fields_of : SeqType → Dict Text → Text
  unfolding build_input_fields build_publish_payload without_user
  fields_of state inputs = build_input_fields t inputs
  fields_of call inputs = build_input_fields t inputs
  fields_of auth inputs = build_input_fields t (without_user inputs)
  fields_of publish inputs = build_publish_payload t inputs
  fields_of _ inputs = []

  unfoldable pub options_of : SeqType → Dict Text → Text
  unfolding build_publish_options
  options_of publish options = build_publish_options t options
  options_of _ options = []

  abbrev topic_of : SeqType → Text → Text
  topic_of publish topic = topic
  topic_of _ topic = []

  -- `buildTemplateData`, from the parts of the model on
  unfoldable pub template_data :
      Sequence → Tracking → Dict Text → Option SymbolTable → ModelParts → TemplateData
  unfolding default_message args_of fields_of options_of guard_status first_err_of zero_value_checks
      root_var value_of has_query_input member has_prefix
  template_data seq tr types st parts = record {
    message = if is_empty seq.message then default_message seq else seq.message;
    first_err = first_err_of seq.type seq.result tr.err_declared;
    model_call = parts.model_call;
    args_code = args_of seq.type st seq;
    result = seq.result;
    target = seq.target;
    zero_check =
        if is_guard seq.type
        then (zero_value_checks (value_of (root_var seq.target) types)).0
        else [];
    exists_check =
        if is_guard seq.type
        then (zero_value_checks (value_of (root_var seq.target) types)).1
        else [];
    diagram_id = seq.diagram_id;
    transition = seq.transition;
    input_fields = fields_of seq.type seq.inputs;
    action = seq.action;
    resource = seq.resource;
    pkg_name = parts.pkg_name;
    func_method = parts.func_method;
    err_status = guard_status seq.type seq.err_status parts.err_status;
    topic = topic_of seq.type seq.topic;
    option_code = options_of seq.type seq.options;
    response_fields = seq.fields;
    has_total = has_query_input seq.inputs && is_list seq.result;
    re_assign = reassigns seq.result tr.declared;
    unused = false;
    err_declared = tr.err_declared;
  }

  -- `buildTemplateData`; the tracking behind it is `track`
  unfoldable pub build_template_data :
      Sequence
      → Tracking
      → Dict Text
      → Option SymbolTable
      → Bool
      → {E : Type 0} → Outcome E TemplateData
  unfolding parts_of_model template_data
  build_template_data seq tr types st use_tx = do
    parts ← parts_of_model st use_tx seq
    ok (template_data seq tr types st parts)

-- `resultTypes`: the type of each result; a later one of the same name wins.
unfoldable pub result_types : Dict Text → List Sequence → Dict Text
unfolding write
result_types types [] = types
result_types types (seq ∷ seqs) =
    result_types (elim seq.result [ none ↦ types | some r ↦ write r.name r.type_of types ]) seqs
