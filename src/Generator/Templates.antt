-- ===== src/Generator/Templates.antt =====
-- generator/go_templates.go: the text of each template, behind the statement that it begins with.
use ssac.Base.{[], ◌∷◌, ◌++◌, Option, none, some, map, is_empty, if◌then◌else◌}
use ssac.Text.{Text, codes}
use ssac.Text.Sort.{sort_texts}
use ssac.Dict.{Dict, keys}
use ssac.Parser.Types.{
  SeqType, get, post, put, delete, empty, exists, state, auth, call, publish, response, subscribe,
  other, Binding,
}
use ssac.Generator.Go.{concat}
use ssac.Generator.Args.{value_of}
use ssac.Generator.Data.{TemplateData}
use ssac.Generator.Statements.{Mode, http, queue, Stmt, print_stmt, stmt_of}

-- What a handler answers when something failed.
abbrev answer : Text → Text → Text
answer status message = concat (
    codes "\t\tc.JSON("
    ∷ status
    ∷ codes ", gin.H{\"error\": "
    ∷ message
    ∷ codes "})\n\t\treturn\n\t}\n"
    ∷ [])

abbrev quoted_message : TemplateData → Text
quoted_message d = codes "\"" ++ (d.message ++ codes "\"")

abbrev sub_answer : TemplateData → Text
sub_answer d =
    concat (codes "\t\treturn fmt.Errorf(\"" ∷ d.message ∷ codes ": %w\", err)\n\t}\n" ∷ [])

-- The end of an `if` on a call's error.
abbrev failure_end : Mode → TemplateData → Text
failure_end http d = answer d.err_status (quoted_message d)
failure_end queue d = sub_answer d

abbrev internal : Text
internal = codes "http.StatusInternalServerError"

-- `if err != nil` behind a call, with a status of its own or not.
unfoldable pub on_err : Mode → Text → TemplateData → Text
unfolding concat
on_err http status d = codes "\tif err != nil {\n" ++ answer status (quoted_message d)
on_err queue status d = codes "\tif err != nil {\n" ++ sub_answer d

crud_rest : Mode → TemplateData → Text
unfolding on_err concat
crud_rest m d =
    concat (d.model_call ∷ codes "(" ∷ d.args_code ∷ codes ")\n" ∷ on_err m internal d ∷ [])

request_of : TemplateData → Text
unfolding concat
request_of d = concat (
    d.pkg_name
    ∷ codes "."
    ∷ d.func_method
    ∷ codes "("
    ∷ d.pkg_name
    ∷ codes "."
    ∷ d.func_method
    ∷ codes "Request{ "
    ∷ d.input_fields
    ∷ codes " })"
    ∷ [])

call_rest : Mode → TemplateData → Option Binding → Text
unfolding on_err concat request_of
call_rest m d (some r) = request_of d ++ (codes "\n" ++ on_err m d.err_status d)
call_rest m d none = request_of d ++ (codes "; err != nil {\n" ++ failure_end m d)

guard_rest : Mode → TemplateData → Text → Text
unfolding concat
guard_rest http d check = concat (
    codes "if "
    ∷ d.target
    ∷ codes " "
    ∷ check
    ∷ codes " {\n"
    ∷ answer d.err_status (quoted_message d)
    ∷ [])
guard_rest queue d check = concat (
    codes "if "
    ∷ d.target
    ∷ codes " "
    ∷ check
    ∷ codes " {\n\t\treturn fmt.Errorf(\""
    ∷ d.message
    ∷ codes "\")\n\t}\n"
    ∷ [])

abbrev state_end : Mode → TemplateData → Text
state_end http d = answer d.err_status (codes "err.Error()")
state_end queue d = codes "\t\treturn err\n\t}\n"

state_rest : Mode → TemplateData → Text
unfolding concat
state_rest m d = concat (
    d.diagram_id
    ∷ codes "state.CanTransition("
    ∷ d.diagram_id
    ∷ codes "state.Input{ "
    ∷ d.input_fields
    ∷ codes " }, \""
    ∷ d.transition
    ∷ codes "\"); err != nil {\n"
    ∷ state_end m d
    ∷ [])

auth_rest : Mode → TemplateData → Text
unfolding concat
auth_rest m d = concat (
    codes "authz.Check(authz.CheckRequest{Action: \""
    ∷ d.action
    ∷ codes "\", Resource: \""
    ∷ d.resource
    ∷ codes "\", UserID: currentUser.ID, Role: currentUser.Role, "
    ∷ d.input_fields
    ∷ codes " }); err != nil {\n"
    ∷ failure_end m d
    ∷ [])

abbrev context_of : Mode → Text
context_of http = codes "c.Request.Context()"
context_of queue = codes "ctx"

publish_rest : Mode → TemplateData → Text
unfolding concat on_err
publish_rest m d = concat (
    codes "queue.Publish("
    ∷ context_of m
    ∷ codes ", \""
    ∷ d.topic
    ∷ codes "\", map[string]any{\n"
    ∷ d.input_fields
    ∷ codes "\n\t}"
    ∷ d.option_code
    ∷ codes ")\n"
    ∷ on_err m internal d
    ∷ [])

abbrev response_field_code : Dict Text → Text → Text
response_field_code fields k =
    concat (codes "\n\t\t\"" ∷ k ∷ codes "\": " ∷ value_of k fields ∷ codes "," ∷ [])

response_rest : TemplateData → Text
unfolding concat sort_texts value_of
response_rest d =
    if is_empty d.target
    then concat (
        codes "c.JSON(__RESPONSE_STATUS__, gin.H{"
        ∷ concat (map (response_field_code d.response_fields) (sort_texts (keys d.response_fields)))
        ∷ (if d.has_total then codes "\n\t\t\"total\": total," else [])
        ∷ codes "\n\t})\n"
        ∷ [])
    else codes "c.JSON(__RESPONSE_STATUS__, " ++ (d.target ++ codes ")\n")

-- What stands behind the first statement's `:=` or `=`.
unfoldable pub rest_of : Mode → SeqType → TemplateData → Text
unfolding crud_rest guard_rest state_rest auth_rest call_rest publish_rest response_rest
rest_of m get d = crud_rest m d
rest_of m post d = crud_rest m d
rest_of m put d = crud_rest m d
rest_of m delete d = crud_rest m d
rest_of m empty d = guard_rest m d d.zero_check
rest_of m exists d = guard_rest m d d.exists_check
rest_of m state d = state_rest m d
rest_of m auth d = auth_rest m d
rest_of m call d = call_rest m d d.result
rest_of m publish d = publish_rest m d
rest_of m response d = response_rest d
rest_of m subscribe d = []
rest_of m (other t) d = []

abbrev pub with_rest : Text → Option Stmt → Option Text
with_rest rest none = none
with_rest rest (some s) = some (print_stmt s ++ rest)

-- `ExecuteTemplate` for the template of the sequence: `templateName`, `subscribeTemplateName`
unfoldable pub execute_template : Mode → SeqType → TemplateData → Option Text
unfolding stmt_of rest_of print_stmt
execute_template m t d = with_rest (rest_of m t d) (stmt_of m t d)

-- The template `currentUser`
abbrev pub current_user_code : Text
current_user_code = codes "currentUser := c.MustGet(\"currentUser\").(*model.CurrentUser)\n"
