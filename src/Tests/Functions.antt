-- ===== src/Tests/Functions.antt =====
-- Whole functions through the validator.
use ssac.Base.{◌≡◌, ◌↔◌, refl, List, [], ◌∷◌, ◌++◌, none, some, All}
use ssac.Text.{codes}
use ssac.Parser.Types.{get, empty, response, blank, Sequence, Binding, ServiceFunc}
use ssac.Tests.Runs.{text_functions}
use ssac.Validator.Required.{validate_required_fields}
use ssac.Validator.Required.Complete.{IsAccepted, validate_required_fields-nil}
use ssac.Validator.Guard.{validate_fk_reference_guard}
use ssac.Validator.Guard.Guarded.{IsGuardedBy, validate_fk_reference_guard-nil}
use ssac.Validator.Rules.{validate_subscribe_rules}
use ssac.Validator.Rules.Subscribes.{SubscribesWell, validate_subscribe_rules-nil}
use ssac.Validator.Flow.{root_var, validate_variable_flow}
use ssac.Validator.Flow.Scope.{IsInScope, is_declared, validate_variable_flow-nil}

abbrev course : Binding
course = record { type_of = codes "Course"; name = codes "course"; wrapper = [] }

abbrev pub find_course : Sequence
find_course = record (blank get) {
  model = codes "Course.FindByID";
  result = some course;
  inputs = (codes "ID", codes "request.CourseID") ∷ [];
}

abbrev pub guard_course : Sequence
guard_course = record (blank empty) { target = codes "course"; message = codes "not found" }

abbrev pub answer : Sequence
answer = record (blank response) { fields = (codes "title", codes "course.Title") ∷ [] }

abbrev pub get_course : ServiceFunc
get_course = record {
  name = codes "GetCourse";
  file_name = codes "get_course.ssac";
  domain = codes "course";
  sequences = find_course ∷ guard_course ∷ answer ∷ [];
  imports = [];
  subscribe = none;
  param = none;
  structs = [];
}

get_course-required : validate_required_fields get_course ≡ []
unfolding validate_required_fields text_functions
get_course-required = refl

validate_required_fields-nil_example :
    (validate_required_fields get_course ≡ [])
    ↔ All IsAccepted (find_course ∷ guard_course ∷ answer ∷ [])
validate_required_fields-nil_example = validate_required_fields-nil get_course

get_course-flow : validate_variable_flow get_course ≡ []
unfolding validate_variable_flow text_functions
get_course-flow = refl

validate_variable_flow-nil_example : (validate_variable_flow get_course ≡ []) ↔ (
    (before after : List Sequence) (seq : Sequence)
    → get_course.sequences ≡ before ++ seq ∷ after
    → IsInScope (is_declared none before) seq)
validate_variable_flow-nil_example = validate_variable_flow-nil get_course

-- A lookup by the course that was found, with its guard.
abbrev find_owner : Sequence
find_owner = record (blank get) {
  model = codes "User.FindByID";
  result = some (record { type_of = codes "User"; name = codes "owner"; wrapper = [] });
  inputs = (codes "ID", codes "course.OwnerID") ∷ [];
}

abbrev guard_owner : Sequence
guard_owner = record (blank empty) { target = codes "owner"; message = codes "no owner" }

abbrev get_owner : ServiceFunc
get_owner = record get_course {
  sequences = find_course ∷ guard_course ∷ find_owner ∷ guard_owner ∷ answer ∷ [];
}

get_owner-guards : validate_fk_reference_guard get_owner ≡ []
unfolding validate_fk_reference_guard root_var text_functions
get_owner-guards = refl

validate_fk_reference_guard-nil_example : (validate_fk_reference_guard get_owner ≡ []) ↔ (
    (before after : List Sequence) (seq : Sequence)
    → get_owner.sequences ≡ before ++ seq ∷ after
    → IsGuardedBy before seq after)
validate_fk_reference_guard-nil_example = validate_fk_reference_guard-nil get_owner

-- A subscriber that reads a field of its message.
abbrev notify : ServiceFunc
notify = record get_course {
  sequences = record find_course { inputs = (codes "ID", codes "message.CourseID") ∷ [] } ∷ [];
  subscribe = some (record { topic = codes "course.made"; message_type = codes "Made" });
  param = some (record { type_name = codes "Made"; var_name = codes "message" });
  structs =
      record {
        name = codes "Made";
        fields = record { name = codes "CourseID"; type = codes "int64" } ∷ [];
      }
      ∷ [];
}

notify-rules : validate_subscribe_rules notify ≡ []
unfolding validate_subscribe_rules text_functions
notify-rules = refl

validate_subscribe_rules-nil_example :
    (validate_subscribe_rules notify ≡ []) ↔ SubscribesWell notify notify.subscribe
validate_subscribe_rules-nil_example = validate_subscribe_rules-nil notify
