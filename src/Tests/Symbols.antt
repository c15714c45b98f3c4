-- ===== src/Tests/Symbols.antt =====
-- A function against a symbol table.
use ssac.Base.{List, ◌≡◌, ◌↔◌, refl, [], ◌∷◌, none, some, All}
use ssac.Text.{codes}
use ssac.Dict.{lookup}
use ssac.Parser.Types.{call, blank, Sequence, ServiceFunc}
use ssac.Tests.Runs.{text_functions}
use ssac.Tests.Functions.{get_course, find_course, guard_course, answer}
use ssac.Validator.Errors.{at, input_type_mismatch, error}
use ssac.Validator.Symbols.{MethodInfo, DdlTable, OperationSymbol, SymbolTable, pos}
use ssac.Validator.Models.{validate_model}
use ssac.Validator.Models.Known.{ModelKnown, validate_model-nil}
use ssac.Validator.Requests.{validate_request, validate_query_usage, validate_pagination_type}
use ssac.Validator.Requests.Query.{TakesQuery, OffersQuery, validate_query_usage-nil}
use ssac.Validator.Requests.Agrees.{
  FieldsKnown, IsUsed, PageFits, validate_request-nil, validate_pagination_type-nil,
}
use ssac.Validator.Snake.{to_snake_case}
use ssac.Validator.Snake.Words.{Word, capitalised, acronym, camel, snake, to_snake_case-camel}
use ssac.Validator.CallTypes.{validate_call_input_types}
use ssac.Validator.Reserved.{validate_go_reserved_words}

abbrev find_by_id : MethodInfo
find_by_id = record {
  cardinality = codes "one";
  params = [];
  param_types = none;
  err_status = pos 0;
}

abbrev charge : MethodInfo
charge = record {
  cardinality = [];
  params = [];
  param_types = some ((codes "Amount", codes "int64") ∷ (codes "Note", codes "string") ∷ []);
  err_status = pos 0;
}

abbrev get_course_op : OperationSymbol
get_course_op = record {
  request_fields = codes "CourseID" ∷ [];
  path_params = [];
  x_pagination = none;
  x_sort = none;
  x_filter = none;
  x_include = none;
}

abbrev courses : DdlTable
courses = record {
  columns = (codes "id", codes "int64") ∷ (codes "seat_type", codes "string") ∷ [];
  column_order = codes "id" ∷ codes "seat_type" ∷ [];
  foreign_keys = [];
  indexes = [];
  primary_key = codes "id" ∷ [];
}

abbrev pub table : SymbolTable
table = record {
  models =
      (codes "Course", record { methods = (codes "FindByID", find_by_id) ∷ [] })
      ∷ (codes "billing._func", record { methods = (codes "charge", charge) ∷ [] })
      ∷ [];
  operations = (codes "GetCourse", get_course_op) ∷ [];
  funcs = [];
  ddl_tables = (codes "courses", courses) ∷ [];
  dtos = [];
}

get_course-models : validate_model get_course table ≡ []
unfolding validate_model text_functions
get_course-models = refl

validate_model-nil_example :
    (validate_model get_course table ≡ [])
    ↔ All (ModelKnown table) (find_course ∷ guard_course ∷ answer ∷ [])
validate_model-nil_example = validate_model-nil get_course table

get_course-operation : lookup (codes "GetCourse") table.operations ≡ some get_course_op
unfolding text_functions
get_course-operation = refl

get_course-request : validate_request get_course table ≡ []
unfolding validate_request text_functions
get_course-request = refl

validate_request-nil_example : (validate_request get_course table ≡ []) ↔ (
    All (FieldsKnown get_course_op) get_course.sequences
    × All (IsUsed get_course get_course_op) (codes "CourseID" ∷ []))
validate_request-nil_example =
    validate_request-nil get_course table get_course_op get_course-operation

validate_query_usage-nil_example :
    (validate_query_usage get_course (some table) ≡ [])
    ↔ (TakesQuery get_course.sequences ↔ OffersQuery (lookup (codes "GetCourse") table.operations))
validate_query_usage-nil_example = validate_query_usage-nil get_course table

validate_pagination_type-nil_example :
    (validate_pagination_type get_course (some table) ≡ [])
    ↔ All (PageFits none) get_course.sequences
validate_pagination_type-nil_example =
    validate_pagination_type-nil get_course table get_course_op get_course-operation

-- An id for a text.
abbrev charge_course : Sequence
charge_course = record (blank call) {
  model = codes "billing.charge";
  inputs = (codes "Note", codes "course.ID") ∷ [];
}

abbrev charging : ServiceFunc
charging = record get_course { sequences = find_course ∷ charge_course ∷ [] }

-- A key that only ends in a keyword's name.
abbrev typed : ServiceFunc
typed = record get_course {
  sequences =
      record find_course { inputs = (codes "SeatType", codes "request.SeatType") ∷ [] } ∷ [];
}

charging-types :
    validate_call_input_types charging (some table)
    ≡ record {
      file_name = codes "get_course.ssac";
      func_name = codes "GetCourse";
      seq_index = at 1;
      tag = codes "@call";
      message =
          input_type_mismatch (codes "Note") (codes "course.ID") (codes "int64") (codes "string");
      level = error;
    }
      ∷ []
unfolding validate_call_input_types text_functions
charging-types = refl

typed-words : validate_go_reserved_words (typed ∷ []) (some table) ≡ []
unfolding validate_go_reserved_words text_functions
typed-words = refl

snake-api_key : to_snake_case (codes "APIKey") ≡ codes "api_key"
unfolding to_snake_case
snake-api_key = refl

-- `UserAPIKey`
abbrev user_api_key : List Word
user_api_key =
    capitalised b'U' b's' (codes "er")
    ∷ acronym b'A' (codes "PI")
    ∷ capitalised b'K' b'e' (codes "y")
    ∷ []

to_snake_case-camel_example : to_snake_case (camel user_api_key) ≡ snake user_api_key
to_snake_case-camel_example = to_snake_case-camel user_api_key (
  (refl, refl, (refl, (refl, tt))),
  ((refl, (refl, (refl, tt))), refl, ((refl, refl, (refl, tt)), tt)),
)
