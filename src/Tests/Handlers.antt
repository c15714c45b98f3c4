-- ===== src/Tests/Handlers.antt =====
-- Whole functions through the generator.
use ssac.Base.{
  ◌≡◌, refl, List, [], ◌∷◌, none, some, ok, fail, panic, ltb, Outcome, true, false, not, ◌&&◌, ◌||◌,
  All, any,
}
use mathlib.Core.List.{Permᴰ}
use ssac.Text.{Text, codes}
use ssac.Dict.{Dict, member}
use ssac.Dict.Order.{Keyed}
use ssac.Parser.Types.{put, auth, publish, blank, Sequence, ServiceFunc}
use ssac.Validator.Requests.Fields.{names_field}
use ssac.Validator.Validate.{validate, validate_func}
use ssac.Tests.Runs.{text_functions, generators, validators}
use ssac.Tests.Functions.{find_course, guard_course, answer, get_course}
use ssac.Generator.Go.{Tools}
use ssac.Generator.Args.{
  build_input_fields, build_publish_payload, build_publish_options, build_args_code_from_inputs,
}
use ssac.Generator.Args.AnyOrder.{code-Perm}
use ssac.Generator.Params.{RequestParam, raw_params, collect_request_params}
use ssac.Generator.Params.Once.{Unique, names, raw_params-Unique}
use ssac.Generator.Imports.{has_write_sequence}
use ssac.Generator.Helpers.{has_conversion_err, collect_used_vars}
use ssac.Generator.Statements.{http, queue}
use ssac.Generator.Loop.{GenError, Piece, http_pieces, subscribe_pieces}
use ssac.Generator.Loop.Scope.{admits_all, fits}
use ssac.Generator.Loop.Scope.Kept.{
  names_above, http_pieces-admits_all, subscribe_pieces-admits_all,
}
use ssac.Generator.Handler.{generate_func}
use ssac.Generator.Handler.Total.{IsFormatted, validate-IsFormatted}

-- Names as they are, and no formatting.
abbrev pub plain_tools : Tools
plain_tools = record {
  to_go_camel = λ s. s;
  to_go_pascal = λ s. s;
  is_print = λ c. ltb 31 c;
  format_source = λ s. some s;
}

abbrev rename_course : Sequence
rename_course = record (blank put) {
  model = codes "Course.Rename";
  inputs = (codes "Title", codes "request.Title") ∷ (codes "ID", codes "course.ID") ∷ [];
}

abbrev pub rename : ServiceFunc
rename = record get_course {
  name = codes "RenameCourse";
  sequences = find_course ∷ guard_course ∷ rename_course ∷ answer ∷ [];
}

get_course-code :
    generate_func plain_tools get_course none
    ≡ ok (
        codes
          "package course\n\nimport (\n\t\"net/http\"\n\t\"github.com/gin-gonic/gin\"\n)\n\nfunc (h *Handler) GetCourse(c *gin.Context) {\n\tCourseID := c.Query(\"CourseID\")\n\ncourse, err := h.CourseModel.FindByID(CourseID)\n\tif err != nil {\n\t\tc.JSON(http.StatusInternalServerError, gin.H{\"error\": \"Course 조회 실패\"})\n\t\treturn\n\t}\n\nif course == nil {\n\t\tc.JSON(http.StatusNotFound, gin.H{\"error\": \"not found\"})\n\t\treturn\n\t}\n\nc.JSON(__RESPONSE_STATUS__, gin.H{\n\t\t\"title\": course.Title,\n\t})\n\n}\n")
unfolding generate_func generators
get_course-code = refl

abbrev pieces_in : Outcome GenError (List Piece) → List Piece
pieces_in (ok ps) = ps
pieces_in (fail e) = []
pieces_in panic = []

abbrev rename_params : List RequestParam
rename_params = collect_request_params plain_tools rename.sequences none []

abbrev rename_pieces : List Piece
rename_pieces = pieces_in (http_pieces plain_tools rename none rename_params)

rename-made : http_pieces plain_tools rename none rename_params ≡ ok rename_pieces
unfolding generators
rename-made = refl

-- What the handler declares above its sequences.
abbrev above_rename : List Text
above_rename =
    codes "tx"
    ∷ codes "err"
    ∷ codes "CourseID"
    ∷ codes "Title"
    ∷ codes "req"
    ∷ codes "h"
    ∷ codes "c"
    ∷ []

rename-tracked :
    (has_conversion_err rename_params || has_write_sequence rename.sequences)
    ≡ member (codes "err") above_rename
unfolding generators
rename-tracked = refl

rename-fits :
    fits
      (collect_used_vars rename.sequences [])
      above_rename
      []
      (member (codes "err") above_rename)
      rename.sequences
    ≡ true
unfolding generators
rename-fits = refl

http_pieces-admits_all_example : admits_all http above_rename rename_pieces ≡ true
http_pieces-admits_all_example =
    http_pieces-admits_all plain_tools rename none rename_params above_rename rename_pieces
      rename-tracked rename-fits rename-made

-- A queue handler that writes and publishes.
abbrev tell : Sequence
tell = record (blank publish) {
  topic = codes "course.renamed";
  inputs = (codes "ID", codes "course.ID") ∷ [];
}

abbrev listener : ServiceFunc
listener = record rename {
  sequences =
      record find_course { inputs = (codes "ID", codes "message.ID") ∷ [] }
      ∷ record rename_course { inputs = (codes "ID", codes "course.ID") ∷ [] }
      ∷ tell
      ∷ [];
}

abbrev listener_pieces : List Piece
listener_pieces = pieces_in (subscribe_pieces plain_tools listener none)

listener-made : subscribe_pieces plain_tools listener none ≡ ok listener_pieces
unfolding generators
listener-made = refl

listener-fits :
    fits
      (collect_used_vars listener.sequences [])
      (names_above (has_write_sequence listener.sequences))
      []
      (has_write_sequence listener.sequences)
      listener.sequences
    ≡ true
unfolding generators
listener-fits = refl

subscribe_pieces-admits_all_example :
    admits_all queue (names_above (has_write_sequence listener.sequences)) listener_pieces ≡ true
subscribe_pieces-admits_all_example =
    subscribe_pieces-admits_all plain_tools listener none listener_pieces listener-fits
      listener-made

-- A publish behind an @auth in a function that writes nothing: `err = queue.Publish(...)`, though
-- `err` was declared in the `if` of the @auth only.
abbrev guarded : ServiceFunc
guarded = record rename {
  sequences = record (blank auth) { action = codes "read"; resource = codes "course" } ∷ tell ∷ [];
}

guarded-refused :
    admits_all http
      (codes "currentUser" ∷ codes "h" ∷ codes "c" ∷ [])
      (pieces_in (http_pieces plain_tools guarded none []))
    ≡ false
unfolding generators
guarded-refused = refl

-- A publish alone, below a path parameter whose conversion declares `err`: `err := ...` has no new
-- name.
abbrev told : ServiceFunc
told = record rename { sequences = tell ∷ [] }

told-refused :
    admits_all http
      (codes "id" ∷ codes "err" ∷ codes "h" ∷ codes "c" ∷ [])
      (pieces_in (http_pieces plain_tools told none []))
    ≡ false
unfolding generators
told-refused = refl

get_course-validated : validate (get_course ∷ []) ≡ []
unfolding validate validate_func validators
get_course-validated = refl

validate-IsFormatted_example :
    All (λ sf. IsFormatted plain_tools (generate_func plain_tools sf none)) (get_course ∷ [])
validate-IsFormatted_example =
    validate-IsFormatted plain_tools none (get_course ∷ []) get_course-validated

-- Two orders of one map.
abbrev inputs_ab : Dict Text
inputs_ab = (codes "a", codes "request.A") ∷ (codes "b", codes "x.B") ∷ []

abbrev inputs_ba : Dict Text
inputs_ba = (codes "b", codes "x.B") ∷ (codes "a", codes "request.A") ∷ []

inputs-Keyed : Keyed inputs_ab
unfolding text_functions
inputs-Keyed = (refl, (refl, tt))

code-Perm_example :
    (build_input_fields plain_tools inputs_ab ≡ build_input_fields plain_tools inputs_ba)
    × (build_publish_payload plain_tools inputs_ab ≡ build_publish_payload plain_tools inputs_ba)
    × (build_publish_options plain_tools inputs_ab ≡ build_publish_options plain_tools inputs_ba)
    × ((o : Text) (order : List Text)
        → build_args_code_from_inputs plain_tools inputs_ab (o ∷ order)
          ≡ build_args_code_from_inputs plain_tools inputs_ba (o ∷ order))
code-Perm_example = code-Perm plain_tools inputs_ab inputs_ba (Permᴰ.swap refl refl) inputs-Keyed

raw_params-Unique_example :
    Unique (names (raw_params none (codes "CourseID" ∷ []) rename.sequences))
    × ((x : Text)
        → member x (names (raw_params none (codes "CourseID" ∷ []) rename.sequences))
          ≡ (any (names_field x) rename.sequences && not (member x (codes "CourseID" ∷ []))))
raw_params-Unique_example = raw_params-Unique none (codes "CourseID" ∷ []) rename.sequences
