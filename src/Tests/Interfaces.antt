-- ===== src/Tests/Interfaces.antt =====
-- The interfaces that functions ask for.
use ssac.Base.{◌≡◌, refl, true, false, List, [], ◌∷◌, any, is_empty, ◌||◌, none, some, All}
use mathlib.Core.List.{Permᴰ}
use ssac.Text.{Text, codes}
use ssac.Text.Sort.{sort_texts}
use ssac.Dict.{Dict, lookup, member, keys}
use ssac.Validator.Symbols.{ModelSymbol, SymbolTable, pos}
use ssac.Validator.Models.{model_parts}
use ssac.Generator.Args.{argument_keys, has_query_input, lookup_param_order}
use ssac.Generator.Params.Once.{Unique}
use ssac.Generator.Usages.{ModelUsage, collect_model_usages, used_methods, first_usage}
use ssac.Generator.Interfaces.{interface_keys, derived_methods, derive_interfaces}
use ssac.Generator.Interfaces.Calls.{
  covered, parameter_names, go_names, derived_methods-argument_keys,
}
use ssac.Generator.Interfaces.Methods.{uses, method_names, derived_methods-Unique}
use ssac.Generator.Target.{render_interfaces}
use ssac.Tests.Functions.{get_course}
use ssac.Tests.Symbols.{table}
use ssac.Tests.Handlers.{plain_tools, rename}
use ssac.Tests.Runs.{generators}

abbrev usages : List ModelUsage
usages = collect_model_usages (get_course ∷ rename ∷ [])

abbrev course_model : ModelSymbol
course_model = record { methods = [] }

derived_methods-Unique_example :
    Unique (
      method_names (
        derived_methods plain_tools table course_model
          (codes "Course")
          usages
          (sort_texts (used_methods (codes "Course") [] usages))))
    × ((x : Text)
        → member x (
            method_names (
              derived_methods plain_tools table course_model
                (codes "Course")
                usages
                (sort_texts (used_methods (codes "Course") [] usages))))
          ≡ any (uses (codes "Course") x) usages)
derived_methods-Unique_example =
    derived_methods-Unique plain_tools table course_model (codes "Course") usages

course-interface :
    render_interfaces (derive_interfaces plain_tools usages table) false
    ≡ codes
        "package model\n\nimport (\n\t\"database/sql\"\n)\n\ntype CourseModel interface {\n\tWithTx(tx *sql.Tx) CourseModel\n\tFindByID(ID int64) (*Course, error)\n\tRename(ID int64, Title string) (*interface{}, error)\n}\n\n"
unfolding generators
course-interface = refl

-- Two uses of a method with parameters, whose inputs come in two orders.
abbrev title_id : Dict Text
title_id = (codes "title", codes "request.Title") ∷ (codes "id", codes "course.ID") ∷ []

abbrev id_title : Dict Text
id_title = (codes "id", codes "request.ID") ∷ (codes "title", codes "course.Title") ∷ []

abbrev use_of : Dict Text → ModelUsage
use_of inputs = record {
  model_name = codes "Course";
  method_name = codes "Rename";
  inputs = inputs;
  result = none;
  func_name = codes "RenameCourse";
}

abbrev renamed_model : ModelSymbol
renamed_model = record {
  methods =
      (
        codes "Rename",
        record {
          cardinality = codes "exec";
          params = codes "title" ∷ codes "id" ∷ [];
          param_types = none;
          err_status = pos 0;
        },
      )
      ∷ [];
}

abbrev renamed_table : SymbolTable
renamed_table = record table { models = (codes "Course", renamed_model) ∷ [] }

abbrev two_uses : List ModelUsage
two_uses = use_of title_id ∷ use_of id_title ∷ []

course_rename-parts : model_parts (codes "Course.Rename") ≡ some (codes "Course", codes "Rename")
unfolding generators
course_rename-parts = refl

course-found : lookup (codes "Course") renamed_table.models ≡ some renamed_model
unfolding generators
course-found = refl

first-title_id : first_usage (codes "Course") (codes "Rename") two_uses ≡ some (use_of title_id)
unfolding generators
first-title_id = refl

title_id-plain : (has_query_input title_id ≡ false) × (has_query_input id_title ≡ false)
unfolding generators
title_id-plain = (refl, refl)

title_id-covered :
    (is_empty (lookup_param_order (codes "Course.Rename") renamed_table)
      || covered (lookup_param_order (codes "Course.Rename") renamed_table) (keys id_title))
    ≡ true
unfolding generators
title_id-covered = refl

derived_methods-argument_keys_example :
    All
      (λ m.
        m.name ≡ codes "Rename"
        → parameter_names m
          ≡ go_names plain_tools
              (argument_keys id_title (lookup_param_order (codes "Course.Rename") renamed_table)))
      (derived_methods plain_tools renamed_table renamed_model
        (codes "Course")
        two_uses
        (codes "Rename" ∷ []))
derived_methods-argument_keys_example =
    derived_methods-argument_keys plain_tools renamed_table renamed_model two_uses
      (codes "Course.Rename") (codes "Course") (codes "Rename") (use_of title_id) id_title
      course_rename-parts course-found first-title_id (Permᴰ.swap refl refl) title_id-plain.1
      title_id-plain.0 title_id-covered (codes "Rename" ∷ [])

-- Two inputs that are no parameters: sorted for the call, as the map gives them for the interface.
extra-call :
    argument_keys ((codes "z", []) ∷ (codes "b", []) ∷ (codes "a", []) ∷ []) (codes "a" ∷ [])
    ≡ codes "a" ∷ codes "b" ∷ codes "z" ∷ []
unfolding generators
extra-call = refl

extra-interface :
    interface_keys ((codes "z", []) ∷ (codes "b", []) ∷ (codes "a", []) ∷ []) (codes "a" ∷ [])
    ≡ codes "a" ∷ codes "z" ∷ codes "b" ∷ []
unfolding generators
extra-interface = refl
