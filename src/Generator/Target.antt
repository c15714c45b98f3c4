-- ===== src/Generator/Target.antt =====
-- generator/go_interface.go from `renderInterfaces` on, generator/go_target.go and
-- generator/generator.go: the text of the interfaces and of the Handler struct, and which files are
-- written. Writing them, and joining their paths, are Go's.
use ssac.Base.{
  Bool, true, false, ◌||◌, List, [], ◌∷◌, ◌++◌, Option, none, some, map, any, is_empty,
  if◌then◌else◌, take, length, ◌-◌, ok, fail, Outcome, ◌>>=◌,
}
use mathlib.Core.List.{reverse}
use ssac.Text.{Text, codes, text_eq, has_prefix}
use ssac.Text.Sort.{sort_texts}
use ssac.Dict.{Dict, lookup, put, member}
use ssac.Parser.Types.{Sequence, ServiceFunc}
use ssac.Validator.Symbols.{OperationSymbol, SymbolTable, has_query_opts}
use ssac.Validator.Models.{is_call}
use ssac.Validator.Snake.{before_dot}
use ssac.Generator.Go.{Tools, join, concat, contains}
use ssac.Generator.Imports.{add}
use ssac.Generator.Interfaces.{DerivedParam, DerivedMethod, DerivedInterface, derive_interfaces}
use ssac.Generator.Usages.{collect_model_usages}
use ssac.Generator.Loop.{GenError, gofmt_failed}
use ssac.Generator.Handler.{package_name, generate_func}

-- `needsTimeImport`
unfoldable pub needs_time_import : List DerivedInterface → Bool
unfolding text_eq
needs_time_import is =
    any
      (λ (i : DerivedInterface).
        any
          (λ (m : DerivedMethod).
            any (λ (p : DerivedParam). text_eq p.go_type (codes "time.Time")) m.params)
          i.methods)
      is

-- `needsPaginationImport`
unfoldable pub needs_pagination_import : List DerivedInterface → Bool
unfolding contains
needs_pagination_import is =
    any
      (λ (i : DerivedInterface).
        any (λ (m : DerivedMethod). contains (codes "pagination.") m.return_type) i.methods)
      is

param_texts : List DerivedParam → List Text
param_texts [] = []
param_texts (p ∷ ps) =
    let rest = param_texts ps in
    if is_empty p.name then rest else (p.name ++ (codes " " ++ p.go_type)) ∷ rest

-- `renderParams`
unfoldable pub render_params : List DerivedParam → Text
unfolding param_texts join
render_params ps = join (codes ", ") (param_texts ps)

abbrev with_opts : Bool → Text → Text
with_opts false params = params
with_opts true [] = codes "opts QueryOpts"
with_opts true (c ∷ params) = (c ∷ params) ++ codes ", opts QueryOpts"

unfoldable pub render_method : DerivedMethod → Text
unfolding render_params concat
render_method m = concat (
    codes "\t"
    ∷ m.name
    ∷ codes "("
    ∷ with_opts m.has_query_opts (render_params m.params)
    ∷ codes ") "
    ∷ m.return_type
    ∷ codes "\n"
    ∷ [])

unfoldable pub render_interface : DerivedInterface → Text
unfolding render_method concat
render_interface i = concat (
    codes "type "
    ∷ i.name
    ∷ codes " interface {\n\tWithTx(tx *sql.Tx) "
    ∷ i.name
    ∷ codes "\n"
    ∷ concat (map render_method i.methods)
    ∷ codes "}\n\n"
    ∷ [])

abbrev when_text : Bool → Text → Text
when_text true s = s
when_text false s = []

-- `renderInterfaces`
unfoldable pub render_interfaces : List DerivedInterface → Bool → Text
unfolding render_interface concat needs_time_import needs_pagination_import
render_interfaces is query = concat (
    codes "package model\n\nimport (\n\t\"database/sql\"\n"
    ∷ when_text (needs_time_import is) (codes "\t\"time\"\n")
    ∷ when_text (needs_pagination_import is)
        (codes "\n\t\"github.com/park-jun-woo/fullend/pkg/pagination\"\n")
    ∷ codes ")\n\n"
    ∷ concat (map render_interface is)
    ∷ when_text query (
        codes
          "type QueryOpts struct {\n\tLimit   int\n\tOffset  int\n\tCursor  string\n\tSortCol string\n\tSortDir string\n\tFilters map[string]string\n}\n")
    ∷ [])

any_operation : Dict OperationSymbol → Bool
unfolding has_query_opts
any_operation [] = false
any_operation ((name, op) ∷ ops) = has_query_opts op || any_operation ops

-- `hasQueryOpts`
unfoldable pub table_has_query_opts : SymbolTable → Bool
unfolding any_operation
table_has_query_opts st = any_operation st.operations

-- The models of one function.
unfoldable pub add_models : List Sequence → List Text → List Text
unfolding before_dot member
add_models [] models = models
add_models (seq ∷ seqs) models =
    add_models seqs
      (if is_empty seq.model || is_call seq.type then models else add (before_dot seq.model) models)

abbrev models_of : Option (List Text) → List Text
models_of none = []
models_of (some models) = models

-- `domainSet`
unfoldable pub domain_set : Dict (List Text) → List ServiceFunc → Dict (List Text)
unfolding add_models lookup put
domain_set domains [] = domains
domain_set domains (sf ∷ funcs) =
    domain_set
      (put sf.domain (add_models sf.sequences (models_of (lookup sf.domain domains))) domains) funcs

sorted_values : Dict (List Text) → Dict (List Text)
unfolding sort_texts
sorted_values [] = []
sorted_values ((k, v) ∷ d) = (k, sort_texts v) ∷ sorted_values d

-- `collectDomainModels`
unfoldable pub collect_domain_models : List ServiceFunc → Dict (List Text)
unfolding domain_set sorted_values
collect_domain_models funcs = sorted_values (domain_set [] funcs)

-- A file that is written: its folder below the output folder, its name, its text.
pub record OutFile : Type 0 where
  pub folder : Text
  pub name : Text
  pub code : Text

-- `strings.TrimSuffix(name, ".ssac")`
unfoldable pub trim_ssac : Text → Text
unfolding has_prefix
trim_ssac name =
    if has_prefix (codes "cass.") (reverse name) then take (length name - 5) name else name

module _ (t : Tools) where
  abbrev gofmt : Text → Outcome GenError Text
  gofmt source = elim (t.format_source source) [
    | none ↦ fail (gofmt_failed source)
    | some code ↦ ok code
  ]

  model_field : Text → Text
  unfolding concat
  model_field m = concat (
      codes "\t"
      ∷ t.to_go_pascal m
      ∷ codes "Model model."
      ∷ t.to_go_pascal m
      ∷ codes "Model\n"
      ∷ [])

  -- The text of one domain's handler.go
  unfoldable pub handler_struct : Text → List Text → Text
  unfolding model_field concat
  handler_struct domain models = concat (
      codes "package "
      ∷ package_name domain
      ∷ codes
          "\n\nimport (\n\t\"database/sql\"\n\n\t\"model\"\n)\n\ntype Handler struct {\n\tDB *sql.DB\n"
      ∷ concat (map model_field models)
      ∷ codes "}\n"
      ∷ [])

  unfoldable pub domain_files : Dict (List Text) → Outcome GenError (List OutFile)
  unfolding handler_struct
  domain_files [] = ok []
  domain_files ((domain, []) ∷ d) = domain_files d
  domain_files ((domain, m ∷ ms) ∷ d) = do
    code ← gofmt (handler_struct domain (m ∷ ms))
    rest ← domain_files d
    ok (record { folder = domain; name = codes "handler.go"; code = code } ∷ rest)

  -- `GenerateHandlerStruct`
  unfoldable pub generate_handler_struct : List ServiceFunc → Outcome GenError (List OutFile)
  unfolding domain_files collect_domain_models
  generate_handler_struct funcs = domain_files (collect_domain_models funcs)

  abbrev models_file : List DerivedInterface → Bool → Outcome GenError (List OutFile)
  models_file [] query = ok []
  models_file (i ∷ is) query = do
    code ← gofmt (render_interfaces (i ∷ is) query)
    ok (record { folder = codes "model"; name = codes "models_gen.go"; code = code } ∷ [])

  -- `GenerateModelInterfaces`
  unfoldable pub generate_model_interfaces :
      List ServiceFunc → SymbolTable → Outcome GenError (List OutFile)
  unfolding render_interfaces derive_interfaces collect_model_usages table_has_query_opts
  generate_model_interfaces funcs st =
      models_file (derive_interfaces t (collect_model_usages funcs) st) (table_has_query_opts st)

  -- `GenerateWith`, for the Go target: one file for each function
  unfoldable pub generate_with :
      List ServiceFunc → Option SymbolTable → Outcome GenError (List OutFile)
  unfolding generate_func trim_ssac
  generate_with [] st = ok []
  generate_with (sf ∷ funcs) st = do
    code ← generate_func t sf st
    rest ← generate_with funcs st
    ok (
        record { folder = sf.domain; name = trim_ssac sf.file_name ++ codes ".go"; code = code }
        ∷ rest)
