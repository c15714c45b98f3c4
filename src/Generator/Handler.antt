-- ===== src/Generator/Handler.antt =====
-- generator/go_handler.go: the handler of one function, HTTP or queue.
pub mod Total
pub mod Transaction
use ssac.Base.{
  Bool, true, false, List, [], ◌∷◌, ◌++◌, Option, none, some, map, ok, fail, Outcome, ◌>>=◌,
}
use ssac.Text.{Text, codes}
use ssac.Parser.Types.{SubscribeInfo, ServiceFunc}
use ssac.Validator.Symbols.{SymbolTable}
use ssac.Validator.Requests.{path_name}
use ssac.Generator.Go.{Tools, concat, quote}
use ssac.Generator.Params.{RequestParam, generate_path_param_code, collect_request_params}
use ssac.Generator.Imports.{
  has_write_sequence, needs_current_user, collect_imports_http, collect_subscribe_imports,
  filter_used_imports,
}
use ssac.Generator.Helpers.{needs_query_opts, get_path_params, generate_query_opts_code}
use ssac.Generator.Statements.{Mode, http, queue}
use ssac.Generator.Templates.{current_user_code}
use ssac.Generator.Loop.{GenError, gofmt_failed, Piece, commit, step, http_pieces, subscribe_pieces}

commit_code : Mode → Text
commit_code http =
    codes
      "\tif err = tx.Commit(); err != nil {\n\t\tc.JSON(http.StatusInternalServerError, gin.H{\"error\": \"commit failed\"})\n\t\treturn\n\t}\n\n"
commit_code queue =
    codes
      "\tif err = tx.Commit(); err != nil {\n\t\treturn fmt.Errorf(\"commit failed: %w\", err)\n\t}\n\n"

unfoldable pub print_piece : Mode → Piece → Text
unfolding commit_code
print_piece m commit = commit_code m
print_piece m (step t d text) = text ++ codes "\n"

begin_code : Mode → Text
begin_code http =
    codes
      "\ttx, err := h.DB.BeginTx(c.Request.Context(), nil)\n\tif err != nil {\n\t\tc.JSON(http.StatusInternalServerError, gin.H{\"error\": \"transaction failed\"})\n\t\treturn\n\t}\n\tdefer tx.Rollback()\n\n"
begin_code queue =
    codes
      "\ttx, err := h.DB.BeginTx(ctx, nil)\n\tif err != nil {\n\t\treturn fmt.Errorf(\"transaction failed: %w\", err)\n\t}\n\tdefer tx.Rollback()\n\n"

-- A part of a handler's code: text, the opening of the transaction, or a piece of the body.
pub data Part : Type 0 where
  plain : Text → Part
  opens : Part
  piece : Piece → Part

unfoldable pub print_part : Mode → Part → Text
unfolding begin_code print_piece
print_part m (plain s) = s
print_part m opens = begin_code m
print_part m (piece p) = print_piece m p

-- The transaction is opened in front of the rest.
abbrev pub opening : Bool → List Part → List Part
opening true ps = opens ∷ ps
opening false ps = ps

abbrev text_if : Bool → Text → Text
text_if true s = s
text_if false s = []

-- A block of code with an empty line behind it, if there is any.
abbrev block : List Text → Text
block [] = []
block (p ∷ ps) = concat (p ∷ ps) ++ codes "\n"

abbrev extract_codes : List RequestParam → List Text
extract_codes params = map (λ (p : RequestParam). p.extract_code) params

abbrev pub package_name : Text → Text
package_name [] = codes "service"
package_name (c ∷ domain) = c ∷ domain

module _ (t : Tools) where
  abbrev path_codes : Text → Option SymbolTable → List Text
  path_codes name st = map (generate_path_param_code t) (get_path_params name st)

  -- What is written of a HTTP handler, one part for each write to the buffer; a transaction is
  -- opened where the function writes.
  unfoldable pub http_parts :
      ServiceFunc → Option SymbolTable → List RequestParam → List Piece → List Part
  unfolding concat generate_path_param_code generate_query_opts_code needs_current_user
      needs_query_opts get_path_params
  http_parts sf st params ps =
      plain (codes "func (h *Handler) ")
      ∷ plain sf.name
      ∷ plain (codes "(c *gin.Context) {\n")
      ∷ plain (block (path_codes sf.name st))
      ∷ plain (text_if (needs_current_user sf.sequences) (current_user_code ++ codes "\n"))
      ∷ plain (block (extract_codes params))
      ∷ plain (
          text_if (needs_query_opts sf.sequences)
            (generate_query_opts_code t sf.name st ++ codes "\n"))
      ∷ opening (has_write_sequence sf.sequences) (map piece ps ++ plain (codes "}\n") ∷ [])

  -- The body of a HTTP handler, from its pieces.
  unfoldable pub http_body :
      ServiceFunc → Option SymbolTable → List RequestParam → List Piece → Text
  unfolding concat print_part http_parts
  http_body sf st params ps = concat (map (print_part http) (http_parts sf st params ps))

  -- The same for a queue handler.
  unfoldable pub subscribe_parts : ServiceFunc → Text → List Piece → List Part
  subscribe_parts sf message_type ps =
      plain (codes "func (h *Handler) ")
      ∷ plain sf.name
      ∷ plain (codes "(ctx context.Context, message ")
      ∷ plain message_type
      ∷ plain (codes ") error {\n")
      ∷ opening (has_write_sequence sf.sequences)
          (map piece ps ++ plain (codes "\treturn nil\n}\n") ∷ [])

  unfoldable pub subscribe_body : ServiceFunc → Text → List Piece → Text
  unfolding concat print_part subscribe_parts
  subscribe_body sf message_type ps =
      concat (map (print_part queue) (subscribe_parts sf message_type ps))

  import_lines : List Text → List Text
  unfolding quote
  import_lines [] = []
  import_lines (i ∷ is) = (codes "\t" ++ (quote t i ++ codes "\n")) ∷ import_lines is

  import_block : List Text → Text
  unfolding concat import_lines
  import_block [] = []
  import_block (i ∷ is) =
      concat (codes "import (\n" ∷ concat (import_lines (i ∷ is)) ∷ codes ")\n\n" ∷ [])

  -- The whole file: package, imports that the body uses, body.
  unfoldable pub file_code : Text → List Text → Text → Text
  unfolding import_block concat filter_used_imports
  file_code domain imports body = concat (
      codes "package "
      ∷ package_name domain
      ∷ codes "\n\n"
      ∷ import_block (filter_used_imports imports body)
      ∷ body
      ∷ [])

  -- `format.Source` of the file.
  abbrev pub formatted : Text → Outcome GenError Text
  formatted source = elim (t.format_source source) [
    | none ↦ fail (gofmt_failed source)
    | some code ↦ ok code
  ]

  abbrev request_params : ServiceFunc → Option SymbolTable → List RequestParam
  request_params sf st =
      collect_request_params t sf.sequences st (map path_name (get_path_params sf.name st))

  -- `generateHTTPFunc`
  unfoldable pub generate_http_func : ServiceFunc → Option SymbolTable → Outcome GenError Text
  unfolding http_pieces http_body file_code collect_imports_http collect_request_params
      needs_current_user needs_query_opts get_path_params
  generate_http_func sf st =
      let params = request_params sf st in
      (do
        ps ← http_pieces t sf st params
        formatted (
            file_code sf.domain
              (collect_imports_http sf params (get_path_params sf.name st)
                (needs_current_user sf.sequences) (needs_query_opts sf.sequences))
              (http_body sf st params ps)))

  -- `generateSubscribeFunc`
  unfoldable pub generate_subscribe_func :
      ServiceFunc → Text → Option SymbolTable → Outcome GenError Text
  unfolding subscribe_pieces subscribe_body file_code collect_subscribe_imports
  generate_subscribe_func sf message_type st = do
    ps ← subscribe_pieces t sf st
    formatted
        (file_code sf.domain (collect_subscribe_imports sf) (subscribe_body sf message_type ps))

  unfoldable pub generate_triggered :
      ServiceFunc → Option SubscribeInfo → Option SymbolTable → Outcome GenError Text
  unfolding generate_http_func generate_subscribe_func
  generate_triggered sf none st = generate_http_func sf st
  generate_triggered sf (some sub) st = generate_subscribe_func sf sub.message_type st

  -- `GenerateFunc`
  unfoldable pub generate_func : ServiceFunc → Option SymbolTable → Outcome GenError Text
  unfolding generate_triggered
  generate_func sf st = generate_triggered sf sf.subscribe st
