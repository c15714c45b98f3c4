-- ===== src/Parser/File.antt =====
-- parser/parser.go, `ParseFile` and `ParseDir`, from Go's syntax tree on. The tree is Go's own
-- go/ast: of it stands here what the program reads. Reading the file and making the tree are
-- Go's, as is the walk through the directory, which is the list of the files found.
use ssac.Base.{
  ℕ, Bool, true, false, List, [], ◌∷◌, ◌++◌, Option, none, some, map, ltb, if◌then◌else◌, ok, fail,
  panic, Outcome, ◌>>=◌,
}
use ssac.Text.{Text, codes, text_eq, has_prefix, trim_char}
use mathlib.Core.List.{reverse}
use ssac.Parser.Types.{
  SeqType, subscribe, Sequence, SubscribeInfo, ParamInfo, StructField, StructInfo, ServiceFunc,
  ParseError, Parsed,
}
use ssac.Parser.Comments.{parse_comments}

-- `ast.Expr`: an identifier, a selector, anything else.
pub data Expr : Type 0 where
  ident : Text → Expr
  selector : Expr → Text → Expr
  other_expr : Expr

-- `ast.Field`: names and a type.
pub record Field : Type 0 where
  pub names : List Text
  pub type : Expr

-- `ast.Spec`: a type that is a struct, or anything else.
pub data Spec : Type 0 where
  struct_spec : Text → List Field → Spec
  other_spec : Spec

pub record FuncDecl : Type 0 where
  pub name : Text
  pub pos : ℕ
  pub params : List Field

pub data Decl : Type 0 where
  func_decl : FuncDecl → Decl
  gen_decl : List Spec → Decl
  bad_decl : Decl

-- `ast.CommentGroup`: where it ends, and the texts of its comments.
pub record CommentGroup : Type 0 where
  pub end : ℕ
  pub list : List Text

-- `ast.File`; an import is its path, in quotes.
pub record File : Type 0 where
  pub decls : List Decl
  pub comments : List CommentGroup
  pub imports : List Text

unfoldable pub expr_to_string : Expr → Text
expr_to_string (ident name) = name
expr_to_string (selector x sel) = expr_to_string x ++ codes "." ++ sel
expr_to_string other_expr = []

first_name : List Text → Expr → List StructField
first_name [] type = []
first_name (name ∷ _) type = record { name = name; type = expr_to_string type } ∷ []

unfoldable pub struct_fields : List Field → List StructField
unfolding first_name
struct_fields [] = []
struct_fields (f ∷ fs) = first_name f.names f.type ++ struct_fields fs

spec_structs : List Spec → List StructInfo
spec_structs [] = []
spec_structs (struct_spec name fs ∷ specs) =
    record { name = name; fields = struct_fields fs } ∷ spec_structs specs
spec_structs (other_spec ∷ specs) = spec_structs specs

unfoldable pub collect_structs : List Decl → List StructInfo
unfolding spec_structs struct_fields
collect_structs [] = []
collect_structs (gen_decl specs ∷ decls) = spec_structs specs ++ collect_structs decls
collect_structs (_ ∷ decls) = collect_structs decls

unfoldable pub collect_imports : List Text → List Text
unfolding text_eq trim_char
collect_imports [] = []
collect_imports (value ∷ values) =
    let rest = collect_imports values in
    let path = trim_char b'"' value in if text_eq path (codes "net/http") then rest else path ∷ rest

-- The comments of all groups that end before the function.
unfoldable pub comments_before : ℕ → List CommentGroup → List Text
comments_before pos [] = []
comments_before pos (cg ∷ cgs) =
    let rest = comments_before pos cgs in if ltb cg.end pos then cg.list ++ rest else rest

param_of : List Text → Expr → Option ParamInfo → Option ParamInfo
param_of [] type before = before
param_of (name ∷ _) type before = some (record { type_name = expr_to_string type; var_name = name })

-- The last parameter that has a name.
unfoldable pub last_param : Option ParamInfo → List Field → Option ParamInfo
unfolding param_of expr_to_string
last_param before [] = before
last_param before (f ∷ fs) = last_param (param_of f.names f.type before) fs

abbrev pub message_type : Option ParamInfo → Text
message_type none = []
message_type (some p) = p.type_name

abbrev pub is_subscribe : SeqType → Bool
is_subscribe subscribe = true
is_subscribe _ = false

-- The last @subscribe of the function.
unfoldable pub subscribe_of :
    Option ParamInfo → Option SubscribeInfo → List Sequence → Option SubscribeInfo
subscribe_of param found [] = found
subscribe_of param found (seq ∷ seqs) =
    subscribe_of param
      (if is_subscribe seq.type
        then some (record { topic = seq.topic; message_type = message_type param })
        else found)
      seqs

-- The sequences that stay.
unfoldable pub without_subscribe : List Sequence → List Sequence
without_subscribe [] = []
without_subscribe (seq ∷ seqs) =
    let rest = without_subscribe seqs in if is_subscribe seq.type then rest else seq ∷ rest

-- One function with its sequences.
unfoldable pub service_func : Text → File → FuncDecl → List Sequence → ServiceFunc
unfolding last_param subscribe_of without_subscribe collect_imports collect_structs
service_func file_name f fn sequences =
    let param = last_param none fn.params in
    record {
      name = fn.name;
      file_name = file_name;
      domain = [];
      sequences = without_subscribe sequences;
      imports = collect_imports f.imports;
      subscribe = subscribe_of param none sequences;
      param = param;
      structs = collect_structs f.decls;
    }

abbrev pub add_func : Text → File → FuncDecl → List Sequence → List ServiceFunc → List ServiceFunc
add_func file_name f fn [] funcs = funcs
add_func file_name f fn (seq ∷ seqs) funcs = service_func file_name f fn (seq ∷ seqs) ∷ funcs

unfoldable pub funcs_of : Text → File → List Decl → Parsed (List ServiceFunc)
unfolding service_func comments_before
funcs_of file_name f [] = ok []
funcs_of file_name f (func_decl fn ∷ decls) = do
  sequences ← parse_comments (comments_before fn.pos f.comments)
  funcs ← funcs_of file_name f decls
  ok (add_func file_name f fn sequences funcs)
funcs_of file_name f (_ ∷ decls) = funcs_of file_name f decls

-- `ParseFile`, on the tree that Go's parser made.
unfoldable pub parse_file : Text → File → Parsed (List ServiceFunc)
unfolding funcs_of
parse_file file_name f = funcs_of file_name f f.decls

-- A file that `filepath.WalkDir` comes to, in its order: its name, the folders between it and the
-- root of the walk, and the tree that Go's parser makes of it, if it makes one.
pub record SourceFile : Type 0 where
  pub name : Text
  pub folders : List Text
  pub tree : Option File

pub data DirError : Type 0 where
  go_parse_failed : Text → DirError
  parse_failed : Text → ParseError → DirError
  no_domain_folder : Text → DirError

abbrev named_error : Text → Parsed (List ServiceFunc) → Outcome DirError (List ServiceFunc)
named_error name (ok funcs) = ok funcs
named_error name (fail e) = fail (parse_failed name e)
named_error name panic = panic

unfoldable pub parse_tree : Text → Option File → Outcome DirError (List ServiceFunc)
parse_tree name none = fail (go_parse_failed name)
parse_tree name (some f) = named_error name (parse_file name f)

abbrev pub set_domain : Text → ServiceFunc → ServiceFunc
set_domain folder sf = record sf { domain = folder }

-- `sfs[i].Domain = parts[0]`; a file beside the root has no folder.
unfoldable pub in_domain : Text → List Text → List ServiceFunc → Outcome DirError (List ServiceFunc)
in_domain name [] funcs = fail (no_domain_folder name)
in_domain name (folder ∷ _) funcs = ok (map (set_domain folder) funcs)

-- `strings.HasSuffix(name, ".ssac")`
abbrev is_ssac : Text → Bool
is_ssac name = has_prefix (codes "cass.") (reverse name)

abbrev visit : SourceFile → Outcome DirError (List ServiceFunc)
visit file = do funcs ← parse_tree file.name file.tree; in_domain file.name file.folders funcs

unfoldable pub visit_file : SourceFile → Outcome DirError (List ServiceFunc)
visit_file file = if is_ssac file.name then visit file else ok []

-- `ParseDir`: the first error ends the walk.
unfoldable pub parse_dir : List SourceFile → Outcome DirError (List ServiceFunc)
unfolding visit_file parse_tree in_domain
parse_dir [] = ok []
parse_dir (file ∷ files) = do found ← visit_file file; rest ← parse_dir files; ok (found ++ rest)
