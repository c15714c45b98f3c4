-- ===== src/Generator/Statements.antt =====
-- generator/go_templates.go: the statement that each template begins with. It declares or assigns
-- variables, and is data here, for what Go's rules of declaration say about it.
use ssac.Base.{Bool, true, false, List, [], ◌∷◌, ◌++◌, Option, none, some, if◌then◌else◌}
use ssac.Text.{Text, codes}
use ssac.Parser.Types.{
  SeqType, get, post, put, delete, empty, exists, state, auth, call, publish, response, subscribe,
  other, Binding,
}
use ssac.Generator.Go.{join}
use ssac.Generator.Data.{TemplateData}

-- The names on the left of `:=`, or of `=`.
pub record Head : Type 0 where
  pub names : List Text
  pub defines : Bool

-- A statement of the function's body, the first statement of an `if`, or none.
pub data Stmt : Type 0 where
  plain in_if : Head → Stmt
  no_stmt : Stmt

unfoldable pub print_head : Head → Text
unfolding join
print_head h = join (codes ", ") h.names ++ (if h.defines then codes " := " else codes " = ")

unfoldable pub print_stmt : Stmt → Text
unfolding print_head
print_stmt (plain h) = print_head h
print_stmt (in_if h) = codes "if " ++ print_head h
print_stmt no_stmt = []

-- A handler of HTTP, or of a queue.
pub data Mode : Type 0 where
  http queue : Mode

abbrev result_name : Bool → Binding → Text
result_name true r = codes "_"
result_name false r = r.name

abbrev pub assigned : TemplateData → Binding → Bool → Head
assigned d r total = record {
  names =
      result_name d.unused r
      ∷ (if total then codes "total" ∷ codes "err" ∷ [] else codes "err" ∷ []);
  defines = if d.re_assign then false else true;
}

abbrev pub err_head : TemplateData → Head
err_head d = record { names = codes "err" ∷ []; defines = d.first_err }

abbrev pub blank_head : TemplateData → Head
blank_head d = record { names = codes "_" ∷ codes "err" ∷ []; defines = d.first_err }

-- A template that names the result of a sequence without one fails.
unfoldable pub result_stmt : TemplateData → Bool → Option Binding → Option Stmt
result_stmt d total none = none
result_stmt d total (some r) = some (plain (assigned d r total))

-- Without a result, a call stands in an `if`.
unfoldable pub call_stmt : TemplateData → Option Binding → Stmt
call_stmt d none = in_if (blank_head d)
call_stmt d (some r) = plain (assigned d r false)

-- The statement that the template begins with; `none` if there is no template, or it fails. For
-- another kind Go looks for a template of its name, and so would find one for a kind named like an
-- inner template; the parser makes no such kind and the validator refuses it.
unfoldable pub stmt_of : Mode → SeqType → TemplateData → Option Stmt
unfolding result_stmt call_stmt
stmt_of m get d = result_stmt d d.has_total d.result
stmt_of m post d = result_stmt d false d.result
stmt_of m put d = some (plain (err_head d))
stmt_of m delete d = some (plain (err_head d))
stmt_of m empty d = some no_stmt
stmt_of m exists d = some no_stmt
stmt_of m state d = some (in_if (record { names = codes "err" ∷ []; defines = true }))
stmt_of m auth d = some (in_if (blank_head d))
stmt_of m call d = some (call_stmt d d.result)
stmt_of m publish d = some (plain (err_head d))
stmt_of http response d = some no_stmt
stmt_of queue response d = none
stmt_of m subscribe d = none
stmt_of m (other t) d = none
