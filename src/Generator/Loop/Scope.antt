-- ===== src/Generator/Loop/Scope.antt =====
-- Go's rules on declared names, for the statements that the templates begin with, and which
-- sequences keep to them. No part of the program: it says what the Go compiler asks of the code.
mod Heads
pub mod Made
mod Kinds
pub mod Kept
use ssac.Base.{
  Bool, true, false, not, ◌&&◌, ◌||◌, List, [], ◌∷◌, ◌++◌, Option, none, some, any, if◌then◌else◌,
}
use ssac.Text.{Text, codes, text_eq}
use ssac.Dict.{member}
use ssac.Parser.Types.{
  SeqType, get, post, put, delete, empty, exists, state, auth, call, publish, response, subscribe,
  other, Binding, Sequence,
}
use ssac.Generator.Args.{has_query_input}
use ssac.Generator.Tracking.{declare_result}
use ssac.Generator.Data.{is_list}
use ssac.Generator.Statements.{Mode, Head, Stmt, plain, in_if, no_stmt, stmt_of}
use ssac.Generator.Loop.{Piece, commit, step}

abbrev is_blank : Text → Bool
is_blank x = text_eq (codes "_") x

-- `x` is declared anew by `:=` where `scope` is declared.
abbrev is_new : List Text → Text → Bool
is_new scope x = not (is_blank x || member x scope)

unfoldable pub any_new : List Text → List Text → Bool
unfolding member text_eq
any_new scope [] = false
any_new scope (x ∷ xs) = is_new scope x || any_new scope xs

unfoldable pub all_known : List Text → List Text → Bool
unfolding member text_eq
all_known scope [] = true
all_known scope (x ∷ xs) = (is_blank x || member x scope) && all_known scope xs

-- No name but the blank one stands twice.
unfoldable pub no_repeats : List Text → Bool
unfolding member text_eq
no_repeats [] = true
no_repeats (x ∷ xs) = (is_blank x || not (member x xs)) && no_repeats xs

-- `:=` needs a new name and no name twice, `=` needs all names declared. In the head of an `if`, a
-- scope of its own begins.
unfoldable pub admits_head : List Text → List Text → Head → Bool
unfolding any_new all_known no_repeats
admits_head inner scope h =
    if h.defines then any_new inner h.names && no_repeats h.names else all_known scope h.names

unfoldable pub admits : List Text → Stmt → Bool
unfolding admits_head
admits scope (plain h) = admits_head scope scope h
admits scope (in_if h) = admits_head [] scope h
admits scope no_stmt = true

-- The names declared behind a statement.
unfoldable pub declared_behind : List Text → Stmt → List Text
declared_behind scope (plain h) = if h.defines then h.names ++ scope else scope
declared_behind scope (in_if h) = scope
declared_behind scope no_stmt = scope

-- The same, if there is a statement at all.
abbrev pub admits_any : List Text → Option Stmt → Bool
admits_any scope none = false
admits_any scope (some s) = admits scope s

abbrev pub declared_behind_any : List Text → Option Stmt → List Text
declared_behind_any scope none = scope
declared_behind_any scope (some s) = declared_behind scope s

-- Every statement of the pieces keeps to the rules; the commit is `if err = tx.Commit(); ...`.
unfoldable pub admits_all : Mode → List Text → List Piece → Bool
unfolding admits declared_behind stmt_of member
admits_all m scope [] = true
admits_all m scope (commit ∷ ps) = member (codes "err") scope && admits_all m scope ps
admits_all m scope (step t d text ∷ ps) =
    admits_any scope (stmt_of m t d) && admits_all m (declared_behind_any scope (stmt_of m t d)) ps

-- The kinds whose templates name the result.
unfoldable pub names_result : SeqType → Bool
names_result get = true
names_result post = true
names_result call = true
names_result _ = false

-- An @auth, or a call without a result: its `err` is declared in an `if` only.
unfoldable pub is_if_scoped : SeqType → Option Binding → Bool
is_if_scoped auth r = true
is_if_scoped call none = true
is_if_scoped _ r = false

-- The kinds whose code declares `err` for what stands below.
unfoldable pub declares_err : SeqType → Option Binding → Bool
declares_err get r = true
declares_err post r = true
declares_err put r = true
declares_err delete r = true
declares_err publish r = true
declares_err call (some r) = true
declares_err _ r = false

abbrev pub is_get : SeqType → Bool
is_get get = true
is_get _ = false

-- A @get that gives a total too.
unfoldable pub gives_total : Sequence → Bool
unfolding has_query_input
gives_total seq = is_get seq.type && (has_query_input seq.inputs && is_list seq.result)

-- Names that a result must not have: the blank, `err`, `total`, and what is declared above the
-- sequences.
abbrev pub taken : List Text → List Text
taken outer = codes "_" ∷ codes "err" ∷ codes "total" ∷ outer

-- A result has a name of its own and stands where its template names it; a total comes with a
-- result that is used and new.
unfoldable pub result_fits :
    List Text → List Text → List Text → SeqType → Bool → Option Binding → Bool
unfolding member names_result
result_fits used outer declared t total none = true
result_fits used outer declared t total (some r) =
    names_result t
    && not (member r.name (taken outer))
    && (not total || (member r.name used && not (member r.name declared)))

-- Sequences whose code keeps to the rules. `err` says whether `err` is declared.
unfoldable pub fits : List Text → List Text → List Text → Bool → List Sequence → Bool
unfolding result_fits is_if_scoped declares_err gives_total
fits used outer declared err [] = true
fits used outer declared err (seq ∷ seqs) =
    result_fits used outer declared seq.type (gives_total seq) seq.result
    && (err || not (is_if_scoped seq.type seq.result))
    && fits used outer (declare_result seq.result declared)
        (declares_err seq.type seq.result || err) seqs
