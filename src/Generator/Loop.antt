-- ===== src/Generator/Loop.antt =====
-- generator/go_handler.go: the loop over a function's sequences, of both kinds of handlers.
pub mod Rounds
pub mod Commits
pub mod Scope
pub mod Total
use ssac.Base.{
  ℕ, ◌+◌, Bool, true, false, not, ◌&&◌, ◌||◌, List, [], ◌∷◌, Option, none, some, if◌then◌else◌, ok,
  fail, Outcome, ◌>>=◌,
}
use ssac.Text.{Text}
use ssac.Dict.{Dict, member}
use ssac.Parser.Types.{SeqType, Binding, Sequence, ServiceFunc}
use ssac.Validator.Symbols.{SymbolTable}
use ssac.Validator.Rules.{is_response}
use ssac.Generator.Go.{Tools}
use ssac.Generator.Params.{RequestParam}
use ssac.Generator.Imports.{has_write_sequence}
use ssac.Generator.Helpers.{has_conversion_err, collect_used_vars}
use ssac.Generator.Tracking.{Tracking, track}
use ssac.Generator.Data.{TemplateData, build_template_data, result_types}
use ssac.Generator.Statements.{Mode, http, queue}
use ssac.Generator.Templates.{execute_template}

pub data GenError : Type 0 where
  -- the sequence whose template failed
  template_failed : ℕ → SeqType → GenError
  gofmt_failed : Text → GenError

-- One piece of a body.
pub data Piece : Type 0 where
  -- the commit of the transaction
  commit : Piece
  -- a sequence's template, with what it was given and what it gave
  step : SeqType → TemplateData → Text → Piece

abbrev pub is_unused : List Text → Option Binding → Bool
is_unused used none = false
is_unused used (some r) = not (member r.name used)

-- A result that nothing uses is not named.
unfoldable pub drop_unused : List Text → Option Binding → TemplateData → TemplateData
unfolding member
drop_unused used r d =
    if is_unused used r
    then record d { unused = true; re_assign = d.err_declared || d.re_assign }
    else d

-- In a response, whether any list before it came with a total.
unfoldable pub response_total : SeqType → Bool → TemplateData → TemplateData
response_total t total d = if is_response t then record d { has_total = total } else d

-- The variables of the loop over the sequences.
pub record Loop : Type 0 where
  pub tracking : Tracking
  pub committed : Bool
  pub total : Bool

-- What the loop does not change.
pub record Frame : Type 0 where
  pub mode : Mode
  pub use_tx : Bool
  pub used : List Text
  pub types : Dict Text
  pub table : Option SymbolTable

abbrev pub commits_now : Frame → Loop → SeqType → Bool
commits_now f l t = f.use_tx && (is_response t && not l.committed)

abbrev pub commit_first : Bool → List Piece → List Piece
commit_first true ps = commit ∷ ps
commit_first false ps = ps

abbrev pub next_loop : Frame → Loop → Sequence → TemplateData → Loop
next_loop f l seq d = record {
  tracking = track seq l.tracking;
  committed = commits_now f l seq.type || l.committed;
  total = d.has_total || l.total;
}

-- The end of the loop: the commit, if there has been none.
abbrev pub last_commit : Frame → Loop → List Piece
last_commit f l = if f.use_tx && not l.committed then commit ∷ [] else []

-- The data that the template is given.
unfoldable pub final_data : Frame → Loop → Sequence → TemplateData → TemplateData
unfolding drop_unused response_total
final_data f l seq d =
    response_total seq.type (d.has_total || l.total) (drop_unused f.used seq.result d)

abbrev pub or_failed : ℕ → SeqType → Option Text → Outcome GenError Text
or_failed i t none = fail (template_failed i t)
or_failed i t (some text) = ok text

abbrev pub frame : Mode → ServiceFunc → Option SymbolTable → Frame
frame m sf st = record {
  mode = m;
  use_tx = has_write_sequence sf.sequences;
  used = collect_used_vars sf.sequences [];
  types = result_types [] sf.sequences;
  table = st;
}

abbrev pub start : Bool → Loop
start err_declared = record {
  tracking = record { err_declared = err_declared; declared = [] };
  committed = false;
  total = false;
}

module _ (t : Tools) where
  -- The loop of both handlers. A queue handler has no template for a response, so that its commit
  -- comes last.
  unfoldable pub pieces : Frame → Loop → ℕ → List Sequence → Outcome GenError (List Piece)
  unfolding build_template_data final_data track execute_template
  pieces f l i [] = ok (last_commit f l)
  pieces f l i (seq ∷ seqs) = do
    d ← build_template_data t seq l.tracking f.types f.table f.use_tx
    text ← or_failed i seq.type (execute_template f.mode seq.type (final_data f l seq d))
    rest ← pieces f (next_loop f l seq d) (i + 1) seqs
    ok (commit_first (commits_now f l seq.type) (step seq.type (final_data f l seq d) text ∷ rest))

  -- The pieces of a HTTP handler's body, and of a queue handler's.
  unfoldable pub http_pieces :
      ServiceFunc → Option SymbolTable → List RequestParam → Outcome GenError (List Piece)
  unfolding pieces has_write_sequence collect_used_vars result_types has_conversion_err
  http_pieces sf st params =
      pieces (frame http sf st)
        (start (has_conversion_err params || has_write_sequence sf.sequences)) 0 sf.sequences

  unfoldable pub subscribe_pieces : ServiceFunc → Option SymbolTable → Outcome GenError (List Piece)
  unfolding pieces has_write_sequence collect_used_vars result_types
  subscribe_pieces sf st =
      pieces (frame queue sf st) (start (has_write_sequence sf.sequences)) 0 sf.sequences
