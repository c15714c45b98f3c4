-- ===== src/Generator/Loop/Commits.antt =====
-- Where the pieces of a body commit the transaction.
use ssac.Base.{
  ℕ, ◌≡◌, refl, Bool, true, false, not, ◌&&◌, ◌||◌, List, [], ◌∷◌, Option, ok, Returns, Returns-ok,
  subst, Bool-cases, inl, inr, if◌then◌else◌,
}
use ssac.Text.{Text}
use ssac.Parser.Types.{SeqType, Sequence, ServiceFunc}
use ssac.Validator.Symbols.{SymbolTable}
use ssac.Validator.Rules.{is_response}
use ssac.Generator.Go.{Tools}
use ssac.Generator.Params.{RequestParam}
use ssac.Generator.Imports.{has_write_sequence}
use ssac.Generator.Helpers.{has_conversion_err}
use ssac.Generator.Data.{TemplateData}
use ssac.Generator.Statements.{http, queue}
use ssac.Generator.Loop.Rounds.{pieces-Returns}
use ssac.Generator.Loop.{
  Piece, commit, step, Loop, Frame, commit_first, start, frame, pieces, http_pieces,
  subscribe_pieces,
}

-- Nothing, or a response at once.
AnswersNext : List Piece → Type 0
AnswersNext [] = Unit
AnswersNext (commit ∷ ps) = ⊥
AnswersNext (step t d text ∷ ps) = is_response t ≡ true

-- From a place where a transaction is open, or is not: an open transaction is committed once,
-- before any response and either just before one or at the end; without one, nothing is committed.
unfoldable pub CommitsOnce : Bool → List Piece → Type 0
unfolding AnswersNext
CommitsOnce true [] = ⊥
CommitsOnce true (commit ∷ ps) = AnswersNext ps × CommitsOnce false ps
CommitsOnce true (step t d text ∷ ps) = (is_response t ≡ false) × CommitsOnce true ps
CommitsOnce false [] = Unit
CommitsOnce false (commit ∷ ps) = ⊥
CommitsOnce false (step t d text ∷ ps) = CommitsOnce false ps

end :
    (use_tx committed : Bool)
    → CommitsOnce (use_tx && not committed) (if use_tx && not committed then commit ∷ [] else [])
unfolding CommitsOnce
end true true = tt
end true false = (tt, tt)
end false committed = tt

open_round :
    (t : SeqType) (d : TemplateData) (text : Text) (ps : List Piece)
    → CommitsOnce (not ((is_response t && true) || false)) ps
    → CommitsOnce true (commit_first (is_response t && true) (step t d text ∷ ps))
unfolding CommitsOnce
open_round t d text ps h = elim (Bool-cases (is_response t)) [
  | inl e ↦ rw (e, commit_first) ((e, rw e at h))
  | inr e ↦ rw (e, commit_first) ((e, rw e at h))
]

round :
    (use_tx committed : Bool) (t : SeqType) (d : TemplateData) (text : Text) (ps : List Piece)
    → CommitsOnce (use_tx && not ((use_tx && (is_response t && not committed)) || committed)) ps
    → CommitsOnce
        (use_tx && not committed)
        (commit_first (use_tx && (is_response t && not committed)) (step t d text ∷ ps))
unfolding CommitsOnce
round false committed t d text ps h = h
round true true t d text ps h =
    elim (is_response t)
        as (λ r.
          CommitsOnce (true && not ((true && (r && not true)) || true)) ps
          → CommitsOnce (true && not true)
              (commit_first (true && (r && not true)) (step t d text ∷ ps))) [
                | true ↦ λ k. k
                | false ↦ λ k. k
              ]
      h
round true false t d text ps h = open_round t d text ps h

pub pieces-CommitsOnce :
    (t : Tools) (f : Frame) (l : Loop) (i : ℕ) (seqs : List Sequence)
    → Returns (CommitsOnce (f.use_tx && not l.committed)) (pieces t f l i seqs)
pieces-CommitsOnce t f =
    pieces-Returns t f (λ l seqs ps. CommitsOnce (f.use_tx && not l.committed) ps)
      (λ l. end f.use_tx l.committed)
      (λ l i seq seqs d text ps made printed. round f.use_tx l.committed seq.type _ text ps)

and_true : (b : Bool) → (b && true) ≡ b
and_true true = refl
and_true false = refl

-- The pieces of a HTTP handler's body, where a transaction is open in front of them exactly if the
-- function writes.
pub http_pieces-CommitsOnce :
    (t : Tools) (sf : ServiceFunc) (st : Option SymbolTable) (params : List RequestParam)
    (ps : List Piece)
    → http_pieces t sf st params ≡ ok ps
    → CommitsOnce (has_write_sequence sf.sequences) ps
unfolding http_pieces
http_pieces-CommitsOnce t sf st params ps made =
    let shown = Returns-ok _ _ ps made (
      pieces-CommitsOnce t (frame http sf st)
        (start (has_conversion_err params || has_write_sequence sf.sequences)) 0 sf.sequences) in
    subst (λ b. CommitsOnce b ps) (and_true (has_write_sequence sf.sequences)) shown

-- The same for a queue handler.
pub subscribe_pieces-CommitsOnce :
    (t : Tools) (sf : ServiceFunc) (st : Option SymbolTable) (ps : List Piece)
    → subscribe_pieces t sf st ≡ ok ps
    → CommitsOnce (has_write_sequence sf.sequences) ps
unfolding subscribe_pieces
subscribe_pieces-CommitsOnce t sf st ps made =
    let shown = Returns-ok _ _ ps made (
      pieces-CommitsOnce t (frame queue sf st) (start (has_write_sequence sf.sequences)) 0
        sf.sequences) in
    subst (λ b. CommitsOnce b ps) (and_true (has_write_sequence sf.sequences)) shown
