-- ===== src/Generator/Loop/Rounds.antt =====
-- Proofs by induction on the rounds of the loop over the sequences.
use ssac.Base.{
  ℕ, ◌+◌, ◌≡◌, List, [], ◌∷◌, Option, none, some, ok, Returns, bind-Returns, bind_eq-Returns,
  ok-Returns,
}
use ssac.Text.{Text}
use ssac.Parser.Types.{SeqType, Sequence}
use ssac.Generator.Go.{Tools}
use ssac.Generator.Data.{TemplateData, build_template_data}
use ssac.Generator.Templates.{execute_template}
use ssac.Generator.Loop.{
  GenError, Piece, step, Loop, Frame, commits_now, commit_first, last_commit, final_data, or_failed,
  next_loop, pieces,
}

or_failed-ok :
    (i : ℕ) (t : SeqType) (r : Option Text) (text : Text)
    → or_failed i t r ≡ ok text
    → r ≡ some text
or_failed-ok i t none text h = cc
or_failed-ok i t (some s) text h = cc

module _ (t : Tools) (f : Frame) (P : Loop → List Sequence → List Piece → Type 0)
    (at_end : (l : Loop) → P l [] (last_commit f l))
    (round : (l : Loop) (i : ℕ) (seq : Sequence) (seqs : List Sequence) (d : TemplateData)
        (text : Text) (ps : List Piece)
      → build_template_data t seq l.tracking f.types f.table f.use_tx {E = GenError} ≡ ok d
      → execute_template f.mode seq.type (final_data f l seq d) ≡ some text
      → P (next_loop f l seq d) seqs ps
      → P l (seq ∷ seqs) (
          commit_first
            (commits_now f l seq.type)
            (step seq.type (final_data f l seq d) text ∷ ps))) where
  pub pieces-Returns :
      (l : Loop) (i : ℕ) (seqs : List Sequence) → Returns (P l seqs) (pieces t f l i seqs)
  unfolding pieces
  pieces-Returns l i [] = ok-Returns GenError (P l []) _ (at_end l)
  pieces-Returns l i (seq ∷ seqs) =
      bind_eq-Returns (P l (seq ∷ seqs))
        (build_template_data t seq l.tracking f.types f.table f.use_tx {E = GenError}) _
        (λ d made.
          bind_eq-Returns (P l (seq ∷ seqs))
            (or_failed i seq.type (execute_template f.mode seq.type (final_data f l seq d))) _
            (λ text printed.
              bind-Returns (P (next_loop f l seq d) seqs) (P l (seq ∷ seqs)) _
                (λ ps. ok (
                  commit_first (commits_now f l seq.type)
                    (step seq.type (final_data f l seq d) text ∷ ps)))
                (pieces-Returns (next_loop f l seq d) (i + 1) seqs)
                (λ ps h.
                  ok-Returns GenError (P l (seq ∷ seqs)) _ (
                    round l i seq seqs d text ps made (or_failed-ok i seq.type _ text printed) h))))
