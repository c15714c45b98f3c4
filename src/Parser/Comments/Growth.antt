-- ===== src/Parser/Comments/Growth.antt =====
-- Comments only add sequences, so those of a function's file up to an earlier function come first
-- among the sequences of every later one.
use ssac.Base.{
  ℕ, ◌≤◌, ◌≡◌, refl, sym, ap, subst, ◌∙◌, fun_ext, ltb, true, false, List, [], ◌∷◌, ◌++◌,
  append_assoc, append-nil, arith, ok, fail, panic, ◌>>=◌, Returns, bind-Returns, ok-Returns,
  if-Returns, Returns-ok, Bool-cases, inl, inr,
}
use ssac.Text.{Text, codes, text_eq}
use ssac.Parser.Types.{Sequence, Parsed}
use ssac.Parser.Line.{Line, sequence, nothing, response_start, parse_line}
use ssac.Parser.Comments.{
  CommentState, initial, in_block, take_line, out_of_block, comment_step, comments_from,
  parse_comments,
}
use ssac.Parser.File.{CommentGroup, comments_before}

abbrev Extends : List Sequence → List Sequence → Type 0
Extends ss ss' = (more : List Sequence) × (ss' ≡ ss ++ more)

abbrev Grown : CommentState → CommentState → Type 0
Grown st st' = Extends st.sequences st'.sequences

same-Extends : (ss : List Sequence) → Extends ss ss
same-Extends ss = ([], sym (append-nil ss))

trans-Extends : (p q r : List Sequence) → Extends p q → Extends q r → Extends p r
trans-Extends p q r (m, e) (n, k) = (m ++ n, (rw k (rw e (append_assoc p m n))))

in_block-Grown : (st : CommentState) (line : Text) → Grown st (in_block st line)
unfolding in_block
in_block-Grown st line = elim (Bool-cases (text_eq line (codes "}"))) [
  | inl e ↦ rw (e, in_block) (_, refl)
  | inr e ↦ rw (e, in_block) (same-Extends st.sequences)
]

take_line-Grown :
    (st : CommentState) (line : Text) (m : Parsed Line)
    → Returns (Grown st) (m >>= λ parsed. ok (take_line st line parsed))
unfolding Returns
take_line-Grown st line (ok (sequence seq)) = (seq ∷ [], refl)
take_line-Grown st line (ok nothing) = same-Extends st.sequences
take_line-Grown st line (ok response_start) = same-Extends st.sequences
take_line-Grown st line (fail e) = tt
take_line-Grown st line panic = tt

comment_step-Grown : (st : CommentState) (text : Text) → Returns (Grown st) (comment_step st text)
unfolding comment_step out_of_block
comment_step-Grown st text =
    if-Returns (Grown st) _ _ _ (ok-Returns _ (Grown st) _ (in_block-Grown st _)) (
      if-Returns (Grown st) _ _ _ (ok-Returns _ (Grown st) st (same-Extends st.sequences))
        (take_line-Grown st _ (parse_line _)))

from_Grown :
    (st st' : CommentState) (m : Parsed CommentState)
    → Grown st st'
    → Returns (Grown st') m
    → Returns (Grown st) m
unfolding Returns
from_Grown st st' (ok st'') h k = trans-Extends st.sequences st'.sequences st''.sequences h k
from_Grown st st' (fail e) h k = tt
from_Grown st st' panic h k = tt

comments_from-Grown :
    (st : CommentState) (texts : List Text) → Returns (Grown st) (comments_from st texts)
unfolding comments_from
comments_from-Grown st [] = ok-Returns _ (Grown st) st (same-Extends st.sequences)
comments_from-Grown st (text ∷ texts) =
    bind-Returns (Grown st) (Grown st) (comment_step st text) _ (comment_step-Grown st text)
      (λ st' h. from_Grown st st' (comments_from st' texts) h (comments_from-Grown st' texts))

>>=_assoc :
    (m : Parsed CommentState) (f g : CommentState → Parsed CommentState)
    → (m >>= f) >>= g ≡ m >>= (λ st. f st >>= g)
>>=_assoc (ok st) f g = refl
>>=_assoc (fail e) f g = refl
>>=_assoc panic f g = refl

comments_from-append :
    (st : CommentState) (xs ys : List Text)
    → comments_from st (xs ++ ys) ≡ (comments_from st xs >>= λ st'. comments_from st' ys)
unfolding comments_from
comments_from-append st [] ys = refl
comments_from-append st (x ∷ xs) ys =
    ap (λ g. comment_step st x >>= g) (fun_ext (λ st'. comments_from-append st' xs ys))
    ∙ sym (>>=_assoc (comment_step st x) _ _)

-- The states behind two results.
sequences_of : Parsed CommentState → Parsed (List Sequence)
sequences_of m = do st ← m; ok st.sequences

abbrev parsed : List Sequence → Parsed (List Sequence)
parsed ss = ok ss

ok_inj : (p q : List Sequence) → parsed p ≡ parsed q → p ≡ q
ok_inj p q e = cc

split_result :
    (m : Parsed CommentState) (ys : List Text) (ss ss' : List Sequence)
    → sequences_of m ≡ ok ss
    → sequences_of (m >>= λ st'. comments_from st' ys) ≡ ok ss'
    → Extends ss ss'
unfolding sequences_of
split_result (ok st) ys ss ss' e k =
    subst (λ q. Extends q ss') (ok_inj st.sequences ss e)
      (Returns-ok (Extends st.sequences) (sequences_of (comments_from st ys)) ss' k (
        bind-Returns (Grown st) (Extends st.sequences) (comments_from st ys) _
          (comments_from-Grown st ys)
          (λ st' h. ok-Returns _ (Extends st.sequences) st'.sequences h)))
split_result (fail w) ys ss ss' e k = absurd (ground arith)
split_result panic ys ss ss' e k = absurd (ground arith)

pub parse_comments-prefix :
    (xs ys : List Text) (ss ss' : List Sequence)
    → parse_comments xs ≡ ok ss
    → parse_comments (xs ++ ys) ≡ ok ss'
    → Extends ss ss'
unfolding parse_comments sequences_of
parse_comments-prefix xs ys ss ss' e k =
    split_result (comments_from initial xs) ys ss ss' e
      (ap sequences_of (sym (comments_from-append initial xs ys)) ∙ k)

-- The groups as Go's parser lists them: each ends before the next one does.
abbrev pub Ascending : ℕ → List CommentGroup → Type 0
Ascending from [] = Unit
Ascending from (cg ∷ cgs) = (from ≤ cg.end) × Ascending cg.end cgs

none_before :
    (pos from : ℕ) (cgs : List CommentGroup)
    → pos ≤ from
    → Ascending from cgs
    → comments_before pos cgs ≡ []
unfolding comments_before
none_before pos from [] h a = refl
none_before pos from (cg ∷ cgs) h a = ground (arith, none_before pos cg.end cgs)

abbrev Prefixed : ℕ → ℕ → List CommentGroup → Type 0
Prefixed pos pos' cgs =
    (more : List Text) × (comments_before pos' cgs ≡ comments_before pos cgs ++ more)

prefix_step :
    (pos pos' : ℕ) (cg : CommentGroup) (cgs : List CommentGroup)
    → pos ≤ pos'
    → ltb cg.end pos ≡ true
    → Prefixed pos pos' cgs
    → Prefixed pos pos' (cg ∷ cgs)
unfolding comments_before
prefix_step pos pos' cg cgs h e (more, k) =
    (more, ground (arith, append_assoc cg.list (comments_before pos cgs) more))

later_only :
    (pos pos' : ℕ) (cg : CommentGroup) (cgs : List CommentGroup)
    → ltb cg.end pos ≡ false
    → Ascending cg.end cgs
    → Prefixed pos pos' (cg ∷ cgs)
later_only pos pos' cg cgs e a = (
  comments_before pos' (cg ∷ cgs),
  ap (◌++ comments_before pos' (cg ∷ cgs))
      (sym (none_before pos cg.end (cg ∷ cgs) (ground arith) (ground arith, a))),
)

comments_before-prefix :
    (pos pos' from : ℕ) (cgs : List CommentGroup)
    → pos ≤ pos'
    → Ascending from cgs
    → Prefixed pos pos' cgs
unfolding comments_before
comments_before-prefix pos pos' from [] h a = ([], refl)
comments_before-prefix pos pos' from (cg ∷ cgs) h a = elim (Bool-cases (ltb cg.end pos)) [
  | inl e ↦ prefix_step pos pos' cg cgs h e (comments_before-prefix pos pos' cg.end cgs h a.1)
  | inr e ↦ later_only pos pos' cg cgs e a.1
]

-- Of two functions of a file whose comment groups stand in their order, the sequences that the
-- comments make for the later one begin with all those that they make for the earlier one.
pub earlier_sequences_stay :
    (pos pos' from : ℕ) (cgs : List CommentGroup) (ss ss' : List Sequence)
    → pos ≤ pos'
    → Ascending from cgs
    → parse_comments (comments_before pos cgs) ≡ ok ss
    → parse_comments (comments_before pos' cgs) ≡ ok ss'
    → (more : List Sequence) × (ss' ≡ ss ++ more)
earlier_sequences_stay pos pos' from cgs ss ss' h a e k =
    let (more, p) = comments_before-prefix pos pos' from cgs h a in
    parse_comments-prefix (comments_before pos cgs) more ss ss' e (ap parse_comments (sym p) ∙ k)
