-- ===== src/Text/Sort/Order.antt =====
-- The order of texts, and that sorting forgets the order in which the texts came.
use ssac.Base.{◌≡◌, refl, sym, ◌∙◌, true, false, List, [], ◌∷◌, arith, Bool-cases, inl, inr}
use mathlib.Core.List.{Permᴰ}
use mathlib.Core.List.Permᴰ
use ssac.Text.{Text}
use ssac.Text.Sort.{text_less, insert_text, sort_texts}

less_trans : (r s t : Text) → text_less r s ≡ true → text_less s t ≡ true → text_less r t ≡ true
unfolding text_less
less_trans r s [] h k = cc
less_trans r [] (c ∷ t) h k = cc
less_trans [] (b ∷ s) (c ∷ t) h k = refl
less_trans (a ∷ r) (b ∷ s) (c ∷ t) h k = ground (arith, less_trans r s t)

less_asym : (s t : Text) → text_less s t ≡ true → text_less t s ≡ false
unfolding text_less
less_asym s [] h = cc
less_asym [] (b ∷ t) h = refl
less_asym (a ∷ s) (b ∷ t) h = ground (arith, less_asym s t)

-- Texts neither of which is smaller are the same.
less_none : (s t : Text) → text_less s t ≡ false → text_less t s ≡ false → s ≡ t
unfolding text_less
less_none [] [] h k = refl
less_none [] (b ∷ t) h k = cc
less_none (a ∷ s) [] h k = cc
less_none (a ∷ s) (b ∷ t) h k = grind (arith, less_none s t)

-- Where `s` is smaller, and `t` goes in later or earlier.
insert_text_swap :
    (s t : Text) (us : List Text)
    → text_less s t ≡ true
    → insert_text s (insert_text t us) ≡ insert_text t (insert_text s us)
unfolding insert_text
insert_text_swap s t [] h = grind (arith, less_asym s t)
insert_text_swap s t (u ∷ us) h = grind (
  arith,
  less_asym s t,
  less_trans u s t,
  less_asym s u,
  less_trans s t u,
  less_none,
  insert_text_swap s t us,
)

insert_text_comm :
    (s t : Text) (us : List Text)
    → insert_text s (insert_text t us) ≡ insert_text t (insert_text s us)
insert_text_comm s t us = elim (Bool-cases (text_less s t)) [
  | inl h ↦ insert_text_swap s t us h
  | inr h ↦ elim (Bool-cases (text_less t s)) [
    | inl k ↦ sym (insert_text_swap t s us k)
    | inr k ↦ rw (less_none s t h k) refl
  ]
]

-- Sorting gives one list for all orders of the same texts.
pub sort_texts-Perm : {ss ts : List Text} → Permᴰ ss ts → sort_texts ss ≡ sort_texts ts
unfolding sort_texts
sort_texts-Perm Permᴰ.nil = refl
sort_texts-Perm (Permᴰ.cons e p) = rw (e, sort_texts-Perm p) refl
sort_texts-Perm (Permᴰ.swap {a} {b} {a'} {b'} {l} e f) =
    rw (e, f) (insert_text_comm b' a' (sort_texts l))
sort_texts-Perm (Permᴰ.trans p q) = sort_texts-Perm p ∙ sort_texts-Perm q

insert_text-Perm : (s : Text) (ts : List Text) → Permᴰ (s ∷ ts) (insert_text s ts)
unfolding insert_text
insert_text-Perm s [] = Permᴰ.refl (s ∷ [])
insert_text-Perm s (t ∷ ts) = elim (Bool-cases (text_less t s)) [
  | inl e ↦ rw e (Permᴰ.trans (Permᴰ.swap refl refl) (Permᴰ.cons refl (insert_text-Perm s ts)))
  | inr e ↦ rw e (Permᴰ.refl (s ∷ t ∷ ts))
]

-- Sorting keeps the texts.
pub Perm-sort_texts : (ss : List Text) → Permᴰ ss (sort_texts ss)
unfolding sort_texts
Perm-sort_texts [] = Permᴰ.nil
Perm-sort_texts (s ∷ ss) =
    Permᴰ.trans (Permᴰ.cons refl (Perm-sort_texts ss)) (insert_text-Perm s (sort_texts ss))
