-- ===== src/Text/Cut.antt =====
-- Where a text is cut: `index`, `last_index`, `split`, prefixes and suffixes, at a character that
-- the parts around it do not hold.
use ssac.Base.{
  ℕ, suc, ◌+◌, ◌≡◌, refl, ap, ◌∙◌, ◌≢◌, ◌⊎◌, inl, inr, true, [], ◌∷◌, ◌++◌, Option, none, some,
  arith, ◌==◌, ==_ne, ==_self, length, take, drop, All, Bool-cases,
}
use ssac.Text.{
  Text, text_eq, has_prefix, ends_with, drop_last, trim_suffix, index, after_one, last_index, split,
}

-- `c` does not occur in `s`.
abbrev pub Free : ℕ → Text → Type 0
Free c s = All (λ x. x ≢ c) s

pub Free-append : (c : ℕ) (s t : Text) → Free c s → Free c t → Free c (s ++ t)
Free-append c [] t h k = k
Free-append c (x ∷ s) t h k = (h.0, Free-append c s t h.1 k)

pub take-length : (s t : Text) → take (length s) (s ++ t) ≡ s
unfolding take drop
take-length [] t = refl
take-length (x ∷ s) t = ap (◌∷◌ x) (take-length s t)

pub drop-length : (s t : Text) → drop (length s) (s ++ t) ≡ t
unfolding take drop
drop-length [] t = refl
drop-length (x ∷ s) t = drop-length s t

pub drop-suc-length : (s : Text) (c : ℕ) (t : Text) → drop (suc (length s)) (s ++ c ∷ t) ≡ t
unfolding take drop
drop-suc-length [] c t = refl
drop-suc-length (x ∷ s) c t = drop-suc-length s c t

pub take-suc-length :
    (s : Text) (c : ℕ) (t : Text) → take (suc (length s)) (s ++ c ∷ t) ≡ s ++ c ∷ []
unfolding take drop
take-suc-length [] c t = refl
take-suc-length (x ∷ s) c t = ap (◌∷◌ x) (take-suc-length s c t)

pub index-Free : (c : ℕ) (s t : Text) → Free c s → index c (s ++ c ∷ t) ≡ some (length s)
unfolding index
index-Free c [] t h = rw ==_self
index-Free c (x ∷ s) t h = rw (==_ne x c h.0, index-Free c s t h.1)

pub index-none : (c : ℕ) (s : Text) → Free c s → index c s ≡ none
unfolding index
index-none c [] h = refl
index-none c (x ∷ s) h = rw (==_ne x c h.0, index-none c s h.1)

-- Behind a part without `c`, the first `c` stands at or behind that part's end.
pub index-behind :
    (c : ℕ) (s t : Text)
    → Free c s
    → (index c (s ++ t) ≡ none) ⊎ ((i : ℕ) × (index c (s ++ t) ≡ some (length s + i)))
unfolding index
index-behind c [] t h = elim (index c t) as (λ r. (r ≡ none) ⊎ ((i : ℕ) × (r ≡ some (0 + i)))) [
  | none ↦ inl refl
  | some i ↦ inr (i, ap some (omega arith))
]
index-behind c (x ∷ s) t h = elim (index-behind c s t h.1) [
  | inl e ↦ inl (rw (==_ne x c h.0, e))
  | inr (i, e) ↦ inr (i, rw (==_ne x c h.0, e) (ap some (omega arith)))
]

-- So too behind a part without `c` and one more character that is not `c`.
pub index-past :
    (c : ℕ) (s : Text) (x : ℕ) (t : Text)
    → Free c s
    → x ≢ c
    → (index c (s ++ x ∷ t) ≡ none) ⊎ ((i : ℕ) × (index c (s ++ x ∷ t) ≡ some (suc (length s + i))))
unfolding index
index-past c [] x t h ne = elim (index-behind c (x ∷ []) t (ne, tt)) [
  | inl e ↦ inl e
  | inr (i, e) ↦ inr (i, e ∙ ap some (omega arith))
]
index-past c (y ∷ s) x t h ne = elim (index-past c s x t h.1 ne) [
  | inl e ↦ inl (rw (==_ne y c h.0, e))
  | inr (i, e) ↦ inr (i, rw (==_ne y c h.0, e) (ap some (omega arith)))
]

pub last_index-none : (c : ℕ) (s : Text) → Free c s → last_index c s ≡ none
unfolding last_index
last_index-none c [] h = refl
last_index-none c (x ∷ s) h = rw (last_index-none c s h.1, last_index) (rw (==_ne x c h.0))

pub last_index-Free : (c : ℕ) (s t : Text) → Free c t → last_index c (s ++ c ∷ t) ≡ some (length s)
unfolding last_index
last_index-Free c [] t h = rw (last_index-none c t h, last_index) (rw ==_self)
last_index-Free c (x ∷ s) t h = rw (last_index-Free c s t h, last_index)

pub split-Free : (c : ℕ) (s : Text) → Free c s → split c s ≡ s ∷ []
unfolding split
split-Free c [] h = refl
split-Free c (x ∷ s) h = rw (==_ne x c h.0, split-Free c s h.1)

pub split-ne-nil : (c : ℕ) (s : Text) → split c s ≢ []
unfolding split
split-ne-nil c [] h = cc
split-ne-nil c (x ∷ s) h = ground (arith, split-ne-nil c s)

pub split-append : (c : ℕ) (s t : Text) → Free c s → split c (s ++ c ∷ t) ≡ s ∷ split c t
unfolding split
split-append c [] t h = rw ==_self
split-append c (x ∷ s) t h = rw (==_ne x c h.0, split-append c s t h.1)

pub has_prefix-append : (p s : Text) → has_prefix p (p ++ s) ≡ true
unfolding has_prefix
has_prefix-append [] s = refl
has_prefix-append (a ∷ p) s = rw (==_self a) (has_prefix-append p s)

pub ends_with-last : (c : ℕ) (s : Text) → ends_with c (s ++ c ∷ []) ≡ true
unfolding ends_with
ends_with-last c [] = ==_self c
ends_with-last c (x ∷ []) = ==_self c
ends_with-last c (x ∷ y ∷ s) = ends_with-last c (y ∷ s)

pub drop_last-last : (c : ℕ) (s : Text) → drop_last (s ++ c ∷ []) ≡ s
unfolding drop_last
drop_last-last c [] = refl
drop_last-last c (x ∷ []) = refl
drop_last-last c (x ∷ y ∷ s) = ap (◌∷◌ x) (drop_last-last c (y ∷ s))

pub trim_suffix-last : (c : ℕ) (s : Text) → trim_suffix c (s ++ c ∷ []) ≡ s
trim_suffix-last c s = unfold trim_suffix in rw (ends_with-last c s) (drop_last-last c s)

pub text_eq_iff : (s t : Text) → (text_eq s t ≡ true → s ≡ t) × (s ≡ t → text_eq s t ≡ true)
unfolding text_eq
text_eq_iff [] [] = (λ _. refl, λ _. refl)
text_eq_iff [] (b ∷ t) = (λ h. cc, λ h. cc)
text_eq_iff (a ∷ s) [] = (λ h. cc, λ h. cc)
text_eq_iff (a ∷ s) (b ∷ t) =
    (λ h. ground (arith, text_eq_iff s t), λ h. ground (arith, text_eq_iff s t))

pub text_eq_self : (s : Text) → text_eq s s ≡ true
text_eq_self s = (text_eq_iff s s).1 refl

-- A found position splits the text at the first `c`.
abbrev pub SplitsAt : ℕ → Text → ℕ → Type 0
SplitsAt c s i = (s ≡ take i s ++ c ∷ drop (suc i) s) × Free c (take i s)

SplitsAt-here : (c : ℕ) (x : ℕ) (s : Text) → x ≡ c → SplitsAt c (x ∷ s) 0
unfolding take drop
SplitsAt-here c x s e = (rw e, tt)

SplitsAt-later : (c x : ℕ) (s : Text) (i : ℕ) → x ≢ c → SplitsAt c s i → SplitsAt c (x ∷ s) (suc i)
unfolding take drop
SplitsAt-later c x s i ne (e, f) = (ap (◌∷◌ x) e, (ne, f))

after_one-eq-some :
    (r : Option ℕ) (i : ℕ) → after_one r ≡ some i → (j : ℕ) × (r ≡ some j) × (i ≡ suc j)
after_one-eq-some none i h = cc
after_one-eq-some (some j) i h = (j, refl, ground arith)

pub index-splits : (c : ℕ) (s : Text) (i : ℕ) → index c s ≡ some i → SplitsAt c s i
unfolding index
index-splits c [] i h = cc
index-splits c (x ∷ s) i h = elim (Bool-cases (x == c)) [
  | inl same ↦
      let zero_at : i ≡ 0 = ground (arith, rw same at h) in
      rw zero_at (SplitsAt-here c x s (ground arith))
  | inr differs ↦
      let (j, found, e) = after_one-eq-some (index c s) i (rw differs at h) in
      rw e (SplitsAt-later c x s j (ground arith) (index-splits c s j found))
]

pub none-Free : (c : ℕ) (s : Text) → index c s ≡ none → Free c s
unfolding index
none-Free c [] h = tt
none-Free c (x ∷ s) h = (ground arith, none-Free c s (ground arith))
