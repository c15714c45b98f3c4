-- ===== src/Validator/Rules/Loops.antt =====
-- A loop over the sequences reports nothing exactly when no round of it does.
use ssac.Base.{
  ℕ, ◌+◌, ◌≡◌, ◌↔◌, refl, arith, Bool, false, List, [], ◌∷◌, ◌++◌, All, append-eq-nil,
  append-nil_nil, All-map, flat_map, flat_map-nil, nil-flat_map,
}
use ssac.Parser.Types.{Sequence, ServiceFunc}
use ssac.Validator.Errors.{ValidationError, ErrCtx, when}
use ssac.Validator.Rules.{each_from}

module _ (check : ErrCtx → Sequence → List ValidationError) (P : Sequence → Type 0)
    (iff : (c : ErrCtx) (seq : Sequence) → (check c seq ≡ []) ↔ P seq) where
  each_from-All :
      (sf : ServiceFunc) (i : ℕ) (seqs : List Sequence)
      → each_from check sf i seqs ≡ []
      → All P seqs
  unfolding each_from
  each_from-All sf i [] h = tt
  each_from-All sf i (seq ∷ seqs) h =
      let (first, rest) = append-eq-nil (check _ seq) _ h in
      ((iff _ seq).0 first, each_from-All sf (i + 1) seqs rest)

  All-each_from :
      (sf : ServiceFunc) (i : ℕ) (seqs : List Sequence)
      → All P seqs
      → each_from check sf i seqs ≡ []
  unfolding each_from
  All-each_from sf i [] h = refl
  All-each_from sf i (seq ∷ seqs) h =
      append-nil_nil ((iff _ seq).1 h.0) (All-each_from sf (i + 1) seqs h.1)

  pub each_from-nil :
      (sf : ServiceFunc) (seqs : List Sequence) → (each_from check sf 0 seqs ≡ []) ↔ All P seqs
  each_from-nil sf seqs = (each_from-All sf 0 seqs, All-each_from sf 0 seqs)

-- The same for a loop over texts.
pub flat_map-nil_iff :
    {A : Type 0} (f : A → List ValidationError) (P : A → Type 0)
    → ((a : A) → (f a ≡ []) ↔ P a)
    → (xs : List A) → (flat_map f xs ≡ []) ↔ All P xs
flat_map-nil_iff f P iff xs = (
  λ h. All-map (λ a. (iff a).0) xs (flat_map-nil f xs h),
  λ h. nil-flat_map f xs (All-map (λ a. (iff a).1) xs h),
)

pub when-nil : (b : Bool) (e : ValidationError) → (when b e ≡ []) ↔ (b ≡ false)
when-nil b e = (λ h. ground arith, λ h. ground arith)

pub append-nil_iff : {A : Type 0} (xs ys : List A) → (xs ++ ys ≡ []) ↔ ((xs ≡ []) × (ys ≡ []))
append-nil_iff xs ys = (append-eq-nil xs ys, λ h. append-nil_nil h.0 h.1)

pub trans_iff : {A B C : Type 0} → A ↔ B → B ↔ C → A ↔ C
trans_iff f g = (λ a. g.0 (f.0 a), λ c. f.1 (g.1 c))

pub both_iff : {A B C D : Type 0} → A ↔ B → C ↔ D → (A × C) ↔ (B × D)
both_iff f g = (λ p. (f.0 p.0, g.0 p.1), λ p. (f.1 p.0, g.1 p.1))
