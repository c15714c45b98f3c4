-- ===== src/Validator/Models/Parts.antt =====
-- The parts of a model: `strings.SplitN(model, ".", 2)` splits it at its first dot.
use ssac.Base.{
  some_inj, ℕ, ◌≡◌, ◌≢◌, ◌⊎◌, inl, inr, refl, sym, ap, ap₂, ◌∙◌, [], ◌∷◌, ◌++◌, Option, none, some,
  arith,
}
use ssac.Text.{Text, index}
use ssac.Text.Cut.{
  Free, index-Free, index-splits, none-Free, index-none, take-length, drop-suc-length,
}
use ssac.Validator.Models.{model_parts}

index-cases : (r : Option ℕ) → (r ≡ none) ⊎ ((i : ℕ) × (r ≡ some i))
index-cases none = inl refl
index-cases (some i) = inr (i, refl)

-- The two parts of a model, against any split of it at its first dot.
pub model_parts-split :
    (model m f : Text) → Free b'.' m → model ≡ m ++ b'.' ∷ f → model_parts model ≡ some (m, f)
unfolding model_parts
model_parts-split model m f free e =
    ap model_parts e
    ∙ rw (index-Free b'.' m f free, model_parts)
        (ap some (ap₂ (λ p q. (p, q)) (take-length m (b'.' ∷ f)) (drop-suc-length m b'.' f)))

-- No parts and no dot, or the parts at the first dot.
unfoldable pub PartsOf : Text → Option (Text × Text) → Type 0
PartsOf model none = Free b'.' model
PartsOf model (some (m, f)) = Free b'.' m × (model ≡ m ++ b'.' ∷ f)

pub model_parts-PartsOf : (model : Text) → PartsOf model (model_parts model)
unfolding PartsOf model_parts
model_parts-PartsOf model = elim (index-cases (index b'.' model)) [
  | inl e ↦ rw (e, model_parts) (none-Free b'.' model e)
  | inr (i, e) ↦
      rw (e, model_parts) ((index-splits b'.' model i e).1, (index-splits b'.' model i e).0)
]

some_ne : (i : ℕ) → some i ≢ none
some_ne i e = ground arith

pub split_ne : (m f : Text) → m ++ b'.' ∷ f ≢ []
split_ne [] f e = cc
split_ne (x ∷ m) f e = cc

pub Free-no_split : (model m f : Text) → Free b'.' model → Free b'.' m → ¬ (model ≡ m ++ b'.' ∷ f)
Free-no_split model m f free free' e =
    some_ne _
      (sym (index-Free b'.' m f free') ∙ ap (index b'.') (sym e) ∙ index-none b'.' model free)

pub same_split :
    (model m f m' f' : Text)
    → Free b'.' m
    → model ≡ m ++ b'.' ∷ f
    → Free b'.' m'
    → model ≡ m' ++ b'.' ∷ f'
    → ◌≡◌ {A = Text × Text} (m, f) (m', f')
same_split model m f m' f' free e free' e' =
    some_inj (m, f) (m', f')
      (sym (model_parts-split model m f free e) ∙ model_parts-split model m' f' free' e')
