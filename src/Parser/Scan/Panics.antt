-- ===== src/Parser/Scan/Panics.antt =====
-- Where `extractInputs` panics: only its slice can.
use ssac.Base.{
  ℕ, ◌+◌, ◌<◌, ◌≡◌, ◌≢◌, ◌↔◌, ◌⊎◌, inl, inr, refl, subst, ltb, List, [], ◌∷◌, Option, none, some,
  arith, ok, fail, panic, ◌>>=◌, Bool-cases,
}
use ssac.Text.{Text, split, index}
use ssac.Dict.{Dict}
use ssac.Parser.Types.{Parsed}
use ssac.Parser.Scan.{
  input_pair, inputs_onto, inputs_of, parse_inputs, inside_braces, inputs_cut, inputs_between,
  extract_inputs,
}

-- The result is a value or an error.
Returned : {A : Type 0} → Parsed A → Type 0
Returned (ok a) = Unit
Returned (fail e) = Unit
Returned panic = ⊥

bind-Returned :
    {A B : Type 0} (m : Parsed A) (f : A → Parsed B)
    → Returned m
    → ((a : A) → Returned (f a))
    → Returned (m >>= f)
unfolding Returned
bind-Returned (ok a) f h k = k a
bind-Returned (fail e) f h k = tt
bind-Returned panic f h k = absurd h

Returned-ne_panic : {A : Type 0} (m : Parsed A) → Returned m → m ≢ panic
unfolding Returned
Returned-ne_panic m h e = subst Returned e h

option_cases : (r : Option ℕ) → (r ≡ none) ⊎ ((i : ℕ) × (r ≡ some i))
option_cases none = inl refl
option_cases (some i) = inr (i, refl)

input_pair-Returned : (m : Dict Text) (s : Text) → Returned (input_pair m s)
unfolding Returned input_pair
input_pair-Returned m [] = tt
input_pair-Returned m (c ∷ s) = elim (option_cases (index b':' (c ∷ s))) [
  | inl e ↦ rw (e, input_pair) tt
  | inr (i, e) ↦ rw (e, input_pair) tt
]

inputs_onto-Returned : (m : Dict Text) (pairs : List Text) → Returned (inputs_onto m pairs)
unfolding Returned inputs_onto
inputs_onto-Returned m [] = tt
inputs_onto-Returned m (pair ∷ pairs) =
    bind-Returned (input_pair m _) _ (input_pair-Returned m _) (λ m'. inputs_onto-Returned m' pairs)

inputs_of-Returned : (s : Text) → Returned (inputs_of s)
unfolding Returned inputs_of
inputs_of-Returned [] = tt
inputs_of-Returned (c ∷ s) = inputs_onto-Returned [] (split b',' (c ∷ s))

inputs_cut-Returned : (block rest : Text) → Returned (inputs_cut block rest)
unfolding Returned inputs_cut parse_inputs
inputs_cut-Returned block rest =
    bind-Returned (inputs_of (inside_braces block)) _ (inputs_of-Returned (inside_braces block))
      (λ m. tt)

-- The first closing brace stands before the first opening one, and not directly before it.
abbrev pub BracesCrossed : Text → Type 0
BracesCrossed s =
    (i : ℕ) × (j : ℕ) × (index b'{' s ≡ some i) × (index b'}' s ≡ some j) × (j + 1 < i)

abbrev Found : Option ℕ → Option ℕ → Type 0
Found p q = (i : ℕ) × (j : ℕ) × (p ≡ some i) × (q ≡ some j) × (j + 1 < i)

inputs_between-panic : (s : Text) (i j : ℕ) → (inputs_between s i j ≡ panic) ↔ (j + 1 < i)
unfolding inputs_between
inputs_between-panic s i j = elim (Bool-cases (ltb (j + 1) i)) [
  | inl e ↦ rw (e, inputs_between) (λ h. ground arith, λ h. refl)
  | inr e ↦
      rw (e, inputs_between)
        (λ h. absurd (Returned-ne_panic _ (inputs_cut-Returned _ _) h), λ h. absurd (ground arith))
]

some_eq : (i j : ℕ) → some i ≡ some j → i ≡ j
some_eq i j e = cc

abbrev cut_at : Text → Option ℕ → Option ℕ → Parsed (Dict Text × Text)
cut_at s p q = elim p [
  | none ↦ ok ([], s)
  | some i ↦ elim q [ none ↦ ok ([], s) | some j ↦ inputs_between s i j ]
]

crossed_iff : (s : Text) (p q : Option ℕ) → (cut_at s p q ≡ panic) ↔ Found p q
crossed_iff s none q = (λ h. absurd (ground arith), λ (i, j, e, k, l). absurd (ground arith))
crossed_iff s (some i) none =
    (λ h. absurd (ground arith), λ (i', j, e, k, l). absurd (ground arith))
crossed_iff s (some i) (some j) = (
  λ h. (i, j, refl, refl, (inputs_between-panic s i j).0 h),
  λ (i', j', e, k, l).
      let same : i ≡ i' = some_eq i i' e in
      let same' : j ≡ j' = some_eq j j' k in (inputs_between-panic s i j).1 (omega arith),
)

-- `extractInputs` panics exactly when the text has both braces, and its first closing brace stands
-- before its first opening one with something in between.
pub extract_inputs-panic : (s : Text) → (extract_inputs s ≡ panic) ↔ BracesCrossed s
unfolding extract_inputs
extract_inputs-panic s = crossed_iff s (index b'{' s) (index b'}' s)
