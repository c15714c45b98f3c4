-- ===== src/Text/Trim.antt =====
-- Trimming leaves alone a text that begins and ends with no space.
use ssac.Base.{ℕ, ◌≡◌, refl, ◌∙◌, false, [], ◌∷◌, ◌++◌, All}
use ssac.Text.{Text, is_space, trim_left, trim_right, trim_space, fields, words_from}

abbrev pub StartsTight : Text → Type 0
StartsTight [] = ⊥
StartsTight (c ∷ s) = is_space c ≡ false

abbrev pub EndsTight : Text → Type 0
EndsTight [] = ⊥
EndsTight (c ∷ []) = is_space c ≡ false
EndsTight (c ∷ d ∷ s) = EndsTight (d ∷ s)

-- `s` is not empty, and no space stands at either end.
abbrev pub IsTight : Text → Type 0
IsTight s = StartsTight s × EndsTight s

pub StartsTight-append : (s t : Text) → StartsTight s → StartsTight (s ++ t)
StartsTight-append [] t h = absurd h
StartsTight-append (c ∷ s) t h = h

pub EndsTight-append : (s t : Text) → EndsTight t → EndsTight (s ++ t)
EndsTight-append [] t h = h
EndsTight-append (c ∷ []) [] h = absurd h
EndsTight-append (c ∷ []) (d ∷ t) h = h
EndsTight-append (c ∷ d ∷ s) t h = EndsTight-append (d ∷ s) t h

pub IsTight-append : (s t : Text) → StartsTight s → EndsTight t → IsTight (s ++ t)
IsTight-append s t h k = (StartsTight-append s t h, EndsTight-append s t k)

pub EndsTight-cons : (c : ℕ) (s : Text) → EndsTight s → EndsTight (c ∷ s)
EndsTight-cons c s h = EndsTight-append (c ∷ []) s h

trim_left-tight : (s : Text) → StartsTight s → trim_left s ≡ s
unfolding trim_left
trim_left-tight [] h = absurd h
trim_left-tight (c ∷ s) h = rw h

trim_right-tight : (s : Text) → EndsTight s → trim_right s ≡ s
unfolding trim_right
trim_right-tight [] h = absurd h
trim_right-tight (c ∷ []) h = rw h
trim_right-tight (c ∷ d ∷ s) h = rw (trim_right-tight (d ∷ s) h)

pub trim_space-tight : (s : Text) → IsTight s → trim_space s ≡ s
trim_space-tight s h = unfold trim_space in rw (trim_left-tight s h.0) (trim_right-tight s h.1)

pub trim_space-nil : trim_space [] ≡ []
unfolding trim_space
trim_space-nil = refl

-- A blank in front makes no difference.
pub trim_space-blank : (s : Text) → trim_space (b' ' ∷ s) ≡ trim_space s
unfolding trim_space
trim_space-blank s = refl

pub trim_space-blank-tight : (s : Text) → IsTight s → trim_space (b' ' ∷ s) ≡ s
trim_space-blank-tight s h = trim_space-blank s ∙ trim_space-tight s h

trim_right-blank : (s : Text) → EndsTight s → trim_right (s ++ b' ' ∷ []) ≡ s
unfolding trim_right
trim_right-blank [] h = absurd h
trim_right-blank (c ∷ []) h = rw h
trim_right-blank (c ∷ d ∷ s) h = rw (trim_right-blank (d ∷ s) h)

-- Nor does one behind.
pub trim_space-blank_behind : (s : Text) → IsTight s → trim_space (s ++ b' ' ∷ []) ≡ s
trim_space-blank_behind s h =
    unfold trim_space in
    rw (trim_left-tight (s ++ b' ' ∷ []) (StartsTight-append s (b' ' ∷ []) h.0))
      (trim_right-blank s h.1)

-- `s` has no space at all.
abbrev pub Spaceless : Text → Type 0
Spaceless s = All (λ c. is_space c ≡ false) s

pub Spaceless-EndsTight : (c : ℕ) (s : Text) → Spaceless (c ∷ s) → EndsTight (c ∷ s)
Spaceless-EndsTight c [] h = h.0
Spaceless-EndsTight c (d ∷ s) h = Spaceless-EndsTight d s h.1

words_from-one : (s : Text) → Spaceless s → words_from s ≡ (s, [])
unfolding words_from
words_from-one [] h = refl
words_from-one (c ∷ s) h = rw (h.0, words_from-one s h.1)

words_from-two : (s t : Text) → Spaceless s → words_from (s ++ b' ' ∷ t) ≡ (s, fields t)
unfolding words_from fields
words_from-two [] t h = refl
words_from-two (c ∷ s) t h = rw (h.0, words_from-two s t h.1)

-- Two words with a blank between them.
pub fields-two :
    (a b : ℕ) (s t : Text)
    → Spaceless (a ∷ s)
    → Spaceless (b ∷ t)
    → fields ((a ∷ s) ++ b' ' ∷ b ∷ t) ≡ (a ∷ s) ∷ (b ∷ t) ∷ []
fields-two a b s t h k =
    unfold fields in rw (words_from-two (a ∷ s) (b ∷ t) h, words_from-one (b ∷ t) k)
