-- ===== src/Validator/Snake/Words.antt =====
-- Where `toSnakeCase` sees the words of a name.
use ssac.Base.{
  ℕ, ◌+◌, ◌≡◌, refl, ap, Bool, true, false, List, [], ◌∷◌, ◌++◌, Option, none, some, arith, All,
  map,
}
use ssac.Text.{Text}
use ssac.Validator.Snake.{is_upper, is_lower, lower_next, snake_char, snake_from, to_snake_case}

-- A word of a name in camel case: a capital and lower-case letters, as in `User`, or capitals only,
-- as in `ID`.
pub data Word : Type 0 where
  capitalised : ℕ → ℕ → Text → Word
  acronym : ℕ → Text → Word

abbrev pub written : Word → Text
written (capitalised c d s) = c ∷ d ∷ s
written (acronym c s) = c ∷ s

abbrev pub IsWord : Word → Type 0
IsWord (capitalised c d s) =
    (is_upper c ≡ true) × (is_lower d ≡ true) × All (λ x. is_lower x ≡ true) s
IsWord (acronym c s) = (is_upper c ≡ true) × All (λ x. is_upper x ≡ true) s

-- The word in lower case.
abbrev pub lowered : Word → Text
lowered (capitalised c d s) = (c + 32) ∷ d ∷ s
lowered (acronym c s) = (c + 32) ∷ map (◌+ 32) s

abbrev pub camel : List Word → Text
camel [] = []
camel (w ∷ ws) = written w ++ camel ws

-- Each word behind an underscore.
abbrev pub underscored : List Word → Text
underscored [] = []
underscored (w ∷ ws) = b'_' ∷ lowered w ++ underscored ws

abbrev pub snake : List Word → Text
snake [] = []
snake (w ∷ ws) = lowered w ++ underscored ws

abbrev pub starts_lower : List Word → Bool
starts_lower [] = true
starts_lower (capitalised c d s ∷ ws) = true
starts_lower (acronym c s ∷ ws) = false

-- Two acronyms side by side would read as one.
abbrev pub AreWords : List Word → Type 0
AreWords [] = Unit
AreWords (capitalised c d s ∷ ws) = IsWord (capitalised c d s) × AreWords ws
AreWords (acronym c s ∷ ws) = IsWord (acronym c s) × (starts_lower ws ≡ true) × AreWords ws

lower_not_upper : (c : ℕ) → is_lower c ≡ true → is_upper c ≡ false
lower_not_upper c h = ground arith

upper_not_lower : (c : ℕ) → is_upper c ≡ true → is_lower c ≡ false
upper_not_lower c h = ground arith

lower_char : (p : Option ℕ) (c : ℕ) (r : Text) → is_lower c ≡ true → snake_char p c r ≡ c ∷ []
unfolding snake_char
lower_char p c r h = rw (lower_not_upper c h, snake_char) (ap (◌∷ []) (ground arith))

joined_char :
    (p c : ℕ) (r : Text)
    → is_upper p ≡ true
    → is_upper c ≡ true
    → lower_next r ≡ false
    → snake_char (some p) c r ≡ (c + 32) ∷ []
unfolding snake_char
joined_char p c r hp hc hr = rw (hc, upper_not_lower p hp, hp, hr, snake_char) refl

split_lower :
    (p c : ℕ) (r : Text)
    → is_lower p ≡ true
    → is_upper c ≡ true
    → snake_char (some p) c r ≡ b'_' ∷ (c + 32) ∷ []
unfolding snake_char
split_lower p c r hp hc = rw (hc, hp, snake_char) refl

split_upper :
    (p c d : ℕ) (r : Text)
    → is_upper p ≡ true
    → is_upper c ≡ true
    → is_lower d ≡ true
    → snake_char (some p) c (d ∷ r) ≡ b'_' ∷ (c + 32) ∷ []
unfolding snake_char
split_upper p c d r hp hc hd = rw (hc, upper_not_lower p hp, hp, hd, snake_char) refl

-- The letters of a word behind its first ones, where `rest` is what the text behind it becomes.
lower_letters :
    (r rest : Text)
    → ((l : ℕ) → is_lower l ≡ true → snake_from (some l) r ≡ rest)
    → (l : ℕ) (s : Text) → is_lower l ≡ true
    → All (λ x. is_lower x ≡ true) s
    → snake_from (some l) (s ++ r) ≡ s ++ rest
unfolding snake_from
lower_letters r rest behind l [] hl h = behind l hl
lower_letters r rest behind l (c ∷ s) hl h =
    rw (lower_char (some l) c (s ++ r) h.0) (ap (◌∷◌ c) (lower_letters r rest behind c s h.0 h.1))

no_lower_next :
    (r s : Text)
    → lower_next r ≡ false
    → All (λ x. is_upper x ≡ true) s
    → lower_next (s ++ r) ≡ false
no_lower_next r [] hr h = hr
no_lower_next r (c ∷ s) hr h = upper_not_lower c h.0

upper_letters :
    (r rest : Text)
    → lower_next r ≡ false
    → ((u : ℕ) → is_upper u ≡ true → snake_from (some u) r ≡ rest)
    → (u : ℕ) (s : Text) → is_upper u ≡ true
    → All (λ x. is_upper x ≡ true) s
    → snake_from (some u) (s ++ r) ≡ map (◌+ 32) s ++ rest
unfolding snake_from
upper_letters r rest hr behind u [] hu h = behind u hu
upper_letters r rest hr behind u (c ∷ s) hu h =
    rw (joined_char u c (s ++ r) hu h.0 (no_lower_next r s hr h.1))
      (ap (◌∷◌ (c + 32)) (upper_letters r rest hr behind c s h.0 h.1))

lower_next-camel : (ws : List Word) → AreWords ws → lower_next (camel ws) ≡ false
lower_next-camel [] h = refl
lower_next-camel (capitalised c d s ∷ ws) h = upper_not_lower c h.0.0
lower_next-camel (acronym c s ∷ ws) h = upper_not_lower c h.0.0

after_capital :
    (r rest : Text)
    → ((l : ℕ) → is_lower l ≡ true → snake_from (some l) r ≡ rest)
    → (c d : ℕ) (s : Text) → is_lower d ≡ true
    → All (λ x. is_lower x ≡ true) s
    → snake_from (some c) (d ∷ s ++ r) ≡ d ∷ s ++ rest
unfolding snake_from
after_capital r rest behind c d s hd h =
    rw (lower_char (some c) d (s ++ r) hd) (ap (◌∷◌ d) (lower_letters r rest behind d s hd h))

mutual
  unfolding snake_from

  behind_lower :
      (ws : List Word) (l : ℕ)
      → AreWords ws
      → is_lower l ≡ true
      → snake_from (some l) (camel ws) ≡ underscored ws
  behind_lower [] l h hl = refl
  behind_lower (capitalised c d s ∷ ws) l h hl = rw (split_lower l c (d ∷ s ++ camel ws) hl h.0.0) (
      ap (λ z. b'_' ∷ (c + 32) ∷ z)
        (after_capital (camel ws) (underscored ws) (λ x hx. behind_lower ws x h.1 hx) c d s h.0.1
          h.0.2))
  behind_lower (acronym c s ∷ ws) l h hl = rw (split_lower l c (s ++ camel ws) hl h.0.0) (
      ap (λ z. b'_' ∷ (c + 32) ∷ z)
        (upper_letters (camel ws) (underscored ws) (lower_next-camel ws h.2)
          (λ u hu. behind_upper ws u h.2 h.1 hu) c s h.0.0 h.0.1))

  behind_upper :
      (ws : List Word) (u : ℕ)
      → AreWords ws
      → starts_lower ws ≡ true
      → is_upper u ≡ true
      → snake_from (some u) (camel ws) ≡ underscored ws
  behind_upper [] u h k hu = refl
  behind_upper (capitalised c d s ∷ ws) u h k hu =
      rw (split_upper u c d (s ++ camel ws) hu h.0.0 h.0.1) (
        ap (λ z. b'_' ∷ (c + 32) ∷ z)
          (after_capital (camel ws) (underscored ws) (λ x hx. behind_lower ws x h.1 hx) c d s h.0.1
            h.0.2))
  behind_upper (acronym c s ∷ ws) u h k hu = absurd (ground arith)

first_char : (c : ℕ) (r : Text) → is_upper c ≡ true → snake_char none c r ≡ (c + 32) ∷ []
unfolding snake_char
first_char c r h = rw (h, snake_char) refl

-- Of a name in camel case, `toSnakeCase` makes its words in lower case, joined by underscores. A
-- word is a capital with lower-case letters behind it, or an acronym, in capitals only; no two
-- acronyms stand side by side.
pub to_snake_case-camel : (ws : List Word) → AreWords ws → to_snake_case (camel ws) ≡ snake ws
unfolding to_snake_case snake_from
to_snake_case-camel [] h = refl
to_snake_case-camel (capitalised c d s ∷ ws) h = rw (first_char c (d ∷ s ++ camel ws) h.0.0) (
    ap (◌∷◌ (c + 32)) (
      after_capital (camel ws) (underscored ws) (λ x hx. behind_lower ws x h.1 hx) c d s h.0.1
        h.0.2))
to_snake_case-camel (acronym c s ∷ ws) h = rw (first_char c (s ++ camel ws) h.0.0) (
    ap (◌∷◌ (c + 32)) (
      upper_letters (camel ws) (underscored ws) (lower_next-camel ws h.2)
        (λ u hu. behind_upper ws u h.2 h.1 hu) c s h.0.0 h.0.1))
