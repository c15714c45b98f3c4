-- ===== src/Parser/Syntax.antt =====
-- The written form of the directives, as README.md documents it. It does not stand in the program:
-- the round-trip theorems hold the parser against it. A piece is printed in front of what follows
-- it, its last argument.
use ssac.Base.{
  ℕ, ◌+◌, ◌/◌, ◌%◌, ◌≤◌, ◌≡◌, Bool, true, not, ◌||◌, [], ◌∷◌, ◌++◌, Option, none, some, ◌==◌, All,
}
use ssac.Text.{Text, is_space}
use ssac.Text.Cut.{Free}
use ssac.Text.Trim.{IsTight}
use ssac.Dict.{Dict}
use ssac.Dict.Laws.{Distinct}
use ssac.Parser.Types.{Binding}

-- The characters that separate one part of a directive from another.
unfoldable pub is_special : ℕ → Bool
is_special c =
    c == b'"'
    || c == b'{'
    || c == b'}'
    || c == b'('
    || c == b')'
    || c == b'['
    || c == b']'
    || c == b','
    || c == b':'
    || c == b'='
    || c == b'!'

unfoldable pub is_word_char : ℕ → Bool
unfolding is_space is_special
is_word_char c = not (is_space c || is_special c)

abbrev NonEmpty : Text → Type 0
NonEmpty [] = ⊥
NonEmpty (c ∷ s) = Unit {0}

-- Names of types, variables, models, keys: at least one character, no space, no separator.
abbrev pub IsWord : Text → Type 0
IsWord s = NonEmpty s × All (λ c. is_word_char c ≡ true) s

-- Values: tight, and without commas and braces. A value may hold blanks, quotes and colons.
abbrev pub IsValue : Text → Type 0
IsValue v = IsTight v × Free b',' v × Free b'{' v × Free b'}' v

abbrev pub IsPair : Text × Text → Type 0
IsPair (k, v) = IsWord k × IsValue v

-- `{…}` blocks: keys that differ, each a word, with a value each.
abbrev pub IsBlock : Dict Text → Type 0
IsBlock d = All IsPair d × Distinct [] d

abbrev pub print_pair : Text → Text → Text → Text
print_pair k v rest = k ++ b':' ∷ b' ' ∷ (v ++ rest)

-- k: v, k: v
abbrev pub print_pairs : Dict Text → Text → Text
print_pairs [] rest = rest
print_pairs ((k, v) ∷ []) rest = print_pair k v rest
print_pairs ((k, v) ∷ p ∷ d) rest = print_pair k v (b',' ∷ b' ' ∷ print_pairs (p ∷ d) rest)

-- {k: v, k: v}
abbrev pub print_block : Dict Text → Text → Text
print_block d rest = b'{' ∷ print_pairs d (b'}' ∷ rest)

-- "text"
abbrev pub quoted : Text → Text → Text
quoted t rest = b'"' ∷ (t ++ b'"' ∷ rest)

abbrev pub three_digits : ℕ → Text
three_digits n = (b'0' + n / 100) ∷ (b'0' + n / 10 % 10) ∷ (b'0' + n % 10) ∷ []

-- A trailing HTTP status, if there is one.
abbrev pub print_status : Option ℕ → Text
print_status none = []
print_status (some n) = b' ' ∷ three_digits n

abbrev pub status_value : Option ℕ → ℕ
status_value none = 0
status_value (some n) = n

abbrev pub IsStatus : Option ℕ → Type 0
IsStatus none = Unit
IsStatus (some n) = (100 ≤ n) × (n ≤ 599)

-- `Course`, `[]Course` and `Page[Course]`.
pub data TypeExpr : Type 0 where
  plain slice : Text → TypeExpr
  wrapped : Text → Text → TypeExpr

abbrev pub print_type : TypeExpr → Text
print_type (plain t) = t
print_type (slice t) = b'[' ∷ b']' ∷ t
print_type (wrapped w t) = w ++ b'[' ∷ (t ++ b']' ∷ [])

abbrev pub IsType : TypeExpr → Type 0
IsType (plain t) = IsWord t
IsType (slice t) = IsWord t
IsType (wrapped w t) = IsWord w × IsWord t

abbrev pub binding : TypeExpr → Text → Binding
binding (plain t) v = record { type_of = t; name = v; wrapper = [] }
binding (slice t) v = record { type_of = b'[' ∷ b']' ∷ t; name = v; wrapper = [] }
binding (wrapped w t) v = record { type_of = t; name = v; wrapper = w }

-- `Course.FindByID` and `session.Session.Get`.
pub data ModelRef : Type 0 where
  method : Text → Text → ModelRef
  packaged : Text → Text → Text → ModelRef

abbrev dotted : Text → Text → Text
dotted s t = s ++ b'.' ∷ t

abbrev pub model_text : ModelRef → Text
model_text (method m f) = dotted m f
model_text (packaged p m f) = dotted m f

abbrev pub package_text : ModelRef → Text
package_text (method m f) = []
package_text (packaged p m f) = p

abbrev pub print_model : ModelRef → Text
print_model (method m f) = dotted m f
print_model (packaged p m f) = dotted p (dotted m f)
