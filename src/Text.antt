-- ===== src/Text.antt =====
-- The functions of Go's package `strings` (and `strconv.Atoi`) that the parser and the validator
-- call. A Go string is here the list of its code points. Every text that the program reads comes
-- out of Go's own parser, which refuses sources that are not UTF-8, and the program cuts texts
-- only beside ASCII characters, so positions in bytes and in code points name the same cuts.
pub mod Cut
pub mod Trim
pub mod Sort
use Prim.Native.Char.{code}
use ssac.Base.{
  ℕ, suc, ◌+◌, ◌-◌, ◌*◌, ◌^◌, String, Bool, true, false, ◌&&◌, ◌||◌, List, [], ◌∷◌, Option, none,
  some, leb, ltb, ◌==◌, if◌then◌else◌, length, drop, is_empty,
}

abbrev pub Text : Type 0
Text = List ℕ

-- A literal of the source.
abbrev pub codes : String → Text
codes String.[] = []
codes (String.◌∷◌ c s) = code c ∷ codes s

-- `s == t`
unfoldable pub text_eq : Text → Text → Bool
text_eq [] [] = true
text_eq (a ∷ s) (b ∷ t) = a == b && text_eq s t
text_eq _ _ = false

-- `unicode.IsSpace`
unfoldable pub is_space : ℕ → Bool
is_space c =
    (leb 9 c && leb c 13)
    || c == 32
    || c == 0x85
    || c == 0xa0
    || c == 0x1680
    || (leb 0x2000 c && leb c 0x200a)
    || c == 0x2028
    || c == 0x2029
    || c == 0x202f
    || c == 0x205f
    || c == 0x3000

-- `strings.HasPrefix(s, p)`, the prefix first
unfoldable pub has_prefix : Text → Text → Bool
has_prefix [] s = true
has_prefix (a ∷ p) [] = false
has_prefix (a ∷ p) (b ∷ s) = a == b && has_prefix p s

-- `strings.TrimPrefix(s, p)`
unfoldable pub trim_prefix : Text → Text → Text
unfolding has_prefix
trim_prefix p s = if has_prefix p s then drop (length p) s else s

-- `strings.HasSuffix(s, string(c))`
unfoldable pub ends_with : ℕ → Text → Bool
ends_with c [] = false
ends_with c (x ∷ []) = x == c
ends_with c (x ∷ y ∷ s) = ends_with c (y ∷ s)

-- `s[:len(s)-1]`, where `s` is not empty
unfoldable pub drop_last : Text → Text
drop_last [] = []
drop_last (x ∷ []) = []
drop_last (x ∷ y ∷ s) = x ∷ drop_last (y ∷ s)

-- `strings.TrimSuffix(s, string(c))`
unfoldable pub trim_suffix : ℕ → Text → Text
unfolding ends_with drop_last
trim_suffix c s = if ends_with c s then drop_last s else s

unfoldable pub trim_left : Text → Text
unfolding is_space
trim_left [] = []
trim_left (c ∷ s) = let rest = trim_left s in if is_space c then rest else c ∷ s

unfoldable pub trim_right : Text → Text
unfolding is_space
trim_right [] = []
trim_right (c ∷ s) = let rest = trim_right s in if is_empty rest && is_space c then [] else c ∷ rest

-- `strings.TrimSpace(s)`
unfoldable pub trim_space : Text → Text
unfolding trim_left trim_right
trim_space s = trim_right (trim_left s)

-- `strings.TrimLeft(s, string(c))`
unfoldable pub trim_left_char : ℕ → Text → Text
trim_left_char c [] = []
trim_left_char c (x ∷ s) = let rest = trim_left_char c s in if x == c then rest else x ∷ s

unfoldable pub trim_right_char : ℕ → Text → Text
trim_right_char c [] = []
trim_right_char c (x ∷ s) =
    let rest = trim_right_char c s in if is_empty rest && x == c then [] else x ∷ rest

-- `strings.Trim(s, string(c))`
unfoldable pub trim_char : ℕ → Text → Text
unfolding trim_left_char trim_right_char
trim_char c s = trim_right_char c (trim_left_char c s)

abbrev pub after_one : Option ℕ → Option ℕ
after_one none = none
after_one (some i) = some (suc i)

-- `strings.IndexByte(s, c)`, and `strings.Index(s, string(c))`; `none` for -1
unfoldable pub index : ℕ → Text → Option ℕ
index c [] = none
index c (x ∷ s) = let later = after_one (index c s) in if x == c then some 0 else later

-- `strings.LastIndex(s, string(c))`
unfoldable pub last_index : ℕ → Text → Option ℕ
last_index c [] = none
last_index c (x ∷ s) = elim (last_index c s) [
  | some i ↦ some (suc i)
  | none ↦ if x == c then some 0 else none
]

abbrev pub onto_first : ℕ → List Text → List Text
onto_first x [] = (x ∷ []) ∷ []
onto_first x (w ∷ ws) = (x ∷ w) ∷ ws

-- `strings.Split(s, string(c))`
unfoldable pub split : ℕ → Text → List Text
split c [] = [] ∷ []
split c (x ∷ s) = let rest = split c s in if x == c then [] ∷ rest else onto_first x rest

abbrev keep_word : Text → List Text → List Text
keep_word [] ws = ws
keep_word (c ∷ w) ws = (c ∷ w) ∷ ws

-- The word that `s` begins with, and the words behind it.
unfoldable pub words_from : Text → Text × List Text
unfolding is_space
words_from [] = ([], [])
words_from (x ∷ s) =
    let (w, ws) = words_from s in if is_space x then ([], keep_word w ws) else (x ∷ w, ws)

-- `strings.Fields(s)`
unfoldable pub fields : Text → List Text
unfolding words_from
fields s = let (w, ws) = words_from s in keep_word w ws

abbrev pub is_digit : ℕ → Bool
is_digit c = leb b'0' c && leb c b'9'

unfoldable pub digits_value : ℕ → Text → Option ℕ
digits_value acc [] = some acc
digits_value acc (c ∷ s) =
    let rest = digits_value (acc * 10 + (c - b'0')) s in if is_digit c then rest else none

-- A decimal number without sign; at least one digit.
unfoldable pub unsigned : Text → Option ℕ
unfolding digits_value
unsigned [] = none
unsigned (c ∷ s) = digits_value 0 (c ∷ s)

-- `strconv.Atoi`, on a 64-bit machine, as far as its callers see it: they use only results of 100
-- and above, so a negative result (`none` here) and a refused text come to the same.
unfoldable pub atoi : Text → Option ℕ
unfolding unsigned
atoi s = elim (unsigned (trim_prefix (codes "+") s)) [
  | some n ↦ if ltb n (2 ^ 63) then some n else none
  | none ↦ none
]
