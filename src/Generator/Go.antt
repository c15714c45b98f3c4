-- ===== src/Generator/Go.antt =====
-- What the generator takes from outside, and Go's text functions that only it calls.
mod Digits
use ssac.Base.{
  ℕ, zero, suc, ◌+◌, ◌-◌, ◌/◌, ◌%◌, Bool, ◌||◌, List, [], ◌∷◌, ◌++◌, Option, ltb, ◌==◌,
  if◌then◌else◌,
}
use ssac.Text.{Text, codes, has_prefix}
use ssac.Validator.Symbols.{ℤ, pos, negsuc}

-- `strcase.ToGoCamel` and `strcase.ToGoPascal` of github.com/ettle/strcase, `strconv.IsPrint`, and
-- `format.Source` of go/format, without its error's text.
pub record Tools : Type 0 where
  pub to_go_camel : Text → Text
  pub to_go_pascal : Text → Text
  pub is_print : ℕ → Bool
  pub format_source : Text → Option Text

-- `strings.Join(parts, sep)`
unfoldable pub join : Text → List Text → Text
join sep [] = []
join sep (p ∷ []) = p
join sep (p ∷ q ∷ ps) = p ++ (sep ++ join sep (q ∷ ps))

-- Texts behind one another, as writes to a buffer put them.
unfoldable pub concat : List Text → Text
concat [] = []
concat (p ∷ ps) = p ++ concat ps

-- `strings.Contains(s, p)`, the part first
unfoldable pub contains : Text → Text → Bool
unfolding has_prefix
contains p [] = has_prefix p []
contains p (c ∷ s) = has_prefix p (c ∷ s) || contains p s

abbrev pub digit : ℕ → ℕ
digit n = if ltb n 10 then b'0' + n else b'a' + (n - 10)

-- The digits of `n` to a base, in front of `acc`; `suc n` rounds are enough.
unfoldable pub digits_onto : ℕ → ℕ → ℕ → Text → Text
digits_onto base zero n acc = acc
digits_onto base (suc f) n acc =
    let rest = digits_onto base f (n / base) (digit (n % base) ∷ acc) in
    if n / base == 0 then digit (n % base) ∷ acc else rest

-- `%d`
unfoldable pub decimal : ℕ → Text
unfolding digits_onto
decimal n = digits_onto 10 (suc n) n []

unfoldable pub decimal_int : ℤ → Text
unfolding decimal
decimal_int (pos n) = decimal n
decimal_int (negsuc n) = codes "-" ++ decimal (suc n)

-- The lowest `k` digits to base 16.
unfoldable pub hex : ℕ → ℕ → Text → Text
hex zero n acc = acc
hex (suc k) n acc = hex k (n / 16) (digit (n % 16) ∷ acc)

-- A character that `strconv.Quote` does not show as it is.
unfoldable pub escape : ℕ → Text
unfolding hex
escape c =
    if c == 7
    then codes "\\a"
    else if c == 8
    then codes "\\b"
    else if c == 9
    then codes "\\t"
    else if c == 10
    then codes "\\n"
    else if c == 11
    then codes "\\v"
    else if c == 12
    then codes "\\f"
    else if c == 13
    then codes "\\r"
    else if ltb c 32 || c == 127
    then codes "\\x" ++ hex 2 c []
    else if ltb c 0x10000
    then codes "\\u" ++ hex 4 c []
    else codes "\\U" ++ hex 8 c []

module _ (t : Tools) where
  unfoldable pub quote_char : ℕ → Text
  unfolding escape
  quote_char c =
      if c == b'"' || c == 92 then 92 ∷ c ∷ [] else if t.is_print c then c ∷ [] else escape c

  unfoldable pub quote_chars : Text → Text
  unfolding quote_char
  quote_chars [] = []
  quote_chars (c ∷ s) = quote_char c ++ quote_chars s

  -- `%q`
  unfoldable pub quote : Text → Text
  unfolding quote_chars
  quote s = codes "\"" ++ (quote_chars s ++ codes "\"")
