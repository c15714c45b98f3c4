-- ===== src/Tests/Directives.antt =====
-- Single directives through `parseLine`.
use ssac.Base.{◌≡◌, ◌↔◌, refl, Bool, true, ◌&&◌, [], ◌∷◌, All, ok, panic, arith}
use ssac.Text.{Text, codes, is_space}
use ssac.Dict.{member}
use ssac.Parser.Scan.{extract_inputs}
use ssac.Parser.Scan.Panics.{BracesCrossed, extract_inputs-panic}
use ssac.Parser.Line.{sequence, parse_line}
use ssac.Parser.Syntax.{is_word_char, wrapped, method}
use ssac.Parser.Directive.{Directive, get_d, IsDirective, meaning, print}
use ssac.Tests.Runs.{scanners}
use ssac.Parser.RoundTrip.{parse_line-print, with_mark}

all_word : Text → Bool
all_word [] = true
all_word (c ∷ s) = is_word_char c && all_word s

all_word_sound : (s : Text) → all_word s ≡ true → All (λ c. is_word_char c ≡ true) s
unfolding all_word
all_word_sound [] h = tt
all_word_sound (c ∷ s) h = (ground arith, all_word_sound s (ground arith))

abbrev page_of_gigs : Directive
page_of_gigs =
    get_d (wrapped (codes "Page") (codes "Gig")) (codes "gigs")
      (method (codes "Gig") (codes "List"))
      ((codes "Owner", codes "currentUser.ID") ∷ (codes "Note", codes "\"a: b\"") ∷ [])

print-page_of_gigs :
    print page_of_gigs true
    ≡ codes "@get! Page[Gig] gigs = Gig.List({Owner: currentUser.ID, Note: \"a: b\"})"
print-page_of_gigs = refl

page_of_gigs-IsDirective : IsDirective page_of_gigs
unfolding all_word is_word_char member is_space
page_of_gigs-IsDirective = (
  ((tt, all_word_sound (codes "Page") refl), (tt, all_word_sound (codes "Gig") refl)),
  (tt, all_word_sound (codes "gigs") refl),
  (
    (tt, all_word_sound (codes "Gig") refl),
    (tt, all_word_sound (codes "List") refl),
    omega arith,
    omega arith,
  ),
  ((
    (
      (
        (tt, all_word_sound (codes "Owner") refl),
        ((refl, refl), omega arith, omega arith, omega arith),
      ),
      (
        (
          (tt, all_word_sound (codes "Note") refl),
          ((refl, refl), omega arith, omega arith, omega arith),
        ),
        tt,
      ),
    ),
    (refl, (refl, tt)),
  )),
)

parse_line-print_example :
    parse_line (codes "@get! Page[Gig] gigs = Gig.List({Owner: currentUser.ID, Note: \"a: b\"})")
    ≡ ok (sequence (with_mark true (meaning page_of_gigs)))
parse_line-print_example = parse_line-print page_of_gigs true page_of_gigs-IsDirective

-- A brace that closes before one opens makes `extractInputs` panic.
braces_in_wrong_order : parse_line (codes "@publish \"t\" } {") ≡ panic
unfolding scanners
braces_in_wrong_order = refl

crossed_braces : extract_inputs (codes "} {") ≡ panic
unfolding scanners
crossed_braces = refl

extract_inputs-panic_example : (extract_inputs (codes "} {") ≡ panic) ↔ BracesCrossed (codes "} {")
extract_inputs-panic_example = extract_inputs-panic (codes "} {")
