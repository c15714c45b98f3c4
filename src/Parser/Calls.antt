-- ===== src/Parser/Calls.antt =====
-- `{…}` blocks and call expressions, read back where they stand in a directive.
use ssac.Base.{
  ℕ, suc, ◌+◌, ◌≡◌, ◌≢◌, refl, sym, subst, ap, ap₂, ◌∙◌, false, [], ◌∷◌, ◌++◌, some, arith, ltb,
  length, drop, All, append-nil, ok, ◌>>=◌,
}
use ssac.Text.{Text, codes, is_space, trim_prefix, trim_suffix, trim_space, index, split}
use ssac.Text.Cut.{
  Free, Free-append, index-Free, take-length, take-suc-length, drop-suc-length, trim_suffix-last,
  last_index-Free,
}
use ssac.Text.Trim.{
  StartsTight, EndsTight, IsTight, trim_space-tight, trim_space-nil, trim_space-blank-tight,
  EndsTight-append, StartsTight-append,
}
use ssac.Dict.{Dict}
use ssac.Parser.Scan.{
  inputs_onto, inputs_of, inside_braces, parse_inputs, inputs_cut, inputs_between, extract_inputs,
  inputs_inside, call_cut, call_inputs, call_parts, parse_call_expr_inputs,
}
use ssac.Parser.Syntax.{is_word_char, IsPair, IsBlock, print_pairs, print_block}
use ssac.Parser.Words.{word-Free, IsWord-IsTight}
use ssac.Parser.Blocks.{print_pairs-append, inputs_onto-print}

pairs-EndsTight : (d : Dict Text) → All IsPair d → d ≢ [] → EndsTight (print_pairs d [])
pairs-EndsTight [] p ne = absurd (ne refl)
pairs-EndsTight ((k, v) ∷ []) p ne =
    EndsTight-append k (b':' ∷ b' ' ∷ (v ++ [])) (
      EndsTight-append (b':' ∷ b' ' ∷ []) (v ++ [])
        (subst EndsTight (sym (append-nil v)) p.0.1.0.1))
pairs-EndsTight ((k, v) ∷ q ∷ d) p ne =
    let more : Text = print_pairs (q ∷ d) [] in
    EndsTight-append k (b':' ∷ b' ' ∷ (v ++ b',' ∷ b' ' ∷ more)) (
      EndsTight-append (b':' ∷ b' ' ∷ []) (v ++ b',' ∷ b' ' ∷ more) (
        EndsTight-append v (b',' ∷ b' ' ∷ more)
          (EndsTight-append (b',' ∷ b' ' ∷ []) more (pairs-EndsTight (q ∷ d) p.1 (λ e. cc)))))

pairs-StartsTight : (d : Dict Text) → All IsPair d → d ≢ [] → StartsTight (print_pairs d [])
pairs-StartsTight [] p ne = absurd (ne refl)
pairs-StartsTight ((k, v) ∷ []) p ne = StartsTight-append k _ (IsWord-IsTight k p.0.0).0
pairs-StartsTight ((k, v) ∷ q ∷ d) p ne = StartsTight-append k _ (IsWord-IsTight k p.0.0).0

inside_braces-print : (s : Text) → inside_braces (b'{' ∷ (s ++ b'}' ∷ [])) ≡ trim_space s
unfolding is_space
inside_braces-print s =
    let trimmed : trim_prefix (codes "{") (b'{' ∷ (s ++ b'}' ∷ [])) ≡ s ++ b'}' ∷ [] =
      unfold trim_prefix drop in refl in
    ap (λ t. trim_space (trim_suffix b'}' (trim_prefix (codes "{") t)))
      (trim_space-tight (b'{' ∷ (s ++ b'}' ∷ []))
        (refl, EndsTight-append (b'{' ∷ s) (b'}' ∷ []) refl))
    ∙ ap (λ t. trim_space (trim_suffix b'}' t)) trimmed
    ∙ ap trim_space (trim_suffix-last b'}' s)

inputs_of-ne_nil : (s : Text) → StartsTight s → inputs_of s ≡ inputs_onto [] (split b',' s)
unfolding inputs_of
inputs_of-ne_nil [] h = absurd h
inputs_of-ne_nil (c ∷ s) h = refl

pub parse_inputs-print : (d : Dict Text) → IsBlock d → parse_inputs (print_block d []) ≡ ok d
unfolding parse_inputs
parse_inputs-print [] b = ap inputs_of (inside_braces-print [] ∙ trim_space-nil)
parse_inputs-print (q ∷ d) b =
    let s : Text = print_pairs (q ∷ d) [] in
    let starts : StartsTight s = pairs-StartsTight (q ∷ d) b.0 (λ e. cc) in
    let ends : EndsTight s = pairs-EndsTight (q ∷ d) b.0 (λ e. cc) in
    ap (λ t. inputs_of (inside_braces (b'{' ∷ t))) (print_pairs-append (q ∷ d) (b'}' ∷ []))
    ∙ ap inputs_of (inside_braces-print s ∙ trim_space-tight s (starts, ends))
    ∙ inputs_of-ne_nil s starts
    ∙ inputs_onto-print [] (q ∷ d) b.0 b.1 (λ e. cc)

-- A character that is neither a word's nor one of the separators in a block, and not in any value.
pairs-Free :
    (c : ℕ) (d : Dict Text)
    → is_word_char c ≡ false
    → b':' ≢ c
    → b' ' ≢ c
    → b',' ≢ c
    → All IsPair d
    → All (λ p. Free c p.1) d
    → Free c (print_pairs d [])
pairs-Free c [] w colon blank comma p f = tt
pairs-Free c ((k, v) ∷ []) w colon blank comma p f =
    Free-append c k _ (word-Free c k w p.0.0.1) (colon, (blank, Free-append c v [] f.0 tt))
pairs-Free c ((k, v) ∷ q ∷ d) w colon blank comma p f =
    Free-append c k _ (word-Free c k w p.0.0.1) (
      colon,
      (
        blank,
        Free-append c v _ f.0 (comma, (blank, pairs-Free c (q ∷ d) w colon blank comma p.1 f.1)),
      ),
    )

values_close : (d : Dict Text) → All IsPair d → All (λ p. Free b'}' p.1) d
values_close [] p = tt
values_close ((k, v) ∷ d) p = (p.0.1.3, values_close d p.1)

block_index :
    (d : Dict Text) (rest : Text)
    → All IsPair d
    → index b'}' (b'{' ∷ (print_pairs d [] ++ b'}' ∷ rest)) ≡ some (suc (length (print_pairs d [])))
unfolding is_word_char
block_index d rest p = index-Free b'}' (b'{' ∷ print_pairs d []) rest (
  omega arith,
  pairs-Free b'}' d refl (omega arith) (omega arith) (omega arith) p (values_close d p),
)

inputs_cut-print :
    (d : Dict Text) (rest : Text)
    → IsBlock d
    → inputs_cut (print_block d []) rest ≡ ok (d, trim_space rest)
unfolding inputs_cut
inputs_cut-print d rest b =
    ap (λ r. r >>= λ inputs. ok (inputs, trim_space rest)) (parse_inputs-print d b)

inputs_between-print :
    (d : Dict Text) (rest : Text)
    → IsBlock d
    → inputs_between (b'{' ∷ (print_pairs d [] ++ b'}' ∷ rest)) 0 (suc (length (print_pairs d [])))
      ≡ ok (d, trim_space rest)
unfolding inputs_between drop
inputs_between-print d rest b =
    let s : Text = b'{' ∷ print_pairs d [] in
    let in_order : ltb (suc (length (print_pairs d [])) + 1) 0 ≡ false = ground arith in
    rw in_order (
      ap₂ inputs_cut (take-suc-length s b'}' rest) (drop-suc-length s b'}' rest)
      ∙ ap (λ t. inputs_cut (b'{' ∷ t) rest) (sym (print_pairs-append d (b'}' ∷ [])))
      ∙ inputs_cut-print d rest b)

-- A block in front of anything.
pub extract_inputs-print :
    (d : Dict Text) (rest : Text)
    → IsBlock d
    → extract_inputs (print_block d rest) ≡ ok (d, trim_space rest)
unfolding extract_inputs
extract_inputs-print d rest b =
    ap (λ t. extract_inputs (b'{' ∷ t)) (print_pairs-append d (b'}' ∷ rest))
    ∙ rw (index-Free b'{' [] (print_pairs d [] ++ b'}' ∷ rest) tt, extract_inputs)
        (rw (block_index d rest b.0, extract_inputs) (inputs_between-print d rest b))

block-IsTight : (d : Dict Text) → IsTight (print_block d [])
unfolding is_space
block-IsTight d = (
  refl,
  EndsTight-append (b'{' ∷ []) (print_pairs d (b'}' ∷ [])) (
      subst EndsTight (sym (print_pairs-append d (b'}' ∷ [])))
        (EndsTight-append (print_pairs d []) (b'}' ∷ []) refl)),
)

-- `Model.Method({…})` and what follows it, which has no closing bracket.
abbrev pub print_call : Text → Dict Text → Text → Text
print_call model d rest = model ++ b'(' ∷ (print_block d [] ++ b')' ∷ rest)

call_cut-print :
    (model : Text) (d : Dict Text) (rest : Text)
    → IsBlock d
    → call_cut model (print_block d []) rest ≡ ok (model, d, trim_space rest)
unfolding call_cut
call_cut-print model d rest b =
    ap (λ s. inputs_inside s >>= λ inputs. ok (model, inputs, trim_space rest))
      (trim_space-tight (print_block d []) (block-IsTight d))
    ∙ ap (λ r. r >>= λ inputs. ok (model, inputs, trim_space rest)) (parse_inputs-print d b)

call_inputs-print :
    (model : Text) (d : Dict Text) (rest : Text)
    → IsBlock d
    → Free b')' rest
    → call_inputs model (print_block d [] ++ b')' ∷ rest) ≡ ok (model, d, trim_space rest)
unfolding call_inputs
call_inputs-print model d rest b f =
    let s : Text = print_block d [] in
    rw (last_index-Free b')' s rest f, call_inputs)
      (ap₂ (call_cut model) (take-length s (b')' ∷ rest)) (drop-suc-length s b')' rest)
        ∙ call_cut-print model d rest b)

pub parse_call_expr_inputs-print :
    (model : Text) (d : Dict Text) (rest : Text)
    → StartsTight model
    → Free b'(' model
    → IsBlock d
    → Free b')' rest
    → EndsTight (b')' ∷ rest)
    → parse_call_expr_inputs (print_call model d rest) ≡ ok (model, d, trim_space rest)
unfolding parse_call_expr_inputs
parse_call_expr_inputs-print model d rest starts opening b close ends =
    let after : Text = print_block d [] ++ b')' ∷ rest in
    ap call_parts (
      trim_space-tight (print_call model d rest) (
        StartsTight-append model (b'(' ∷ after) starts,
        EndsTight-append model (b'(' ∷ after)
            (EndsTight-append (b'(' ∷ print_block d []) (b')' ∷ rest) ends),
      ))
    ∙ rw (index-Free b'(' model after opening, call_parts)
        (ap₂ call_inputs (take-length model (b'(' ∷ after)) (drop-suc-length model b'(' after)
          ∙ call_inputs-print model d rest b close)

pub block-EndsTight :
    (d : Dict Text) (rest : Text) → EndsTight (b'}' ∷ rest) → EndsTight (print_block d rest)
block-EndsTight d rest h = EndsTight-append (b'{' ∷ []) (print_pairs d (b'}' ∷ rest)) (
    subst EndsTight (sym (print_pairs-append d (b'}' ∷ rest)))
      (EndsTight-append (print_pairs d []) (b'}' ∷ rest) h))

pub print_call-IsTight :
    (model : Text) (d : Dict Text) (rest : Text)
    → StartsTight model
    → EndsTight (b')' ∷ rest)
    → IsTight (print_call model d rest)
print_call-IsTight model d rest h k = (
  StartsTight-append model _ h,
  EndsTight-append model _ (EndsTight-append (b'(' ∷ print_block d []) (b')' ∷ rest) k),
)

pub block_rest-IsTight :
    (d : Dict Text) (rest : Text) → EndsTight (b'}' ∷ rest) → IsTight (print_block d rest)
unfolding is_space
block_rest-IsTight d rest h = (refl, block-EndsTight d rest h)

-- A block, a blank and what follows.
pub extract_inputs-blank :
    (d : Dict Text) (rest : Text)
    → IsBlock d
    → IsTight rest
    → extract_inputs (trim_space (print_block d (b' ' ∷ rest))) ≡ ok (d, rest)
extract_inputs-blank d rest b tight =
    ap extract_inputs (
      trim_space-tight (print_block d (b' ' ∷ rest))
        (block_rest-IsTight d (b' ' ∷ rest) (EndsTight-append (b'}' ∷ b' ' ∷ []) rest tight.1)))
    ∙ extract_inputs-print d (b' ' ∷ rest) b
    ∙ ap (λ r. ok (d, r)) (trim_space-blank-tight rest tight)
