-- ===== src/Parser/Blocks.antt =====
-- What the scanners do on `{…}` blocks and on call expressions.
use ssac.Base.{
  ℕ, suc, ◌≡◌, ◌≢◌, refl, sym, subst, ap, ap₂, ◌∙◌, false, List, [], ◌∷◌, ◌++◌, some, arith, length,
  take, drop, All, append_assoc, append-nil, ok, ◌>>=◌,
}
use ssac.Text.{Text, onto_first, trim_space, index, split}
use ssac.Text.Cut.{
  Free, Free-append, index-Free, take-length, drop-suc-length, split-ne-nil, split-Free,
  split-append,
}
use ssac.Text.Trim.{
  IsTight, trim_space-tight, trim_space-blank-tight, EndsTight-append, IsTight-append,
}
use ssac.Dict.{Dict, keys, member}
use ssac.Dict.Laws.{Distinct, put-fresh, keys-append}
use ssac.Parser.Scan.{put_pair, input_pair, inputs_onto}
use ssac.Parser.Syntax.{is_word_char, IsPair, print_pairs}
use ssac.Parser.Words.{word-Free, IsWord-IsTight}

pub print_pairs-append :
    (d : Dict Text) (rest : Text) → print_pairs d rest ≡ print_pairs d [] ++ rest
print_pairs-append [] rest = refl
print_pairs-append ((k, v) ∷ []) rest =
    ap (λ s. k ++ b':' ∷ b' ' ∷ s) (ap (λ s. s ++ rest) (sym (append-nil v)))
    ∙ sym (append_assoc k (b':' ∷ b' ' ∷ (v ++ [])) rest)
print_pairs-append ((k, v) ∷ p ∷ d) rest =
    ap (λ s. k ++ b':' ∷ b' ' ∷ (v ++ b',' ∷ b' ' ∷ s)) (print_pairs-append (p ∷ d) rest)
    ∙ ap (λ s. k ++ b':' ∷ b' ' ∷ s)
        (sym (append_assoc v (b',' ∷ b' ' ∷ print_pairs (p ∷ d) []) rest))
    ∙ sym (append_assoc k (b':' ∷ b' ' ∷ (v ++ b',' ∷ b' ' ∷ print_pairs (p ∷ d) [])) rest)

-- One pair, as text.
abbrev pub pair_text : Text → Text → Text
pair_text k v = k ++ b':' ∷ b' ' ∷ v

pub pair-IsTight : (k v : Text) → IsPair (k, v) → IsTight (pair_text k v)
pair-IsTight k v (w, (t, _, _, _)) =
    IsTight-append k (b':' ∷ b' ' ∷ v) (IsWord-IsTight k w).0
      (EndsTight-append (b':' ∷ b' ' ∷ []) v t.1)

pub pair-Free :
    (c : ℕ) (k v : Text)
    → IsPair (k, v)
    → is_word_char c ≡ false
    → b':' ≢ c
    → b' ' ≢ c
    → Free c v
    → Free c (pair_text k v)
pair-Free c k v (w, _) h colon blank f = Free-append c k _ (word-Free c k h w.1) (colon, (blank, f))

-- Putting a pair under a new key adds it at the end.
put_pair-fresh :
    (k v : Text) (m : Dict Text)
    → IsTight k
    → IsTight v
    → member k (keys m) ≡ false
    → put_pair k v m ≡ m ++ (k, v) ∷ []
put_pair-fresh [] v m hk hv h = absurd hk.0
put_pair-fresh (c ∷ k) [] m hk hv h = absurd hv.0
put_pair-fresh (c ∷ k) (d ∷ v) m hk hv h = put-fresh (c ∷ k) (d ∷ v) m h

input_pair-colon :
    (m : Dict Text) (s : Text) (i : ℕ)
    → index b':' s ≡ some i
    → input_pair m s ≡ ok (put_pair (trim_space (take i s)) (trim_space (drop (suc i) s)) m)
unfolding input_pair index
input_pair-colon m [] i e = cc
input_pair-colon m (c ∷ s) i e = rw (e, input_pair)

input_pair-print :
    (k v : Text) (m : Dict Text)
    → IsPair (k, v)
    → member k (keys m) ≡ false
    → input_pair m (trim_space (pair_text k v)) ≡ ok (m ++ (k, v) ∷ [])
unfolding is_word_char
input_pair-print k v m (w, t) h =
    ap (input_pair m) (trim_space-tight (pair_text k v) (pair-IsTight k v (w, t)))
    ∙ input_pair-colon m (pair_text k v) (length k)
        (index-Free b':' k (b' ' ∷ v) (word-Free b':' k refl w.1))
    ∙ ap₂ (λ x y. ok (put_pair (trim_space x) (trim_space y) m)) (take-length k (b':' ∷ b' ' ∷ v))
        (drop-suc-length k b':' (b' ' ∷ v))
    ∙ ap₂ (λ x y. ok (put_pair x y m)) (trim_space-tight k (IsWord-IsTight k w))
        (trim_space-blank-tight v t.0)
    ∙ ap ok (put_pair-fresh k v m (IsWord-IsTight k w) t.0 h)

blank_onto_first :
    (m : Dict Text) (ws : List Text)
    → ws ≢ []
    → inputs_onto m (onto_first b' ' ws) ≡ inputs_onto m ws
unfolding inputs_onto trim_space
blank_onto_first m [] ne = absurd (ne refl)
blank_onto_first m (w ∷ ws) ne = refl

-- A blank in front of a text does not change the pairs in it.
inputs_onto-blank :
    (m : Dict Text) (s : Text)
    → inputs_onto m (split b',' (b' ' ∷ s)) ≡ inputs_onto m (split b',' s)
unfolding split
inputs_onto-blank m s = blank_onto_first m (split b',' s) (split-ne-nil b',' s)

-- The first pair of a list of pairs is put into the map.
inputs_onto-pair :
    (m : Dict Text) (k v : Text) (pairs : List Text)
    → IsPair (k, v)
    → member k (keys m) ≡ false
    → inputs_onto m (pair_text k v ∷ pairs) ≡ inputs_onto (m ++ (k, v) ∷ []) pairs
unfolding inputs_onto
inputs_onto-pair m k v pairs p h =
    ap (λ r. r >>= λ m'. inputs_onto m' pairs) (input_pair-print k v m p h)

pair-Free_comma : (k v : Text) → IsPair (k, v) → Free b',' (pair_text k v)
unfolding is_word_char
pair-Free_comma k v p = pair-Free b',' k v p refl (omega arith) (omega arith) p.1.1

pub inputs_onto-print :
    (m d : Dict Text)
    → All IsPair d
    → Distinct (keys m) d
    → d ≢ []
    → inputs_onto m (split b',' (print_pairs d [])) ≡ ok (m ++ d)
inputs_onto-print m [] p h ne = absurd (ne refl)
inputs_onto-print m ((k, v) ∷ []) p h ne =
    ap (λ s. inputs_onto m (split b',' (k ++ b':' ∷ b' ' ∷ s))) (append-nil v)
    ∙ ap (inputs_onto m) (split-Free b',' (pair_text k v) (pair-Free_comma k v p.0))
    ∙ inputs_onto-pair m k v [] p.0 h.0
    ∙ unfold inputs_onto in refl
inputs_onto-print m ((k, v) ∷ q ∷ d) p h ne =
    let more : Text = b' ' ∷ print_pairs (q ∷ d) [] in
    let m' : Dict Text = m ++ (k, v) ∷ [] in
    ap (λ s. inputs_onto m (split b',' s)) (sym (append_assoc k (b':' ∷ b' ' ∷ v) (b',' ∷ more)))
    ∙ ap (inputs_onto m) (split-append b',' (pair_text k v) more (pair-Free_comma k v p.0))
    ∙ inputs_onto-pair m k v (split b',' more) p.0 h.0
    ∙ inputs_onto-blank m' (print_pairs (q ∷ d) [])
    ∙ inputs_onto-print m' (q ∷ d) p.1
        (subst (λ s. Distinct s (q ∷ d)) (sym (keys-append m ((k, v) ∷ []))) h.1) (λ e. cc)
    ∙ ap ok (append_assoc m ((k, v) ∷ []) (q ∷ d))
