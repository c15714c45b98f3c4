-- ===== src/Parser/Words.antt =====
-- What the scanners do on words, quoted texts, status codes, types and model names.
use ssac.Base.{
  ℕ, suc, ◌+◌, ◌≤◌, ◌≡◌, refl, subst, ap, ap₂, ◌∙◌, true, false, [], ◌∷◌, ◌++◌, Option, none, some,
  arith, ltb, length, drop, All, append_assoc,
}
use ssac.Text.{
  Text, is_space, has_prefix, ends_with, trim_space, fields, trim_prefix, digits_value, atoi,
}
use ssac.Text.Cut.{
  Free, index-Free, index-none, take-length, drop-suc-length, ends_with-last, drop_last-last,
}
use ssac.Text.Trim.{
  EndsTight, IsTight, trim_space-tight, trim_space-nil, trim_space-blank-tight, Spaceless,
  Spaceless-EndsTight, fields-two, EndsTight-append, IsTight-append,
}
use ssac.Parser.Scan.{
  package_of, package_at, status_in_range, unquote, extract_quoted, status_of, binding_of,
  result_of, parse_result, split_package_prefix, starts_lower,
}
use ssac.Parser.Syntax.{
  is_word_char, IsWord, quoted, three_digits, print_status, status_value, IsStatus, TypeExpr, plain,
  slice, wrapped, print_type, IsType, binding, ModelRef, method, packaged, model_text, package_text,
  print_model,
}

-- A separator does not occur in a word.
pub word-Free :
    (c : ℕ) (s : Text) → is_word_char c ≡ false → All (λ x. is_word_char x ≡ true) s → Free c s
word-Free c [] h k = tt
word-Free c (x ∷ s) h k = ((λ e. cc (ap is_word_char e)), word-Free c s h k.1)

word_char-not-is_space : (c : ℕ) → is_word_char c ≡ true → is_space c ≡ false
unfolding is_word_char
word_char-not-is_space c h = ground arith

word_char-Spaceless : (s : Text) → All (λ x. is_word_char x ≡ true) s → Spaceless s
word_char-Spaceless [] h = tt
word_char-Spaceless (c ∷ s) h = (word_char-not-is_space c h.0, word_char-Spaceless s h.1)

pub IsWord-Spaceless : (s : Text) → IsWord s → Spaceless s
IsWord-Spaceless s w = word_char-Spaceless s w.1

pub IsWord-IsTight : (s : Text) → IsWord s → IsTight s
IsWord-IsTight [] w = absurd w.0
IsWord-IsTight (c ∷ s) w =
    let h : Spaceless (c ∷ s) = IsWord-Spaceless (c ∷ s) w in (h.0, Spaceless-EndsTight c s h)

drop-quoted : (m rest : Text) → drop (length m + 2) (quoted m rest) ≡ rest
unfolding drop
drop-quoted m rest =
    let e : length m + 2 ≡ suc (suc (length m)) = omega arith in rw e (drop-suc-length m b'"' rest)

pub quoted-IsTight : (m rest : Text) → EndsTight (b'"' ∷ rest) → IsTight (quoted m rest)
unfolding is_space
quoted-IsTight m rest k = (refl, EndsTight-append (b'"' ∷ m) (b'"' ∷ rest) k)

unquote-quoted : (m rest : Text) → Free b'"' m → unquote (quoted m rest) ≡ (m, trim_space rest)
unfolding unquote has_prefix drop
unquote-quoted m rest h = rw (index-Free b'"' m rest h) (rw (take-length, drop-quoted m rest))

-- A quoted text in front of anything that ends tight.
pub extract_quoted-quoted :
    (m rest : Text)
    → Free b'"' m
    → EndsTight (b'"' ∷ rest)
    → extract_quoted (quoted m rest) ≡ (m, trim_space rest)
unfolding extract_quoted
extract_quoted-quoted m rest h k =
    ap unquote (trim_space-tight (quoted m rest) (quoted-IsTight m rest k))
    ∙ unquote-quoted m rest h

three_digits_value : (n : ℕ) → 100 ≤ n → n ≤ 599 → atoi (three_digits n) ≡ some n
unfolding atoi digits_value trim_prefix drop
three_digits_value n h k = ground arith

status_of-three_digits : (n : ℕ) → 100 ≤ n → n ≤ 599 → status_of (three_digits n) ≡ n
unfolding status_of
status_of-three_digits n h k = ap status_in_range (three_digits_value n h k) ∙ ground arith

status_of-nil : status_of [] ≡ 0
unfolding status_of atoi trim_prefix drop
status_of-nil = refl

three_digits-IsTight : (n : ℕ) → 100 ≤ n → n ≤ 599 → IsTight (three_digits n)
unfolding is_space
three_digits-IsTight n h k = (ground arith, ground arith)

pub status_of-print :
    (st : Option ℕ) → IsStatus st → status_of (trim_space (print_status st)) ≡ status_value st
status_of-print none h = rw trim_space-nil status_of-nil
status_of-print (some n) h =
    rw (trim_space-blank-tight (three_digits n) (three_digits-IsTight n h.0 h.1))
      (status_of-three_digits n h.0 h.1)

-- A status, or none, ends tight behind any tight character.
pub print_status-EndsTight :
    (c : ℕ) (st : Option ℕ) → is_space c ≡ false → IsStatus st → EndsTight (c ∷ print_status st)
print_status-EndsTight c none e h = e
print_status-EndsTight c (some n) e h = (three_digits-IsTight n h.0 h.1).1

-- A model reference: its parts are words without dots, and a package begins with a small letter.
abbrev pub IsModelRef : ModelRef → Type 0
IsModelRef (method m f) = IsWord m × IsWord f × Free b'.' m × Free b'.' f
IsModelRef (packaged p m f) =
    IsWord p
    × IsWord m
    × IsWord f
    × Free b'.' p
    × Free b'.' m
    × Free b'.' f
    × (starts_lower p ≡ true)

split_at_dot :
    (p rest : Text)
    → Free b'.' p
    → split_package_prefix (p ++ b'.' ∷ rest) ≡ package_at (p ++ b'.' ∷ rest) p rest
unfolding split_package_prefix
split_at_dot p rest h =
    rw (index-Free b'.' p rest h, split_package_prefix)
      (ap₂ (package_at (p ++ b'.' ∷ rest)) (take-length p (b'.' ∷ rest))
        (drop-suc-length p b'.' rest))

split_method :
    (m f : Text)
    → Free b'.' m
    → Free b'.' f
    → split_package_prefix (m ++ b'.' ∷ f) ≡ ([], m ++ b'.' ∷ f)
unfolding package_at
split_method m f hm hf =
    split_at_dot m f hm ∙ ap (λ d. package_of (m ++ b'.' ∷ f) d m f) (index-none b'.' f hf)

split_packaged :
    (p m f : Text)
    → Free b'.' p
    → Free b'.' m
    → starts_lower p ≡ true
    → split_package_prefix (p ++ b'.' ∷ (m ++ b'.' ∷ f)) ≡ (p, m ++ b'.' ∷ f)
unfolding package_at
split_packaged p m f hp hm low =
    let rest : Text = m ++ b'.' ∷ f in
    split_at_dot p rest hp
    ∙ ap (λ d. package_of (p ++ b'.' ∷ rest) d p rest) (index-Free b'.' m f hm)
    ∙ rw low

pub split_package_prefix-print :
    (m : ModelRef)
    → IsModelRef m
    → split_package_prefix (print_model m) ≡ (package_text m, model_text m)
split_package_prefix-print (method m f) (_, _, hm, hf) = split_method m f hm hf
split_package_prefix-print (packaged p m f) (_, _, _, hp, hm, _, low) =
    split_packaged p m f hp hm low

bracket-Free : (t : Text) → IsWord t → Free b'[' t
unfolding is_word_char
bracket-Free t w = word-Free b'[' t refl w.1

NonEmpty-length : (w : Text) → IsWord w → ltb 0 (length w) ≡ true
NonEmpty-length [] w = absurd w.0
NonEmpty-length (c ∷ w) _ = ground arith

wrapped_ends : (w t : Text) → ends_with b']' (w ++ b'[' ∷ (t ++ b']' ∷ [])) ≡ true
wrapped_ends w t =
    subst (λ s. ends_with b']' s ≡ true) (append_assoc w (b'[' ∷ t) (b']' ∷ []))
      (ends_with-last b']' (w ++ b'[' ∷ t))

binding_of-print : (t : TypeExpr) (v : Text) → IsType t → binding_of (print_type t) v ≡ binding t v
unfolding binding_of
binding_of-print (plain t) v h = rw (index-none b'[' t (bracket-Free t h), binding_of)
binding_of-print (slice t) v h = rw (index-Free b'[' [] (b']' ∷ t) tt, binding_of)
binding_of-print (wrapped w t) v (hw, ht) =
    rw (index-Free b'[' w (t ++ b']' ∷ []) (bracket-Free w hw), binding_of)
      (rw (NonEmpty-length w hw) (
        rw (wrapped_ends w t) (
          rw (drop-suc-length w b'[' (t ++ b']' ∷ []), drop_last-last b']' t)
            (rw (take-length w (b'[' ∷ (t ++ b']' ∷ [])))))))

Spaceless-append : (s t : Text) → Spaceless s → Spaceless t → Spaceless (s ++ t)
Spaceless-append [] t h k = k
Spaceless-append (c ∷ s) t h k = (h.0, Spaceless-append s t h.1 k)

pub print_type-Spaceless : (t : TypeExpr) → IsType t → Spaceless (print_type t)
unfolding is_space
print_type-Spaceless (plain t) h = IsWord-Spaceless t h
print_type-Spaceless (slice t) h = (refl, (refl, IsWord-Spaceless t h))
print_type-Spaceless (wrapped w t) (hw, ht) =
    Spaceless-append w _ (IsWord-Spaceless w hw)
      (refl, Spaceless-append t (b']' ∷ []) (IsWord-Spaceless t ht) (refl, tt))

fields-words :
    (s t : Text)
    → IsTight s
    → Spaceless s
    → IsWord t
    → fields (trim_space (s ++ b' ' ∷ t)) ≡ s ∷ t ∷ []
fields-words [] t h k w = absurd h.0
fields-words (a ∷ s) [] h k w = absurd w.0
fields-words (a ∷ s) (b ∷ t) h k w =
    ap fields (
      trim_space-tight ((a ∷ s) ++ b' ' ∷ b ∷ t)
        (IsTight-append (a ∷ s) (b' ' ∷ b ∷ t) h.0 (IsWord-IsTight (b ∷ t) w).1))
    ∙ fields-two a b s t k (IsWord-Spaceless (b ∷ t) w)

pub print_type-IsTight : (t : TypeExpr) → IsType t → IsTight (print_type t)
unfolding is_space
print_type-IsTight (plain t) h = IsWord-IsTight t h
print_type-IsTight (slice t) h =
    (refl, EndsTight-append (b'[' ∷ b']' ∷ []) t (IsWord-IsTight t h).1)
print_type-IsTight (wrapped w t) (hw, ht) =
    IsTight-append w (b'[' ∷ (t ++ b']' ∷ [])) (IsWord-IsTight w hw).0
      (EndsTight-append (b'[' ∷ t) (b']' ∷ []) refl)

pub parse_result-print :
    (t : TypeExpr) (v : Text)
    → IsType t
    → IsWord v
    → parse_result (print_type t ++ b' ' ∷ v) ≡ some (binding t v)
unfolding parse_result
parse_result-print t v h k =
    ap result_of
      (fields-words (print_type t) v (print_type-IsTight t h) (print_type-Spaceless t h) k)
    ∙ ap some (binding_of-print t v h)

-- A status as it stands when the blank in front is trimmed.
abbrev pub status_text : Option ℕ → Text
status_text none = []
status_text (some n) = three_digits n

pub trim_space-status :
    (st : Option ℕ) → IsStatus st → trim_space (print_status st) ≡ status_text st
trim_space-status none h = trim_space-nil
trim_space-status (some n) h =
    trim_space-blank-tight (three_digits n) (three_digits-IsTight n h.0 h.1)

pub trim_space-status_text :
    (st : Option ℕ) → IsStatus st → trim_space (status_text st) ≡ status_text st
trim_space-status_text none h = trim_space-nil
trim_space-status_text (some n) h =
    trim_space-tight (three_digits n) (three_digits-IsTight n h.0 h.1)

pub status_of-text : (st : Option ℕ) → IsStatus st → status_of (status_text st) ≡ status_value st
status_of-text none h = status_of-nil
status_of-text (some n) h = status_of-three_digits n h.0 h.1

-- The message of a directive, with the status behind it.
pub message_and_status :
    (msg : Text) (st : Option ℕ)
    → Free b'"' msg
    → IsStatus st
    → extract_quoted (quoted msg (print_status st)) ≡ (msg, status_text st)
unfolding is_space
message_and_status msg st h k =
    extract_quoted-quoted msg (print_status st) h (print_status-EndsTight b'"' st refl k)
    ∙ ap (λ r. (msg, r)) (trim_space-status st k)

pub message-IsTight :
    (msg : Text) (st : Option ℕ) → IsStatus st → IsTight (quoted msg (print_status st))
unfolding is_space
message-IsTight msg st k =
    quoted-IsTight msg (print_status st) (print_status-EndsTight b'"' st refl k)

-- A quoted text, a blank and what follows, trimmed before or not.
pub extract_quoted-blank :
    (m rest : Text)
    → Free b'"' m
    → IsTight rest
    → extract_quoted (trim_space (quoted m (b' ' ∷ rest))) ≡ (m, rest)
extract_quoted-blank m rest h tight =
    let ends : EndsTight (b'"' ∷ b' ' ∷ rest) = EndsTight-append (b'"' ∷ b' ' ∷ []) rest tight.1 in
    ap extract_quoted
      (trim_space-tight (quoted m (b' ' ∷ rest)) (quoted-IsTight m (b' ' ∷ rest) ends))
    ∙ extract_quoted-quoted m (b' ' ∷ rest) h ends
    ∙ ap (λ r. (m, r)) (trim_space-blank-tight rest tight)
