-- ===== src/Parser/Effects.antt =====
-- The bodies of @call and @publish are read back.
use ssac.Base.{
  ℕ, ◌+◌, ◌≡◌, refl, ap, ap₂, ◌∙◌, true, false, [], ◌∷◌, ◌++◌, Option, none, some, arith, ltb,
  length, inl, inr, ok, ◌>>=◌,
}
use ssac.Text.{Text, is_space, has_prefix, trim_space, index}
use ssac.Text.Cut.{Free, index-Free, index-behind, index-past, take-length, drop-suc-length}
use ssac.Text.Trim.{
  StartsTight, EndsTight, IsTight, trim_space-tight, trim_space-nil, trim_space-blank-tight,
  EndsTight-append, StartsTight-append,
}
use ssac.Dict.{Dict}
use ssac.Parser.Types.{Parsed, Sequence, blank, Binding, call, publish}
use ssac.Parser.Scan.{extract_inputs, status_of}
use ssac.Parser.Line.{
  call_expr, call_bound, call_sides, call_split, binds_result, parse_call, publish_options,
  parse_publish,
}
use ssac.Parser.Syntax.{
  is_word_char, IsWord, IsBlock, print_block, quoted, print_status, status_value, IsStatus,
  TypeExpr, print_type, IsType, binding,
}
use ssac.Parser.Words.{
  word-Free, IsWord-IsTight, extract_quoted-blank, trim_space-status, status_of-text,
  print_status-EndsTight,
}
use ssac.Parser.Calls.{
  extract_inputs-print, print_call, parse_call_expr_inputs-print, block_rest-IsTight,
  print_call-IsTight,
}
use ssac.Parser.Directive.{print_bound, print_options}
use ssac.Parser.Bodies.{
  bound_name-Free, bound_name-IsTight, parse_result-bound, print_bound-IsTight,
}

abbrev call_sequence : Text → Option Binding → Dict Text → ℕ → Sequence
call_sequence model result d n = record (blank call) {
  model = model;
  result = result;
  inputs = d;
  err_status = n;
}

status-Free : (c : ℕ) (st : Option ℕ) → c ≡ b')' → IsStatus st → Free c (print_status st)
status-Free c none e h = tt
status-Free c (some n) e h = (omega arith, (omega arith, (omega arith, (omega arith, tt))))

call_expr-print :
    (result : Option Binding) (model : Text) (d : Dict Text) (st : Option ℕ)
    → IsWord model
    → IsBlock d
    → IsStatus st
    → call_expr result (print_call model d (print_status st))
      ≡ ok (some (call_sequence model result d (status_value st)))
unfolding call_expr is_word_char is_space
call_expr-print result model d st hm hd hs =
    let made : Text × Dict Text × Text → Parsed (Option Sequence) =
      λ p. ok (some (call_sequence p.0 result p.1 (status_of p.2))) in
    ap (λ r. r >>= made)
      (parse_call_expr_inputs-print model d (print_status st) (IsWord-IsTight model hm).0
        (word-Free b'(' model refl hm.1) hd (status-Free b')' st refl hs)
        (print_status-EndsTight b')' st refl hs))
    ∙ ap (λ s. made (model, d, s)) (trim_space-status st hs)
    ∙ ap (λ n. ok (some (call_sequence model result d n))) (status_of-text st hs)

call-IsTight :
    (model : Text) (d : Dict Text) (st : Option ℕ)
    → IsWord model
    → IsStatus st
    → IsTight (print_call model d (print_status st))
unfolding is_space
call-IsTight model d st hm hs =
    print_call-IsTight model d (print_status st) (IsWord-IsTight model hm).0
      (print_status-EndsTight b')' st refl hs)

-- Equals signs inside the inputs bind no result.
call_split-plain :
    (model : Text) (rest : Text)
    → Free b'=' model
    → Free b'(' model
    → call_split (model ++ b'(' ∷ rest) ≡ call_expr none (model ++ b'(' ∷ rest)
unfolding call_split
call_split-plain model rest he hp = elim (index-behind b'=' model (b'(' ∷ rest) he) [
  | inl e ↦ rw (e, call_split)
  | inr (i, e) ↦
      let later : ltb (length model + i) (length model) ≡ false = ground arith in
      rw (e, call_split) (rw (index-Free b'(' model rest hp, call_split) (ground (arith, later)))
]

pub parse_call-plain :
    (model : Text) (d : Dict Text) (st : Option ℕ)
    → IsWord model
    → IsBlock d
    → IsStatus st
    → parse_call (print_call model d (print_status st))
      ≡ ok (some (call_sequence model none d (status_value st)))
unfolding parse_call is_word_char
parse_call-plain model d st hm hd hs =
    ap call_split
      (trim_space-tight (print_call model d (print_status st)) (call-IsTight model d st hm hs))
    ∙ call_split-plain model _ (word-Free b'=' model refl hm.1) (word-Free b'(' model refl hm.1)
    ∙ call_expr-print none model d st hm hd hs

StartsTight-length : (s : Text) → StartsTight s → ltb 0 (length s) ≡ true
StartsTight-length [] h = absurd h
StartsTight-length (c ∷ s) h = ground arith

name_binds :
    (name rest : Text)
    → StartsTight name
    → Free b'(' name
    → binds_result (length name) (index b'(' (name ++ b'=' ∷ rest)) ≡ true
name_binds name rest hn hp =
    let some_name : ltb 0 (length name) ≡ true = StartsTight-length name hn in
    elim (index-past b'(' name b'=' rest hp (omega arith)) [
      | inl e ↦ rw e some_name
      | inr (i, e) ↦ rw e (ground (arith, some_name))
    ]

-- A name in front of the first equals sign binds the result.
call_split-bound :
    (name rest : Text)
    → StartsTight name
    → Free b'=' name
    → Free b'(' name
    → call_split (name ++ b'=' ∷ rest) ≡ call_sides name rest
unfolding call_split
call_split-bound name rest hn he hp =
    rw (index-Free b'=' name rest he, call_split)
      (rw (name_binds name rest hn hp, call_split)
        (ap₂ call_sides (take-length name (b'=' ∷ rest)) (drop-suc-length name b'=' rest)))

pub parse_call-bound :
    (t : TypeExpr) (v : Text) (model : Text) (d : Dict Text) (st : Option ℕ)
    → IsType t
    → IsWord v
    → IsWord model
    → IsBlock d
    → IsStatus st
    → parse_call (print_bound t v (print_call model d (print_status st)))
      ≡ ok (some (call_sequence model (some (binding t v)) d (status_value st)))
unfolding parse_call call_sides is_word_char
parse_call-bound t v model d st ht hv hm hd hs =
    let name : Text = (print_type t ++ b' ' ∷ v) ++ b' ' ∷ [] in
    let expr : Text = print_call model d (print_status st) in
    let tight : IsTight expr = call-IsTight model d st hm hs in
    ap call_split
      (trim_space-tight (print_bound t v expr) (print_bound-IsTight t v expr ht hv tight.1))
    ∙ call_split-bound name (b' ' ∷ expr)
        (StartsTight-append (print_type t ++ b' ' ∷ v) (b' ' ∷ []) (bound_name-IsTight t v ht hv).0)
        (bound_name-Free b'=' t v refl (omega arith) (omega arith) (omega arith) ht hv)
        (bound_name-Free b'(' t v refl (omega arith) (omega arith) (omega arith) ht hv)
    ∙ ap₂ call_bound (trim_space-blank-tight expr tight) (parse_result-bound t v ht hv)
    ∙ call_expr-print (some (binding t v)) model d st hm hd hs

options_after : (options : Dict Text) → Text
options_after [] = []
options_after (p ∷ d) = print_block (p ∷ d) []

trim_space-options :
    (options : Dict Text) → trim_space (print_options options) ≡ options_after options
unfolding options_after is_space
trim_space-options [] = trim_space-nil
trim_space-options (p ∷ d) =
    trim_space-blank-tight (print_block (p ∷ d) []) (block_rest-IsTight (p ∷ d) [] refl)

trim_space-options_after :
    (options : Dict Text) → trim_space (options_after options) ≡ options_after options
unfolding options_after is_space
trim_space-options_after [] = trim_space-nil
trim_space-options_after (p ∷ d) =
    trim_space-tight (print_block (p ∷ d) []) (block_rest-IsTight (p ∷ d) [] refl)

publish_options-print :
    (options : Dict Text) → IsBlock options → publish_options (options_after options) ≡ ok options
unfolding publish_options options_after has_prefix
publish_options-print [] h = refl
publish_options-print (p ∷ d) h = ap (λ r. r >>= λ q. ok q.0) (extract_inputs-print (p ∷ d) [] h)

options-EndsTight : (options : Dict Text) → EndsTight (b'}' ∷ print_options options)
unfolding is_space
options-EndsTight [] = refl
options-EndsTight (p ∷ d) =
    EndsTight-append (b'}' ∷ b' ' ∷ []) (print_block (p ∷ d) [])
      (block_rest-IsTight (p ∷ d) [] refl).1

pub parse_publish-print :
    (topic : Text) (d options : Dict Text)
    → Free b'"' topic
    → IsBlock d
    → IsBlock options
    → parse_publish (quoted topic (b' ' ∷ print_block d (print_options options)))
      ≡ ok (some (record (blank publish) { topic = topic; inputs = d; options = options }))
unfolding parse_publish
parse_publish-print topic d options ht hd ho =
    let block : Text = print_block d (print_options options) in
    let tight : IsTight block =
      block_rest-IsTight d (print_options options) (options-EndsTight options) in
    let made : Text → Dict Text → Dict Text → Parsed (Option Sequence) =
      λ t p o. ok (some (record (blank publish) { topic = t; inputs = p; options = o })) in
    let behind : Text → Dict Text × Text → Parsed (Option Sequence) =
      λ t p. publish_options (trim_space p.1) >>= λ o. made t p.0 o in
    ap (λ q. extract_inputs (trim_space q.1) >>= behind q.0)
      (extract_quoted-blank topic block ht tight)
    ∙ ap (λ s. extract_inputs s >>= behind topic) (trim_space-tight block tight)
    ∙ ap (λ r. r >>= behind topic) (extract_inputs-print d (print_options options) hd)
    ∙ ap (λ s. behind topic (d, s)) (trim_space-options options)
    ∙ ap (λ s. publish_options s >>= λ o. made topic d o) (trim_space-options_after options)
    ∙ ap (λ r. r >>= λ o. made topic d o) (publish_options-print options ho)
