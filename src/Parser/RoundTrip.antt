-- ===== src/Parser/RoundTrip.antt =====
-- `parseLine` reads back every well-formed directive.
use ssac.Base.{
  ◌+◌, ◌≡◌, refl, ap, ap₂, ◌∙◌, Bool, true, false, [], ◌∷◌, ◌++◌, Option, some, arith, ltb, length,
  drop, inl, inr, ok, ◌>>=◌,
}
use ssac.Text.{Text, codes, has_prefix, index, is_space}
use ssac.Text.Cut.{Free, index-Free, index-past, index-behind, take-length, drop-suc-length}
use ssac.Text.Trim.{trim_space-tight}
use ssac.Parser.Types.{Parsed, Sequence, get, post, put, delete, empty, exists}
use ssac.Parser.Scan.{extract_quoted}
use ssac.Parser.Line.{
  Line, sequence, marks_tag, strip_mark, dispatch, suppress, as_line, parse_directive, parse_line,
}
use ssac.Parser.Words.{quoted-IsTight, extract_quoted-quoted}
use ssac.Parser.Syntax.{quoted}
use ssac.Parser.Bodies.{parse_crud-bound, parse_crud-plain}
use ssac.Parser.Guards.{parse_guard-print, parse_state-print, parse_auth-print}
use ssac.Parser.Effects.{parse_call-plain, parse_call-bound, parse_publish-print}
use ssac.Parser.Directive.{
  Directive, get_d, post_d, put_d, delete_d, empty_d, exists_d, state_d, auth_d, call_d,
  call_result_d, publish_d, subscribe_d, tag, body, print_mark, print, meaning, IsDirective,
}

quote_tight : is_space b'"' ≡ false
unfolding is_space
quote_tight = refl

dispatch-print :
    (d : Directive) → IsDirective d → dispatch (tag d ++ b' ' ∷ body d) ≡ ok (some (meaning d))
unfolding dispatch has_prefix drop
dispatch-print (get_d t v m d) (ht, hv, hm, hd) = parse_crud-bound get t v m d ht hv hm hd
dispatch-print (post_d t v m d) (ht, hv, hm, hd) = parse_crud-bound post t v m d ht hv hm hd
dispatch-print (put_d m d) (hm, hd) = parse_crud-plain put m d hm hd
dispatch-print (delete_d m d) (hm, hd) = parse_crud-plain delete m d hm hd
dispatch-print (empty_d target msg st) (ht, hf, hm, hs) =
    ap (λ s. ok (some s)) (parse_guard-print empty target msg st ht hf hm hs)
dispatch-print (exists_d target msg st) (ht, hf, hm, hs) =
    ap (λ s. ok (some s)) (parse_guard-print exists target msg st ht hf hm hs)
dispatch-print (state_d id d move msg st) (hi, hd, hv, hm, hs) =
    parse_state-print id d move msg st hi hd hv hm hs
dispatch-print (auth_d action resource d msg st) (ha, hr, hd, hm, hs) =
    parse_auth-print action resource d msg st ha hr hd hm hs
dispatch-print (call_d model d st) (hm, hd, hs) = parse_call-plain model d st hm hd hs
dispatch-print (call_result_d t v model d st) (ht, hv, hm, hd, hs) =
    parse_call-bound t v model d st ht hv hm hd hs
dispatch-print (publish_d topic d options) (ht, hd, ho) =
    parse_publish-print topic d options ht hd ho
dispatch-print (subscribe_d topic) h =
    ap (λ s. ok (some (meaning (subscribe_d (extract_quoted s).0))))
      (trim_space-tight (quoted topic []) (quoted-IsTight topic [] quote_tight))
    ∙ ap (λ q. ok (some (meaning (subscribe_d q.0)))) (extract_quoted-quoted topic [] h quote_tight)

strip_mark-plain :
    (s body : Text)
    → Free b'!' s
    → Free b' ' s
    → strip_mark (s ++ b' ' ∷ body) ≡ (s ++ b' ' ∷ body, false)
unfolding strip_mark
strip_mark-plain s body hm hb = elim (index-behind b'!' s (b' ' ∷ body) hm) [
  | inl e ↦ rw (e, strip_mark)
  | inr (i, e) ↦
      let later : ltb (length s + i) (length s) ≡ false = ground arith in
      rw (e, strip_mark) (rw (index-Free b' ' s body hb, strip_mark) (ground (arith, later)))
]

mark_in_tag :
    (s rest : Text)
    → ltb 0 (length s) ≡ true
    → Free b' ' s
    → marks_tag (length s) (index b' ' (s ++ b'!' ∷ rest)) ≡ true
mark_in_tag s rest ne hb = elim (index-past b' ' s b'!' rest hb (omega arith)) [
  | inl e ↦ rw e ne
  | inr (i, e) ↦ rw e (ground (arith, ne))
]

strip_mark-marked :
    (s body : Text)
    → ltb 0 (length s) ≡ true
    → Free b'!' s
    → Free b' ' s
    → strip_mark (s ++ b'!' ∷ b' ' ∷ body) ≡ (s ++ b' ' ∷ body, true)
unfolding strip_mark
strip_mark-marked s body ne hm hb =
    let line : Text = s ++ b'!' ∷ b' ' ∷ body in
    let in_tag : marks_tag (length s) (index b' ' line) ≡ true =
      mark_in_tag s (b' ' ∷ body) ne hb in
    rw (index-Free b'!' s (b' ' ∷ body) hm, strip_mark)
      (rw (in_tag, strip_mark)
        (ap₂ (λ p q. (p ++ q, true)) (take-length s (b'!' ∷ b' ' ∷ body))
          (drop-suc-length s b'!' (b' ' ∷ body))))

-- What `parseLine` makes of a directive, marked or not.
abbrev outcome : Bool → Parsed (Option Sequence) → Parsed Line
outcome marked m = m >>= λ seq. ok (as_line (suppress marked seq))

tag-Free_mark : (d : Directive) → Free b'!' (tag d)
tag-Free_mark (get_d _ _ _ _) = omega arith
tag-Free_mark _ = omega arith

tag-Free_blank : (d : Directive) → Free b' ' (tag d)
tag-Free_blank (get_d _ _ _ _) = omega arith
tag-Free_blank _ = omega arith

tag_length : (d : Directive) → ltb 0 (length (tag d)) ≡ true
tag_length (get_d _ _ _ _) = refl
tag_length _ = refl

tag-not-response :
    (d : Directive) (rest : Text) → has_prefix (codes "@response") (tag d ++ rest) ≡ false
unfolding has_prefix
tag-not-response (get_d _ _ _ _) rest = refl
tag-not-response _ rest = refl

parse_directive-print :
    (d : Directive) (marked : Bool)
    → parse_directive (print d marked) ≡ outcome marked (dispatch (tag d ++ b' ' ∷ body d))
unfolding parse_directive
parse_directive-print d true =
    ap (λ p. outcome p.1 (dispatch p.0))
      (strip_mark-marked (tag d) (body d) (tag_length d) (tag-Free_mark d) (tag-Free_blank d))
parse_directive-print d false =
    ap (λ p. outcome p.1 (dispatch p.0))
      (strip_mark-plain (tag d) (body d) (tag-Free_mark d) (tag-Free_blank d))

abbrev pub with_mark : Bool → Sequence → Sequence
with_mark marked s = record s { suppress_warn = marked }

suppress_lem :
    (marked : Bool) (d : Directive)
    → as_line (suppress marked (some (meaning d))) ≡ sequence (with_mark marked (meaning d))
suppress_lem true d = refl
suppress_lem false (get_d _ _ _ _) = refl
suppress_lem false _ = refl

-- `parseLine` reads a directive that is written in the documented form, with or without the `!` mark
-- and a trailing status, as the sequence that it stands for: each name, block, quoted text and status
-- comes back as it was written. This holds for every well-formed directive of every kind but
-- @response.
pub parse_line-print :
    (d : Directive) (marked : Bool)
    → IsDirective d
    → parse_line (print d marked) ≡ ok (sequence (with_mark marked (meaning d)))
unfolding parse_line
parse_line-print d marked h =
    rw (tag-not-response d (print_mark marked (b' ' ∷ body d)), parse_line)
      (parse_directive-print d marked)
    ∙ ap (outcome marked) (dispatch-print d h)
    ∙ ap ok (suppress_lem marked d)
