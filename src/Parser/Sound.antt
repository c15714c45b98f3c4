-- ===== src/Parser/Sound.antt =====
-- What the parser returns: sequences of known kinds with status codes in range.
pub mod Functions
use ssac.Base.{
  ℕ, ◌≤◌, ◌≡◌, ◌⊎◌, inl, inr, refl, subst, Bool, true, false, List, [], ◌∷◌, ◌++◌, Option, none,
  some, arith, ok, fail, panic, ◌>>=◌, leb, ◌&&◌, All, All-append, Bool-cases, if◌then◌else◌, drop,
}
use ssac.Text.{Text, codes, has_prefix, atoi, trim_space, index, split, drop_last}
use ssac.Dict.{Dict}
use ssac.Parser.Types.{
  SeqType, get, post, put, delete, empty, exists, state, auth, call, publish, response, subscribe,
  other, valid_sequence_type, blank, Binding, Sequence, Parsed, ServiceFunc,
}
use ssac.Parser.Scan.{
  parse_response_fields, status_of, status_in_range, extract_inputs, parse_call_expr_inputs,
  extract_quoted, parse_two_quoted, split_package_prefix, split_target_message,
}
use ssac.Parser.Line.{
  crud_call, crud_bound, crud_sides, crud_split, parse_crud, parse_guard, state_parts, state_split,
  parse_state, parse_auth, call_expr, call_bound, call_sides, call_split, parse_call,
  publish_options, parse_publish, dispatch, suppress, as_line, Line, sequence, nothing,
  response_start, strip_mark, parse_directive, response_line, parse_line,
}

-- No status, or an HTTP status.
abbrev pub StatusInRange : ℕ → Type 0
StatusInRange n = (n ≡ 0) ⊎ ((100 ≤ n) × (n ≤ 599))

-- One of the program's kinds of sequence, or the trigger.
abbrev pub IsKnown : SeqType → Type 0
IsKnown t = (t ≡ subscribe) ⊎ (valid_sequence_type t ≡ true)

abbrev pub IsSound : Sequence → Type 0
IsSound s = IsKnown s.type × StatusInRange s.err_status

pub status_of-StatusInRange : (s : Text) → StatusInRange (status_of s)
unfolding status_of status_in_range
status_of-StatusInRange s = ground arith

-- A sequence, where there is one, is sound.
AllSound : Parsed (Option Sequence) → Type 0
AllSound (ok (some s)) = IsSound s
AllSound (ok none) = Unit
AllSound (fail e) = Unit
AllSound panic = Unit

some-AllSound :
    (s : Sequence) → IsKnown s.type → StatusInRange s.err_status → AllSound (ok (some s))
unfolding AllSound
some-AllSound s k r = (k, r)

none-AllSound : AllSound (ok none)
unfolding AllSound
none-AllSound = tt

bind-AllSound :
    {A : Type 0} (m : Parsed A) (f : A → Parsed (Option Sequence))
    → ((a : A) → AllSound (f a))
    → AllSound (m >>= f)
unfolding AllSound
bind-AllSound (ok a) f h = h a
bind-AllSound (fail e) f h = tt
bind-AllSound panic f h = tt

crud_call-AllSound :
    (t : SeqType) (r : Option Binding) (e : Text) → IsKnown t → AllSound (crud_call t r e)
unfolding crud_call
crud_call-AllSound t r e k =
    bind-AllSound (parse_call_expr_inputs e) _ (λ p. some-AllSound _ k (inl refl))

crud_bound-AllSound :
    (t : SeqType) (e : Text) (r : Option Binding) → IsKnown t → AllSound (crud_bound t e r)
unfolding crud_bound
crud_bound-AllSound t e none k = none-AllSound
crud_bound-AllSound t e (some r) k = crud_call-AllSound t (some r) e k

-- The two branches of a test, and of a search for a character.
if-AllSound :
    (b : Bool) (x y : Parsed (Option Sequence))
    → AllSound x
    → AllSound y
    → AllSound (if b then x else y)
unfolding AllSound
if-AllSound true x y h k = h
if-AllSound false x y h k = k

at-AllSound :
    (r : Option ℕ) (m : Parsed (Option Sequence)) (f : ℕ → Parsed (Option Sequence))
    → AllSound m
    → ((i : ℕ) → AllSound (f i))
    → AllSound (elim r [ none ↦ m | some i ↦ f i ])
unfolding AllSound
at-AllSound none m f h k = h
at-AllSound (some i) m f h k = k i

parse_crud-AllSound : (t : SeqType) (l : Text) (b : Bool) → IsKnown t → AllSound (parse_crud t l b)
unfolding parse_crud
parse_crud-AllSound t l b k =
    if-AllSound b _ _
      (at-AllSound (index b'=' (trim_space l)) _ _ none-AllSound (λ i. crud_bound-AllSound t _ _ k))
      (crud_call-AllSound t none (trim_space l) k)

parse_state-AllSound : (l : Text) → AllSound (parse_state l)
unfolding parse_state valid_sequence_type
parse_state-AllSound l = at-AllSound (index b' ' (trim_space l)) _ _ none-AllSound (λ i.
    bind-AllSound (extract_inputs _) _
      (λ p. some-AllSound _ (inr refl) (status_of-StatusInRange _)))

parse_auth-AllSound : (l : Text) → AllSound (parse_auth l)
unfolding parse_auth valid_sequence_type
parse_auth-AllSound l =
    bind-AllSound (extract_inputs _) _ (λ p. some-AllSound _ (inr refl) (status_of-StatusInRange _))

call_expr-AllSound : (r : Option Binding) (e : Text) → AllSound (call_expr r e)
unfolding call_expr valid_sequence_type
call_expr-AllSound r e =
    bind-AllSound (parse_call_expr_inputs e) _
      (λ p. some-AllSound _ (inr refl) (status_of-StatusInRange _))

call_bound-AllSound : (e : Text) (r : Option Binding) → AllSound (call_bound e r)
unfolding call_bound
call_bound-AllSound e none = none-AllSound
call_bound-AllSound e (some r) = call_expr-AllSound (some r) e

parse_call-AllSound : (l : Text) → AllSound (parse_call l)
unfolding call_split parse_call
parse_call-AllSound l =
    at-AllSound (index b'=' (trim_space l)) _ _ (call_expr-AllSound none _)
      (λ i. if-AllSound _ _ _ (call_bound-AllSound _ _) (call_expr-AllSound none _))

parse_publish-AllSound : (l : Text) → AllSound (parse_publish l)
unfolding parse_publish valid_sequence_type
parse_publish-AllSound l =
    bind-AllSound (extract_inputs _) _
      (λ p. bind-AllSound (publish_options _) _ (λ o. some-AllSound _ (inr refl) (inl refl)))

parse_guard-AllSound : (t : SeqType) (l : Text) → IsKnown t → AllSound (ok (some (parse_guard t l)))
unfolding parse_guard
parse_guard-AllSound t l k = some-AllSound _ k (status_of-StatusInRange _)

abbrev subscription : Text → Sequence
subscription l = record (blank subscribe) { topic = (extract_quoted (trim_space (drop 11 l))).0 }

subscribe-AllSound : (l : Text) → AllSound (ok (some (subscription l)))
subscribe-AllSound l = some-AllSound (subscription l) (inl refl) (inl refl)

dispatch-AllSound : (l : Text) → AllSound (dispatch l)
unfolding dispatch valid_sequence_type
dispatch-AllSound l = if-AllSound _ _ _ (parse_crud-AllSound get _ true (inr refl)) (
    if-AllSound _ _ _ (parse_crud-AllSound post _ true (inr refl)) (
      if-AllSound _ _ _ (parse_crud-AllSound put _ false (inr refl)) (
        if-AllSound _ _ _ (parse_crud-AllSound delete _ false (inr refl)) (
          if-AllSound _ _ _ (parse_guard-AllSound empty _ (inr refl)) (
            if-AllSound _ _ _ (parse_guard-AllSound exists _ (inr refl)) (
              if-AllSound _ _ _ (parse_state-AllSound _) (
                if-AllSound _ _ _ (parse_auth-AllSound _) (
                  if-AllSound _ _ _ (parse_publish-AllSound _) (
                    if-AllSound _ _ _ (subscribe-AllSound l)
                      (if-AllSound _ _ _ (parse_call-AllSound _) none-AllSound))))))))))

unfoldable pub LineSound : Parsed Line → Type 0
LineSound (ok (sequence s)) = IsSound s
LineSound (ok nothing) = Unit
LineSound (ok response_start) = Unit
LineSound (fail e) = Unit
LineSound panic = Unit

sequence-LineSound :
    (s : Sequence) → IsKnown s.type → StatusInRange s.err_status → LineSound (ok (sequence s))
unfolding LineSound
sequence-LineSound s k r = (k, r)

start-LineSound : LineSound (ok response_start)
unfolding LineSound
start-LineSound = tt

suppress-LineSound :
    (marked : Bool) (m : Parsed (Option Sequence))
    → AllSound m
    → LineSound (m >>= λ seq. ok (as_line (suppress marked seq)))
unfolding AllSound LineSound
suppress-LineSound true (ok none) h = tt
suppress-LineSound false (ok none) h = tt
suppress-LineSound true (ok (some s)) h = h
suppress-LineSound false (ok (some s)) h = h
suppress-LineSound marked (fail e) h = tt
suppress-LineSound marked panic h = tt

parse_directive-LineSound : (l : Text) → LineSound (parse_directive l)
unfolding parse_directive
parse_directive-LineSound l =
    suppress-LineSound (strip_mark l).1 (dispatch (strip_mark l).0)
      (dispatch-AllSound (strip_mark l).0)

if-LineSound :
    (b : Bool) (x y : Parsed Line) → LineSound x → LineSound y → LineSound (if b then x else y)
unfolding LineSound
if-LineSound true x y h k = h
if-LineSound false x y h k = k

abbrev fields_response : Bool → Text → Sequence
fields_response w trimmed = record (blank response) {
  fields = parse_response_fields (split b',' (drop_last (drop 1 trimmed)));
  suppress_warn = w;
}

abbrev target_response : Bool → Text → Sequence
target_response w trimmed = record (blank response) { target = trimmed; suppress_warn = w }

response_line-LineSound :
    (w : Bool) (line trimmed : Text) → LineSound (response_line w line trimmed)
unfolding response_line valid_sequence_type
response_line-LineSound w line trimmed = if-LineSound _ _ _ start-LineSound (
    if-LineSound _ _ _ (sequence-LineSound (fields_response w trimmed) (inr refl) (inl refl)) (
      if-LineSound _ _ _ (sequence-LineSound (target_response w trimmed) (inr refl) (inl refl))
        (parse_directive-LineSound line)))

pub parse_line-LineSound : (l : Text) → LineSound (parse_line l)
unfolding parse_line
parse_line-LineSound l =
    if-LineSound _ _ _ (response_line-LineSound _ l _) (parse_directive-LineSound l)

pub parse_line-IsSound : (l : Text) (s : Sequence) → parse_line l ≡ ok (sequence s) → IsSound s
unfolding LineSound
parse_line-IsSound l s e = subst LineSound e (parse_line-LineSound l)
