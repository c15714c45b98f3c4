-- ===== src/Parser/Guards.antt =====
-- The bodies of @empty, @exists, @state and @auth are read back.
use ssac.Base.{ℕ, ◌≡◌, refl, ap, ap₂, ◌∙◌, [], ◌∷◌, ◌++◌, Option, some, arith, ok, ◌>>=◌}
use ssac.Text.{Text, is_space, trim_space}
use ssac.Text.Cut.{Free, Free-append, index-Free, take-length, drop-length, drop-suc-length}
use ssac.Text.Trim.{
  EndsTight, IsTight, trim_space-tight, trim_space-blank_behind, EndsTight-append, EndsTight-cons,
  StartsTight-append, IsTight-append, Spaceless,
}
use ssac.Dict.{Dict}
use ssac.Parser.Types.{SeqType, Parsed, Sequence, blank, state, auth}
use ssac.Parser.Scan.{
  extract_quoted, parse_two_quoted, split_target_message, extract_inputs, status_of,
}
use ssac.Parser.Line.{parse_guard, state_parts, state_split, parse_state, parse_auth}
use ssac.Parser.Syntax.{IsWord, IsBlock, print_block, quoted, print_status, status_value, IsStatus}
use ssac.Parser.Words.{
  IsWord-IsTight, IsWord-Spaceless, quoted-IsTight, status_text, trim_space-status_text,
  status_of-text, message_and_status, message-IsTight, extract_quoted-blank,
}
use ssac.Parser.Calls.{extract_inputs-blank, block-EndsTight, block_rest-IsTight}
use ssac.Parser.Directive.{print_target, guard}

split_target_message-print :
    (target msg : Text) (st : Option ℕ)
    → IsTight target
    → Free b'"' target
    → Free b'"' msg
    → IsStatus st
    → split_target_message (print_target target (quoted msg (print_status st)))
      ≡ (target, msg, status_text st)
unfolding split_target_message
split_target_message-print target msg st tight free hm hs =
    let before : Text = target ++ b' ' ∷ [] in
    let parts : Text → Text × Text → Text × Text × Text =
      λ t q. (trim_space t, q.0, trim_space q.1) in
    rw
      (
        index-Free b'"' before (msg ++ b'"' ∷ print_status st)
            (Free-append b'"' target (b' ' ∷ []) free (omega arith, tt)),
        split_target_message,
      )
      (ap₂ (λ t s. parts t (extract_quoted s)) (take-length before (quoted msg (print_status st)))
        (drop-length before (quoted msg (print_status st))))
    ∙ ap₂ parts refl (message_and_status msg st hm hs)
    ∙ ap₂ (λ t s. (t, msg, s)) (trim_space-blank_behind target tight) (trim_space-status_text st hs)

pub parse_guard-print :
    (s : SeqType) (target msg : Text) (st : Option ℕ)
    → IsTight target
    → Free b'"' target
    → Free b'"' msg
    → IsStatus st
    → parse_guard s (print_target target (quoted msg (print_status st))) ≡ guard s target msg st
unfolding parse_guard
parse_guard-print s target msg st tight free hm hs =
    let line : Text = print_target target (quoted msg (print_status st)) in
    let made : Text × Text × Text → Sequence =
      λ p. record (blank s) { target = p.0; message = p.1; err_status = status_of p.2 } in
    let line_tight : IsTight line =
      IsTight-append (target ++ b' ' ∷ []) (quoted msg (print_status st))
        (StartsTight-append target (b' ' ∷ []) tight.0) (message-IsTight msg st hs).1 in
    ap (λ l. made (split_target_message l)) (trim_space-tight line line_tight)
    ∙ ap made (split_target_message-print target msg st tight free hm hs)
    ∙ ap (λ n. record (blank s) { target = target; message = msg; err_status = n })
        (status_of-text st hs)

-- `"transition" "message" status`
abbrev two_quoted : Text → Text → Option ℕ → Text
two_quoted move msg st = quoted move (b' ' ∷ quoted msg (print_status st))

two_quoted-IsTight :
    (move msg : Text) (st : Option ℕ) → IsStatus st → IsTight (two_quoted move msg st)
two_quoted-IsTight move msg st hs = quoted-IsTight move (b' ' ∷ quoted msg (print_status st)) (
    EndsTight-append (b'"' ∷ b' ' ∷ []) (quoted msg (print_status st))
      (message-IsTight msg st hs).1)

parse_two_quoted-print :
    (move msg : Text) (st : Option ℕ)
    → Free b'"' move
    → Free b'"' msg
    → IsStatus st
    → parse_two_quoted (two_quoted move msg st) ≡ (move, msg, status_text st)
unfolding parse_two_quoted
parse_two_quoted-print move msg st hv hm hs =
    let second : Text × Text → Text × Text × Text =
      λ p. (p.0, (extract_quoted p.1).0, trim_space (extract_quoted p.1).1) in
    ap second
      (extract_quoted-blank move (quoted msg (print_status st)) hv (message-IsTight msg st hs))
    ∙ ap (λ q. (move, q.0, trim_space q.1)) (message_and_status msg st hm hs)
    ∙ ap (λ r. (move, msg, r)) (trim_space-status_text st hs)

Spaceless-Free : (s : Text) → Spaceless s → Free b' ' s
unfolding is_space
Spaceless-Free [] h = tt
Spaceless-Free (c ∷ s) h = (ground arith, Spaceless-Free s h.1)

abbrev state_sequence : Text → Dict Text → Text × Text × ℕ → Sequence
state_sequence id d t = record (blank state) {
  diagram_id = id;
  inputs = d;
  transition = t.0;
  message = t.1;
  err_status = t.2;
}

state_parts-print :
    (id : Text) (d : Dict Text) (move msg : Text) (st : Option ℕ)
    → IsBlock d
    → Free b'"' move
    → Free b'"' msg
    → IsStatus st
    → state_parts id (print_block d (b' ' ∷ two_quoted move msg st))
      ≡ ok (some (state_sequence id d (move, msg, status_value st)))
unfolding state_parts
state_parts-print id d move msg st hd hv hm hs =
    let made : Dict Text → Text × Text × Text → Parsed (Option Sequence) =
      λ d t. ok (some (state_sequence id d (t.0, t.1, status_of t.2))) in
    ap (λ r. r >>= λ p. made p.0 (parse_two_quoted p.1))
      (extract_inputs-blank d (two_quoted move msg st) hd (two_quoted-IsTight move msg st hs))
    ∙ ap (made d) (parse_two_quoted-print move msg st hv hm hs)
    ∙ ap (λ n. ok (some (state_sequence id d (move, msg, n)))) (status_of-text st hs)

pub parse_state-print :
    (id : Text) (d : Dict Text) (move msg : Text) (st : Option ℕ)
    → IsWord id
    → IsBlock d
    → Free b'"' move
    → Free b'"' msg
    → IsStatus st
    → parse_state (id ++ b' ' ∷ print_block d (b' ' ∷ two_quoted move msg st))
      ≡ ok (some (state_sequence id d (move, msg, status_value st)))
unfolding parse_state
parse_state-print id d move msg st hi hd hv hm hs =
    let rest : Text = print_block d (b' ' ∷ two_quoted move msg st) in
    let ends : EndsTight rest = block-EndsTight d (b' ' ∷ two_quoted move msg st) (
      EndsTight-append (b'}' ∷ b' ' ∷ []) (two_quoted move msg st)
        (two_quoted-IsTight move msg st hs).1) in
    ap state_split (
      trim_space-tight (id ++ b' ' ∷ rest)
        (IsTight-append id (b' ' ∷ rest) (IsWord-IsTight id hi).0 (EndsTight-cons b' ' rest ends)))
    ∙ rw (index-Free b' ' id rest (Spaceless-Free id (IsWord-Spaceless id hi)), state_split)
        (ap₂ state_parts (take-length id (b' ' ∷ rest)) (drop-suc-length id b' ' rest))
    ∙ state_parts-print id d move msg st hd hv hm hs

abbrev auth_sequence : Text → Text → Dict Text → Text × ℕ → Sequence
auth_sequence action resource d t = record (blank auth) {
  action = action;
  resource = resource;
  inputs = d;
  message = t.0;
  err_status = t.1;
}

pub parse_auth-print :
    (action resource : Text) (d : Dict Text) (msg : Text) (st : Option ℕ)
    → Free b'"' action
    → Free b'"' resource
    → IsBlock d
    → Free b'"' msg
    → IsStatus st
    → parse_auth (
        quoted action
          (b' ' ∷ quoted resource (b' ' ∷ print_block d (b' ' ∷ quoted msg (print_status st)))))
      ≡ ok (some (auth_sequence action resource d (msg, status_value st)))
unfolding parse_auth
parse_auth-print action resource d msg st ha hr hd hm hs =
    let message : Text = quoted msg (print_status st) in
    let block : Text = print_block d (b' ' ∷ message) in
    let message_tight : IsTight message = message-IsTight msg st hs in
    let block_tight : IsTight block =
      block_rest-IsTight d (b' ' ∷ message)
        (EndsTight-append (b'}' ∷ b' ' ∷ []) message message_tight.1) in
    let resource_tight : IsTight (quoted resource (b' ' ∷ block)) =
      quoted-IsTight resource (b' ' ∷ block)
        (EndsTight-append (b'"' ∷ b' ' ∷ []) block block_tight.1) in
    let made : Text → Text → Dict Text × Text → Parsed (Option Sequence) = λ a r p. ok (
      some (
        auth_sequence a r p.0 (
          (extract_quoted (trim_space p.1)).0,
          status_of (trim_space (extract_quoted (trim_space p.1)).1),
        ))) in
    let finish : Text × Text → Parsed (Option Sequence) =
      λ q. ok (some (auth_sequence action resource d (q.0, status_of (trim_space q.1)))) in
    let with_status : ℕ → Parsed (Option Sequence) =
      λ n. ok (some (auth_sequence action resource d (msg, n))) in
    let behind : Text → Text × Text → Parsed (Option Sequence) =
      λ a q. extract_inputs (trim_space q.1) >>= λ p. made a q.0 p in
    ap (λ q. behind q.0 (extract_quoted (trim_space q.1)))
      (extract_quoted-blank action (quoted resource (b' ' ∷ block)) ha resource_tight)
    ∙ ap (behind action) (extract_quoted-blank resource block hr block_tight)
    ∙ ap (λ r. r >>= λ p. made action resource p) (extract_inputs-blank d message hd message_tight)
    ∙ ap (λ s. finish (extract_quoted s)) (trim_space-tight message message_tight)
    ∙ ap finish (message_and_status msg st hm hs)
    ∙ ap (λ s. with_status (status_of s)) (trim_space-status_text st hs)
    ∙ ap with_status (status_of-text st hs)
