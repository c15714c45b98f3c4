-- ===== src/Parser/Line.antt =====
-- parser/parser.go: one directive, a comment line that begins with `@`, becomes a sequence.
-- `ok none` is the source's nil sequence without error: the line is passed over.
use ssac.Base.{
  ℕ, suc, Bool, true, false, not, ◌&&◌, [], ◌++◌, Option, none, some, ltb, if◌then◌else◌, take,
  drop, is_empty, ok, ◌>>=◌,
}
use ssac.Text.{
  Text, codes, text_eq, has_prefix, trim_prefix, ends_with, drop_last, trim_space, index, split,
}
use ssac.Dict.{Dict}
use ssac.Parser.Types.{
  SeqType, get, post, put, delete, empty, exists, state, auth, call, publish, response, subscribe,
  Binding, Sequence, blank, Parsed,
}
use ssac.Parser.Scan.{
  parse_response_fields, extract_inputs, extract_quoted, parse_two_quoted, split_target_message,
  split_package_prefix, parse_result, parse_call_expr_inputs, status_of,
}

-- What `parseCRUD` does from the call expression on.
unfoldable pub crud_call : SeqType → Option Binding → Text → Parsed (Option Sequence)
crud_call t result expr = do
  (model, inputs, remainder) ← parse_call_expr_inputs expr
  let (pkg, rest) = split_package_prefix model
  ok (
      some
        (record (blank t) { package_name = pkg; model = rest; result = result; inputs = inputs }))

unfoldable pub crud_bound : SeqType → Text → Option Binding → Parsed (Option Sequence)
crud_bound t rhs none = ok none
crud_bound t rhs (some result) = crud_call t (some result) rhs

-- The two sides of the equals sign.
unfoldable pub crud_sides : SeqType → Text → Text → Parsed (Option Sequence)
unfolding crud_bound
crud_sides t lhs rhs = crud_bound t (trim_space rhs) (parse_result (trim_space lhs))

unfoldable pub crud_split : SeqType → Text → Parsed (Option Sequence)
unfolding crud_sides
crud_split t rest = elim (index b'=' rest) [
  | none ↦ ok none
  | some i ↦ crud_sides t (take i rest) (drop (suc i) rest)
]

unfoldable pub parse_crud : SeqType → Text → Bool → Parsed (Option Sequence)
unfolding crud_call crud_split
parse_crud t line has_result =
    let rest = trim_space line in if has_result then crud_split t rest else crud_call t none rest

unfoldable pub parse_guard : SeqType → Text → Sequence
parse_guard t line =
    let (target, msg, remainder) = split_target_message (trim_space line) in
    record (blank t) { target = target; message = msg; err_status = status_of remainder }

-- The first blank stands between the diagram and the rest.
unfoldable pub state_parts : Text → Text → Parsed (Option Sequence)
state_parts diagram_id rest = do
  (inputs, more) ← extract_inputs (trim_space rest)
  let (transition, msg, remainder) = parse_two_quoted more
  ok (
      some (record (blank state) {
        diagram_id = diagram_id;
        inputs = inputs;
        transition = transition;
        message = msg;
        err_status = status_of remainder;
      }))

unfoldable pub state_split : Text → Parsed (Option Sequence)
unfolding state_parts
state_split rest = elim (index b' ' rest) [
  | none ↦ ok none
  | some i ↦ state_parts (take i rest) (drop (suc i) rest)
]

unfoldable pub parse_state : Text → Parsed (Option Sequence)
unfolding state_split
parse_state line = state_split (trim_space line)

unfoldable pub parse_auth : Text → Parsed (Option Sequence)
parse_auth line =
    let (action, rest) = extract_quoted (trim_space line) in
    let (resource, more) = extract_quoted (trim_space rest) in
    (do
      (inputs, last) ← extract_inputs (trim_space more)
      let (msg, remainder) = extract_quoted (trim_space last)
      ok (
          some (record (blank auth) {
            action = action;
            resource = resource;
            inputs = inputs;
            message = msg;
            err_status = status_of (trim_space remainder);
          })))

unfoldable pub call_expr : Option Binding → Text → Parsed (Option Sequence)
call_expr result expr = do
  (model, inputs, remainder) ← parse_call_expr_inputs expr
  ok (
      some (record (blank call) {
        model = model;
        result = result;
        inputs = inputs;
        err_status = status_of remainder;
      }))

unfoldable pub call_bound : Text → Option Binding → Parsed (Option Sequence)
call_bound rhs none = ok none
call_bound rhs (some result) = call_expr (some result) rhs

unfoldable pub call_sides : Text → Text → Parsed (Option Sequence)
unfolding call_bound
call_sides lhs rhs = call_bound (trim_space rhs) (parse_result (trim_space lhs))

-- `eqIdx > 0 && (parenIdx < 0 || eqIdx < parenIdx)`
abbrev pub binds_result : ℕ → Option ℕ → Bool
binds_result i none = ltb 0 i
binds_result i (some p) = ltb 0 i && ltb i p

unfoldable pub call_split : Text → Parsed (Option Sequence)
unfolding call_sides
call_split rest = elim (index b'=' rest) [
  | none ↦ call_expr none rest
  | some i ↦
      if binds_result i (index b'(' rest)
      then call_sides (take i rest) (drop (suc i) rest)
      else call_expr none rest
]

unfoldable pub parse_call : Text → Parsed (Option Sequence)
unfolding call_expr call_split
parse_call line = call_split (trim_space line)

-- Only options that begin with a brace are read.
unfoldable pub publish_options : Text → Parsed (Dict Text)
publish_options rest =
    if has_prefix (codes "{") rest
    then (do (options, more) ← extract_inputs rest; ok options)
    else ok []

unfoldable pub parse_publish : Text → Parsed (Option Sequence)
unfolding publish_options
parse_publish line =
    let (topic, rest) = extract_quoted (trim_space line) in
    (do
      (payload, more) ← extract_inputs (trim_space rest)
      options ← publish_options (trim_space more)
      ok (some (record (blank publish) { topic = topic; inputs = payload; options = options })))

-- `idx > 0 && (spaceIdx < 0 || idx < spaceIdx)`: the mark stands in the tag.
abbrev pub marks_tag : ℕ → Option ℕ → Bool
marks_tag i none = ltb 0 i
marks_tag i (some sp) = ltb 0 i && ltb i sp

-- The line without its `!` mark, and whether it had one.
unfoldable pub strip_mark : Text → Text × Bool
strip_mark line = elim (index b'!' line) [
  | none ↦ (line, false)
  | some i ↦
      if marks_tag i (index b' ' line)
      then (take i line ++ drop (suc i) line, true)
      else (line, false)
]

abbrev some_ok : Sequence → Parsed (Option Sequence)
some_ok seq = ok (some seq)

-- The `switch` of `parseLine`.
unfoldable pub dispatch : Text → Parsed (Option Sequence)
dispatch line =
    if has_prefix (codes "@get ") line
    then parse_crud get (drop 5 line) true
    else if has_prefix (codes "@post ") line
    then parse_crud post (drop 6 line) true
    else if has_prefix (codes "@put ") line
    then parse_crud put (drop 5 line) false
    else if has_prefix (codes "@delete ") line
    then parse_crud delete (drop 8 line) false
    else if has_prefix (codes "@empty ") line
    then some_ok (parse_guard empty (drop 7 line))
    else if has_prefix (codes "@exists ") line
    then some_ok (parse_guard exists (drop 8 line))
    else if has_prefix (codes "@state ") line
    then parse_state (drop 7 line)
    else if has_prefix (codes "@auth ") line
    then parse_auth (drop 6 line)
    else if has_prefix (codes "@publish ") line
    then parse_publish (drop 9 line)
    else if has_prefix (codes "@subscribe ") line
    then some_ok
        (record (blank subscribe) { topic = (extract_quoted (trim_space (drop 11 line))).0 })
    else if has_prefix (codes "@call ") line
    then parse_call (drop 6 line)
    else ok none

-- `seq.SuppressWarn = true` where the line had a mark
abbrev pub suppress : Bool → Option Sequence → Option Sequence
suppress true (some seq) = some (record seq { suppress_warn = true })
suppress true none = none
suppress false seq = seq

-- What `parseLine` returns without an error: a sequence, nothing, or the start of a block.
pub data Line : Type 0 where
  sequence : Sequence → Line
  nothing : Line
  response_start : Line

abbrev pub as_line : Option Sequence → Line
as_line (some seq) = sequence seq
as_line none = nothing

unfoldable pub parse_directive : Text → Parsed Line
unfolding strip_mark dispatch
parse_directive line =
    let (plain, marked) = strip_mark line in
    (do seq ← dispatch plain; ok (as_line (suppress marked seq)))

abbrev response_tag : Text → Text
response_tag line =
    if has_prefix (codes "@response!") line then codes "@response!" else codes "@response"

-- A line with the prefix `@response`, and what stands behind its tag.
unfoldable pub response_line : Bool → Text → Text → Parsed Line
response_line suppress_warn line trimmed =
    if text_eq trimmed (codes "{")
    then ok response_start
    else if has_prefix (codes "{") trimmed && ends_with b'}' trimmed
    then ok (
        sequence (record (blank response) {
          fields = parse_response_fields (split b',' (drop_last (drop 1 trimmed)));
          suppress_warn = suppress_warn;
        }))
    else if not (is_empty trimmed)
    then ok (sequence (record (blank response) { target = trimmed; suppress_warn = suppress_warn }))
    else parse_directive line

unfoldable pub parse_line : Text → Parsed Line
unfolding response_line parse_directive
parse_line line =
    if has_prefix (codes "@response") line
    then response_line (has_prefix (codes "@response!") line) line
        (trim_space (trim_prefix (response_tag line) line))
    else parse_directive line
