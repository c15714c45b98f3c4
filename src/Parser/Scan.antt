-- ===== src/Parser/Scan.antt =====
-- parser/parser.go: the scanners that the directives share. A model name and its method stand in one
-- text, `Model.Method`. `none` for a pointer or an index is the source's nil or -1.
pub mod Panics
use ssac.Base.{
  ℕ, suc, ◌+◌, Bool, false, not, ◌&&◌, List, [], ◌∷◌, Option, none, some, leb, ltb, if◌then◌else◌,
  take, drop, is_empty, ok, fail, panic, ◌>>=◌,
}
use ssac.Text.{
  Text, codes, has_prefix, trim_prefix, ends_with, drop_last, trim_suffix, trim_space, index,
  last_index, split, fields, atoi,
}
use ssac.Dict.{Dict, put}
use ssac.Parser.Types.{Binding, bad_pair, Parsed}

-- `key != "" && val != ""`, then `m[key] = val`
abbrev pub put_pair : Text → Text → Dict Text → Dict Text
put_pair key val m = if not (is_empty key) && not (is_empty val) then put key val m else m

-- One round of the loop in `parseResponseFields`.
unfoldable pub response_field : Dict Text → Text → Dict Text
response_field m line =
    let l = trim_suffix b',' (trim_space line) in
    elim (index b':' l) [
      | none ↦ m
      | some i ↦ put_pair (trim_space (take i l)) (trim_space (drop (suc i) l)) m
    ]

response_fields_onto : Dict Text → List Text → Dict Text
response_fields_onto m [] = m
response_fields_onto m (line ∷ lines) = response_fields_onto (response_field m line) lines

unfoldable pub parse_response_fields : List Text → Dict Text
unfolding response_fields_onto response_field
parse_response_fields lines = response_fields_onto [] lines

-- One round of the loop in `parseInputs`, on a trimmed pair.
unfoldable pub input_pair : Dict Text → Text → Parsed (Dict Text)
input_pair m [] = ok m
input_pair m (c ∷ s) = elim (index b':' (c ∷ s)) [
  | none ↦ fail (bad_pair (c ∷ s))
  | some i ↦ ok (put_pair (trim_space (take i (c ∷ s))) (trim_space (drop (suc i) (c ∷ s))) m)
]

unfoldable pub inputs_onto : Dict Text → List Text → Parsed (Dict Text)
unfolding input_pair
inputs_onto m [] = ok m
inputs_onto m (pair ∷ pairs) = do m' ← input_pair m (trim_space pair); inputs_onto m' pairs

abbrev pub inside_braces : Text → Text
inside_braces s = trim_space (trim_suffix b'}' (trim_prefix (codes "{") (trim_space s)))

unfoldable pub inputs_of : Text → Parsed (Dict Text)
inputs_of [] = ok []
inputs_of (c ∷ s) = inputs_onto [] (split b',' (c ∷ s))

unfoldable pub parse_inputs : Text → Parsed (Dict Text)
unfolding inputs_of inputs_onto
parse_inputs s = inputs_of (inside_braces s)

-- The block, braces included, and what stands behind it.
unfoldable pub inputs_cut : Text → Text → Parsed (Dict Text × Text)
inputs_cut block rest = do inputs ← parse_inputs block; ok (inputs, trim_space rest)

-- The braces stand at `i` and `j`. `s[openIdx : closeIdx+1]` panics where the closing brace stands
-- before the opening one, unless they touch.
unfoldable pub inputs_between : Text → ℕ → ℕ → Parsed (Dict Text × Text)
unfolding inputs_cut
inputs_between s i j =
    if ltb (j + 1) i then panic else inputs_cut (drop i (take (suc j) s)) (drop (suc j) s)

unfoldable pub extract_inputs : Text → Parsed (Dict Text × Text)
unfolding inputs_between
extract_inputs s = elim (index b'{' s) [
  | none ↦ ok ([], s)
  | some i ↦ elim (index b'}' s) [ none ↦ ok ([], s) | some j ↦ inputs_between s i j ]
]

-- `extractQuoted` behind its `TrimSpace`
unfoldable pub unquote : Text → Text × Text
unquote t =
    if has_prefix (codes "\"") t
    then elim (index b'"' (drop 1 t)) [
      | none ↦ ([], t)
      | some i ↦ (take i (drop 1 t), trim_space (drop (i + 2) t))
    ]
    else ([], t)

unfoldable pub extract_quoted : Text → Text × Text
unfolding unquote
extract_quoted s = unquote (trim_space s)

unfoldable pub parse_two_quoted : Text → Text × Text × Text
unfolding extract_quoted
parse_two_quoted s =
    let (first, rest) = extract_quoted (trim_space s) in
    let (second, remainder) = extract_quoted rest in (first, second, trim_space remainder)

unfoldable pub split_target_message : Text → Text × Text × Text
unfolding extract_quoted
split_target_message s = elim (index b'"' s) [
  | none ↦ (trim_space s, [], [])
  | some i ↦
      let (msg, remainder) = extract_quoted (drop i s) in
      (trim_space (take i s), msg, trim_space remainder)
]

abbrev pub is_lower : ℕ → Bool
is_lower c = leb b'a' c && leb c b'z'

abbrev pub starts_lower : Text → Bool
starts_lower [] = false
starts_lower (c ∷ s) = is_lower c

-- The second dot, and what stands in front of the first one and behind it.
unfoldable pub package_of : Text → Option ℕ → Text → Text → Text × Text
package_of model none pkg rest = ([], model)
package_of model (some _) pkg rest = if starts_lower pkg then (pkg, rest) else ([], model)

unfoldable pub package_at : Text → Text → Text → Text × Text
unfolding package_of
package_at model pkg rest = package_of model (index b'.' rest) pkg rest

unfoldable pub split_package_prefix : Text → Text × Text
unfolding package_at
split_package_prefix model = elim (index b'.' model) [
  | none ↦ ([], model)
  | some i ↦ package_at model (take i model) (drop (suc i) model)
]

-- `typeName`, with a wrapper where a bracket stands behind its first character
unfoldable pub binding_of : Text → Text → Binding
binding_of type_name name = elim (index b'[' type_name) [
  | none ↦ record { type_of = type_name; name = name; wrapper = [] }
  | some i ↦
      if ltb 0 i && ends_with b']' type_name
      then record {
        type_of = drop_last (drop (suc i) type_name);
        name = name;
        wrapper = take i type_name;
      }
      else record { type_of = type_name; name = name; wrapper = [] }
]

unfoldable pub result_of : List Text → Option Binding
result_of (type_name ∷ name ∷ []) = some (binding_of type_name name)
result_of _ = none

unfoldable pub parse_result : Text → Option Binding
unfolding result_of binding_of
parse_result lhs = result_of (fields (trim_space lhs))

unfoldable pub inputs_inside : Text → Parsed (Dict Text)
inputs_inside [] = ok []
inputs_inside (c ∷ s) = parse_inputs (c ∷ s)

-- The text between the brackets, and what stands behind the closing one.
unfoldable pub call_cut : Text → Text → Text → Parsed (Text × Dict Text × Text)
unfolding inputs_inside
call_cut model inner rest = do
  inputs ← inputs_inside (trim_space inner)
  ok (model, inputs, trim_space rest)

-- What stands behind the opening bracket, the model in front of it.
unfoldable pub call_inputs : Text → Text → Parsed (Text × Dict Text × Text)
unfolding call_cut
call_inputs model after_paren = elim (last_index b')' after_paren) [
  | none ↦ ok (model, [], [])
  | some j ↦ call_cut model (take j after_paren) (drop (suc j) after_paren)
]

unfoldable pub call_parts : Text → Parsed (Text × Dict Text × Text)
unfolding call_inputs
call_parts e = elim (index b'(' e) [
  | none ↦ ok (e, [], [])
  | some i ↦ call_inputs (take i e) (drop (suc i) e)
]

-- `Model.Method({…}) remainder`: the model, the inputs and the remainder
unfoldable pub parse_call_expr_inputs : Text → Parsed (Text × Dict Text × Text)
unfolding call_parts
parse_call_expr_inputs expr = call_parts (trim_space expr)

unfoldable pub status_in_range : Option ℕ → ℕ
status_in_range none = 0
status_in_range (some code) = if leb 100 code && leb code 599 then code else 0

-- The status code that may trail a directive: 0 unless it is a number from 100 to 599.
unfoldable pub status_of : Text → ℕ
unfolding status_in_range
status_of remainder = status_in_range (atoi remainder)
