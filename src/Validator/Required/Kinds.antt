-- ===== src/Validator/Required/Kinds.antt =====
-- The parser and `validateRequiredFields` agree on the kinds of sequences.
use ssac.Base.{
  ℕ, ◌+◌, ◌≡◌, refl, Bool, true, false, not, is_empty, List, [], ◌∷◌, ◌++◌, arith, ok, All,
  All-append, All-map,
}
use ssac.Text.{Text}
use ssac.Parser.Types.{
  SeqType, get, post, put, delete, empty, exists, state, auth, call, publish, response, subscribe,
  other, valid_sequence_type, Sequence, ServiceFunc,
}
use ssac.Parser.File.{File, parse_file}
use ssac.Parser.Sound.Functions.{IsListed, FunctionListed, parse_file-FunctionListed}
use ssac.Validator.Errors.{
  Element, model_el, result_el, inputs_el, diagram_id_el, transition_el, message_el, action_el,
  resource_el, Message, unknown_type, result_not_nil, no_delete_inputs, primitive_result,
  ValidationError, ErrCtx, err, warn, at_type, when,
}
use ssac.Validator.Required.{
  is_none, result_type, required_in, lacks, model_errors, required_from, validate_required_fields,
}

abbrev is_unknown_type : Message → Bool
is_unknown_type (unknown_type t) = true
is_unknown_type _ = false

-- The error is not that of an unknown kind.
abbrev pub IsOther : ValidationError → Type 0
IsOther e = is_unknown_type e.message ≡ false

NoUnknown : List ValidationError → Type 0
NoUnknown errs = All IsOther errs

when-IsOther : (b : Bool) (e : ValidationError) → IsOther e → NoUnknown (when b e)
unfolding NoUnknown
when-IsOther true e h = (h, tt)
when-IsOther false e h = tt

both : (xs ys : List ValidationError) → NoUnknown xs → NoUnknown ys → NoUnknown (xs ++ ys)
unfolding NoUnknown
both = All-append IsOther

none_reported : NoUnknown []
unfolding NoUnknown
none_reported = tt

lacks-NoUnknown : (c : ErrCtx) (t : SeqType) (e : Element) (b : Bool) → NoUnknown (lacks c t e b)
unfolding lacks
lacks-NoUnknown c t e b = when-IsOther b _ refl

required_in-IsOther :
    (t : SeqType) (c : ErrCtx) (seq : Sequence)
    → valid_sequence_type t ≡ true
    → NoUnknown (required_in t c seq)
unfolding required_in valid_sequence_type
required_in-IsOther get c seq h = both _ _ (lacks-NoUnknown _ _ _ _) (lacks-NoUnknown _ _ _ _)
required_in-IsOther post c seq h = both _ _ (lacks-NoUnknown c post model_el (is_empty seq.model)) (
    both _ _ (lacks-NoUnknown c post result_el (is_none seq.result))
      (lacks-NoUnknown c post inputs_el (is_empty seq.inputs)))
required_in-IsOther put c seq h = both _ _ (lacks-NoUnknown _ _ _ _) (
    both _ _ (when-IsOther (not (is_none seq.result)) (err c (at_type put) result_not_nil) refl)
      (lacks-NoUnknown _ _ _ _))
required_in-IsOther delete c seq h = both _ _ (lacks-NoUnknown _ _ _ _) (
    both _ _ (when-IsOther (not (is_none seq.result)) (err c (at_type delete) result_not_nil) refl)
      (when-IsOther _ (warn c (at_type delete) no_delete_inputs) refl))
required_in-IsOther empty c seq h = both _ _ (lacks-NoUnknown _ _ _ _) (lacks-NoUnknown _ _ _ _)
required_in-IsOther exists c seq h = both _ _ (lacks-NoUnknown _ _ _ _) (lacks-NoUnknown _ _ _ _)
required_in-IsOther state c seq h =
    both _ _ (lacks-NoUnknown c state diagram_id_el (is_empty seq.diagram_id)) (
      both _ _ (lacks-NoUnknown c state inputs_el (is_empty seq.inputs)) (
        both _ _ (lacks-NoUnknown c state transition_el (is_empty seq.transition))
          (lacks-NoUnknown c state message_el (is_empty seq.message))))
required_in-IsOther auth c seq h =
    both _ _ (lacks-NoUnknown c auth action_el (is_empty seq.action)) (
      both _ _ (lacks-NoUnknown c auth resource_el (is_empty seq.resource))
        (lacks-NoUnknown c auth message_el (is_empty seq.message)))
required_in-IsOther call c seq h =
    both _ _ (lacks-NoUnknown _ _ _ _)
      (when-IsOther _ (err c (at_type call) (primitive_result (result_type seq.result))) refl)
required_in-IsOther publish c seq h = both _ _ (lacks-NoUnknown _ _ _ _) (lacks-NoUnknown _ _ _ _)
required_in-IsOther response c seq h = none_reported
required_in-IsOther subscribe c seq h = absurd (ground arith)
required_in-IsOther (other t) c seq h = absurd (ground arith)

model_errors-IsOther : (c : ErrCtx) (seq : Sequence) → NoUnknown (model_errors c seq)
unfolding model_errors
model_errors-IsOther c seq = when-IsOther _ _ refl

required_from-IsOther :
    (sf : ServiceFunc) (i : ℕ) (seqs : List Sequence)
    → All IsListed seqs
    → NoUnknown (required_from sf i seqs)
unfolding required_from
required_from-IsOther sf i [] h = none_reported
required_from-IsOther sf i (seq ∷ seqs) h =
    both (required_in seq.type _ seq) _ (required_in-IsOther seq.type _ seq h.0.0) (
      both (model_errors _ seq) _ (model_errors-IsOther _ seq)
        (required_from-IsOther sf (i + 1) seqs h.1))

abbrev pub KindsKnown : ServiceFunc → Type 0
KindsKnown sf = All IsOther (validate_required_fields sf)

listed-KindsKnown : (sf : ServiceFunc) → FunctionListed sf → KindsKnown sf
unfolding validate_required_fields NoUnknown
listed-KindsKnown sf h = required_from-IsOther sf 0 sf.sequences h

-- For a function that `ParseFile` returns, `validateRequiredFields` never reports an unknown kind of
-- sequence: the kinds that the parser makes are those that the validator has cases for.
pub parse_file-KindsKnown :
    (name : Text) (f : File) (funcs : List ServiceFunc)
    → parse_file name f ≡ ok funcs
    → All KindsKnown funcs
parse_file-KindsKnown name f funcs e =
    All-map listed-KindsKnown funcs (parse_file-FunctionListed name f funcs e)
