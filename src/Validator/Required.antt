-- ===== src/Validator/Required.antt =====
-- validator/validator.go, `validateRequiredFields`: what each kind of sequence must have.
pub mod Complete
pub mod Kinds
use ssac.Base.{
  ℕ, suc, ◌+◌, Bool, true, false, not, ◌&&◌, ◌||◌, List, [], ◌∷◌, ◌++◌, Option, none, some,
  is_empty, take, drop,
}
use ssac.Text.{Text, codes, text_eq, index}
use ssac.Dict.{member}
use ssac.Parser.Types.{
  SeqType, get, post, put, delete, empty, exists, state, auth, call, publish, response, subscribe,
  other, type_name, Binding, Sequence, ServiceFunc,
}
use ssac.Validator.Errors.{
  Element, model_el, result_el, inputs_el, target_el, message_el, diagram_id_el, transition_el,
  action_el, resource_el, topic_el, payload_el, missing, result_not_nil, no_delete_inputs,
  primitive_result, unknown_type, model_format, ValidationError, ErrCtx, at, err, warn, at_type,
  when,
}

abbrev pub is_none {ℓ} : {A : Type ℓ} → Option A → Bool
is_none none = true
is_none (some x) = false

-- `primitiveTypes`
abbrev pub primitive_types : List Text
primitive_types =
    codes "string"
    ∷ codes "int"
    ∷ codes "int32"
    ∷ codes "int64"
    ∷ codes "float32"
    ∷ codes "float64"
    ∷ codes "bool"
    ∷ codes "byte"
    ∷ codes "rune"
    ∷ codes "time.Time"
    ∷ []

-- `isPrimitiveType`
unfoldable pub is_primitive_type : Text → Bool
unfolding member
is_primitive_type t = member t primitive_types

abbrev pub result_is_primitive : Option Binding → Bool
result_is_primitive none = false
result_is_primitive (some r) = is_primitive_type r.type_of

abbrev pub result_type : Option Binding → Text
result_type none = []
result_type (some r) = r.type_of

-- `len(parts) < 2 || parts[0] == "" || parts[1] == ""`, for `strings.SplitN(model, ".", 2)`
unfoldable pub bad_model : Text → Bool
bad_model model = elim (index b'.' model) [
  | none ↦ true
  | some i ↦ is_empty (take i model) || is_empty (drop (suc i) model)
]

unfoldable pub lacks : ErrCtx → SeqType → Element → Bool → List ValidationError
lacks c t e b = when b (err c (at_type t) (missing e))

-- One round of the loop: the `switch`. The guard's two cases share their code in the source.
unfoldable pub required_in : SeqType → ErrCtx → Sequence → List ValidationError
unfolding lacks
required_in get c seq =
    lacks c get model_el (is_empty seq.model) ++ lacks c get result_el (is_none seq.result)
required_in post c seq =
    lacks c post model_el (is_empty seq.model)
    ++ (lacks c post result_el (is_none seq.result) ++ lacks c post inputs_el (is_empty seq.inputs))
required_in put c seq =
    lacks c put model_el (is_empty seq.model)
    ++ (when (not (is_none seq.result)) (err c (at_type put) result_not_nil)
        ++ lacks c put inputs_el (is_empty seq.inputs))
required_in delete c seq =
    lacks c delete model_el (is_empty seq.model)
    ++ (when (not (is_none seq.result)) (err c (at_type delete) result_not_nil)
        ++ when (is_empty seq.inputs && not seq.suppress_warn)
            (warn c (at_type delete) no_delete_inputs))
required_in empty c seq =
    lacks c empty target_el (is_empty seq.target) ++ lacks c empty message_el (is_empty seq.message)
required_in exists c seq =
    lacks c exists target_el (is_empty seq.target)
    ++ lacks c exists message_el (is_empty seq.message)
required_in state c seq =
    lacks c state diagram_id_el (is_empty seq.diagram_id)
    ++ (lacks c state inputs_el (is_empty seq.inputs)
        ++ (lacks c state transition_el (is_empty seq.transition)
            ++ lacks c state message_el (is_empty seq.message)))
required_in auth c seq =
    lacks c auth action_el (is_empty seq.action)
    ++ (lacks c auth resource_el (is_empty seq.resource)
        ++ lacks c auth message_el (is_empty seq.message))
required_in call c seq =
    lacks c call model_el (is_empty seq.model)
    ++ when (result_is_primitive seq.result)
        (err c (at_type call) (primitive_result (result_type seq.result)))
required_in publish c seq =
    lacks c publish topic_el (is_empty seq.topic)
    ++ lacks c publish payload_el (is_empty seq.inputs)
required_in response c seq = []
required_in subscribe c seq = err c (codes "@sequence") (unknown_type (codes "subscribe")) ∷ []
required_in (other t) c seq = err c (codes "@sequence") (unknown_type t) ∷ []

-- The check of the model's form behind the `switch`.
unfoldable pub model_errors : ErrCtx → Sequence → List ValidationError
model_errors c seq =
    when (not (is_empty seq.model) && bad_model seq.model)
      (err c (at_type seq.type) (model_format seq.model))

unfoldable pub required_from : ServiceFunc → ℕ → List Sequence → List ValidationError
required_from sf i [] = []
required_from sf i (seq ∷ seqs) =
    let c : ErrCtx = record { file_name = sf.file_name; func_name = sf.name; seq_index = at i } in
    required_in seq.type c seq ++ (model_errors c seq ++ required_from sf (i + 1) seqs)

unfoldable pub validate_required_fields : ServiceFunc → List ValidationError
unfolding required_in model_errors required_from bad_model is_primitive_type
validate_required_fields sf = required_from sf 0 sf.sequences
