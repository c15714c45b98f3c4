-- ===== src/Validator/Required/Complete.antt =====
-- Which sequences `validateRequiredFields` accepts, described without its tests.
use ssac.Base.{
  ℕ, suc, ◌+◌, ◌≡◌, ◌≢◌, ◌↔◌, ◌⊎◌, inl, inr, refl, sym, ap, ap₂, ◌∙◌, true, false, ◌||◌, List, [],
  ◌∷◌, ◌++◌, Option, none, some, arith, is_empty, take, drop, All, append-eq-nil, append-nil_nil,
  Bool-cases,
}
use mathlib.Core.Bool.{false≢true}
use ssac.Text.{Text, index}
use ssac.Text.Cut.{Free, index-Free, take-length, drop-suc-length, index-splits}
use ssac.Parser.Types.{
  SeqType, get, post, put, delete, empty, exists, state, auth, call, publish, response, subscribe,
  other, Sequence, ServiceFunc,
}
use ssac.Validator.Errors.{ErrCtx}
use ssac.Validator.Required.{
  result_is_primitive, bad_model, required_in, model_errors, required_from,
  validate_required_fields,
}

-- What a sequence of each kind has. Every other kind is refused.
abbrev pub IsComplete : SeqType → Sequence → Type 0
IsComplete get seq = (seq.model ≢ []) × (seq.result ≢ none)
IsComplete post seq = (seq.model ≢ []) × (seq.result ≢ none) × (seq.inputs ≢ [])
IsComplete put seq = (seq.model ≢ []) × (seq.result ≡ none) × (seq.inputs ≢ [])
IsComplete delete seq =
    (seq.model ≢ []) × (seq.result ≡ none) × ((seq.inputs ≢ []) ⊎ (seq.suppress_warn ≡ true))
IsComplete empty seq = (seq.target ≢ []) × (seq.message ≢ [])
IsComplete exists seq = (seq.target ≢ []) × (seq.message ≢ [])
IsComplete state seq =
    (seq.diagram_id ≢ []) × (seq.inputs ≢ []) × (seq.transition ≢ []) × (seq.message ≢ [])
IsComplete auth seq = (seq.action ≢ []) × (seq.resource ≢ []) × (seq.message ≢ [])
IsComplete call seq = (seq.model ≢ []) × (result_is_primitive seq.result ≡ false)
IsComplete publish seq = (seq.topic ≢ []) × (seq.inputs ≢ [])
IsComplete response seq = Unit
IsComplete subscribe seq = ⊥
IsComplete (other t) seq = ⊥

required_in-IsComplete :
    (t : SeqType) (c : ErrCtx) (seq : Sequence) → required_in t c seq ≡ [] → IsComplete t seq
unfolding required_in
required_in-IsComplete get c seq h = ground arith
required_in-IsComplete delete c seq h = ground arith
required_in-IsComplete state c seq h = ground arith
required_in-IsComplete _ c seq h = ground arith

IsComplete-required_in :
    (t : SeqType) (c : ErrCtx) (seq : Sequence) → IsComplete t seq → required_in t c seq ≡ []
unfolding required_in
IsComplete-required_in get c seq h = ground arith
IsComplete-required_in _ c seq h = ground arith

-- `Model.Method`: two parts that are not empty, at the first dot.
pub record IsModelName (model : Text) : Type 0 where
  pub first : Text
  pub second : Text
  pub splits : model ≡ first ++ b'.' ∷ second
  pub no_dot : Free b'.' first
  pub first_ne : first ≢ []
  pub second_ne : second ≢ []

nonempty_parts : (p q : Text) → (is_empty p || is_empty q) ≡ false → (p ≢ []) × (q ≢ [])
nonempty_parts p q h = ground arith

parts_nonempty : (p q : Text) → p ≢ [] → q ≢ [] → (is_empty p || is_empty q) ≡ false
parts_nonempty p q h k = ground arith

IsModelName-at :
    (model : Text) (r : Option ℕ)
    → index b'.' model ≡ r
    → bad_model model ≡ false
    → IsModelName model
unfolding bad_model
IsModelName-at model none e h = absurd (false≢true (sym (rw (e, bad_model) at h)))
IsModelName-at model (some i) e h =
    let (splits, free) = index-splits b'.' model i e in
    let (p, q) = nonempty_parts (take i model) (drop (suc i) model) (rw (e, bad_model) at h) in
    record {
      first = take i model;
      second = drop (suc i) model;
      splits = splits;
      no_dot = free;
      first_ne = p;
      second_ne = q;
    }

bad_model-IsModelName : (model : Text) → bad_model model ≡ false → IsModelName model
bad_model-IsModelName model = IsModelName-at model (index b'.' model) refl

bad_model-dotted : (m f : Text) → Free b'.' m → m ≢ [] → f ≢ [] → bad_model (m ++ b'.' ∷ f) ≡ false
unfolding bad_model
bad_model-dotted m f free hm hf =
    rw (index-Free b'.' m f free, bad_model)
      (ap₂ (λ p q. is_empty p || is_empty q) (take-length m (b'.' ∷ f)) (drop-suc-length m b'.' f)
        ∙ parts_nonempty m f hm hf)

IsModelName-bad_model : (model : Text) → IsModelName model → bad_model model ≡ false
IsModelName-bad_model model n =
    ap bad_model n.splits ∙ bad_model-dotted n.first n.second n.no_dot n.first_ne n.second_ne

-- A sequence that has all it needs, with a model of the right form.
abbrev pub IsAccepted : Sequence → Type 0
IsAccepted seq = IsComplete seq.type seq × (seq.model ≢ [] → IsModelName seq.model)

model_errors-nil :
    (c : ErrCtx) (seq : Sequence) → model_errors c seq ≡ [] → seq.model ≢ [] → IsModelName seq.model
unfolding model_errors
model_errors-nil c seq h ne = bad_model-IsModelName seq.model (ground arith)

nil-model_errors :
    (c : ErrCtx) (seq : Sequence)
    → (seq.model ≢ [] → IsModelName seq.model)
    → model_errors c seq ≡ []
unfolding model_errors
nil-model_errors c seq h = elim (Bool-cases (is_empty seq.model)) [
  | inl e ↦ rw e
  | inr e ↦ rw (e, IsModelName-bad_model seq.model (h (λ q. ground arith)))
]

required_from-IsAccepted :
    (sf : ServiceFunc) (i : ℕ) (seqs : List Sequence)
    → required_from sf i seqs ≡ []
    → All IsAccepted seqs
unfolding required_from
required_from-IsAccepted sf i [] h = tt
required_from-IsAccepted sf i (seq ∷ seqs) h =
    let (first, rest) = append-eq-nil (required_in seq.type _ seq) _ h in
    let (second, later) = append-eq-nil (model_errors _ seq) _ rest in
    (
      (required_in-IsComplete seq.type _ seq first, model_errors-nil _ seq second),
      required_from-IsAccepted sf (i + 1) seqs later,
    )

IsAccepted-required_from :
    (sf : ServiceFunc) (i : ℕ) (seqs : List Sequence)
    → All IsAccepted seqs
    → required_from sf i seqs ≡ []
unfolding required_from
IsAccepted-required_from sf i [] h = refl
IsAccepted-required_from sf i (seq ∷ seqs) h =
    append-nil_nil (IsComplete-required_in seq.type _ seq h.0.0)
      (append-nil_nil (nil-model_errors _ seq h.0.1) (IsAccepted-required_from sf (i + 1) seqs h.1))

-- `validateRequiredFields` reports nothing exactly when every sequence of the function has what its
-- kind asks for, is of a known kind, and names its model, if it names one, as two nonempty parts
-- joined by a dot.
pub validate_required_fields-nil :
    (sf : ServiceFunc) → (validate_required_fields sf ≡ []) ↔ All IsAccepted sf.sequences
unfolding validate_required_fields
validate_required_fields-nil sf =
    (required_from-IsAccepted sf 0 sf.sequences, IsAccepted-required_from sf 0 sf.sequences)
