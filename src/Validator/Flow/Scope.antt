-- ===== src/Validator/Flow/Scope.antt =====
-- What `validateVariableFlow` accepts, described by positions: a variable that a sequence uses is
-- known from the start, or is the result of a sequence further up.
use ssac.Base.{
  ℕ, ◌+◌, ◌≡◌, ◌↔◌, ◌⊎◌, refl, sym, ap, subst, fun_ext, ◌∙◌, Bool, true, false, ◌&&◌, ◌||◌, List,
  [], ◌∷◌, ◌++◌, Option, none, some, arith, is_empty, flat_map, any, All, All-map, append-eq-nil,
  append-nil_nil, flat_map-nil, nil-flat_map,
}
use ssac.Text.{Text, codes, text_eq, has_prefix}
use ssac.Dict.{values, member}
use ssac.Parser.Types.{SeqType, Arg, Binding, Sequence, SubscribeInfo, ServiceFunc}
use ssac.Validator.Errors.{ErrCtx}
use ssac.Validator.Flow.{
  root_var, arg_var_ref, target_errors, arg_errors, is_query, is_publish, is_literal, open_sources,
  input_errors, field_errors, flow_errors, declare, flow_from, declared_at_start,
  validate_variable_flow,
}

-- The sequence binds `x` to its result.
abbrev pub binds_name : Text → Option Binding → Bool
binds_name x none = false
binds_name x (some r) = text_eq r.name x

abbrev pub binds : Text → Sequence → Bool
binds x seq = binds_name x seq.result

-- `x` is known behind the sequences `before`: from the start, or as the result of one of them.
abbrev pub is_declared : Option SubscribeInfo → List Sequence → Text → Bool
is_declared sub before x = member x (declared_at_start sub) || any (binds x) before

-- An input that may stand in a sequence of this kind, where the variables of `known` are declared.
abbrev pub InputInScope : SeqType → (Text → Bool) → Text → Type 0
InputInScope t known val =
    (is_literal val ≡ true)
    ⊎ ((has_prefix (codes "config.") val ≡ false)
        × ((is_publish t && is_query val) ≡ false)
        × ((member (root_var val) open_sources || known (root_var val)) ≡ true))

abbrev pub ArgInScope : (Text → Bool) → Arg → Type 0
ArgInScope known a = (is_empty (arg_var_ref a) || known (arg_var_ref a)) ≡ true

abbrev pub FieldInScope : (Text → Bool) → Text → Type 0
FieldInScope known val =
    (is_literal val || (is_empty (root_var val) || known (root_var val))) ≡ true

abbrev pub TargetInScope : (Text → Bool) → Text → Type 0
TargetInScope known target = (is_empty target || known (root_var target)) ≡ true

-- All that the sequence refers to is known.
abbrev pub IsInScope : (Text → Bool) → Sequence → Type 0
IsInScope known seq =
    TargetInScope known seq.target
    × All (ArgInScope known) seq.args
    × All (InputInScope seq.type known) (values seq.inputs)
    × All (FieldInScope known) (values seq.fields)

abbrev pub in_list : List Text → Text → Bool
in_list declared x = member x declared

module _ (c : ErrCtx) (t : SeqType) (declared : List Text) where
  target_iff :
      (target : Text)
      → (target_errors c t declared target ≡ []) ↔ TargetInScope (in_list declared) target
  unfolding target_errors
  target_iff target = (λ h. ground arith, λ h. ground arith)

  arg_iff : (a : Arg) → (arg_errors c t declared a ≡ []) ↔ ArgInScope (in_list declared) a
  unfolding arg_errors
  arg_iff a = (λ h. ground arith, λ h. ground arith)

  input_iff :
      (val : Text) → (input_errors c t declared val ≡ []) ↔ InputInScope t (in_list declared) val
  unfolding input_errors
  input_iff val = (λ h. ground arith, λ h. ground arith)

  field_iff :
      (val : Text) → (field_errors c declared val ≡ []) ↔ FieldInScope (in_list declared) val
  unfolding field_errors
  field_iff val = (λ h. ground arith, λ h. ground arith)

flow_errors-IsInScope :
    (c : ErrCtx) (declared : List Text) (seq : Sequence)
    → flow_errors c declared seq ≡ []
    → IsInScope (in_list declared) seq
unfolding flow_errors
flow_errors-IsInScope c declared seq h =
    let t = seq.type in
    let (target, more) = append-eq-nil (target_errors c t declared seq.target) _ h in
    let (args, rest) = append-eq-nil (flat_map (arg_errors c t declared) seq.args) _ more in
    let (inputs, fields) =
      append-eq-nil (flat_map (input_errors c t declared) (values seq.inputs)) _ rest in
    (
      (target_iff c t declared seq.target).0 target,
      All-map (λ a. (arg_iff c t declared a).0) seq.args
          (flat_map-nil (arg_errors c t declared) seq.args args),
      All-map (λ v. (input_iff c t declared v).0) (values seq.inputs)
          (flat_map-nil (input_errors c t declared) (values seq.inputs) inputs),
      All-map (λ v. (field_iff c t declared v).0) (values seq.fields)
          (flat_map-nil (field_errors c declared) (values seq.fields) fields),
    )

IsInScope-flow_errors :
    (c : ErrCtx) (declared : List Text) (seq : Sequence)
    → IsInScope (in_list declared) seq
    → flow_errors c declared seq ≡ []
unfolding flow_errors
IsInScope-flow_errors c declared seq (target, args, inputs, fields) =
    let t = seq.type in
    append-nil_nil ((target_iff c t declared seq.target).1 target) (
      append-nil_nil
        (nil-flat_map (arg_errors c t declared) seq.args
          (All-map (λ a. (arg_iff c t declared a).1) seq.args args))
        (append-nil_nil
          (nil-flat_map (input_errors c t declared) (values seq.inputs)
            (All-map (λ v. (input_iff c t declared v).1) (values seq.inputs) inputs))
          (nil-flat_map (field_errors c declared) (values seq.fields)
            (All-map (λ v. (field_iff c t declared v).1) (values seq.fields) fields))))

-- What is known behind `before`, where the names of `declared` are known in front of it.
abbrev pub known_behind : List Text → List Sequence → Text → Bool
known_behind declared before x = member x declared || any (binds x) before

pub known_behind-nil : (declared : List Text) → known_behind declared [] ≡ in_list declared
known_behind-nil declared = fun_ext (λ x. ground arith)

declare-member :
    (x : Text) (r : Option Binding) (declared : List Text) (others : Bool)
    → (member x (declare r declared) || others) ≡ (member x declared || (binds_name x r || others))
unfolding member
declare-member x none declared others = refl
declare-member x (some r) declared others = ground arith

pub known_behind-declare :
    (declared : List Text) (seq : Sequence) (before : List Sequence)
    → known_behind (declare seq.result declared) before ≡ known_behind declared (seq ∷ before)
known_behind-declare declared seq before =
    fun_ext (λ x. declare-member x seq.result declared (any (binds x) before))

-- Every sequence, wherever it stands, refers to known names only.
abbrev AllInScope : List Text → List Sequence → Type 0
AllInScope declared seqs =
    (before after : List Sequence) (seq : Sequence)
    → seqs ≡ before ++ seq ∷ after
    → IsInScope (known_behind declared before) seq

AllInScope-tail :
    (declared : List Text) (seq : Sequence) (seqs : List Sequence)
    → AllInScope declared (seq ∷ seqs)
    → AllInScope (declare seq.result declared) seqs
AllInScope-tail declared seq seqs all before after s e =
    subst (λ k. IsInScope k s) (sym (known_behind-declare declared seq before))
      (all (seq ∷ before) after s (ap (◌∷◌ seq) e))

flow_from-AllInScope :
    (sf : ServiceFunc) (i : ℕ) (declared : List Text) (seqs : List Sequence)
    → flow_from sf i declared seqs ≡ []
    → AllInScope declared seqs
unfolding flow_from
flow_from-AllInScope sf i declared [] h [] after seq e = cc
flow_from-AllInScope sf i declared [] h (b ∷ before) after seq e = cc
flow_from-AllInScope sf i declared (s ∷ seqs) h [] after seq e =
    let same : s ≡ seq = cc in
    let first =
      flow_errors-IsInScope _ declared s (append-eq-nil (flow_errors _ declared s) _ h).0 in
    subst (λ k. IsInScope k seq) (sym (known_behind-nil declared))
      (subst (IsInScope (in_list declared)) same first)
flow_from-AllInScope sf i declared (s ∷ seqs) h (b ∷ before) after seq e =
    let same : s ≡ b = cc in
    let rest : seqs ≡ before ++ seq ∷ after = cc in
    let later = (append-eq-nil (flow_errors _ declared s) _ h).1 in
    subst (λ k. IsInScope k seq)
      (known_behind-declare declared s before ∙ ap (λ z. known_behind declared (z ∷ before)) same)
      (flow_from-AllInScope sf (i + 1) (declare s.result declared) seqs later before after seq rest)

AllInScope-flow_from :
    (sf : ServiceFunc) (i : ℕ) (declared : List Text) (seqs : List Sequence)
    → AllInScope declared seqs
    → flow_from sf i declared seqs ≡ []
unfolding flow_from
AllInScope-flow_from sf i declared [] all = refl
AllInScope-flow_from sf i declared (s ∷ seqs) all =
    append-nil_nil
      (IsInScope-flow_errors _ declared s
        (subst (λ k. IsInScope k s) (known_behind-nil declared) (all [] seqs s refl)))
      (AllInScope-flow_from sf (i + 1) (declare s.result declared) seqs
        (AllInScope-tail declared s seqs all))

-- `validateVariableFlow` reports nothing exactly when, for every place in the function, all that the
-- sequence there refers to (its guard's target, its arguments, its inputs, its response fields) is a
-- literal, a source that is always open, known from the start, or the result of a sequence further
-- up, and no input names `config` or, under @publish, `query`.
pub validate_variable_flow-nil :
    (sf : ServiceFunc)
    → (validate_variable_flow sf ≡ []) ↔ (
        (before after : List Sequence) (seq : Sequence)
        → sf.sequences ≡ before ++ seq ∷ after
        → IsInScope (is_declared sf.subscribe before) seq)
unfolding validate_variable_flow
validate_variable_flow-nil sf = (
  flow_from-AllInScope sf 0 (declared_at_start sf.subscribe) sf.sequences,
  AllInScope-flow_from sf 0 (declared_at_start sf.subscribe) sf.sequences,
)
