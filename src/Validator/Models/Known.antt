-- ===== src/Validator/Models/Known.antt =====
-- When every model that a function names is in the symbol table, with the method and the parameters
-- that it names.
use ssac.Base.{
  some_inj, ◌≡◌, ◌≢◌, ◌↔◌, inl, inr, refl, sym, subst, ◌∙◌, Bool, true, false, not, ◌||◌, List, [],
  ◌∷◌, ◌++◌, Option, none, some, arith, All, is_empty, is_empty_iff, Bool-cases,
}
use ssac.Text.{Text, codes}
use ssac.Text.Sort.{text_less, insert_text, sort_texts}
use ssac.Text.Cut.{Free}
use ssac.Dict.{lookup, member, keys}
use ssac.Parser.Types.{SeqType, Sequence, ServiceFunc}
use ssac.Validator.Errors.{ValidationError, ErrCtx, when}
use ssac.Validator.Symbols.{MethodInfo, ModelSymbol, SymbolTable, has_method}
use ssac.Validator.Models.{
  model_parts, is_call, parameter_errors, method_errors, package_model, package_model_errors,
  own_model_errors, named_model_errors, model_check, validate_model,
}
use ssac.Validator.Models.Parts.{PartsOf, model_parts-PartsOf, Free-no_split, same_split, split_ne}
use ssac.Validator.Rules.Loops.{
  each_from-nil, flat_map-nil_iff, when-nil, append-nil_iff, trans_iff, both_iff,
}

-- The given keys and the parameters, where there are any, are the same texts.
abbrev pub ParametersMatch : List Text → List Text → Type 0
ParametersMatch given params =
    params ≢ []
    → All (λ key. member key params ≡ true) given × All (λ param. member param given ≡ true) params

abbrev pub OwnModelKnown : SymbolTable → Text → Text → Type 0
OwnModelKnown st model method =
    (ms : ModelSymbol) × (lookup model st.models ≡ some ms) × (has_method ms method ≡ true)

abbrev pub PackageModelKnown : SymbolTable → Text → List Text → Text → Text → Type 0
PackageModelKnown st pkg given model method =
    (ms : ModelSymbol) × (mi : MethodInfo) × (lookup (pkg ++ codes "." ++ model) st.models
      ≡ some ms)
    × (lookup method ms.methods ≡ some mi)
    × ParametersMatch given mi.params

-- What is in the table, for a model with a method and without or with a package.
abbrev pub TableHas : SymbolTable → Sequence → Text → Text → Type 0
TableHas st seq model method =
    (seq.package_name ≡ [] → OwnModelKnown st model method)
    × (seq.package_name ≢ [] → PackageModelKnown st seq.package_name (keys seq.inputs) model method)

-- A call, and a model without a dot, ask for nothing.
abbrev pub ModelKnown : SymbolTable → Sequence → Type 0
ModelKnown st seq =
    is_call seq.type ≡ false
    → (model method : Text) → Free b'.' model
    → seq.model ≡ model ++ b'.' ∷ method
    → TableHas st seq model method

not_iff : (b : Bool) → (not b ≡ false) ↔ (b ≡ true)
not_iff b = (λ h. ground arith, λ h. ground arith)

module _ (P : Text → Type 0) where
  All-insert : (s : Text) (ts : List Text) → P s → All P ts → All P (insert_text s ts)
  unfolding insert_text
  All-insert s [] h k = (h, tt)
  All-insert s (t ∷ ts) h k = elim (Bool-cases (text_less t s)) [
    | inl e ↦ rw e (k.0, All-insert s ts h k.1)
    | inr e ↦ rw e (h, k)
  ]

  insert-All : (s : Text) (ts : List Text) → All P (insert_text s ts) → P s × All P ts
  unfolding insert_text
  insert-All s [] h = h
  insert-All s (t ∷ ts) h = elim (Bool-cases (text_less t s)) [
    | inl e ↦
        let k : P t × All P (insert_text s ts) = rw e at h in
        ((insert-All s ts k.1).0, (k.0, (insert-All s ts k.1).1))
    | inr e ↦ rw e at h
  ]

  sort_texts-All : (ts : List Text) → All P (sort_texts ts) ↔ All P ts
  unfolding sort_texts
  sort_texts-All [] = (λ h. h, λ h. h)
  sort_texts-All (t ∷ ts) = (
    λ h. let k = insert-All t (sort_texts ts) h in (k.0, (sort_texts-All ts).0 k.1),
    λ h. All-insert t (sort_texts ts) h.0 ((sort_texts-All ts).1 h.1),
  )

parameter_errors-nil :
    (c : ErrCtx) (seq : Sequence) (model method : Text) (params : List Text)
    → (parameter_errors c seq model method params ≡ []) ↔ (
        All (λ key. member key params ≡ true) (keys seq.inputs)
        × All (λ param. member param (keys seq.inputs) ≡ true) params)
unfolding parameter_errors
parameter_errors-nil c seq model method params = trans_iff (append-nil_iff _ _) (
    both_iff
      (trans_iff
        (flat_map-nil_iff _ (λ key. member key params ≡ true)
          (λ key. trans_iff (when-nil _ _) (not_iff _)) (sort_texts (keys seq.inputs)))
        (sort_texts-All (λ key. member key params ≡ true) (keys seq.inputs)))
      (flat_map-nil_iff _ (λ param. member param (keys seq.inputs) ≡ true)
        (λ param. trans_iff (when-nil _ _) (not_iff _)) params))

method_errors-nil :
    (c : ErrCtx) (seq : Sequence) (model method : Text) (mi : MethodInfo)
    → (method_errors c seq model method mi ≡ []) ↔ ParametersMatch (keys seq.inputs) mi.params
method_errors-nil c seq model method mi = elim (Bool-cases (is_empty mi.params)) [
  | inl e ↦ rw e (λ h ne. absurd (ne ((is_empty_iff mi.params).0 e)), λ h. refl)
  | inr e ↦ rw e (
    λ h ne. (parameter_errors-nil c seq model method mi.params).0 h,
    λ h. (parameter_errors-nil c seq model method mi.params).1 (h (λ q. ground arith)),
  )
]

-- A lookup whose miss is reported.
found_iff :
    {A : Type 0} (x : Option A) (missed : List ValidationError) (f : A → List ValidationError)
    (P : A → Type 0)
    → missed ≢ []
    → ((a : A) → (f a ≡ []) ↔ P a)
    → ((elim x [ none ↦ missed | some a ↦ f a ]) ≡ []) ↔ ((a : A) × (x ≡ some a) × P a)
found_iff none missed f P ne iff = (λ h. absurd (ne h), λ (a, e, p). absurd (ground arith))
found_iff (some a) missed f P ne iff =
    (λ h. (a, refl, (iff a).0 h), λ (b, e, p). (iff a).1 (subst P (sym (some_inj a b e)) p))

cons_ne : (e : ValidationError) → e ∷ [] ≢ []
cons_ne e h = cc

abbrev MethodKnown : Sequence → Text → ModelSymbol → Type 0
MethodKnown seq method ms =
    (mi : MethodInfo) × (lookup method ms.methods ≡ some mi)
    × ParametersMatch (keys seq.inputs) mi.params

package_model-nil :
    (c : ErrCtx) (seq : Sequence) (model method : Text) (ms : ModelSymbol)
    → (package_model c seq model method ms ≡ []) ↔ MethodKnown seq method ms
package_model-nil c seq model method ms =
    found_iff (lookup method ms.methods) _ (method_errors c seq model method)
      (λ mi. ParametersMatch (keys seq.inputs) mi.params) (cons_ne _)
      (method_errors-nil c seq model method)

package_model_errors-nil :
    (c : ErrCtx) (st : SymbolTable) (seq : Sequence) (model method : Text)
    → (package_model_errors c st seq model method ≡ [])
      ↔ PackageModelKnown st seq.package_name (keys seq.inputs) model method
unfolding package_model_errors
package_model_errors-nil c st seq model method =
    trans_iff
      (found_iff (lookup (seq.package_name ++ codes "." ++ model) st.models) _
        (package_model c seq model method) (MethodKnown seq method) (cons_ne _)
        (package_model-nil c seq model method))
      (λ (ms, e, (mi, q, r)). (ms, mi, e, q, r), λ (ms, mi, e, q, r). (ms, e, (mi, q, r)))

own_model_errors-nil :
    (c : ErrCtx) (st : SymbolTable) (t : SeqType) (model method : Text)
    → (own_model_errors c st t model method ≡ []) ↔ OwnModelKnown st model method
unfolding own_model_errors
own_model_errors-nil c st t model method =
    found_iff (lookup model st.models) _ (λ ms. when (not (has_method ms method)) _)
      (λ ms. has_method ms method ≡ true) (cons_ne _) (λ ms. trans_iff (when-nil _ _) (not_iff _))

pair_errors-nil :
    (st : SymbolTable) (c : ErrCtx) (seq : Sequence) (model method : Text)
    → (named_model_errors st c seq (some (model, method)) ≡ []) ↔ TableHas st seq model method
unfolding named_model_errors
pair_errors-nil st c seq model method = elim (Bool-cases (is_empty seq.package_name)) [
  | inl e ↦
      let nil : seq.package_name ≡ [] = (is_empty_iff seq.package_name).0 e in
      rw e (
        λ h. (λ _. (own_model_errors-nil c st seq.type model method).0 h, λ ne. absurd (ne nil)),
        λ h. (own_model_errors-nil c st seq.type model method).1 (h.0 nil),
      )
  | inr e ↦
      let ne : seq.package_name ≢ [] = (λ q. ground arith) in
      rw e (
        λ h. (λ nil. absurd (ne nil), λ _. (package_model_errors-nil c st seq model method).0 h),
        λ h. (package_model_errors-nil c st seq model method).1 (h.1 ne),
      )
]

-- What `ModelKnown` asks for, past the calls.
abbrev SplitsKnown : SymbolTable → Sequence → Type 0
SplitsKnown st seq =
    (model method : Text)
    → Free b'.' model
    → seq.model ≡ model ++ b'.' ∷ method
    → TableHas st seq model method

named_model_errors-nil :
    (st : SymbolTable) (c : ErrCtx) (seq : Sequence) (r : Option (Text × Text))
    → PartsOf seq.model r
    → (named_model_errors st c seq r ≡ []) ↔ SplitsKnown st seq
unfolding named_model_errors PartsOf
named_model_errors-nil st c seq none free =
    (λ h m f free' e. absurd (Free-no_split seq.model m f free free' e), λ h. refl)
named_model_errors-nil st c seq (some (m, f)) (free, e) = (
  λ h m' f' free' e'.
      subst (λ p. TableHas st seq p.0 p.1) (same_split seq.model m f m' f' free e free' e')
        ((pair_errors-nil st c seq m f).0 h),
  λ h. (pair_errors-nil st c seq m f).1 (h m f free e),
)

passed_over :
    (st : SymbolTable) (seq : Sequence)
    → (is_empty seq.model || is_call seq.type) ≡ true
    → ModelKnown st seq
passed_over st seq h not_call m f free e =
    absurd (split_ne m f (sym e ∙ (is_empty_iff seq.model).0 (ground arith)))

model_check-nil :
    (st : SymbolTable) (c : ErrCtx) (seq : Sequence)
    → (model_check st c seq ≡ []) ↔ ModelKnown st seq
unfolding model_check
model_check-nil st c seq = elim (Bool-cases (is_empty seq.model || is_call seq.type)) [
  | inl e ↦ rw e (λ h. passed_over st seq e, λ h. refl)
  | inr e ↦
      let iff =
        named_model_errors-nil st c seq (model_parts seq.model) (model_parts-PartsOf seq.model) in
      rw e (λ h not_call. iff.0 h, λ h. iff.1 (h (ground arith)))
]

-- `validateModel` reports nothing exactly when every sequence but a call that names a model with a
-- method finds both in the symbol table, and, where the model is of a package, hands exactly the
-- parameters that its interface lists, if it lists any.
pub validate_model-nil :
    (sf : ServiceFunc) (st : SymbolTable)
    → (validate_model sf st ≡ []) ↔ All (ModelKnown st) sf.sequences
unfolding validate_model
validate_model-nil sf st =
    each_from-nil (model_check st) (ModelKnown st) (model_check-nil st) sf sf.sequences
