-- ===== src/Validator/Guard/Guarded.antt =====
-- What `validateFKReferenceGuard` accepts, described by positions.
use ssac.Base.{
  ℕ, ◌+◌, ◌≡◌, ◌≢◌, ◌↔◌, refl, sym, ap, subst, ◌∙◌, Bool, true, false, not, ◌&&◌, ◌||◌, fun_ext,
  List, [], ◌∷◌, ◌++◌, Option, none, some, arith, any, append-eq-nil, append-nil_nil,
}
use ssac.Text.{Text}
use ssac.Dict.{values, member}
use ssac.Parser.Types.{SeqType, get, Binding, Sequence, SubscribeInfo, ServiceFunc}
use ssac.Validator.Errors.{ErrCtx, ValidationError, when}
use ssac.Validator.Flow.{root_var, is_literal, declare}
use ssac.Validator.Flow.Scope.{binds, in_list, known_behind, known_behind-nil, known_behind-declare}
use ssac.Validator.Guard.{
  outer_sources, is_fk_ref, guards_var, is_slice_or_wrapped, guard_of_result, guard_errors,
  guard_from, results_at_start, validate_fk_reference_guard,
}

abbrev is_get : SeqType → Bool
is_get get = true
is_get _ = false

-- The value refers to a result, where `known` are the results so far.
abbrev refers : (Text → Bool) → Text → Bool
refers known val =
    not (is_literal val) && not (member (root_var val) outer_sources) && known (root_var val)

-- A @get of a single value by an earlier result is guarded further down.
abbrev GuardedAs : (Text → Bool) → Sequence → List Sequence → SeqType → Option Binding → Type 0
GuardedAs known seq later t result =
    (r : Binding)
    → t ≡ get
    → result ≡ some r
    → is_slice_or_wrapped r ≡ false
    → any (refers known) (values seq.inputs) ≡ true
    → any (guards_var r.name) later ≡ true

abbrev IsGuarded : (Text → Bool) → Sequence → List Sequence → Type 0
IsGuarded known seq later = GuardedAs known seq later seq.type seq.result

not-false : (c : Bool) → c ≡ true → not c ≡ false
not-false c h = ground arith

guarded_iff : (a b c : Bool) → ((not a && (b && not c)) ≡ false) ↔ (a ≡ false → b ≡ true → c ≡ true)
guarded_iff true b c = (λ h e. absurd (ground arith), λ h. refl)
guarded_iff false false c = (λ h e k. absurd (ground arith), λ h. refl)
guarded_iff false true c = (λ h e k. ground arith, λ h. (not-false c (h refl refl)))

when_iff : (b : Bool) (e : ValidationError) → (when b e ≡ []) ↔ (b ≡ false)
when_iff b e = (λ h. ground arith, λ h. ground arith)

result_iff :
    (c : ErrCtx) (declared : List Text) (seq : Sequence) (later : List Sequence)
    (result : Option Binding)
    → (guard_of_result c declared seq later result ≡ [])
      ↔ GuardedAs (in_list declared) seq later get result
unfolding guard_of_result is_fk_ref
result_iff c declared seq later none = (λ h r t e. absurd (ground arith), λ h. refl)
result_iff c declared seq later (some r) =
    let guarded =
      guarded_iff (is_slice_or_wrapped r) (any (refers (in_list declared)) (values seq.inputs))
        (any (guards_var r.name) later) in
    (
      λ h r' t e single uses.
          let same : r ≡ r' = cc in
          subst (λ b. any (guards_var b.name) later ≡ true) same
            (guarded.0 ((when_iff _ _).0 h)
              (subst (λ b. is_slice_or_wrapped b ≡ false) (sym same) single) uses),
      λ h. (when_iff _ _).1 (guarded.1 (h r refl refl)),
    )

not_get : (t : SeqType) → is_get t ≡ false → t ≢ get
not_get t h e = ground arith

guard_errors_iff :
    (t : SeqType) (c : ErrCtx) (declared : List Text) (seq : Sequence) (later : List Sequence)
    → (guard_errors t c declared seq later ≡ [])
      ↔ GuardedAs (in_list declared) seq later t seq.result
unfolding guard_errors
guard_errors_iff get c declared seq later = result_iff c declared seq later seq.result
guard_errors_iff t c declared seq later = (λ h r e. absurd (not_get t refl e), λ h. refl)

-- Every sequence, wherever it stands, is guarded by those below it.
abbrev AllGuarded : List Text → List Sequence → Type 0
AllGuarded declared seqs =
    (before after : List Sequence) (seq : Sequence)
    → seqs ≡ before ++ seq ∷ after
    → IsGuarded (known_behind declared before) seq after

AllGuarded-tail :
    (declared : List Text) (seq : Sequence) (seqs : List Sequence)
    → AllGuarded declared (seq ∷ seqs)
    → AllGuarded (declare seq.result declared) seqs
AllGuarded-tail declared seq seqs all before after s e =
    subst (λ k. IsGuarded k s after) (sym (known_behind-declare declared seq before))
      (all (seq ∷ before) after s (ap (◌∷◌ seq) e))

guard_from-AllGuarded :
    (sf : ServiceFunc) (i : ℕ) (declared : List Text) (seqs : List Sequence)
    → guard_from sf i declared seqs ≡ []
    → AllGuarded declared seqs
unfolding guard_from
guard_from-AllGuarded sf i declared [] h [] after seq e = cc
guard_from-AllGuarded sf i declared [] h (b ∷ before) after seq e = cc
guard_from-AllGuarded sf i declared (s ∷ seqs) h [] after seq e =
    let same : s ≡ seq = cc in
    let rest : seqs ≡ after = cc in
    let first =
      (guard_errors_iff s.type _ declared s seqs).0
        (append-eq-nil (guard_errors s.type _ declared s seqs) _ h).0 in
    subst (λ k. IsGuarded k seq after) (sym (known_behind-nil declared))
      (subst (λ z. IsGuarded (in_list declared) z after) same
        (subst (IsGuarded (in_list declared) s) rest first))
guard_from-AllGuarded sf i declared (s ∷ seqs) h (b ∷ before) after seq e =
    let same : s ≡ b = cc in
    let rest : seqs ≡ before ++ seq ∷ after = cc in
    let later = (append-eq-nil (guard_errors s.type _ declared s seqs) _ h).1 in
    subst (λ k. IsGuarded k seq after)
      (known_behind-declare declared s before ∙ ap (λ z. known_behind declared (z ∷ before)) same)
      (guard_from-AllGuarded sf (i + 1) (declare s.result declared) seqs later before after seq
        rest)

AllGuarded-guard_from :
    (sf : ServiceFunc) (i : ℕ) (declared : List Text) (seqs : List Sequence)
    → AllGuarded declared seqs
    → guard_from sf i declared seqs ≡ []
unfolding guard_from
AllGuarded-guard_from sf i declared [] all = refl
AllGuarded-guard_from sf i declared (s ∷ seqs) all =
    append-nil_nil
      ((guard_errors_iff s.type _ declared s seqs).1
        (subst (λ k. IsGuarded k s seqs) (known_behind-nil declared) (all [] seqs s refl)))
      (AllGuarded-guard_from sf (i + 1) (declare s.result declared) seqs
        (AllGuarded-tail declared s seqs all))

-- The value refers to the result of one of the sequences `before`. A value whose root is one of
-- `outer_sources`, among them the message of a subscriber, refers to none.
abbrev pub refers_to_result : List Sequence → Text → Bool
refers_to_result before val =
    not (is_literal val)
    && not (member (root_var val) outer_sources)
    && any (binds (root_var val)) before

-- A @get of a single value by the result of a sequence `before` is guarded in `later`.
abbrev pub IsGuardedBy : List Sequence → Sequence → List Sequence → Type 0
IsGuardedBy before seq later =
    (r : Binding)
    → seq.type ≡ get
    → seq.result ≡ some r
    → is_slice_or_wrapped r ≡ false
    → any (refers_to_result before) (values seq.inputs) ≡ true
    → any (guards_var r.name) later ≡ true

-- The name that the check starts from, `message`, is no result to it.
at_start-outer :
    (sub : Option SubscribeInfo) (x : Text) (a before : Bool)
    → (a && not (member x outer_sources) && (member x (results_at_start sub) || before))
      ≡ (a && not (member x outer_sources) && before)
unfolding member
at_start-outer none x a before = refl
at_start-outer (some s) x a before = ground arith

refers-result :
    (sub : Option SubscribeInfo) (before : List Sequence)
    → refers (known_behind (results_at_start sub) before) ≡ refers_to_result before
refers-result sub before = fun_ext (λ val.
    at_start-outer sub (root_var val) (not (is_literal val)) (any (binds (root_var val)) before))

IsGuarded-same :
    (sub : Option SubscribeInfo) (before : List Sequence) (seq : Sequence) (later : List Sequence)
    → IsGuarded (known_behind (results_at_start sub) before) seq later
      ↔ IsGuardedBy before seq later
IsGuarded-same sub before seq later = (
  λ h r t e single uses. h r t e single (rw (refers-result sub before) uses),
  λ h r t e single uses. h r t e single (rw (sym (refers-result sub before)) uses),
)

-- `validateFKReferenceGuard` reports nothing exactly when every @get of a single value, neither a
-- slice nor wrapped, that has an input referring to the result of a sequence further up, is followed
-- somewhere below by an @empty guard on its own result. An input that is a literal, or whose root is
-- request, currentUser, query, message or config, or nothing, refers to no result.
pub validate_fk_reference_guard-nil :
    (sf : ServiceFunc)
    → (validate_fk_reference_guard sf ≡ []) ↔ (
        (before after : List Sequence) (seq : Sequence)
        → sf.sequences ≡ before ++ seq ∷ after
        → IsGuardedBy before seq after)
unfolding validate_fk_reference_guard
validate_fk_reference_guard-nil sf = (
  λ h before after seq e. (IsGuarded-same sf.subscribe before seq after).0 (
      guard_from-AllGuarded sf 0 (results_at_start sf.subscribe) sf.sequences h before after seq e),
  λ h.
      AllGuarded-guard_from sf 0 (results_at_start sf.subscribe) sf.sequences (λ before after seq e.
        (IsGuarded-same sf.subscribe before seq after).1 (h before after seq e)),
)
