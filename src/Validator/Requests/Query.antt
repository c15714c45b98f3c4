-- ===== src/Validator/Requests/Query.antt =====
-- When a function and its OpenAPI operation agree on query options.
use ssac.Base.{
  ◌≡◌, ◌≢◌, ◌↔◌, ◌⊎◌, inl, inr, refl, sym, subst, ap, some_inj, Bool, true, false, not, ◌&&◌, ◌||◌,
  List, [], ◌∷◌, ◌++◌, Option, none, some, arith, any, Bool-cases,
}
use ssac.Text.{Text, codes}
use ssac.Text.Cut.{text_eq_iff, text_eq_self}
use ssac.Dict.{Dict, lookup, values}
use ssac.Parser.Types.{Sequence, ServiceFunc}
use ssac.Validator.Errors.{ValidationError, when}
use ssac.Validator.Symbols.{OperationSymbol, SymbolTable, is_some, has_query_opts}
use ssac.Validator.Requests.{op_has_query, is_query_input, spec_has_query, validate_query_usage}
use ssac.Validator.Rules.Loops.{trans_iff}

-- One of the inputs is `query`.
abbrev pub HasQuery : Dict Text → Type 0
HasQuery inputs =
    (before : Dict Text) × (after : Dict Text) × (k : Text) × (inputs
      ≡ before ++ (k, codes "query") ∷ after)

-- Some sequence, of whatever kind, has an input that is `query`.
abbrev pub TakesQuery : List Sequence → Type 0
TakesQuery seqs =
    (before : List Sequence) × (after : List Sequence) × (seq : Sequence) × (seqs
      ≡ before ++ seq ∷ after)
    × HasQuery seq.inputs

-- The operation is known, and has one of the four extensions.
abbrev pub OffersQuery : Option OperationSymbol → Type 0
OffersQuery found =
    (op : OperationSymbol) × (found ≡ some op)
    × ((op.x_pagination ≢ none) ⊎ (op.x_sort ≢ none) ⊎ (op.x_filter ≢ none) ⊎ (op.x_include ≢ none))

any-HasQuery : (d : Dict Text) → any is_query_input (values d) ≡ true → HasQuery d
unfolding is_query_input
any-HasQuery [] h = cc
any-HasQuery ((k, v) ∷ d) h = elim (Bool-cases (is_query_input v)) [
  | inl e ↦ ([], d, k, ap (λ w. (k, w) ∷ d) ((text_eq_iff v (codes "query")).0 e))
  | inr e ↦
      let (before, after, j, same) = any-HasQuery d (ground arith) in
      ((k, v) ∷ before, after, j, ap (◌∷◌ (k, v)) same)
]

any-middle :
    (before after : Dict Text) (k : Text)
    → any is_query_input (values (before ++ (k, codes "query") ∷ after)) ≡ true
unfolding is_query_input
any-middle [] after k = rw (text_eq_self (codes "query")) refl
any-middle ((j, v) ∷ before) after k = ground (arith, any-middle before after k)

HasQuery-any : (d : Dict Text) → HasQuery d → any is_query_input (values d) ≡ true
HasQuery-any d (before, after, k, same) = rw same (any-middle before after k)

spec-TakesQuery : (seqs : List Sequence) → spec_has_query seqs ≡ true → TakesQuery seqs
unfolding spec_has_query
spec-TakesQuery [] h = cc
spec-TakesQuery (seq ∷ seqs) h = elim (Bool-cases (any is_query_input (values seq.inputs))) [
  | inl e ↦ ([], seqs, seq, refl, any-HasQuery seq.inputs e)
  | inr e ↦
      let (before, after, s, same, has) = spec-TakesQuery seqs (ground arith) in
      (seq ∷ before, after, s, ap (◌∷◌ seq) same, has)
]

spec-middle :
    (before after : List Sequence) (seq : Sequence)
    → HasQuery seq.inputs
    → spec_has_query (before ++ seq ∷ after) ≡ true
unfolding spec_has_query
spec-middle [] after seq h = rw (HasQuery-any seq.inputs h) refl
spec-middle (s ∷ before) after seq h = ground (arith, spec-middle before after seq h)

spec_iff : (seqs : List Sequence) → (spec_has_query seqs ≡ true) ↔ TakesQuery seqs
spec_iff seqs = (
  spec-TakesQuery seqs,
  λ (before, after, seq, same, h). rw same (spec-middle before after seq h),
)

some_iff : {A : Type 0} (r : Option A) → (is_some r ≡ true) ↔ (r ≢ none)
some_iff none = (λ h. cc, λ h. absurd (h refl))
some_iff (some a) = (λ h e. cc, λ h. refl)

or_iff : {P Q : Type 0} (a b : Bool) → (a ≡ true) ↔ P → (b ≡ true) ↔ Q → ((a || b) ≡ true) ↔ (P ⊎ Q)
or_iff true b p q = (λ h. inl (p.0 refl), λ h. refl)
or_iff false b p q = (λ h. inr (q.0 h), λ h. elim h [ inl x ↦ absurd (cc (p.1 x)) | inr y ↦ q.1 y ])

regroup : (a b c d : Bool) → (a || b || c || d) ≡ (a || (b || (c || d)))
regroup a b c d = ground arith

opts_iff :
    (op : OperationSymbol)
    → (has_query_opts op ≡ true) ↔ (
        (op.x_pagination ≢ none)
        ⊎ (op.x_sort ≢ none)
        ⊎ (op.x_filter ≢ none)
        ⊎ (op.x_include ≢ none))
unfolding has_query_opts
opts_iff op =
    let grouped =
      regroup (is_some op.x_pagination) (is_some op.x_sort) (is_some op.x_filter)
        (is_some op.x_include) in
    rw (grouped, has_query_opts)
      (or_iff _ _ (some_iff op.x_pagination) (
        or_iff _ _ (some_iff op.x_sort)
          (or_iff _ _ (some_iff op.x_filter) (some_iff op.x_include))))

offers_iff : (found : Option OperationSymbol) → (op_has_query found ≡ true) ↔ OffersQuery found
offers_iff none = (λ h. cc, λ (op, e, h). cc)
offers_iff (some op) = (
  λ h. (op, refl, (opts_iff op).0 h),
  λ (o, e, h). subst (λ x. has_query_opts x ≡ true) (sym (some_inj op o e)) ((opts_iff o).1 h),
)

agree_iff :
    (uses has : Bool) (e w : ValidationError)
    → (when (uses && not has) e ++ when (has && not uses) w ≡ []) ↔ ((uses ≡ true) ↔ (has ≡ true))
agree_iff true true e w = (λ h. (λ k. k, λ k. k), λ h. refl)
agree_iff true false e w = (λ h. absurd (ground arith), λ h. absurd (cc (h.0 refl)))
agree_iff false true e w = (λ h. absurd (ground arith), λ h. absurd (cc (h.1 refl)))
agree_iff false false e w = (λ h. (λ k. k, λ k. k), λ h. refl)

along_iff : {A B C D : Type 0} → A ↔ B → C ↔ D → (A ↔ C) ↔ (B ↔ D)
along_iff p q = (
  λ f. (λ b. q.0 (f.0 (p.1 b)), λ d. p.0 (f.1 (q.1 d))),
  λ f. (λ a. q.1 (f.0 (p.0 a)), λ c. p.1 (f.1 (q.0 c))),
)

-- `validateQueryUsage` reports nothing exactly when these agree: some sequence, of whatever kind,
-- has an input that is `query`; the function's operation is in the symbol table with one of the
-- extensions x-pagination, x-sort, x-filter and x-include.
pub validate_query_usage-nil :
    (sf : ServiceFunc) (st : SymbolTable)
    → (validate_query_usage sf (some st) ≡ [])
      ↔ (TakesQuery sf.sequences ↔ OffersQuery (lookup sf.name st.operations))
unfolding validate_query_usage
validate_query_usage-nil sf st =
    trans_iff (agree_iff _ _ _ _) (along_iff (spec_iff sf.sequences) (offers_iff _))
