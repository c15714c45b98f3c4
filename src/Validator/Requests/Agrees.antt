-- ===== src/Validator/Requests/Agrees.antt =====
-- When a function agrees with its OpenAPI operation: its request fields and its list results.
use ssac.Base.{
  ◌≡◌, ◌≢◌, ◌↔◌, ◌⊎◌, inl, inr, refl, sym, ◌∙◌, Bool, true, false, not, ◌&&◌, List, [], Option,
  none, some, arith, any, map, All, is_empty, is_empty_iff, Bool-cases,
}
use ssac.Text.{Text, codes, text_eq, has_prefix}
use ssac.Text.Cut.{text_eq_iff}
use ssac.Dict.{lookup, member}
use ssac.Parser.Types.{SeqType, Binding, Sequence, ServiceFunc}
use ssac.Validator.Errors.{ErrCtx}
use ssac.Validator.Symbols.{XPagination, OperationSymbol, SymbolTable}
use ssac.Validator.Requests.{
  fields_in, unknown_field, request_check, used_fields, path_name, func_ctx, unused_field,
  operation_errors, validate_request, wrapper_errors, result_page_errors, page_check,
  validate_pagination_type,
}
use ssac.Validator.Requests.Fields.{names_field, member-fields_in, member-used_fields, All-member}
use ssac.Validator.Rules.Loops.{
  each_from-nil, flat_map-nil_iff, when-nil, append-nil_iff, trans_iff, both_iff,
}

-- The request fields that a sequence names are fields of the operation.
abbrev pub FieldsKnown : OperationSymbol → Sequence → Type 0
FieldsKnown op seq =
    (field : Text) → names_field field seq ≡ true → member field op.request_fields ≡ true

-- A field of the operation is in its path or is used.
abbrev pub IsUsed : ServiceFunc → OperationSymbol → Text → Type 0
IsUsed sf op field =
    (member field (map path_name op.path_params) ≡ true)
    ⊎ (any (names_field field) sf.sequences ≡ true)

not_iff : (b : Bool) → (not b ≡ false) ↔ (b ≡ true)
not_iff b = (λ h. ground arith, λ h. ground arith)

neither_iff : (a b : Bool) → ((not a && not b) ≡ false) ↔ ((a ≡ true) ⊎ (b ≡ true))
neither_iff true b = (λ h. inl refl, λ h. refl)
neither_iff false true = (λ h. inr refl, λ h. refl)
neither_iff false false = (λ h. absurd (ground arith), λ h. absurd (ground arith))

unknown_field-nil :
    (known : List Text) (c : ErrCtx) (t : SeqType) (field : Text)
    → (unknown_field known c t field ≡ []) ↔ (member field known ≡ true)
unfolding unknown_field
unknown_field-nil known c t field = trans_iff (when-nil _ _) (not_iff _)

request_check-nil :
    (op : OperationSymbol) (c : ErrCtx) (seq : Sequence)
    → (request_check op.request_fields c seq ≡ []) ↔ FieldsKnown op seq
unfolding request_check
request_check-nil op c seq =
    let known = λ (field : Text). member field op.request_fields ≡ true in
    trans_iff
      (flat_map-nil_iff _ known (unknown_field-nil op.request_fields c seq.type) (fields_in seq))
      (trans_iff (All-member known (fields_in seq)) (
        λ h field m. h field (member-fields_in field seq ∙ m),
        λ h field m. h field (sym (member-fields_in field seq) ∙ m),
      ))

unused_field-nil :
    (sf : ServiceFunc) (op : OperationSymbol) (field : Text)
    → (unused_field (map path_name op.path_params) (used_fields sf.sequences) (func_ctx sf) field
        ≡ [])
      ↔ IsUsed sf op field
unfolding unused_field
unused_field-nil sf op field =
    rw (member-used_fields field sf.sequences, unused_field)
      (trans_iff (when-nil _ _) (neither_iff _ _))

operation_errors-nil :
    (sf : ServiceFunc) (op : OperationSymbol)
    → (operation_errors sf op ≡ [])
      ↔ (All (FieldsKnown op) sf.sequences × All (IsUsed sf op) op.request_fields)
unfolding operation_errors
operation_errors-nil sf op = trans_iff (append-nil_iff _ _) (
    both_iff
      (each_from-nil (request_check op.request_fields) (FieldsKnown op) (request_check-nil op) sf
        sf.sequences)
      (flat_map-nil_iff _ (IsUsed sf op) (unused_field-nil sf op) op.request_fields))

-- For a function that the OpenAPI description knows, `validateRequest` reports nothing exactly when
-- every request field that an argument or an input of a sequence names is a field of the operation,
-- and every field of the operation is a path parameter or is named by an argument or an input.
pub validate_request-nil :
    (sf : ServiceFunc) (st : SymbolTable) (op : OperationSymbol)
    → lookup sf.name st.operations ≡ some op
    → (validate_request sf st ≡ [])
      ↔ (All (FieldsKnown op) sf.sequences × All (IsUsed sf op) op.request_fields)
unfolding validate_request
validate_request-nil sf st op e = rw (e, validate_request) (operation_errors-nil sf op)

-- A list result, one in a wrapper or in brackets, is wrapped as the operation's paging asks.
abbrev pub WrapperFits : Option XPagination → Text → Type 0
WrapperFits none wrapper = wrapper ≡ []
WrapperFits (some p) wrapper =
    (p.style ≡ codes "offset" → wrapper ≡ codes "Page")
    × (p.style ≡ codes "cursor" → wrapper ≡ codes "Cursor")

abbrev pub IsListResult : Binding → Type 0
IsListResult r = (r.wrapper ≢ []) ⊎ (has_prefix (codes "[]") r.type_of ≡ true)

abbrev pub ResultFits : Option XPagination → Option Binding → Type 0
ResultFits p none = Unit
ResultFits p (some r) = IsListResult r → WrapperFits p r.wrapper

abbrev pub PageFits : Option XPagination → Sequence → Type 0
PageFits p seq = ResultFits p seq.result

offset≢cursor : codes "offset" ≢ codes "cursor"
offset≢cursor e = ground arith

abbrev StyleFits : Text → Text → Type 0
StyleFits style w =
    (style ≡ codes "offset" → w ≡ codes "Page") × (style ≡ codes "cursor" → w ≡ codes "Cursor")

abbrev is_page : Text → Bool
is_page w = text_eq w (codes "Page")

abbrev is_cursor : Text → Bool
is_cursor w = text_eq w (codes "Cursor")

-- In the first style, in the second, in any other one.
offset_iff :
    (style w : Text) → style ≡ codes "offset" → (not (is_page w) ≡ false) ↔ StyleFits style w
offset_iff style w e = (
  λ h. (
    λ _. (text_eq_iff w (codes "Page")).0 ((not_iff (is_page w)).0 h),
    λ k. absurd (offset≢cursor (sym e ∙ k)),
  ),
  λ h. (not_iff (is_page w)).1 ((text_eq_iff w (codes "Page")).1 (h.0 e)),
)

cursor_iff :
    (style w : Text) → style ≡ codes "cursor" → (not (is_cursor w) ≡ false) ↔ StyleFits style w
cursor_iff style w e = (
  λ h. (
    λ k. absurd (offset≢cursor (sym k ∙ e)),
    λ _. (text_eq_iff w (codes "Cursor")).0 ((not_iff (is_cursor w)).0 h),
  ),
  λ h. (not_iff (is_cursor w)).1 ((text_eq_iff w (codes "Cursor")).1 (h.1 e)),
)

other_style : (style w : Text) → style ≢ codes "offset" → style ≢ codes "cursor" → StyleFits style w
other_style style w n m = (λ e. absurd (n e), λ e. absurd (m e))

text_ne : (s t : Text) → text_eq s t ≡ false → s ≢ t
text_ne s t h e = ground (arith, text_eq_iff s t)

wrapper_errors-nil :
    (c : ErrCtx) (p : Option XPagination) (w : Text) → (wrapper_errors c p w ≡ []) ↔ WrapperFits p w
unfolding wrapper_errors
wrapper_errors-nil c none w = trans_iff (when-nil _ _) (trans_iff (not_iff _) (is_empty_iff w))
wrapper_errors-nil c (some p) w = elim (Bool-cases (text_eq p.style (codes "offset"))) [
  | inl e ↦
      rw e (
        trans_iff (when-nil _ _)
          (offset_iff p.style w ((text_eq_iff p.style (codes "offset")).0 e)))
  | inr n ↦ elim (Bool-cases (text_eq p.style (codes "cursor"))) [
    | inl e ↦
        rw (n, e)
          (trans_iff (when-nil _ _)
            (cursor_iff p.style w ((text_eq_iff p.style (codes "cursor")).0 e)))
    | inr m ↦
        rw (n, m)
          (
            λ h.
                other_style p.style w (text_ne p.style (codes "offset") n)
                  (text_ne p.style (codes "cursor") m),
            λ h. refl,
          )
  ]
]

not_list :
    (r : Binding)
    → (is_empty r.wrapper && not (has_prefix (codes "[]") r.type_of)) ≡ true
    → ¬ IsListResult r
not_list r h (inl k) = ground (arith, is_empty_iff r.wrapper)
not_list r h (inr k) = ground arith

is_list :
    (r : Binding)
    → (is_empty r.wrapper && not (has_prefix (codes "[]") r.type_of)) ≡ false
    → IsListResult r
is_list r h = elim (Bool-cases (has_prefix (codes "[]") r.type_of)) [
  | inl e ↦ inr e
  | inr e ↦ inl (λ k. ground arith)
]

result_page_errors-nil :
    (p : Option XPagination) (c : ErrCtx) (r : Option Binding)
    → (result_page_errors p c r ≡ []) ↔ ResultFits p r
unfolding result_page_errors
result_page_errors-nil p c none = (λ h. tt, λ h. refl)
result_page_errors-nil p c (some r) =
    elim (Bool-cases (is_empty r.wrapper && not (has_prefix (codes "[]") r.type_of))) [
      | inl e ↦ rw e (λ h k. absurd (not_list r e k), λ h. refl)
      | inr e ↦ rw e (
        λ h k. (wrapper_errors-nil c p r.wrapper).0 h,
        λ h. (wrapper_errors-nil c p r.wrapper).1 (h (is_list r e)),
      )
    ]

-- For a function that the OpenAPI description knows, `validatePaginationType` reports nothing
-- exactly when every list result has the wrapper that the paging asks for: Page under the style
-- offset, Cursor under the style cursor, any under another style, and none without x-pagination.
pub validate_pagination_type-nil :
    (sf : ServiceFunc) (st : SymbolTable) (op : OperationSymbol)
    → lookup sf.name st.operations ≡ some op
    → (validate_pagination_type sf (some st) ≡ []) ↔ All (PageFits op.x_pagination) sf.sequences
unfolding validate_pagination_type
validate_pagination_type-nil sf st op e =
    rw (e, validate_pagination_type)
      (each_from-nil (page_check op.x_pagination) (PageFits op.x_pagination)
        (λ c seq. result_page_errors-nil op.x_pagination c seq.result) sf sf.sequences)
