-- ===== src/Validator/Rules/Subscribes.antt =====
-- What `validateSubscribeRules` accepts: of a function that a message triggers, and of any other.
use ssac.Base.{
  ◌≡◌, ◌≢◌, ◌↔◌, refl, Bool, true, false, not, ◌&&◌, List, [], ◌∷◌, Option, none, some, arith, any,
  All, drop,
}
use ssac.Text.{Text, codes}
use ssac.Text.Cut.{text_eq_iff}
use ssac.Dict.{values}
use ssac.Parser.Types.{
  SeqType, response, Sequence, SubscribeInfo, ParamInfo, StructInfo, ServiceFunc,
}
use ssac.Validator.Errors.{
  Message, ErrCtx, request_in_subscribe, query_in_subscribe, message_in_http,
}
use ssac.Validator.Flow.{is_query}
use ssac.Validator.Rules.{
  has_struct_field, is_response, param_errors, is_struct, type_errors, response_check, input_check,
  is_request, is_message, message_field_errors, message_check, fields_check, subscribe_rules,
  validate_subscribe_rules,
}
use ssac.Validator.Rules.Loops.{
  each_from-nil, flat_map-nil_iff, when-nil, append-nil_iff, trans_iff, both_iff,
}

-- No input is of this form.
abbrev pub NoInput : (Text → Bool) → Sequence → Type 0
NoInput p seq = any p (values seq.inputs) ≡ false

-- The parameter that takes the message is named `message`.
abbrev pub TakesMessage : Option ParamInfo → Type 0
TakesMessage none = ⊥
TakesMessage (some p) = p.var_name ≡ codes "message"

-- The message's type is a struct of the file, or not known.
abbrev pub TypeKnown : Text → List StructInfo → Type 0
TypeKnown type structs = type ≢ [] → any (is_struct type) structs ≡ true

-- Every `message.Field` names a field of the message's struct.
abbrev pub FieldsExist : List StructInfo → Text → Sequence → Type 0
FieldsExist structs type seq =
    All (λ val. is_message val ≡ true → has_struct_field structs type (drop 8 val) ≡ true)
      (values seq.inputs)

abbrev pub SubscribesWell : ServiceFunc → Option SubscribeInfo → Type 0
SubscribesWell sf none = All (NoInput is_message) sf.sequences
SubscribesWell sf (some sub) =
    TakesMessage sf.param
    × (TypeKnown sub.message_type sf.structs
        × (All (λ seq. seq.type ≢ response) sf.sequences
            × (All (NoInput is_request) sf.sequences
                × (All (NoInput is_query) sf.sequences
                    × (sub.message_type ≢ []
                        → All (FieldsExist sf.structs sub.message_type) sf.sequences)))))

implies_iff : (a b : Bool) → ((a && not b) ≡ false) ↔ (a ≡ true → b ≡ true)
implies_iff true true = (λ h e. refl, λ h. refl)
implies_iff true false = (λ h e. absurd (ground arith), λ h. absurd (ground (arith, h refl)))
implies_iff false b = (λ h e. absurd (ground arith), λ h. refl)

input_check-nil :
    (p : Text → Bool) (tag : Text) (msg : Message) (c : ErrCtx) (seq : Sequence)
    → (input_check p tag msg c seq ≡ []) ↔ NoInput p seq
input_check-nil p tag msg c seq = when-nil _ _

is_response_iff : (t : SeqType) → (is_response t ≡ false) ↔ (t ≢ response)
is_response_iff t = (λ h e. ground arith, λ h. ground arith)

param_errors-nil : (c : ErrCtx) (p : Option ParamInfo) → (param_errors c p ≡ []) ↔ TakesMessage p
unfolding param_errors
param_errors-nil c none = (λ h. ground arith, λ h. absurd h)
param_errors-nil c (some p) = (
  λ h. ground (arith, text_eq_iff p.var_name (codes "message")),
  λ h. ground (arith, text_eq_iff p.var_name (codes "message")),
)

type_errors-nil :
    (c : ErrCtx) (type : Text) (structs : List StructInfo)
    → (type_errors c type structs ≡ []) ↔ TypeKnown type structs
unfolding type_errors
type_errors-nil c [] structs = (λ h ne. absurd (ne refl), λ h. refl)
type_errors-nil c (x ∷ type) structs =
    let some_struct = any (is_struct (x ∷ type)) structs in
    trans_iff (when-nil _ _) (
      λ h ne. (implies_iff true some_struct).0 h refl,
      λ h. (implies_iff true some_struct).1 (λ _. h (λ e. cc)),
    )

message_field_errors-nil :
    (structs : List StructInfo) (type : Text) (c : ErrCtx) (t : SeqType) (val : Text)
    → (message_field_errors c t structs type val ≡ [])
      ↔ (is_message val ≡ true → has_struct_field structs type (drop 8 val) ≡ true)
unfolding message_field_errors
message_field_errors-nil structs type c t val = trans_iff (when-nil _ _) (implies_iff _ _)

message_check-nil :
    (structs : List StructInfo) (type : Text) (c : ErrCtx) (seq : Sequence)
    → (message_check structs type c seq ≡ []) ↔ FieldsExist structs type seq
message_check-nil structs type c seq =
    flat_map-nil_iff _
      (λ val. is_message val ≡ true → has_struct_field structs type (drop 8 val) ≡ true)
      (message_field_errors-nil structs type c seq.type) (values seq.inputs)

fields_check-nil :
    (sf : ServiceFunc) (type : Text)
    → (fields_check sf type ≡ []) ↔ (type ≢ [] → All (FieldsExist sf.structs type) sf.sequences)
unfolding fields_check
fields_check-nil sf [] = (λ h ne. absurd (ne refl), λ h. refl)
fields_check-nil sf (x ∷ type) =
    let iff =
      each_from-nil (message_check sf.structs (x ∷ type)) (FieldsExist sf.structs (x ∷ type))
        (message_check-nil sf.structs (x ∷ type)) sf sf.sequences in
    (λ h ne. iff.0 h, λ h. iff.1 (h (λ e. cc)))

subscribe_rules-nil :
    (sf : ServiceFunc) (sub : Option SubscribeInfo)
    → (subscribe_rules sf sub ≡ []) ↔ SubscribesWell sf sub
unfolding subscribe_rules
subscribe_rules-nil sf none =
    each_from-nil _ (NoInput is_message)
      (λ c seq. input_check-nil is_message (codes "@sequence") message_in_http c seq) sf
      sf.sequences
subscribe_rules-nil sf (some sub) = trans_iff (append-nil_iff _ _) (
    both_iff (param_errors-nil _ sf.param) (
      trans_iff (append-nil_iff _ _) (
        both_iff (type_errors-nil _ sub.message_type sf.structs) (
          trans_iff (append-nil_iff _ _) (
            both_iff
              (each_from-nil response_check (λ seq. seq.type ≢ response)
                (λ c seq. trans_iff (when-nil _ _) (is_response_iff seq.type)) sf sf.sequences)
              (trans_iff (append-nil_iff _ _) (
                both_iff
                  (each_from-nil _ (NoInput is_request)
                    (λ c seq.
                      input_check-nil is_request (codes "@subscribe") request_in_subscribe c seq)
                    sf sf.sequences)
                  (trans_iff (append-nil_iff _ _) (
                    both_iff
                      (each_from-nil _ (NoInput is_query)
                        (λ c seq.
                          input_check-nil is_query (codes "@subscribe") query_in_subscribe c seq)
                        sf sf.sequences)
                      (fields_check-nil sf sub.message_type))))))))))

-- `validateSubscribeRules` reports nothing exactly when a function without @subscribe has no input
-- that begins with `message.`, and one with @subscribe takes a parameter named `message`, of a type
-- that is a struct of the file if it is known, has no @response, no input that begins with
-- `request.` or is `query` or begins with `query.`, and names only fields of the message's struct,
-- if its type is known.
pub validate_subscribe_rules-nil :
    (sf : ServiceFunc) → (validate_subscribe_rules sf ≡ []) ↔ SubscribesWell sf sf.subscribe
unfolding validate_subscribe_rules
validate_subscribe_rules-nil sf = subscribe_rules-nil sf sf.subscribe
