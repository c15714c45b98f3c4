-- ===== src/Generator/Handler/Total.antt =====
-- What the validator accepts is generated, up to gofmt.
use ssac.Base.{
  ◌≡◌, ◌≢◌, inl, inr, refl, List, [], ◌∷◌, Option, none, some, All, Outcome, bind-ok, append-eq-nil,
}
use ssac.Text.{Text}
use ssac.Parser.Types.{Sequence, ServiceFunc, SubscribeInfo, response}
use ssac.Validator.Symbols.{SymbolTable}
use ssac.Validator.Required.{validate_required_fields}
use ssac.Validator.Required.Complete.{IsAccepted, validate_required_fields-nil}
use ssac.Validator.Flow.{validate_variable_flow}
use ssac.Validator.Stale.{validate_stale_response}
use ssac.Validator.Rules.{validate_reserved_source_conflict, validate_subscribe_rules}
use ssac.Validator.Rules.Subscribes.{SubscribesWell, validate_subscribe_rules-nil}
use ssac.Validator.Validate.{validate_func, validate}
use ssac.Generator.Go.{Tools}
use ssac.Generator.Statements.{http, queue}
use ssac.Generator.Loop.{GenError, frame, http_pieces, subscribe_pieces}
use ssac.Generator.Loop.Total.{pieces-ok}
use ssac.Generator.Handler.{
  formatted, generate_http_func, generate_subscribe_func, generate_triggered, generate_func,
}

-- The function's code is what `format.Source` makes of some source.
abbrev pub IsFormatted : Tools → Outcome GenError Text → Type 0
IsFormatted t r = (source : Text) × (r ≡ formatted t source)

module _ (t : Tools) (sf : ServiceFunc) (st : Option SymbolTable) where
  http-IsFormatted : All IsAccepted sf.sequences → IsFormatted t (generate_http_func t sf st)
  unfolding generate_http_func http_pieces
  http-IsFormatted h =
      let (ps, made) = pieces-ok t (frame http sf st) _ 0 sf.sequences h (inl refl) in
      (_, bind-ok _ _ ps _ made refl)

  subscribe-IsFormatted :
      (message_type : Text)
      → All IsAccepted sf.sequences
      → All (λ (seq : Sequence). seq.type ≢ response) sf.sequences
      → IsFormatted t (generate_subscribe_func t sf message_type st)
  unfolding generate_subscribe_func subscribe_pieces
  subscribe-IsFormatted message_type h k =
      let (ps, made) = pieces-ok t (frame queue sf st) _ 0 sf.sequences h (inr k) in
      (_, bind-ok _ _ ps _ made refl)

  triggered-IsFormatted :
      (sub : Option SubscribeInfo)
      → All IsAccepted sf.sequences
      → SubscribesWell sf sub
      → IsFormatted t (generate_triggered t sf sub st)
  unfolding generate_triggered
  triggered-IsFormatted none h k = http-IsFormatted h
  triggered-IsFormatted (some sub) h k = subscribe-IsFormatted sub.message_type h k.1.1.0

  func-IsFormatted : validate_func sf ≡ [] → IsFormatted t (generate_func t sf st)
  unfolding validate_func generate_func
  func-IsFormatted h =
      let (required, h1) = append-eq-nil (validate_required_fields sf) _ h in
      let (flow, h2) = append-eq-nil (validate_variable_flow sf) _ h1 in
      let (stale, h3) = append-eq-nil (validate_stale_response sf) _ h2 in
      let (conflict, h4) = append-eq-nil (validate_reserved_source_conflict sf) _ h3 in
      let (subscribes, guarded) = append-eq-nil (validate_subscribe_rules sf) _ h4 in
      triggered-IsFormatted sf.subscribe ((validate_required_fields-nil sf).0 required)
        ((validate_subscribe_rules-nil sf).0 subscribes)

-- For functions in which `Validate` reports nothing, the generator never panics and no template
-- fails: the code of each is what gofmt makes of a source, or gofmt's refusal of that source.
pub validate-IsFormatted :
    (t : Tools) (st : Option SymbolTable) (funcs : List ServiceFunc)
    → validate funcs ≡ []
    → All (λ sf. IsFormatted t (generate_func t sf st)) funcs
unfolding validate
validate-IsFormatted t st [] h = tt
validate-IsFormatted t st (sf ∷ funcs) h =
    let (first, rest) = append-eq-nil (validate_func sf) _ h in
    (func-IsFormatted t sf st first, validate-IsFormatted t st funcs rest)
