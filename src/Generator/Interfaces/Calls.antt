-- ===== src/Generator/Interfaces/Calls.antt =====
-- The arguments of a call in a handler, against the parameters of the interface's method.
use ssac.Base.{
  ◌≡◌, refl, sym, subst, ap, ◌∙◌, Bool, true, false, not, ◌||◌, List, [], ◌∷◌, ◌++◌, Option, some,
  is_empty, arith, append-nil, All, All-map, is_empty_iff, Bool-cases, inl, inr, map, fun_ext,
  if◌then◌else◌,
}
use mathlib.Core.List.{Permᴰ}
use ssac.Text.{Text, text_eq}
use ssac.Text.Cut.{text_eq_iff, text_eq_self}
use ssac.Text.Sort.{sort_texts}
use ssac.Text.Sort.Order.{sort_texts-Perm}
use ssac.Dict.{Dict, lookup, keys, member}
use ssac.Dict.Order.{member-Perm}
use ssac.Validator.Symbols.{MethodInfo, ModelSymbol, SymbolTable}
use ssac.Validator.Models.{model_parts}
use ssac.Validator.Requests.{is_query_input}
use ssac.Generator.Go.{Tools}
use ssac.Generator.Args.{
  value_of, has_query_input, keep, plain_keys, query_key, alphabetical_keys, ordered_keys,
  argument_keys, lookup_param_order,
}
use ssac.Generator.Args.AnyOrder.{keep-Perm}
use ssac.Generator.Usages.{ModelUsage, first_usage}
use ssac.Generator.Interfaces.{
  DerivedParam, DerivedMethod, interface_keys, named_param, params_of_method, derived_params,
  usage_method, derived_methods, usage_or_none, no_usage,
}

-- Without a `query` among the inputs, all keys are plain.
plain_keys-all :
    (inputs : Dict Text) → has_query_input inputs ≡ false → plain_keys inputs ≡ keys inputs
unfolding plain_keys has_query_input
plain_keys-all [] h = refl
plain_keys-all ((k, v) ∷ inputs) h = ground (arith, plain_keys-all inputs)

query_key-none :
    (found : Text) (inputs : Dict Text)
    → has_query_input inputs ≡ false
    → query_key found inputs ≡ found
unfolding query_key has_query_input
query_key-none found [] h = refl
query_key-none found ((k, v) ∷ inputs) h = ground (arith, query_key-none found inputs)

alphabetical_keys-plain :
    (inputs : Dict Text)
    → has_query_input inputs ≡ false
    → alphabetical_keys inputs ≡ sort_texts (keys inputs)
unfolding alphabetical_keys
alphabetical_keys-plain inputs h =
    rw (plain_keys-all inputs h, query_key-none [] inputs h) (append-nil _)

member-keep :
    (p : Text → Bool) (k : Text) (xs : List Text) → p k ≡ true → member k (keep p xs) ≡ member k xs
unfolding keep member
member-keep p k [] h = refl
member-keep p k (x ∷ xs) h = elim (Bool-cases (p x)) [
  | inl e ↦ rw e (ap (λ b. text_eq x k || b) (member-keep p k xs h))
  | inr e ↦ elim (Bool-cases (text_eq x k)) [
    | inl b ↦ cc (sym h ∙ ap p (sym ((text_eq_iff x k).0 b)) ∙ e)
    | inr b ↦ rw (e, b) (member-keep p k xs h)
  ]
]

keep-same : (p q : Text → Bool) (xs : List Text) → All (λ x. p x ≡ q x) xs → keep p xs ≡ keep q xs
unfolding keep
keep-same p q [] h = refl
keep-same p q (x ∷ xs) h = rw (h.0, keep-same p q xs h.1) refl

own_members :
    (ys xs : List Text)
    → ((x : Text) → member x xs ≡ true → member x ys ≡ true)
    → All (λ x. member x ys ≡ true) xs
unfolding member
own_members ys [] h = tt
own_members ys (x ∷ xs) h =
    (h x (ground (arith, text_eq_self x)), own_members ys xs (λ y e. h y (ground arith)))

-- Every key of the list is a parameter.
abbrev pub covered : List Text → List Text → Bool
covered params ks = is_empty (keep (λ k. not (member k params)) ks)

-- The inputs that are no parameters are the same ones, asked of all parameters or of those used.
extra_keys :
    (ks params : List Text)
    → keep (λ k. not (member k (keep (λ p. member p ks) params))) ks
      ≡ keep (λ k. not (member k params)) ks
extra_keys ks params = keep-same _ _ ks (
    All-map (λ k e. ap not (member-keep (λ p. member p ks) k params e)) ks
      (own_members ks ks (λ x e. e)))

ordered_keys-covered :
    (inputs : Dict Text) (params : List Text)
    → covered params (keys inputs) ≡ true
    → ordered_keys inputs params ≡ keep (λ p. member p (keys inputs)) params
unfolding ordered_keys sort_texts
ordered_keys-covered inputs params h =
    rw (extra_keys (keys inputs) params, (is_empty_iff _).0 h) (append-nil _)

-- Without `query`, and with parameters that are unknown or cover the inputs, the call lists one
-- sequence's inputs as the interface does.
argument_keys-interface_keys :
    (inputs : Dict Text) (params : List Text)
    → has_query_input inputs ≡ false
    → (is_empty params || covered params (keys inputs)) ≡ true
    → argument_keys inputs params ≡ interface_keys inputs params
unfolding argument_keys interface_keys
argument_keys-interface_keys inputs [] plain known = alphabetical_keys-plain inputs plain
argument_keys-interface_keys inputs (p ∷ params) plain known =
    ordered_keys-covered inputs (p ∷ params) known
    ∙ sym (rw (extra_keys (keys inputs) (p ∷ params), (is_empty_iff _).0 known) (append-nil _))

is_empty-Perm : {s t : List Text} → Permᴰ s t → is_empty s ≡ is_empty t
is_empty-Perm Permᴰ.nil = refl
is_empty-Perm (Permᴰ.cons e p) = refl
is_empty-Perm (Permᴰ.swap e f) = refl
is_empty-Perm (Permᴰ.trans p q) = is_empty-Perm p ∙ is_empty-Perm q

covered-Perm :
    (params : List Text) {s t : List Text} → Permᴰ s t → covered params s ≡ covered params t
covered-Perm params p = is_empty-Perm (keep-Perm _ p)

-- Two uses of a method with the same keys list them alike.
argument_keys-Perm :
    (d e : Dict Text) (params : List Text)
    → Permᴰ (keys d) (keys e)
    → has_query_input d ≡ false
    → has_query_input e ≡ false
    → (is_empty params || covered params (keys d)) ≡ true
    → argument_keys d params ≡ argument_keys e params
unfolding argument_keys
argument_keys-Perm d e [] same hd he known =
    alphabetical_keys-plain d hd ∙ sort_texts-Perm same ∙ sym (alphabetical_keys-plain e he)
argument_keys-Perm d e (p ∷ params) same hd he known =
    ordered_keys-covered d (p ∷ params) known
    ∙ ap (λ q. keep q (p ∷ params)) (fun_ext (λ k. member-Perm k same))
    ∙ sym (ordered_keys-covered e (p ∷ params) (sym (covered-Perm (p ∷ params) same) ∙ known))

value_of-plain :
    (k : Text) (inputs : Dict Text)
    → has_query_input inputs ≡ false
    → is_query_input (value_of k inputs) ≡ false
unfolding has_query_input value_of lookup is_query_input text_eq
value_of-plain k [] h = refl
value_of-plain k ((j, v) ∷ inputs) h = elim (Bool-cases (text_eq j k)) [
  | inl e ↦ rw (value_of, e) (ground arith)
  | inr e ↦ rw (value_of, e) (value_of-plain k inputs (ground arith))
]

-- The names of a method's parameters.
abbrev pub parameter_names : DerivedMethod → List Text
parameter_names m = map (λ (p : DerivedParam). p.name) m.params

-- The names that keys get in Go, where they get one.
abbrev pub go_names : Tools → List Text → List Text
go_names t ks = keep (λ n. not (is_empty n)) (map t.to_go_camel ks)

named_param-names :
    (name type : Text) (ps : List DerivedParam) {names : List Text}
    → map (λ (p : DerivedParam). p.name) ps ≡ names
    → map (λ (p : DerivedParam). p.name) (named_param name type ++ ps)
      ≡ (if not (is_empty name) then name ∷ names else names)
unfolding named_param
named_param-names [] type ps h = h
named_param-names (c ∷ name) type ps h = ap (◌∷◌ (c ∷ name)) h

module _ (t : Tools) (st : SymbolTable) where
  derived_params-names :
      (u : ModelUsage) (ks : List Text)
      → has_query_input u.inputs ≡ false
      → map (λ (p : DerivedParam). p.name) (derived_params t st u ks) ≡ go_names t ks
  unfolding derived_params keep
  derived_params-names u [] h = refl
  derived_params-names u (k ∷ ks) h =
      rw (value_of-plain k u.inputs h)
        (named_param-names (t.to_go_camel k) _ _ (derived_params-names u ks h))

  lookup_param_order-params :
      (qualified model method : Text) (ms : ModelSymbol)
      → model_parts qualified ≡ some (model, method)
      → lookup model st.models ≡ some ms
      → lookup_param_order qualified st ≡ params_of_method (lookup method ms.methods)
  unfolding lookup_param_order
  lookup_param_order-params qualified model method ms parts found =
      rw (parts, found, lookup_param_order) refl

  first_use-argument_keys :
      (mi : Option MethodInfo) (method : Text) (first : ModelUsage) (inputs : Dict Text)
      → Permᴰ (keys inputs) (keys first.inputs)
      → has_query_input inputs ≡ false
      → has_query_input first.inputs ≡ false
      → (is_empty (params_of_method mi) || covered (params_of_method mi) (keys inputs)) ≡ true
      → parameter_names (usage_method t st mi method first)
        ≡ go_names t (argument_keys inputs (params_of_method mi))
  unfolding usage_method
  first_use-argument_keys mi method first inputs same plain plain_first known =
      let params = params_of_method mi in
      derived_params-names first (interface_keys first.inputs params) plain_first
      ∙ ap (go_names t) (
          sym (
            argument_keys-Perm inputs first.inputs params same plain plain_first known
            ∙ argument_keys-interface_keys first.inputs params plain_first
                (sym (ap (λ b. is_empty params || b) (covered-Perm params same)) ∙ known)))

-- Of a method that several sequences call with the same keys, none of them for `query`, where the
-- method's parameters are not known or cover the keys: in the derived interface, the parameters of
-- the method have the names that the keys of each call get in Go, in the order in which the
-- handler lists that call's arguments. A key that gets the empty name is left out. The interface is
-- made from the first of the sequences; `inputs` are those of any of them.
pub derived_methods-argument_keys :
    (t : Tools) (st : SymbolTable) (ms : ModelSymbol) (us : List ModelUsage)
    (qualified model method : Text) (first : ModelUsage) (inputs : Dict Text)
    → model_parts qualified ≡ some (model, method)
    → lookup model st.models ≡ some ms
    → first_usage model method us ≡ some first
    → Permᴰ (keys inputs) (keys first.inputs)
    → has_query_input inputs ≡ false
    → has_query_input first.inputs ≡ false
    → (is_empty (lookup_param_order qualified st)
        || covered (lookup_param_order qualified st) (keys inputs))
      ≡ true
    → (names : List Text)
    → All
        (λ m.
          m.name ≡ method
          → parameter_names m ≡ go_names t (argument_keys inputs (lookup_param_order qualified st)))
        (derived_methods t st ms model us names)
unfolding derived_methods usage_method usage_or_none no_usage
derived_methods-argument_keys t st ms us qualified model method first inputs parts found used same
      plain plain_first known [] =
    tt
derived_methods-argument_keys t st ms us qualified model method first inputs parts found used same
      plain plain_first known (n ∷ names) =
    (
      λ e.
          let order = lookup_param_order-params t st qualified model method ms parts found in
          subst
            (λ m.
              parameter_names
                (usage_method t st (lookup m ms.methods) m (usage_or_none (first_usage model m us)))
              ≡ go_names t (argument_keys inputs (lookup_param_order qualified st)))
            (sym e)
            (rw (used, order)
              (first_use-argument_keys t st (lookup method ms.methods) method first inputs same
                plain plain_first (rw order at known))),
      derived_methods-argument_keys t st ms us qualified model method first inputs parts found used
          same plain plain_first known names,
    )
