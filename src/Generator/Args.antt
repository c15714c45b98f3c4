-- ===== src/Generator/Args.antt =====
-- generator/go_args.go: arguments and inputs as Go code. Go's maps are ranged over in the list's
-- order, and then sorted where the source sorts.
pub mod AnyOrder
use ssac.Base.{
  Bool, not, List, [], ◌∷◌, ◌++◌, none, some, map, any, flat_map, if◌then◌else◌, is_empty, drop,
}
use ssac.Text.{Text, codes, text_eq, has_prefix}
use ssac.Text.Sort.{sort_texts}
use ssac.Dict.{Dict, lookup, keys, values, member}
use ssac.Parser.Types.{Arg}
use ssac.Validator.Symbols.{SymbolTable}
use ssac.Validator.Models.{model_parts}
use ssac.Validator.Requests.{is_query_input}
use ssac.Generator.Go.{Tools, join, quote}

-- `inputs[k]`, the empty text for a missing key
unfoldable pub value_of : Text → Dict Text → Text
unfolding lookup
value_of k d = elim (lookup k d) [ none ↦ [] | some v ↦ v ]

-- `hasQueryInput`
unfoldable pub has_query_input : Dict Text → Bool
unfolding is_query_input
has_query_input inputs = any is_query_input (values inputs)

-- The texts of a list for which a test holds.
unfoldable pub keep : (Text → Bool) → List Text → List Text
keep p [] = []
keep p (x ∷ xs) = let rest = keep p xs in if p x then x ∷ rest else rest

-- The parameters that are inputs, in the order of the parameters, and the other inputs behind them.
unfoldable pub ordered_keys : Dict Text → List Text → List Text
unfolding keep sort_texts member
ordered_keys inputs order =
    let used = keep (λ p. member p (keys inputs)) order in
    used ++ sort_texts (keep (λ k. not (member k used)) (keys inputs))

-- The key of the `query` input that the loop meets last.
unfoldable pub query_key : Text → Dict Text → Text
unfolding is_query_input
query_key found [] = found
query_key found ((k, v) ∷ inputs) = query_key (if is_query_input v then k else found) inputs

unfoldable pub plain_keys : Dict Text → List Text
unfolding is_query_input
plain_keys [] = []
plain_keys ((k, v) ∷ inputs) =
    let rest = plain_keys inputs in if is_query_input v then rest else k ∷ rest

abbrev pub last_key : Text → List Text
last_key [] = []
last_key (c ∷ k) = (c ∷ k) ∷ []

-- Without parameters: in alphabetical order, `query` last.
unfoldable pub alphabetical_keys : Dict Text → List Text
unfolding plain_keys query_key sort_texts
alphabetical_keys inputs = sort_texts (plain_keys inputs) ++ last_key (query_key [] inputs)

unfoldable pub argument_keys : Dict Text → List Text → List Text
unfolding ordered_keys alphabetical_keys
argument_keys inputs order =
    if is_empty order then alphabetical_keys inputs else ordered_keys inputs order

-- `lookupParamOrder`
unfoldable pub lookup_param_order : Text → SymbolTable → List Text
unfolding model_parts lookup
lookup_param_order model st = elim (model_parts model) [
  | none ↦ []
  | some (m, f) ↦ elim (lookup m st.models) [
    | none ↦ []
    | some ms ↦ elim (lookup f ms.methods) [ none ↦ [] | some mi ↦ mi.params ]
  ]
]

module _ (t : Tools) where
  -- `argToCode`
  unfoldable pub arg_to_code : Arg → Text
  unfolding text_eq
  arg_to_code a =
      if not (is_empty a.literal)
      then codes "\"" ++ (a.literal ++ codes "\"")
      else if text_eq a.source (codes "query")
      then codes "opts"
      else if text_eq a.source (codes "request")
      then t.to_go_camel a.field
      else if text_eq a.source (codes "currentUser")
      then a.source ++ (codes "." ++ a.field)
      else if not (is_empty a.source)
      then (if is_empty a.field then a.source else a.source ++ (codes "." ++ a.field))
      else a.field

  -- `buildArgsCode`
  unfoldable pub build_args_code : List Arg → Text
  unfolding arg_to_code join
  build_args_code args = join (codes ", ") (map arg_to_code args)

  -- `inputValueToCode`
  unfoldable pub input_value_to_code : Text → Text
  unfolding is_query_input has_prefix
  input_value_to_code val =
      if is_query_input val
      then codes "opts"
      else if has_prefix (codes "request.") val
      then t.to_go_camel (drop 8 val)
      else val

  -- `buildInputFieldsFromMap`
  unfoldable pub build_input_fields : Dict Text → Text
  unfolding input_value_to_code join sort_texts value_of
  build_input_fields inputs = join (codes ", ") (
      map (λ k. t.to_go_pascal k ++ (codes ": " ++ input_value_to_code (value_of k inputs)))
        (sort_texts (keys inputs)))

  -- `buildArgsCodeFromInputs`
  unfoldable pub build_args_code_from_inputs : Dict Text → List Text → Text
  unfolding argument_keys input_value_to_code join value_of
  build_args_code_from_inputs inputs order =
      join (codes ", ")
        (map (λ k. input_value_to_code (value_of k inputs)) (argument_keys inputs order))

  -- `buildPublishPayload`
  unfoldable pub build_publish_payload : Dict Text → Text
  unfolding input_value_to_code join sort_texts value_of quote
  build_publish_payload inputs = join (codes "\n") (
      map
        (λ k.
          codes "\t\t"
          ++ (quote t (t.to_go_pascal k)
              ++ (codes ": " ++ (input_value_to_code (value_of k inputs) ++ codes ","))))
        (sort_texts (keys inputs)))

  unfoldable pub publish_option : Dict Text → Text → List Text
  unfolding text_eq quote value_of
  publish_option options k =
      if text_eq k (codes "delay")
      then (codes "queue.WithDelay(" ++ (value_of k options ++ codes ")")) ∷ []
      else if text_eq k (codes "priority")
      then (codes "queue.WithPriority(" ++ (quote t (value_of k options) ++ codes ")")) ∷ []
      else []

  abbrev option_list : List Text → Text
  option_list [] = []
  option_list (p ∷ ps) = codes ", " ++ join (codes ", ") (p ∷ ps)

  -- `buildPublishOptions`
  unfoldable pub build_publish_options : Dict Text → Text
  unfolding publish_option join sort_texts
  build_publish_options options =
      option_list (flat_map (publish_option options) (sort_texts (keys options)))
