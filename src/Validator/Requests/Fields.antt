-- ===== src/Validator/Requests/Fields.antt =====
-- Which request fields a sequence names.
use ssac.Base.{
  ◌≡◌, ◌↔◌, refl, subst, ap₂, inl, inr, Bool-cases, ◌∙◌, Bool, true, ◌&&◌, ◌||◌, List, [], ◌∷◌,
  ◌++◌, arith, any, flat_map, if◌then◌else◌, length, drop, All,
}
use ssac.Text.{Text, codes, text_eq, has_prefix}
use ssac.Text.Cut.{text_eq_iff, text_eq_self}
use ssac.Dict.{values, member}
use ssac.Dict.Laws.{member-append}
use ssac.Parser.Types.{Arg, Sequence}
use ssac.Validator.Requests.{arg_field, input_field, fields_in, used_fields}

abbrev pub names_in_arg : Text → Arg → Bool
names_in_arg field a = text_eq a.source (codes "request") && text_eq a.field field

abbrev pub names_in_input : Text → Text → Bool
names_in_input field val = text_eq val (codes "request." ++ field)

-- An argument or an input of the sequence is the request's field.
abbrev pub names_field : Text → Sequence → Bool
names_field field seq =
    any (names_in_arg field) seq.args || any (names_in_input field) (values seq.inputs)

member-arg_field : (field : Text) (a : Arg) → member field (arg_field a) ≡ names_in_arg field a
unfolding arg_field member
member-arg_field field a = ground arith

-- What stands behind a prefix.
member-behind :
    (field p val : Text)
    → member field (if has_prefix p val then drop (length p) val ∷ [] else [])
      ≡ text_eq val (p ++ field)
unfolding has_prefix drop member text_eq
member-behind field [] val = ground arith
member-behind field (c ∷ p) [] = refl
member-behind field (c ∷ p) (d ∷ val) = ground (arith, member-behind field p val)

member-input_field : (field val : Text) → member field (input_field val) ≡ names_in_input field val
unfolding input_field
member-input_field field val = member-behind field (codes "request.") val

member-flat_map :
    {A : Type 0} (f : A → List Text) (p : A → Bool) (x : Text)
    → ((a : A) → member x (f a) ≡ p a)
    → (xs : List A) → member x (flat_map f xs) ≡ any p xs
unfolding member
member-flat_map f p x same [] = refl
member-flat_map f p x same (a ∷ xs) =
    member-append x (f a) (flat_map f xs)
    ∙ ap₂ (λ b c. b || c) (same a) (member-flat_map f p x same xs)

pub member-fields_in :
    (field : Text) (seq : Sequence) → member field (fields_in seq) ≡ names_field field seq
unfolding fields_in
member-fields_in field seq =
    member-append field (flat_map arg_field seq.args) _
    ∙ ap₂ (λ b c. b || c)
        (member-flat_map arg_field (names_in_arg field) field (member-arg_field field) seq.args)
        (member-flat_map input_field (names_in_input field) field (member-input_field field)
          (values seq.inputs))

pub member-used_fields :
    (field : Text) (seqs : List Sequence)
    → member field (used_fields seqs) ≡ any (names_field field) seqs
unfolding used_fields member
member-used_fields field [] = refl
member-used_fields field (seq ∷ seqs) =
    member-append field (fields_in seq) (used_fields seqs)
    ∙ ap₂ (λ b c. b || c) (member-fields_in field seq) (member-used_fields field seqs)

-- What holds of all texts of a list, holds of each that is in it.
All-each : (P : Text → Type 0) (xs : List Text) → All P xs → (x : Text) → member x xs ≡ true → P x
unfolding member
All-each P [] h x m = cc
All-each P (y ∷ xs) h x m = elim (Bool-cases (text_eq y x)) [
  | inl e ↦ subst P ((text_eq_iff y x).0 e) h.0
  | inr e ↦ All-each P xs h.1 x (ground arith)
]

each-All : (P : Text → Type 0) (xs : List Text) → ((x : Text) → member x xs ≡ true → P x) → All P xs
unfolding member
each-All P [] h = tt
each-All P (y ∷ xs) h =
    (h y (ground (arith, text_eq_self y)), each-All P xs (λ x m. h x (ground arith)))

pub All-member :
    (P : Text → Type 0) (xs : List Text) → All P xs ↔ ((x : Text) → member x xs ≡ true → P x)
All-member P xs = (All-each P xs, each-All P xs)
