-- ===== src/Generator/Params/Once.antt =====
-- Which request parameters a handler reads.
use ssac.Base.{
  ◌≡◌, refl, ap, ◌∙◌, any, false, not, ◌&&◌, ◌||◌, List, [], ◌∷◌, Option, map, arith, Bool-cases,
  inl, inr,
}
use ssac.Text.{Text}
use ssac.Text.Cut.{text_eq_iff, text_eq_self}
use ssac.Dict.{member}
use ssac.Parser.Types.{Sequence}
use ssac.Validator.Symbols.{SymbolTable}
use ssac.Validator.Requests.{used_fields}
use ssac.Validator.Requests.Fields.{names_field, member-used_fields}
use ssac.Generator.Params.{RawParam, new_fields, raw_params, param_type}

-- No text stands twice.
abbrev pub Unique : List Text → Type 0
Unique [] = Unit
Unique (x ∷ xs) = (member x xs ≡ false) × Unique xs

module _ (paths : List Text) where
  member-new_fields :
      (x : Text) (seen fs : List Text)
      → member x (new_fields paths seen fs) ≡ (member x fs && not (member x seen || member x paths))
  unfolding new_fields member
  member-new_fields x seen [] = refl
  member-new_fields x seen (f ∷ fs) =
      grind (arith, text_eq_iff f x, member-new_fields x seen fs, member-new_fields x (f ∷ seen) fs)

  not_again : (f : Text) (seen fs : List Text) → member f (new_fields paths (f ∷ seen) fs) ≡ false
  unfolding member
  not_again f seen fs = ground (arith, member-new_fields f (f ∷ seen) fs, text_eq_self f)

  new_fields-Unique : (seen fs : List Text) → Unique (new_fields paths seen fs)
  unfolding new_fields
  new_fields-Unique seen [] = tt
  new_fields-Unique seen (f ∷ fs) = elim (Bool-cases (member f seen || member f paths)) [
    | inl e ↦ rw e (new_fields-Unique seen fs)
    | inr e ↦ rw e ((not_again f seen fs, new_fields-Unique (f ∷ seen) fs))
  ]

-- The names of the parameters.
abbrev pub names : List RawParam → List Text
names ps = map (λ (p : RawParam). p.name) ps

names_made :
    (g : Text → Text) (fs : List Text)
    → names (map (λ f. record { name = f; go_type = g f }) fs) ≡ fs
names_made g [] = refl
names_made g (f ∷ fs) = ap (◌∷◌ f) (names_made g fs)

-- The list of request parameters has each name once, and has exactly the request fields that an
-- argument or an input of a sequence names and that are no parameters of the path.
pub raw_params-Unique :
    (st : Option SymbolTable) (paths : List Text) (seqs : List Sequence)
    → Unique (names (raw_params st paths seqs))
      × ((x : Text)
          → member x (names (raw_params st paths seqs))
            ≡ (any (names_field x) seqs && not (member x paths)))
unfolding raw_params member
raw_params-Unique st paths seqs =
    rw (names_made (param_type st) (new_fields paths [] (used_fields seqs))) (
      (
        new_fields-Unique paths [] (used_fields seqs),
        λ x.
            member-new_fields paths x [] (used_fields seqs)
            ∙ ap (λ b. b && not (member x paths)) (member-used_fields x seqs),
      ))
