-- ===== src/Generator/Interfaces/Methods.antt =====
-- Which methods the interface of a model has.
use ssac.Base.{
  ◌≡◌, refl, sym, subst, ap, ◌∙◌, Bool, true, false, ◌&&◌, ◌||◌, List, [], ◌∷◌, any, map, arith,
  Bool-cases, inl, inr, if◌then◌else◌,
}
use mathlib.Core.List.{Permᴰ}
use ssac.Text.{Text, text_eq}
use ssac.Text.Cut.{text_eq_iff}
use ssac.Text.Sort.{sort_texts}
use ssac.Text.Sort.Order.{Perm-sort_texts}
use ssac.Dict.{member}
use ssac.Dict.Order.{member-Perm}
use ssac.Validator.Symbols.{ModelSymbol, SymbolTable}
use ssac.Generator.Go.{Tools}
use ssac.Generator.Params.Once.{Unique}
use ssac.Generator.Imports.{add}
use ssac.Generator.Usages.{ModelUsage, used_methods}
use ssac.Generator.Interfaces.{DerivedMethod, usage_method, derived_methods}

Unique-swap : (x y : Text) (l : List Text) → Unique (x ∷ y ∷ l) → Unique (y ∷ x ∷ l)
unfolding member
Unique-swap x y l h =
    (grind (arith, text_eq_iff x y, text_eq_iff y x, h.0, h.1.0), (grind (arith, h.0), h.1.1))

Unique-Perm : {s t : List Text} → Permᴰ s t → Unique s → Unique t
Unique-Perm Permᴰ.nil h = tt
Unique-Perm (Permᴰ.cons e p) h = (rw (sym e) (sym (member-Perm _ p) ∙ h.0), Unique-Perm p h.1)
Unique-Perm (Permᴰ.swap {a} {b} {a'} {b'} {l} e f) h =
    subst (λ x. Unique (x ∷ b' ∷ l)) f (subst (λ y. Unique (b ∷ y ∷ l)) e (Unique-swap a b l h))
Unique-Perm (Permᴰ.trans p q) h = Unique-Perm q (Unique-Perm p h)

-- A function uses the method of the model.
abbrev pub uses : Text → Text → ModelUsage → Bool
uses model method u = text_eq u.model_name model && text_eq u.method_name method

member-noted :
    (x m : Text) (b : Bool) (seen : List Text)
    → member x (if b then add m seen else seen) ≡ (member x seen || (b && text_eq m x))
unfolding member
member-noted x m false seen = ground arith
member-noted x m true seen = grind (arith, text_eq_iff m x)

noted-Unique :
    (m : Text) (b : Bool) (seen : List Text) → Unique seen → Unique (if b then add m seen else seen)
noted-Unique m false seen h = h
noted-Unique m true seen h = elim (Bool-cases (member m seen)) [
  | inl e ↦ rw e h
  | inr e ↦ rw e ((e, h))
]

module _ (model : Text) where
  member-used_methods :
      (x : Text) (us : List ModelUsage) (seen : List Text)
      → member x (used_methods model seen us) ≡ (member x seen || any (uses model x) us)
  unfolding used_methods
  member-used_methods x [] seen = ground arith
  member-used_methods x (u ∷ us) seen =
      member-used_methods x us _
      ∙ rw (member-noted x u.method_name (text_eq u.model_name model) seen) (ground arith)

  used_methods-Unique :
      (us : List ModelUsage) (seen : List Text) → Unique seen → Unique (used_methods model seen us)
  unfolding used_methods
  used_methods-Unique [] seen h = h
  used_methods-Unique (u ∷ us) seen h =
      used_methods-Unique us _ (noted-Unique u.method_name (text_eq u.model_name model) seen h)

abbrev pub method_names : List DerivedMethod → List Text
method_names ms = map (λ (m : DerivedMethod). m.name) ms

module _ (t : Tools) (st : SymbolTable) (ms : ModelSymbol) (model : Text)
    (us : List ModelUsage) where
  derived-names :
      (names : List Text) → method_names (derived_methods t st ms model us names) ≡ names
  unfolding derived_methods usage_method
  derived-names [] = refl
  derived-names (n ∷ names) = ap (◌∷◌ n) (derived-names names)

  -- The interface of a model in the symbol table has each method once, and has exactly the methods
  -- of the model that the functions use.
  pub derived_methods-Unique :
      Unique
        (method_names (derived_methods t st ms model us (sort_texts (used_methods model [] us))))
      × ((x : Text)
          → member x (
              method_names
                (derived_methods t st ms model us (sort_texts (used_methods model [] us))))
            ≡ any (uses model x) us)
  unfolding member
  derived_methods-Unique = rw (derived-names (sort_texts (used_methods model [] us))) (
      (
        Unique-Perm (Perm-sort_texts (used_methods model [] us))
            (used_methods-Unique model us [] tt),
        λ x.
            sym (member-Perm x (Perm-sort_texts (used_methods model [] us)))
            ∙ member-used_methods model x us [],
      ))
