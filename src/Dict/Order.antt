-- ===== src/Dict/Order.antt =====
-- Maps whose entries stand in another order: the same keys, and the same value for each.
use ssac.Base.{◌≡◌, refl, sym, subst, ap, ◌∙◌, false, List, [], ◌∷◌, arith}
use mathlib.Core.List.{Permᴰ}
use ssac.Text.{Text}
use ssac.Text.Cut.{text_eq_iff}
use ssac.Dict.{Dict, lookup, keys, member}

pub member-Perm : {s t : List Text} (k : Text) → Permᴰ s t → member k s ≡ member k t
unfolding member
member-Perm k Permᴰ.nil = refl
member-Perm k (Permᴰ.cons e p) = rw (e, member-Perm k p) refl
member-Perm k (Permᴰ.swap e f) = rw (e, f) (ground arith)
member-Perm k (Permᴰ.trans p q) = member-Perm k p ∙ member-Perm k q

module _ {V : Type 0} where
  -- No key stands twice.
  abbrev pub Keyed : Dict V → Type 0
  Keyed [] = Unit
  Keyed (x ∷ d) = (member x.0 (keys d) ≡ false) × Keyed d

  pub keys-Perm : {d e : Dict V} → Permᴰ d e → Permᴰ (keys d) (keys e)
  keys-Perm Permᴰ.nil = Permᴰ.nil
  keys-Perm (Permᴰ.cons e p) = Permᴰ.cons (ap (λ x. x.0) e) (keys-Perm p)
  keys-Perm (Permᴰ.swap e f) = Permᴰ.swap (ap (λ x. x.0) e) (ap (λ x. x.0) f)
  keys-Perm (Permᴰ.trans p q) = Permᴰ.trans (keys-Perm p) (keys-Perm q)

  Keyed-swap : (a b : Text × V) (l : Dict V) → Keyed (a ∷ b ∷ l) → Keyed (b ∷ a ∷ l)
  unfolding member
  Keyed-swap a b l h = (
    grind (arith, text_eq_iff a.0 b.0, text_eq_iff b.0 a.0, h.0, h.1.0),
    (grind (arith, h.0), h.1.1),
  )

  Keyed-Perm : {d e : Dict V} → Permᴰ d e → Keyed d → Keyed e
  unfolding member
  Keyed-Perm Permᴰ.nil h = tt
  Keyed-Perm (Permᴰ.cons e p) h =
      (rw (sym e) (sym (member-Perm _ (keys-Perm p)) ∙ h.0), Keyed-Perm p h.1)
  Keyed-Perm (Permᴰ.swap {a} {b} {a'} {b'} {l} e f) h =
      subst (λ x. Keyed (x ∷ b' ∷ l)) f (subst (λ y. Keyed (b ∷ y ∷ l)) e (Keyed-swap a b l h))
  Keyed-Perm (Permᴰ.trans p q) h = Keyed-Perm q (Keyed-Perm p h)

  two_entries :
      (k : Text) (a b : Text × V) (l : Dict V)
      → member a.0 (keys (b ∷ l)) ≡ false
      → lookup k (a ∷ b ∷ l) ≡ lookup k (b ∷ a ∷ l)
  unfolding lookup member
  two_entries k a b l h = grind (arith, text_eq_iff a.0 k, text_eq_iff b.0 k, text_eq_iff b.0 a.0)

  pub lookup-Perm : {d e : Dict V} (k : Text) → Permᴰ d e → Keyed d → lookup k d ≡ lookup k e
  unfolding lookup
  lookup-Perm k Permᴰ.nil h = refl
  lookup-Perm k (Permᴰ.cons e p) h = rw (e, lookup-Perm k p h.1) refl
  lookup-Perm k (Permᴰ.swap {a} {b} {a'} {b'} {l} e f) h =
      rw (sym e, sym f) (two_entries k a b l h.0)
  lookup-Perm k (Permᴰ.trans p q) h = lookup-Perm k p h ∙ lookup-Perm k q (Keyed-Perm p h)
