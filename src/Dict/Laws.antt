-- ===== src/Dict/Laws.antt =====
-- Laws of maps: reading behind a write, and building a map from pairs with different keys.
use ssac.Base.{◌≡◌, refl, ap, false, ◌||◌, List, [], ◌∷◌, ◌++◌, none, some, arith, if◌then◌else◌}
use ssac.Text.{Text, text_eq}
use ssac.Text.Cut.{text_eq_iff}
use ssac.Dict.{Dict, lookup, put, erase, keys, member}

module _ {ℓ} {V : Type ℓ} where
  pub lookup-put :
      (k j : Text) (v : V) (d : Dict V)
      → lookup j (put k v d) ≡ (if text_eq k j then some v else lookup j d)
  unfolding lookup put
  lookup-put k j v [] = refl
  lookup-put k j v ((i, w) ∷ d) =
      ground (arith, text_eq_iff k j, text_eq_iff i k, text_eq_iff i j, lookup-put k j v d)

  pub lookup-erase :
      (k j : Text) (d : Dict V) → lookup j (erase k d) ≡ (if text_eq k j then none else lookup j d)
  unfolding lookup erase
  lookup-erase k j [] = ground arith
  lookup-erase k j ((i, w) ∷ d) =
      grind (arith, text_eq_iff i k, text_eq_iff i j, text_eq_iff k j, lookup-erase k j d)

  pub put-fresh :
      (k : Text) (v : V) (d : Dict V) → member k (keys d) ≡ false → put k v d ≡ d ++ (k, v) ∷ []
  unfolding put member
  put-fresh k v [] h = refl
  put-fresh k v ((j, w) ∷ d) h = ground (arith, put-fresh k v d)

  pub keys-append : (d e : Dict V) → keys (d ++ e) ≡ keys d ++ keys e
  keys-append [] e = refl
  keys-append ((k, v) ∷ d) e = ap (◌∷◌ k) (keys-append d e)

  -- The keys of `d` differ from each other and from those in `seen`.
  abbrev pub Distinct : List Text → Dict V → Type 0
  Distinct seen [] = Unit
  Distinct seen ((k, v) ∷ d) = (member k seen ≡ false) × Distinct (seen ++ k ∷ []) d

pub member-append : (k : Text) (s t : List Text) → member k (s ++ t) ≡ (member k s || member k t)
unfolding member
member-append k [] t = refl
member-append k (j ∷ s) t = ground (arith, member-append k s t)
