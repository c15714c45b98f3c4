-- ===== src/Dict.antt =====
-- Go's maps with text keys, as association lists in which no key stands twice. A `range` over a Go
-- map takes the entries in an arbitrary order; here it takes the list's order, and theorems about
-- such loops range over every list, hence over every order.
pub mod Laws
pub mod Order
use ssac.Base.{Bool, false, ◌||◌, List, [], ◌∷◌, Option, none, some, if◌then◌else◌}
use ssac.Text.{Text, text_eq}

abbrev pub Dict {ℓ} : Type ℓ → Type ℓ
Dict V = List (Text × V)

module _ {ℓ} {V : Type ℓ} where
  -- `v, ok := d[k]`
  unfoldable pub lookup : Text → Dict V → Option V
  lookup k [] = none
  lookup k ((j, v) ∷ d) = if text_eq j k then some v else lookup k d

  -- `d[k] = v`
  unfoldable pub put : Text → V → Dict V → Dict V
  put k v [] = (k, v) ∷ []
  put k v ((j, w) ∷ d) = if text_eq j k then (k, v) ∷ d else (j, w) ∷ put k v d

  -- `delete(d, k)`
  unfoldable pub erase : Text → Dict V → Dict V
  erase k [] = []
  erase k ((j, v) ∷ d) = let rest = erase k d in if text_eq j k then rest else (j, v) ∷ rest

  -- the entries' values, as `for _, v := range d` sees them
  abbrev pub values : Dict V → List V
  values [] = []
  values ((k, v) ∷ d) = v ∷ values d

  abbrev pub keys : Dict V → List Text
  keys [] = []
  keys ((k, v) ∷ d) = k ∷ keys d

-- `s[k]` for a set of texts, Go's `map[string]bool`
unfoldable pub member : Text → List Text → Bool
unfolding text_eq
member k [] = false
member k (j ∷ s) = text_eq j k || member k s
