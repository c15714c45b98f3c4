-- ===== src/Memory.antt =====
-- pkg/cache and pkg/session: their memory stores, whose code is the same. A point in time is a
-- number of nanoseconds; a `time.Now()` is an argument. The lock makes each operation one step.
use ssac.Base.{
  ℕ, suc, ◌+◌, ◌-◌, ltb, ◌≡◌, refl, ap, ◌∙◌, Bool, true, false, [], Option, none, some,
  if◌then◌else◌,
}
use ssac.Text.{Text, text_eq}
use ssac.Dict.{Dict, lookup, put, erase}
use ssac.Dict.Laws.{lookup-put, lookup-erase}
use ssac.Validator.Symbols.{ℤ, pos, negsuc}

-- `memoryEntry`
pub record Entry : Type 0 where
  pub value : Text
  pub expires_at : ℕ

-- `t.Add(ttl)`, for a lifetime that does not reach back before the clock's beginning
abbrev pub add_ttl : ℕ → ℤ → ℕ
add_ttl now (pos n) = now + n
add_ttl now (negsuc n) = now - suc n

-- What `Get` returns for the entry found, at `now`.
abbrev pub entry_value : ℕ → Option Entry → Text
entry_value now none = []
entry_value now (some e) = if ltb e.expires_at now then [] else e.value

-- `Get`
unfoldable pub memory_get : Text → ℕ → Dict Entry → Text
unfolding lookup
memory_get key now store = entry_value now (lookup key store)

-- `Set`, from the marshalled value on: the store, and whether there was no error.
unfoldable pub set_value : Text → Option Text → ℤ → ℕ → Dict Entry → Dict Entry × Bool
unfolding put
set_value key none ttl now store = (store, false)
set_value key (some raw) ttl now store =
    (put key (record { value = raw; expires_at = add_ttl now ttl }) store, true)

-- `Set`; `marshal` is `json.Marshal`.
unfoldable pub memory_set :
    {A : Type 0} → (A → Option Text) → Text → A → ℤ → ℕ → Dict Entry → Dict Entry × Bool
unfolding set_value
memory_set marshal key value ttl now store = set_value key (marshal value) ttl now store

-- `Delete`
unfoldable pub memory_delete : Text → Dict Entry → Dict Entry
unfolding erase
memory_delete key store = erase key store

-- What a key gives behind a Set that marshalled its value, or did not.
abbrev pub value_set : Option Text → ℕ → ℕ → Text → Text
value_set none until now before = before
value_set (some raw) until now before = if ltb until now then [] else raw

put-get :
    (b : Bool) (e : Entry) (r : Option Entry) (now : ℕ)
    → entry_value now (if b then some e else r)
      ≡ (if b then entry_value now (some e) else entry_value now r)
put-get true e r now = refl
put-get false e r now = refl

erase-get :
    (b : Bool) (r : Option Entry) (now : ℕ)
    → entry_value now (if b then none else r) ≡ (if b then [] else entry_value now r)
erase-get true r now = refl
erase-get false r now = refl

same_either : (b : Bool) (x : Text) → x ≡ (if b then x else x)
same_either true x = refl
same_either false x = refl

set_value-get :
    (key j : Text) (r : Option Text) (ttl : ℤ) (before now : ℕ) (store : Dict Entry)
    → memory_get j now (set_value key r ttl before store).0 ≡ (
        if text_eq key j
        then value_set r (add_ttl before ttl) now (memory_get j now store)
        else memory_get j now store)
unfolding memory_get set_value
set_value-get key j none ttl before now store = same_either (text_eq key j) _
set_value-get key j (some raw) ttl before now store =
    ap (entry_value now)
      (lookup-put key j (record { value = raw; expires_at = add_ttl before ttl }) store)
    ∙ put-get (text_eq key j) (record { value = raw; expires_at = add_ttl before ttl })
        (lookup j store) now

-- Behind a Set, Get gives the marshalled value of its key until the lifetime has passed, and the
-- empty text from then on; behind a Set whose value cannot be marshalled, what it gave before.
-- Behind a Delete, it gives the empty text for the key. All other keys give what they gave.
pub memory_get-memory_set :
    {A : Type 0} (marshal : A → Option Text) (key j : Text) (value : A) (ttl : ℤ) (before now : ℕ)
    (store : Dict Entry)
    → (memory_get j now (memory_set marshal key value ttl before store).0 ≡ (
        if text_eq key j
        then value_set (marshal value) (add_ttl before ttl) now (memory_get j now store)
        else memory_get j now store))
      × (memory_get j now (memory_delete key store)
          ≡ (if text_eq key j then [] else memory_get j now store))
unfolding memory_set memory_delete memory_get
memory_get-memory_set marshal key j value ttl before now store = (
  set_value-get key j (marshal value) ttl before now store,
  ap (entry_value now) (lookup-erase key j store) ∙ erase-get (text_eq key j) (lookup j store) now,
)
