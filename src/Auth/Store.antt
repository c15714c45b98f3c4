-- ===== src/Auth/Store.antt =====
-- pkg/auth/memory_refresh_store.go: the store of refresh tokens. A point in time is a number of
-- nanoseconds; each `time.Now()` of an operation is an argument of it. The mutex makes each
-- operation one step. Claims are raw JSON, as `RefreshRotate` hands them on.
pub mod Once
pub mod Spec
use ssac.Base.{
  ℕ, Bool, true, false, ltb, List, [], ◌∷◌, Option, none, some, is_empty, if◌then◌else◌,
}
use ssac.Text.{Text, text_eq}
use ssac.Dict.{Dict, lookup, put}

-- What the store calls: sha256 as hexadecimal digits, and encoding/json, with its values `J`.
pub record Outside (J : Type 0) : Type 0 where
  pub hash : Text → Text
  pub marshal_raw : Text → Option Text
  pub marshal_value : J → Text
  pub unmarshal : Text → Option (Dict J)

-- `memoryRefreshRow`
pub record Row : Type 0 where
  pub claims : Text
  pub expires_at : ℕ
  pub revoked_at : Option ℕ

abbrev pub Store : Type 0
Store = Dict Row

-- What `Consume` returns: the claims, the claims with `ErrRefreshTokenReused`, or
-- `ErrRefreshTokenNotFound`.
pub data Consumed : Type 0 where
  taken reused : Text → Consumed
  not_found : Consumed

-- What the others return besides a nil error.
pub data StoreError : Type 0 where
  marshal_failed empty_matcher : StoreError

abbrev pub is_revoked : Row → Bool
is_revoked row = elim row.revoked_at [ none ↦ false | some at ↦ true ]

-- `row.revokedAt = &now`, if it is nil
unfoldable pub revoke_row : ℕ → Row → Row
revoke_row now row = if is_revoked row then row else record row { revoked_at = some now }

-- `Create`, from the marshalled claims on.
unfoldable pub create_row : Text → ℕ → Option Text → Store → Store × Option StoreError
unfolding put
create_row h expires_at none s = (s, some marshal_failed)
create_row h expires_at (some raw) s =
    (put h (record { claims = raw; expires_at = expires_at; revoked_at = none }) s, none)

-- `Consume` of the row found.
unfoldable pub consume_row : Text → ℕ → ℕ → Row → Store → Store × Consumed
unfolding put
consume_row h now later row s =
    if is_revoked row
    then (s, reused row.claims)
    else if ltb row.expires_at now
    then (s, not_found)
    else (put h (record row { revoked_at = some later }) s, taken row.claims)

unfoldable pub consume_found : Text → ℕ → ℕ → Option Row → Store → Store × Consumed
unfolding consume_row
consume_found h now later none s = (s, not_found)
consume_found h now later (some row) s = consume_row h now later row s

unfoldable pub revoke_found : Text → ℕ → Option Row → Store → Store
unfolding revoke_row put
revoke_found h now none s = s
revoke_found h now (some row) s = if is_revoked row then s else put h (revoke_row now row) s

module _ {J : Type 0} (o : Outside J) where
  -- `Create`
  unfoldable pub create : Text → Text → ℕ → Store → Store × Option StoreError
  unfolding create_row
  create token claims expires_at s = create_row (o.hash token) expires_at (o.marshal_raw claims) s

  -- `Consume`
  unfoldable pub consume : Text → ℕ → ℕ → Store → Store × Consumed
  unfolding consume_found lookup
  consume token now later s = consume_found (o.hash token) now later (lookup (o.hash token) s) s

  -- `Revoke`
  unfoldable pub revoke : Text → ℕ → Store → Store
  unfolding revoke_found lookup
  revoke token now s = revoke_found (o.hash token) now (lookup (o.hash token) s) s

  same_value : Option J → J → Bool
  unfolding text_eq
  same_value none want = false
  same_value (some got) want = text_eq (o.marshal_value got) (o.marshal_value want)

  has_claims : Dict J → Dict J → Bool
  unfolding lookup same_value
  has_claims m [] = true
  has_claims m ((k, want) ∷ matcher) =
      let rest = has_claims m matcher in if same_value (lookup k m) want then rest else false

  -- `matchClaims`
  unfoldable pub match_claims : Text → Dict J → Bool
  unfolding has_claims
  match_claims stored matcher = elim (o.unmarshal stored) [
    | none ↦ false
    | some m ↦ has_claims m matcher
  ]

  unfoldable pub revoke_matching : Dict J → ℕ → Row → Row
  unfolding match_claims revoke_row
  revoke_matching matcher now row =
      if match_claims row.claims matcher then revoke_row now row else row

  -- The loop over the rows, in any order; `seen_at` says when the loop sees the row of a hash.
  unfoldable pub revoke_rows : Dict J → (Text → ℕ) → Store → Store
  unfolding revoke_matching
  revoke_rows matcher seen_at [] = []
  revoke_rows matcher seen_at ((h, row) ∷ s) =
      (h, revoke_matching matcher (seen_at h) row) ∷ revoke_rows matcher seen_at s

  -- `RevokeAll`
  unfoldable pub revoke_all : Dict J → (Text → ℕ) → Store → Store × Option StoreError
  unfolding revoke_rows
  revoke_all matcher seen_at s =
      if is_empty matcher then (s, some empty_matcher) else (revoke_rows matcher seen_at s, none)
