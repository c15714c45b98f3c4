-- ===== src/Auth/Rotate.antt =====
-- pkg/auth/refresh_rotate.go, logout.go and create_refresh.go, over the memory store.
pub mod Twice
use ssac.Base.{
  ℕ, Bool, true, false, not, ◌&&◌, List, [], ◌∷◌, Option, none, some, is_empty, if◌then◌else◌,
  Outcome, ok, fail, panic,
}
use ssac.Text.{Text}
use ssac.Dict.{Dict}
use ssac.Auth.Store.{
  Outside, Store, Consumed, taken, reused, not_found, StoreError, create, consume, revoke,
  revoke_all,
}
use ssac.Auth.Tokens.{
  Signing, Config, AuthError, store_not_configured, empty_token, token_reused, token_not_found,
  verify_failed, access_failed, refresh_failed, not_persisted, issue_token, refresh_token,
  verify_token,
}

-- What the clock says at each reading of it.
pub record Clock : Type 0 where
  pub verified_at : ℕ
  pub consumed_at : ℕ
  pub revoked_at : ℕ
  pub matched_at : Text → ℕ
  pub issued_at : ℕ
  pub refreshed_at : ℕ

-- `RefreshRotateResponse`
pub record Rotation : Type 0 where
  pub access_token : Text
  pub refreshed_token : Text
  pub expires_at : ℕ

-- The store that is given, or the package's.
abbrev choose : Option Store → Option Store → Option Store
choose none default = default
choose (some s) default = some s

abbrev persisted : Text → Text → ℕ → Store × Option StoreError → Store × Outcome AuthError Rotation
persisted access refresh until (s, none) =
    (s, ok (record { access_token = access; refreshed_token = refresh; expires_at = until }))
persisted access refresh until (s, some e) = (s, fail (not_persisted e))

module _ {J : Type 0} (o : Outside J) (g : Signing J) (cfg : Config) where
  lockout_matching : (Text → ℕ) → Option (Dict J) → Store → Store
  unfolding revoke_all
  lockout_matching at none s = s
  lockout_matching at (some matcher) s =
      if is_empty matcher then s else (revoke_all o matcher at s).0

  -- Every usable token with the same claims is revoked, if that is asked for.
  unfoldable pub lockout : Bool → (Text → ℕ) → Text → Store → Store
  unfolding lockout_matching
  lockout detect at claims s =
      if detect && not (is_empty claims) then lockout_matching at (o.unmarshal claims) s else s

  with_refresh :
      Text → Text → Outcome AuthError (Text × ℕ) → Store → Store × Outcome AuthError Rotation
  unfolding create
  with_refresh claims access (ok (refresh, until)) s =
      persisted access refresh until (create o refresh claims until s)
  with_refresh claims access (fail e) s = (s, fail (refresh_failed e))
  with_refresh claims access panic s = (s, panic)

  with_access : Text → ℕ → Outcome AuthError (Text × ℕ) → Store → Store × Outcome AuthError Rotation
  unfolding with_refresh refresh_token
  with_access claims now (ok (access, until)) s =
      with_refresh claims access (refresh_token g cfg claims now) s
  with_access claims now (fail e) s = (s, fail (access_failed e))
  with_access claims now panic s = (s, panic)

  unfoldable pub after_consume :
      Bool → Clock → Store × Consumed → Store × Outcome AuthError Rotation
  unfolding lockout with_access issue_token
  after_consume detect clock (s, taken claims) =
      with_access claims clock.refreshed_at (issue_token g cfg claims clock.issued_at) s
  after_consume detect clock (s, reused claims) =
      (lockout detect clock.matched_at claims s, fail token_reused)
  after_consume detect clock (s, not_found) = (s, fail token_not_found)

  unfoldable pub after_verify :
      Text → Bool → Clock → Outcome AuthError Bool → Store → Store × Outcome AuthError Rotation
  unfolding after_consume consume
  after_verify token detect clock (ok valid) s =
      after_consume detect clock (consume o token clock.consumed_at clock.revoked_at s)
  after_verify token detect clock (fail e) s = (s, fail (verify_failed e))
  after_verify token detect clock panic s = (s, panic)

  -- `RefreshRotate`, from the choice of the store on
  unfoldable pub rotate_in : Text → Bool → Clock → Store → Store × Outcome AuthError Rotation
  unfolding after_verify verify_token
  rotate_in token detect clock s =
      if is_empty token
      then (s, fail empty_token)
      else after_verify token detect clock (verify_token g cfg token clock.verified_at) s

  rotate_chosen : Text → Bool → Clock → Option Store → Option Store × Outcome AuthError Rotation
  unfolding rotate_in
  rotate_chosen token detect clock none = (none, fail store_not_configured)
  rotate_chosen token detect clock (some s) =
      let r = rotate_in token detect clock s in (some r.0, r.1)

  -- `RefreshRotate`: the store used, as it is then, and the answer
  unfoldable pub refresh_rotate :
      Option Store → Option Store → Text → Bool → Clock → Option Store × Outcome AuthError Rotation
  unfolding rotate_chosen
  refresh_rotate given default token detect clock =
      rotate_chosen token detect clock (choose given default)

logout_chosen :
    {J : Type 0} → Outside J → Text → ℕ → Option Store → Option Store × Outcome AuthError Bool
unfolding revoke
logout_chosen o token now none = (none, fail store_not_configured)
logout_chosen o token now (some s) =
    if is_empty token then (some s, ok true) else (some (revoke o token now s), ok true)

-- `Logout`
unfoldable pub logout :
    {J : Type 0}
    → Outside J
    → Option Store
    → Option Store
    → Text
    → ℕ
    → Option Store × Outcome AuthError Bool
unfolding logout_chosen
logout o given default token now = logout_chosen o token now (choose given default)

abbrev answer_create : Store × Option StoreError → Option Store × Outcome AuthError Bool
answer_create (s, none) = (some s, ok true)
answer_create (s, some e) = (some s, fail (not_persisted e))

-- `CreateRefresh`, on the package's store
unfoldable pub create_refresh :
    {J : Type 0}
    → Outside J
    → Option Store
    → Text
    → Text
    → ℕ
    → Option Store × Outcome AuthError Bool
unfolding create
create_refresh o none token claims until = (none, fail store_not_configured)
create_refresh o (some s) token claims until = answer_create (create o token claims until s)
