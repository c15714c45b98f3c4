-- ===== src/Auth/Tokens.antt =====
-- pkg/auth/issue_token.go, refresh_token.go, verify_token.go: signing and checking tokens. The
-- environment, encoding/json and golang-jwt are the parameter `Signing`.
use ssac.Base.{
  ℕ, zero, suc, ◌+◌, ◌/◌, Bool, true, Option, none, some, is_empty, if◌then◌else◌, Outcome, ok,
  fail, panic, ◌>>=◌,
}
use ssac.Text.{Text, codes}
use ssac.Dict.{Dict, put}
use ssac.Validator.Symbols.{ℤ, pos, negsuc}
use ssac.Auth.Store.{StoreError}

-- `os.Getenv`; claims through JSON into a map, `none` where json fails and `some none` where the map
-- is nil, which the JSON text `null` makes it; a number as JSON; HS256 signing with a secret; and
-- whether `jwt.Parse` accepts a token under a secret at a point in time.
pub record Signing (J : Type 0) : Type 0 where
  pub getenv : Text → Text
  pub to_claims : Text → Option (Option (Dict J))
  pub number : ℕ → J
  pub sign : Text → Dict J → Option Text
  pub accepts : Text → Text → ℕ → Bool

-- What of `Config` signing reads. The durations are nanoseconds.
pub record Config : Type 0 where
  pub secret_env : Text
  pub access_ttl : ℤ
  pub refresh_ttl : ℤ

pub data AuthError : Type 0 where
  secret_env_not_configured secret_not_set ttl_not_configured claims_not_marshalled not_signed
        not_accepted :
      AuthError
  store_not_configured empty_token token_reused token_not_found : AuthError
  verify_failed access_failed refresh_failed : AuthError → AuthError
  not_persisted : StoreError → AuthError

abbrev or_fail : {A : Type 0} → AuthError → Option A → Outcome AuthError A
or_fail e none = fail e
or_fail e (some a) = ok a

-- `claims["exp"] = exp`: a write to a nil map panics.
abbrev set_claim : {J : Type 0} → Text → J → Option (Dict J) → Outcome AuthError (Dict J)
set_claim k v none = panic
set_claim k v (some claims) = ok (put k v claims)

-- A lifetime that is configured: more than 0.
abbrev lifetime : ℤ → Outcome AuthError ℕ
lifetime (pos zero) = fail ttl_not_configured
lifetime (pos (suc n)) = ok (suc n)
lifetime (negsuc n) = fail ttl_not_configured

module _ {J : Type 0} (g : Signing J) (cfg : Config) where
  abbrev secret : Outcome AuthError Text
  secret =
      if is_empty cfg.secret_env
      then fail secret_env_not_configured
      else if is_empty (g.getenv cfg.secret_env)
      then fail secret_not_set
      else ok (g.getenv cfg.secret_env)

  -- The steps that both kinds of tokens share: the token, and when it expires.
  unfoldable pub sign_token : ℤ → Text → ℕ → Outcome AuthError (Text × ℕ)
  unfolding put
  sign_token ttl raw now = do
    key ← secret
    life ← lifetime ttl
    made ← or_fail claims_not_marshalled (g.to_claims raw)
    claims ← set_claim (codes "exp") (g.number ((now + life) / 1000000000)) made
    signed ← or_fail not_signed (g.sign key claims)
    ok (signed, now + life)

  -- `IssueToken`
  unfoldable pub issue_token : Text → ℕ → Outcome AuthError (Text × ℕ)
  unfolding sign_token
  issue_token raw now = sign_token cfg.access_ttl raw now

  -- `RefreshToken`
  unfoldable pub refresh_token : Text → ℕ → Outcome AuthError (Text × ℕ)
  unfolding sign_token
  refresh_token raw now = sign_token cfg.refresh_ttl raw now

  -- `VerifyToken`, without the claims
  unfoldable pub verify_token : Text → ℕ → Outcome AuthError Bool
  verify_token token now = do
    key ← secret
    if g.accepts key token now then ok true else fail not_accepted
