-- ===== src/Auth/Rotate/Twice.antt =====
-- A refresh token is rotated once; presenting it again can end all tokens with its claims.
use ssac.Base.{
  ℕ, ◌≡◌, refl, sym, subst, ap, ◌∙◌, Bool, true, false, Option, none, some, is_empty, Outcome, ok,
  fail, panic, Bool-cases, inl, inr,
}
use ssac.Text.{Text, text_eq}
use ssac.Dict.{Dict}
use ssac.Auth.Store.{
  Outside, Store, Consumed, taken, reused, not_found, StoreError, create, consume, match_claims,
}
use ssac.Auth.Store.Spec.{view, view-same, spent, revoke_if, consume-view, revoke_rows-view}
use ssac.Auth.Store.Once.{Steps, after_create, consume-Steps-reused}
use ssac.Auth.Tokens.{Signing, Config, AuthError, token_reused, verify_token, refresh_token}
use ssac.Auth.Rotate.{
  Clock, Rotation, persisted, with_refresh, with_access, lockout, after_consume, after_verify,
  rotate_in,
}

ok_inj : {A : Type 0} (a b : A) → ◌≡◌ {A = Outcome AuthError A} (ok a) (ok b) → a ≡ b
ok_inj a b e = cc

pair_of : (x : Store × Consumed) (c : Text) → x.1 ≡ reused c → (x.0, reused c) ≡ x
pair_of x c e = ap (λ y. (x.0, y)) (sym e)

persisted-made :
    (access refresh : Text) (until : ℕ) (x : Store × Option StoreError) (s' : Store) (r : Rotation)
    → persisted access refresh until x ≡ (s', ok r)
    → (x.0 ≡ s') × (refresh ≡ r.refreshed_token)
persisted-made access refresh until (s, none) s' r e =
    (ap (λ p. p.0) e, ap (λ q. q.refreshed_token) (ok_inj _ r (ap (λ p. p.1) e)))
persisted-made access refresh until (s, some why) s' r e = cc (ap (λ p. p.1) e)

module _ {J : Type 0} (o : Outside J) where
  with_refresh-made :
      (g : Signing J) (cfg : Config) (claims access : Text) (v : Outcome AuthError (Text × ℕ))
      (s s' : Store) (r : Rotation)
      → with_refresh o g cfg claims access v s ≡ (s', ok r)
      → (until : ℕ) × ((create o r.refreshed_token claims until s).0 ≡ s')
  unfolding with_refresh
  with_refresh-made g cfg claims access (ok (refresh, until)) s s' r e =
      let (same, named) =
        persisted-made access refresh until (create o refresh claims until s) s' r e in
      (until, subst (λ t. (create o t claims until s).0 ≡ s') named same)
  with_refresh-made g cfg claims access (fail why) s s' r e = cc (ap (λ p. p.1) e)
  with_refresh-made g cfg claims access panic s s' r e = cc (ap (λ p. p.1) e)

  with_access-made :
      (g : Signing J) (cfg : Config) (claims : Text) (now : ℕ) (v : Outcome AuthError (Text × ℕ))
      (s s' : Store) (r : Rotation)
      → with_access o g cfg claims now v s ≡ (s', ok r)
      → (until : ℕ) × ((create o r.refreshed_token claims until s).0 ≡ s')
  unfolding with_access
  with_access-made g cfg claims now (ok (access, until)) s s' r e =
      with_refresh-made g cfg claims access (refresh_token g cfg claims now) s s' r e
  with_access-made g cfg claims now (fail why) s s' r e = cc (ap (λ p. p.1) e)
  with_access-made g cfg claims now panic s s' r e = cc (ap (λ p. p.1) e)

  -- A rotation that is granted took the token's claims and made a new token with them.
  abbrev Granted : Store × Consumed → Store → Rotation → Type 0
  Granted x s' r =
      (c : Text) × (until : ℕ) × (x.1 ≡ taken c) × ((create o r.refreshed_token c until x.0).0 ≡ s')

  after_consume-Granted :
      (g : Signing J) (cfg : Config) (detect : Bool) (clock : Clock) (x : Store × Consumed)
      (s' : Store) (r : Rotation)
      → after_consume o g cfg detect clock x ≡ (s', ok r)
      → Granted x s' r
  unfolding after_consume
  after_consume-Granted g cfg detect clock (s, taken c) s' r e =
      let (until, made) = with_access-made g cfg c clock.refreshed_at _ s s' r e in
      (c, until, refl, made)
  after_consume-Granted g cfg detect clock (s, reused c) s' r e = cc (ap (λ p. p.1) e)
  after_consume-Granted g cfg detect clock (s, not_found) s' r e = cc (ap (λ p. p.1) e)

  after_verify-Granted :
      (g : Signing J) (cfg : Config) (token : Text) (detect : Bool) (clock : Clock)
      (v : Outcome AuthError Bool) (s s' : Store) (r : Rotation)
      → after_verify o g cfg token detect clock v s ≡ (s', ok r)
      → Granted (consume o token clock.consumed_at clock.revoked_at s) s' r
  unfolding after_verify
  after_verify-Granted g cfg token detect clock (ok valid) s s' r e =
      after_consume-Granted g cfg detect clock
        (consume o token clock.consumed_at clock.revoked_at s) s' r e
  after_verify-Granted g cfg token detect clock (fail why) s s' r e = cc (ap (λ p. p.1) e)
  after_verify-Granted g cfg token detect clock panic s s' r e = cc (ap (λ p. p.1) e)

  rotate_in-Granted :
      (g : Signing J) (cfg : Config) (token : Text) (detect : Bool) (clock : Clock) (s s' : Store)
      (r : Rotation)
      → rotate_in o g cfg token detect clock s ≡ (s', ok r)
      → Granted (consume o token clock.consumed_at clock.revoked_at s) s' r
  unfolding rotate_in
  rotate_in-Granted g cfg token detect clock s s' r e = elim (Bool-cases (is_empty token)) [
    | inl b ↦ cc (ap (λ p. p.1) (rw b at e))
    | inr b ↦
        after_verify-Granted g cfg token detect clock (verify_token g cfg token clock.verified_at) s
          s' r (rw b at e)
  ]

  rotate_in-nonempty :
      (g : Signing J) (cfg : Config) (token : Text) (detect : Bool) (clock : Clock) (s s' : Store)
      (r : Rotation)
      → rotate_in o g cfg token detect clock s ≡ (s', ok r)
      → is_empty token ≡ false
  unfolding rotate_in
  rotate_in-nonempty g cfg token detect clock s s' r e = elim (Bool-cases (is_empty token)) [
    | inl b ↦ cc (ap (λ p. p.1) (rw b at e))
    | inr b ↦ b
  ]

  after_consume-reused :
      (g : Signing J) (cfg : Config) (detect : Bool) (clock : Clock) (x : Store × Consumed)
      (c : Text)
      → x.1 ≡ reused c
      → after_consume o g cfg detect clock x
        ≡ (lockout o g cfg detect clock.matched_at c x.0, fail token_reused)
  unfolding after_consume
  after_consume-reused g cfg detect clock x c e = rw (sym (pair_of x c e)) refl

  rotate_in-reused :
      (g : Signing J) (cfg : Config) (token : Text) (detect : Bool) (clock : Clock) (s : Store)
      (c : Text)
      → is_empty token ≡ false
      → verify_token g cfg token clock.verified_at ≡ ok true
      → (consume o token clock.consumed_at clock.revoked_at s).1 ≡ reused c
      → rotate_in o g cfg token detect clock s ≡ (
        lockout o g cfg detect clock.matched_at c
            (consume o token clock.consumed_at clock.revoked_at s).0,
        fail token_reused,
      )
  unfolding rotate_in after_verify
  rotate_in-reused g cfg token detect clock s c nonempty valid used =
      rw (nonempty, valid)
        (after_consume-reused g cfg detect clock
          (consume o token clock.consumed_at clock.revoked_at s) c used)

  -- A refresh token is rotated once: after a rotation that is granted, whose new token has another
  -- hash, and after whatever is done with the store as long as no token with the old hash is made
  -- anew, rotating the old token again is answered with the reuse of the token, if it still
  -- verifies.
  pub rotate_in-once :
      (g : Signing J) (cfg cfg' : Config) (token : Text) (detect detect' : Bool)
      (clock clock' : Clock) (s s' s'' : Store) (r : Rotation)
      → rotate_in o g cfg token detect clock s ≡ (s', ok r)
      → text_eq (o.hash r.refreshed_token) (o.hash token) ≡ false
      → Steps o (o.hash token) s' s''
      → verify_token g cfg' token clock'.verified_at ≡ ok true
      → (rotate_in o g cfg' token detect' clock' s'').1 ≡ fail token_reused
  rotate_in-once g cfg cfg' token detect detect' clock clock' s s' s'' r granted other steps valid =
      let (c, until, took, made) = rotate_in-Granted g cfg token detect clock s s' r granted in
      let between : Steps o (o.hash token) (consume o token clock.consumed_at clock.revoked_at s).0
          s'' =
        after_create r.refreshed_token c until other
          (subst (λ x. Steps o (o.hash token) x s'') (sym made) steps) in
      let used =
        consume-Steps-reused o token c clock.consumed_at clock.revoked_at clock'.consumed_at
          clock'.revoked_at s s'' took between in
      ap (λ p. p.1)
        (rotate_in-reused g cfg' token detect' clock' s'' c
          (rotate_in-nonempty g cfg token detect clock s s' r granted) valid used)

  -- Consume leaves every status, if its token is spent.
  consume-spent :
      (token c h : Text) (now later : ℕ) (s : Store)
      → view (o.hash token) s ≡ spent c
      → view h (consume o token now later s).0 ≡ view h s
  consume-spent token c h now later s used =
      (consume-view o token h now later s).0
      ∙ rw used (sym (view-same (o.hash token) h s (spent c) used))

  lockout-view :
      (g : Signing J) (cfg : Config) (matched_at : Text → ℕ) (c h : Text) (m : Dict J) (s : Store)
      → is_empty c ≡ false
      → o.unmarshal c ≡ some m
      → is_empty m ≡ false
      → view h (lockout o g cfg true matched_at c s)
        ≡ revoke_if (λ d. match_claims o d m) (view h s)
  unfolding lockout
  lockout-view g cfg matched_at c h m s claims object keyed =
      rw (claims, object, keyed) (revoke_rows-view o m matched_at h s)

  -- A token that was used or revoked and is presented for rotation, where lockout is asked for,
  -- ends every usable token whose claims contain the token's own, and is answered with the reuse.
  -- The token verifies and its claims are a JSON object with a key.
  pub rotate_in-locks_out :
      (g : Signing J) (cfg : Config) (token c : Text) (m : Dict J) (clock : Clock) (s : Store)
      → is_empty token ≡ false
      → verify_token g cfg token clock.verified_at ≡ ok true
      → view (o.hash token) s ≡ spent c
      → is_empty c ≡ false
      → o.unmarshal c ≡ some m
      → is_empty m ≡ false
      → ((rotate_in o g cfg token true clock s).1 ≡ fail token_reused)
        × ((h : Text)
            → view h (rotate_in o g cfg token true clock s).0
              ≡ revoke_if (λ d. match_claims o d m) (view h s))
  rotate_in-locks_out g cfg token c m clock s nonempty valid used claims object keyed =
      let at = consume-view o token (o.hash token) clock.consumed_at clock.revoked_at s in
      let answered =
        rotate_in-reused g cfg token true clock s c nonempty valid (at.1 ∙ rw used refl) in
      (
        ap (λ p. p.1) answered,
        λ h.
            ap (λ p. view h p.0) answered
            ∙ lockout-view g cfg clock.matched_at c h m _ claims object keyed
            ∙ ap (revoke_if (λ d. match_claims o d m))
                (consume-spent token c h clock.consumed_at clock.revoked_at s used),
      )
