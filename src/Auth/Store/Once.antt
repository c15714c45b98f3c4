-- ===== src/Auth/Store/Once.antt =====
-- A token that was used stays used, whatever else is done with the store.
use ssac.Base.{
  ℕ, ◌≡◌, refl, sym, ap, ◌∙◌, Bool, true, false, ltb, is_empty, if◌then◌else◌, Bool-cases, inl, inr,
}
use ssac.Text.{Text, text_eq}
use ssac.Text.Cut.{text_eq_self, text_eq_iff}
use ssac.Dict.{Dict}
use ssac.Auth.Store.{Outside, Store, taken, reused, create, consume, revoke, revoke_all}
use ssac.Auth.Store.Spec.{
  Status, absent, active, spent, view, only, consume_spec, revoke_spec, create-view, consume-view,
  revoke-view, revoke_all-view,
}

-- An operation on one token that leaves a spent one as it is.
keeps_spent :
    (f : Status → Status) (k h c : Text) (s : Store)
    → f (spent c) ≡ spent c
    → view h s ≡ spent c
    → only (text_eq k h) (f (view k s)) (view h s) ≡ spent c
keeps_spent f k h c s keeps e = elim (Bool-cases (text_eq k h)) [
  | inl b ↦ rw b (ap f (ap (λ x. view x s) ((text_eq_iff k h).0 b) ∙ e) ∙ keeps)
  | inr b ↦ rw b e
]

same_either : (b : Bool) (x : Status) → (if b then x else x) ≡ x
same_either true x = refl
same_either false x = refl

-- What was taken is spent.
taken-spent :
    (now : ℕ) (x : Status) (c : Text)
    → (consume_spec now x).1 ≡ taken c
    → (consume_spec now x).0 ≡ spent c
taken-spent now absent c e = cc
taken-spent now (spent d) c e = cc
taken-spent now (active d until) c e = elim (Bool-cases (ltb until now)) [
  | inl b ↦ cc (rw b at e)
  | inr b ↦ rw b (cc (rw b at e))
]

module _ {J : Type 0} (o : Outside J) where
  -- What can be done with the store until no token with the hash `h` is made anew.
  pub data Steps (h : Text) : Store → Store → Type 0 where
    done : {s : Store} → Steps h s s
    after_create :
        (token claims : Text) (until : ℕ) {s s' : Store}
        → text_eq (o.hash token) h ≡ false
        → Steps h (create o token claims until s).0 s'
        → Steps h s s'
    after_consume :
        (token : Text) (now later : ℕ) {s s' : Store}
        → Steps h (consume o token now later s).0 s'
        → Steps h s s'
    after_revoke :
        (token : Text) (now : ℕ) {s s' : Store} → Steps h (revoke o token now s) s' → Steps h s s'
    after_revoke_all :
        (matcher : Dict J) (seen_at : Text → ℕ) {s s' : Store}
        → Steps h (revoke_all o matcher seen_at s).0 s'
        → Steps h s s'

  spent-stays :
      (h c : Text) {s s' : Store} → Steps h s s' → view h s ≡ spent c → view h s' ≡ spent c
  spent-stays h c done e = e
  spent-stays h c (after_create token claims until {s} {s'} other steps) e =
      spent-stays h c steps (create-view o token claims h until s ∙ rw other e)
  spent-stays h c (after_consume token now later {s} {s'} steps) e = spent-stays h c steps (
      (consume-view o token h now later s).0
      ∙ keeps_spent (λ x. (consume_spec now x).0) (o.hash token) h c s refl e)
  spent-stays h c (after_revoke token now {s} {s'} steps) e =
      spent-stays h c steps
        (revoke-view o token h now s ∙ keeps_spent revoke_spec (o.hash token) h c s refl e)
  spent-stays h c (after_revoke_all matcher seen_at {s} {s'} steps) e =
      spent-stays h c steps
        (revoke_all-view o matcher seen_at h s ∙ rw e (same_either (is_empty matcher) (spent c)))

  -- A refresh token is good for one use: once Consume has given its claims, every later Consume of
  -- it answers that the token is reused, with the same claims, whatever operations came in between
  -- and at whatever time, as long as no token with the same hash has been made anew.
  pub consume-Steps-reused :
      (token c : Text) (now later now' later' : ℕ) (s s' : Store)
      → (consume o token now later s).1 ≡ taken c
      → Steps (o.hash token) (consume o token now later s).0 s'
      → (consume o token now' later' s').1 ≡ reused c
  consume-Steps-reused token c now later now' later' s s' took steps =
      let after = consume-view o token (o.hash token) now later s in
      let spent_then : view (o.hash token) (consume o token now later s).0 ≡ spent c =
        after.0
        ∙ rw (text_eq_self (o.hash token))
            (taken-spent now (view (o.hash token) s) c (sym after.1 ∙ took)) in
      (consume-view o token (o.hash token) now' later' s').1
      ∙ ap (λ x. (consume_spec now' x).1) (spent-stays (o.hash token) c steps spent_then)
