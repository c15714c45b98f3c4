-- ===== src/Auth/Cookies/Browser.antt =====
-- What the cookies do in a browser.
use ssac.Base.{
  ◌≡◌, refl, Bool, true, false, ◌&&◌, ◌||◌, List, [], ◌∷◌, Option, none, some, arith, All, any, map,
  is_empty, if◌then◌else◌, Bool-cases, inl, inr,
}
use ssac.Text.{Text, codes, text_eq}
use ssac.Text.Cut.{text_eq_self}
use ssac.Validator.Symbols.{ℤ, pos, negsuc}
use ssac.Auth.Cookies.{
  CookieConfig, Cookie, IsProtected, is_bearer, resolved_cookie_attrs, set_auth_cookies,
  clear_auth_cookies, cookie, refresh_cookie_path,
}

-- What a browser knows a cookie by (RFC 6265, 5.3).
abbrev pub Key : Type 0
Key = Text × Text × Text

abbrev pub same_key : Key → Cookie → Bool
same_key (name, path, domain) c =
    text_eq name c.name && (text_eq path c.path && text_eq domain c.domain)

-- A negative age, which Go prints as the age 0, deletes.
abbrev pub deletes : Cookie → Bool
deletes c = elim c.max_age [ pos n ↦ false | negsuc n ↦ true ]

-- What the browser holds under a key, where cookies were received, the last one first.
unfoldable pub held : Key → List Cookie → Option Cookie
unfolding text_eq
held k [] = none
held k (c ∷ received) =
    let earlier = held k received in
    if same_key k c then (if deletes c then none else some c) else earlier

-- The cookies of a response, in their order.
abbrev pub after : List Cookie → List Cookie → List Cookie
after [] received = received
after (c ∷ cs) received = after cs (c ∷ received)

abbrev pub key_of : Cookie → Key
key_of c = (c.name, c.path, c.domain)

-- The browser holds the cookie, unless it was sent to be deleted.
abbrev pub IsHeldIn : List Cookie → Cookie → Type 0
IsHeldIn received c = deletes c ≡ false → held (key_of c) received ≡ some c

same_key_self : (c : Cookie) → same_key (key_of c) c ≡ true
same_key_self c =
    rw (text_eq_self c.name) (rw (text_eq_self c.path) (rw (text_eq_self c.domain) refl))

-- Two cookies of one response, with two keys.
both_held :
    (a r : Cookie) (received : List Cookie)
    → same_key (key_of a) r ≡ false
    → All (IsHeldIn (r ∷ a ∷ received)) (a ∷ r ∷ [])
unfolding held
both_held a r received other =
    (λ kept. rw (other, same_key_self a, kept) refl, (λ kept. rw (same_key_self r, kept) refl, tt))

and_false : (b : Bool) → (b && false) ≡ false
and_false b = ground arith

split :
    (sa sr da dr : Bool) (a r : Cookie) (before : Option Cookie)
    → (if sr
        then none
        else if sa
        then none
        else if sr
        then (if dr then none else some r)
        else if sa
        then (if da then none else some a)
        else before)
      ≡ (if sa || (sr || false) then none else before)
split sa sr da dr a r before = ground arith

-- The same two again, to be deleted.
both_dropped :
    (k : Key) (a r a' r' : Cookie) (received : List Cookie)
    → same_key k a' ≡ same_key k a
    → same_key k r' ≡ same_key k r
    → deletes a' ≡ true
    → deletes r' ≡ true
    → held k (r' ∷ a' ∷ r ∷ a ∷ received)
      ≡ (if any (same_key k) (a ∷ r ∷ []) then none else held k received)
unfolding held
both_dropped k a r a' r' received ea er da dr =
    rw (ea, er, da, dr)
      (split (same_key k a) (same_key k r) (deletes a) (deletes r) a r (held k received))

-- In a browser that accepts every cookie, knows cookies by name, path and domain, and deletes on a
-- negative age: behind a SetAuthCookies it holds each cookie that was sent, as it was sent, save
-- one sent with a negative age; behind a ClearAuthCookies with the same configuration after it, it
-- holds none of them, and of all other cookies what it held. SetAuthCookies sends the access token
-- and the refresh token, in this order, and nothing under the mode bearer or no mode. All that it
-- sends is Secure and HttpOnly.
pub clear_auth_cookies-set_auth_cookies :
    (seconds : ℤ → ℤ) (cfg : CookieConfig) (access refresh : Text) (received : List Cookie)
    → (map (λ (c : Cookie). c.value) (set_auth_cookies seconds cfg access refresh) ≡ (
        if text_eq cfg.mode (codes "bearer") || is_empty cfg.mode
        then []
        else access ∷ refresh ∷ []))
      × All
          (IsHeldIn (after (set_auth_cookies seconds cfg access refresh) received))
          (set_auth_cookies seconds cfg access refresh)
      × ((k : Key)
          → held k (
              after
                (clear_auth_cookies cfg)
                (after (set_auth_cookies seconds cfg access refresh) received))
            ≡ (if any (same_key k) (set_auth_cookies seconds cfg access refresh)
                then none
                else held k received))
      × All IsProtected (set_auth_cookies seconds cfg access refresh)
unfolding set_auth_cookies clear_auth_cookies held is_bearer
clear_auth_cookies-set_auth_cookies seconds cfg access refresh received =
    let attrs = resolved_cookie_attrs cfg in
    let a = cookie attrs attrs.access_name access (seconds attrs.access_ttl) (codes "/") in
    let r =
      cookie attrs attrs.refresh_name refresh (seconds attrs.refresh_ttl) refresh_cookie_path in
    let a' = cookie attrs attrs.access_name [] (negsuc 0) (codes "/") in
    let r' = cookie attrs attrs.refresh_name [] (negsuc 0) refresh_cookie_path in
    elim (Bool-cases (is_bearer cfg.mode)) [
      | inl b ↦ rw b ((refl, tt, λ k. refl, tt))
      | inr b ↦ rw b (
          (
            refl,
            both_held a r received (and_false (text_eq attrs.access_name attrs.refresh_name)),
            λ k. both_dropped k a r a' r' received refl refl refl refl,
            ((refl, refl), ((refl, refl), tt)),
          ))
    ]
