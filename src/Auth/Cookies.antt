-- ===== src/Auth/Cookies.antt =====
-- pkg/auth/cookie_attrs.go, set_auth_cookies.go and clear_auth_cookies.go: the cookies that a
-- request writes, as the calls of gin's `SetCookie` in their order.
pub mod Browser
use ssac.Base.{ℕ, zero, suc, ◌≡◌, Bool, true, ◌&&◌, ◌||◌, List, [], ◌∷◌, is_empty, if◌then◌else◌}
use ssac.Text.{Text, codes, text_eq, has_prefix}
use ssac.Validator.Symbols.{ℤ, pos, negsuc}

-- `CookieAttrs`; SameSite is 0 where it is not set.
pub record CookieAttrs : Type 0 where
  pub access_name : Text
  pub refresh_name : Text
  pub same_site : ℕ
  pub access_ttl : ℤ
  pub refresh_ttl : ℤ

-- What of `Config` the cookies read.
pub record CookieConfig : Type 0 where
  pub mode : Text
  pub access_ttl : ℤ
  pub refresh_ttl : ℤ
  pub cookie_attrs : CookieAttrs

-- A call of `SetCookie`, with the SameSite set before it.
pub record Cookie : Type 0 where
  pub name : Text
  pub value : Text
  pub max_age : ℤ
  pub path : Text
  pub domain : Text
  pub secure : Bool
  pub http_only : Bool
  pub same_site : ℕ

abbrev or_text : Text → Text → Text
or_text [] default = default
or_text (c ∷ s) default = c ∷ s

abbrev or_site : ℕ → ℕ → ℕ
or_site zero default = default
or_site (suc n) default = suc n

abbrev or_ttl : ℤ → ℤ → ℤ
or_ttl (pos zero) default = default
or_ttl (pos (suc n)) default = pos (suc n)
or_ttl (negsuc n) default = negsuc n

-- `http.SameSiteLaxMode`
abbrev lax : ℕ
lax = 2

-- `resolvedCookieAttrs`
unfoldable pub resolved_cookie_attrs : CookieConfig → CookieAttrs
resolved_cookie_attrs cfg =
    let a = cfg.cookie_attrs in
    record {
      access_name = or_text a.access_name (codes "__Host-access_token");
      refresh_name = or_text a.refresh_name (codes "__Host-refresh_token");
      same_site = or_site a.same_site lax;
      access_ttl = or_ttl a.access_ttl cfg.access_ttl;
      refresh_ttl = or_ttl a.refresh_ttl cfg.refresh_ttl;
    }

abbrev pub refresh_cookie_path : Text
refresh_cookie_path = codes "/auth/refresh"

abbrev pub cookie : CookieAttrs → Text → Text → ℤ → Text → Cookie
cookie attrs name value max_age path = record {
  name = name;
  value = value;
  max_age = max_age;
  path = path;
  domain = [];
  secure = true;
  http_only = true;
  same_site = attrs.same_site;
}

unfoldable pub is_bearer : Text → Bool
unfolding text_eq
is_bearer mode = text_eq mode (codes "bearer") || is_empty mode

-- `SetAuthCookies`; `seconds` is `int(ttl.Seconds())`.
unfoldable pub set_auth_cookies : (ℤ → ℤ) → CookieConfig → Text → Text → List Cookie
unfolding resolved_cookie_attrs is_bearer
set_auth_cookies seconds cfg access refresh =
    let attrs = resolved_cookie_attrs cfg in
    if is_bearer cfg.mode
    then []
    else cookie attrs attrs.access_name access (seconds attrs.access_ttl) (codes "/")
      ∷ cookie attrs attrs.refresh_name refresh (seconds attrs.refresh_ttl) refresh_cookie_path
      ∷ []

-- `ClearAuthCookies`
unfoldable pub clear_auth_cookies : CookieConfig → List Cookie
unfolding resolved_cookie_attrs is_bearer
clear_auth_cookies cfg =
    let attrs = resolved_cookie_attrs cfg in
    if is_bearer cfg.mode
    then []
    else cookie attrs attrs.access_name [] (negsuc 0) (codes "/")
      ∷ cookie attrs attrs.refresh_name [] (negsuc 0) refresh_cookie_path
      ∷ []

-- Not readable from scripts, and sent over secure connections only.
abbrev pub IsProtected : Cookie → Type 0
IsProtected c = (c.secure ≡ true) × (c.http_only ≡ true)

-- What browsers ask of a name that begins with `__Host-` (RFC 6265bis, 4.1.3.2).
unfoldable pub host_prefix_holds : Cookie → Bool
unfolding has_prefix text_eq
host_prefix_holds c =
    if has_prefix (codes "__Host-") c.name
    then c.secure && (is_empty c.domain && text_eq c.path (codes "/"))
    else true
