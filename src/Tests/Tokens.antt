-- ===== src/Tests/Tokens.antt =====
-- The store of refresh tokens, rotations and cookies on small inputs.
use ssac.Base.{
  if◌then◌else◌, ◌≡◌, refl, true, false, [], ◌∷◌, none, some, ok, fail, map, any, is_empty, ◌||◌,
  All,
}
use ssac.Text.{Text, codes, text_eq}
use ssac.Validator.Symbols.{pos}
use ssac.Auth.Store.{
  Outside, Store, Row, taken, reused, create, consume, revoke, revoke_all, match_claims,
}
use ssac.Auth.Store.Spec.{
  view, active, spent, only, consume_spec, create_spec, revoke_spec, revoke_if, view-refines,
}
use ssac.Auth.Store.Once.{done, after_revoke, consume-Steps-reused}
use ssac.Auth.Tokens.{Signing, Config, token_reused, verify_token}
use ssac.Auth.Rotate.{Clock, Rotation, rotate_in}
use ssac.Auth.Rotate.Twice.{rotate_in-once, rotate_in-locks_out}
use ssac.Auth.Cookies.{
  CookieConfig, Cookie, set_auth_cookies, clear_auth_cookies, IsProtected, host_prefix_holds,
}
use ssac.Auth.Cookies.Browser.{
  Key, same_key, held, after, IsHeldIn, clear_auth_cookies-set_auth_cookies,
}
use ssac.Memory.{memory_get, memory_set, memory_delete, value_set, memory_get-memory_set}
use ssac.Tests.Runs.{text_functions, refreshing}

-- Tokens are their own hashes, and claims `u` an object with one key.
abbrev outside : Outside Text
outside = record {
  hash = λ t. t;
  marshal_raw = λ c. some c;
  marshal_value = λ v. v;
  unmarshal = λ c. some ((codes "user", c) ∷ []);
}

-- Every token is accepted, and all signing gives one token.
abbrev signing : Signing Text
signing = record {
  getenv = λ name. codes "secret";
  to_claims = λ c. some (some ((codes "user", c) ∷ []));
  number = λ n. n ∷ [];
  sign = λ key claims. some (codes "signed");
  accepts = λ key token now. true;
}

abbrev config : Config
config = record {
  secret_env = codes "JWT_SECRET";
  access_ttl = pos 1000000000;
  refresh_ttl = pos 5000000000;
}

abbrev clock : Clock
clock = record {
  verified_at = 1;
  consumed_at = 2;
  revoked_at = 3;
  matched_at = λ h. 4;
  issued_at = 5;
  refreshed_at = 6;
}

abbrev row : Row
row = record { claims = codes "u"; expires_at = 100; revoked_at = none }

abbrev two_rows : Store
two_rows = (codes "a", row) ∷ (codes "b", row) ∷ []

view-refines_example :
    (view (codes "b") (create outside (codes "a") (codes "v") 7 two_rows).0
      ≡ only
          (text_eq (codes "a") (codes "b"))
          (create_spec (some (codes "v")) 7 (view (codes "a") two_rows))
          (view (codes "b") two_rows))
    × (view (codes "b") (consume outside (codes "a") 1 2 two_rows).0
        ≡ only
            (text_eq (codes "a") (codes "b"))
            (consume_spec 1 (view (codes "a") two_rows)).0
            (view (codes "b") two_rows))
    × ((consume outside (codes "a") 1 2 two_rows).1
        ≡ (consume_spec 1 (view (codes "a") two_rows)).1)
    × (view (codes "b") (revoke outside (codes "a") 1 two_rows)
        ≡ only
            (text_eq (codes "a") (codes "b"))
            (revoke_spec (view (codes "a") two_rows))
            (view (codes "b") two_rows))
    × (view (codes "b") (revoke_all outside [] (λ h. 1) two_rows).0 ≡ view (codes "b") two_rows)
view-refines_example =
    view-refines outside (codes "a") (codes "v") (codes "b") 1 2 7 [] (λ h. 1) two_rows

consume-a : (consume outside (codes "a") 1 2 two_rows).1 ≡ taken (codes "u")
unfolding refreshing
consume-a = refl

abbrev after_a : Store
after_a = (consume outside (codes "a") 1 2 two_rows).0

consume-Steps-reused_example :
    (consume outside (codes "a") 5 6 (revoke outside (codes "b") 4 after_a)).1 ≡ reused (codes "u")
consume-Steps-reused_example =
    consume-Steps-reused outside (codes "a") (codes "u") 1 2 5 6 two_rows
      (revoke outside (codes "b") 4 after_a) consume-a (after_revoke (codes "b") 4 done)

abbrev rotated : Rotation
rotated = record {
  access_token = codes "signed";
  refreshed_token = codes "signed";
  expires_at = 5000000006;
}

abbrev after_rotation : Store
after_rotation = (rotate_in outside signing config (codes "a") true clock two_rows).0

rotate-a :
    rotate_in outside signing config (codes "a") true clock two_rows ≡ (after_rotation, ok rotated)
unfolding refreshing
rotate-a = refl

signed-other : text_eq (codes "signed") (codes "a") ≡ false
unfolding refreshing
signed-other = refl

verified : (token : Text) → verify_token signing config token 1 ≡ ok true
unfolding refreshing
verified token = refl

rotate_in-once_example :
    (rotate_in outside signing config (codes "a") false clock after_rotation).1 ≡ fail token_reused
rotate_in-once_example =
    rotate_in-once outside signing config config (codes "a") true false clock clock two_rows
      after_rotation after_rotation rotated rotate-a signed-other done (verified (codes "a"))

a-spent : view (codes "a") after_a ≡ spent (codes "u")
unfolding refreshing view
a-spent = refl

rotate_in-locks_out_example :
    ((rotate_in outside signing config (codes "a") true clock after_a).1 ≡ fail token_reused)
    × ((h : Text)
        → view h (rotate_in outside signing config (codes "a") true clock after_a).0
          ≡ revoke_if
              (λ d. match_claims outside d ((codes "user", codes "u") ∷ []))
              (view h after_a))
rotate_in-locks_out_example =
    rotate_in-locks_out outside signing config (codes "a") (codes "u")
      ((codes "user", codes "u") ∷ []) clock after_a refl (verified (codes "a")) a-spent refl refl
      refl

-- The other token with the same claims is ended too.
b-locked_out :
    view (codes "b") (rotate_in outside signing config (codes "a") true clock after_a).0
    ≡ spent (codes "u")
unfolding refreshing view
b-locked_out = refl

-- Signing the same claims within the same second can give the token itself again: a rotation then
-- leaves it usable.
signed-again :
    view
      (codes "signed")
      (rotate_in outside signing config (codes "signed") true clock ((codes "signed", row) ∷ [])).0
    ≡ active (codes "u") 5000000006
unfolding refreshing view
signed-again = refl

abbrev cookies : CookieConfig
cookies = record {
  mode = codes "cookie";
  access_ttl = pos 60;
  refresh_ttl = pos 600;
  cookie_attrs = record {
    access_name = [];
    refresh_name = [];
    same_site = 0;
    access_ttl = pos 0;
    refresh_ttl = pos 0;
  };
}

clear_auth_cookies-set_auth_cookies_example :
    (map (λ (c : Cookie). c.value) (set_auth_cookies (λ t. t) cookies (codes "x") (codes "y")) ≡ (
      if text_eq cookies.mode (codes "bearer") || is_empty cookies.mode
      then []
      else codes "x" ∷ codes "y" ∷ []))
    × All
        (IsHeldIn (after (set_auth_cookies (λ t. t) cookies (codes "x") (codes "y")) []))
        (set_auth_cookies (λ t. t) cookies (codes "x") (codes "y"))
    × ((k : Key)
        → held k (
            after
              (clear_auth_cookies cookies)
              (after (set_auth_cookies (λ t. t) cookies (codes "x") (codes "y")) []))
          ≡ (if any (same_key k) (set_auth_cookies (λ t. t) cookies (codes "x") (codes "y"))
              then none
              else held k []))
    × All IsProtected (set_auth_cookies (λ t. t) cookies (codes "x") (codes "y"))
clear_auth_cookies-set_auth_cookies_example =
    clear_auth_cookies-set_auth_cookies (λ t. t) cookies (codes "x") (codes "y") []

-- The refresh cookie's name asks for the path `/`, which it does not have.
cookies-prefix :
    map host_prefix_holds (set_auth_cookies (λ t. t) cookies (codes "x") (codes "y"))
    ≡ true ∷ false ∷ []
unfolding refreshing set_auth_cookies host_prefix_holds
cookies-prefix = refl

memory_get-memory_set_example :
    (memory_get
        (codes "k")
        50
        (memory_set {A = Text} (λ v. some v) (codes "k") (codes "v") (pos 10) 45 []).0
      ≡ (if text_eq (codes "k") (codes "k")
          then value_set (some (codes "v")) 55 50 (memory_get (codes "k") 50 [])
          else memory_get (codes "k") 50 []))
    × (memory_get (codes "k") 50 (memory_delete (codes "k") [])
        ≡ (if text_eq (codes "k") (codes "k") then [] else memory_get (codes "k") 50 []))
memory_get-memory_set_example =
    memory_get-memory_set (λ v. some v) (codes "k") (codes "k") (codes "v") (pos 10) 45 50 []

kept-k :
    memory_get
      (codes "k")
      50
      (memory_set {A = Text} (λ v. some v) (codes "k") (codes "v") (pos 10) 45 []).0
    ≡ codes "v"
unfolding text_functions memory_get memory_set
kept-k = refl
