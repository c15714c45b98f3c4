-- ===== src/Auth/Store/Spec.antt =====
-- What the store promises of each token, without times of revocation and without the map.
use ssac.Base.{
  ℕ, ◌≡◌, refl, sym, ap, ◌∙◌, Bool, true, false, ltb, [], ◌∷◌, Option, none, some, is_empty,
  if◌then◌else◌, Bool-cases, inl, inr,
}
use ssac.Text.{Text, text_eq}
use ssac.Text.Cut.{text_eq_iff}
use ssac.Dict.{Dict, lookup, put}
use ssac.Dict.Laws.{lookup-put}
use ssac.Auth.Store.{
  Outside, Row, Store, Consumed, taken, reused, not_found, is_revoked, revoke_row, consume_row,
  consume_found, revoke_found, create_row, create, consume, revoke, match_claims, revoke_matching,
  revoke_rows, revoke_all,
}

-- A token is unknown, can be used until a point in time, or has been used or revoked.
pub data Status : Type 0 where
  absent : Status
  active : Text → ℕ → Status
  spent : Text → Status

abbrev row_of : Text → ℕ → Option ℕ → Row
row_of claims until at = record { claims = claims; expires_at = until; revoked_at = at }

abbrev pub row_status : Row → Status
row_status row = if is_revoked row then spent row.claims else active row.claims row.expires_at

abbrev pub status_of : Option Row → Status
status_of none = absent
status_of (some row) = row_status row

-- The status of the token with the hash `h`.
unfoldable pub view : Text → Store → Status
unfolding lookup
view h s = status_of (lookup h s)

-- What happens to a token that is consumed, and what is answered.
abbrev pub consume_spec : ℕ → Status → Status × Consumed
consume_spec now absent = (absent, not_found)
consume_spec now (spent claims) = (spent claims, reused claims)
consume_spec now (active claims until) =
    if ltb until now then (active claims until, not_found) else (spent claims, taken claims)

abbrev pub revoke_spec : Status → Status
revoke_spec (active claims until) = spent claims
revoke_spec other = other

abbrev pub revoke_if : (Text → Bool) → Status → Status
revoke_if matches (active claims until) =
    if matches claims then spent claims else active claims until
revoke_if matches other = other

-- Only the token itself is touched.
abbrev pub only : Bool → Status → Status → Status
only b changed same = if b then changed else same

if_status :
    (b : Bool) (row : Row) (r : Option Row)
    → status_of (if b then some row else r) ≡ only b (row_status row) (status_of r)
if_status true row r = refl
if_status false row r = refl

pub view-put :
    (k h : Text) (row : Row) (s : Store)
    → view h (put k row s) ≡ only (text_eq k h) (row_status row) (view h s)
unfolding view
view-put k h row s = ap status_of (lookup-put k h row s) ∙ if_status (text_eq k h) row (lookup h s)

-- Nothing is touched where the token keeps its status.
pub view-same :
    (k h : Text) (s : Store) (status : Status)
    → view k s ≡ status
    → view h s ≡ only (text_eq k h) status (view h s)
view-same k h s status e = elim (Bool-cases (text_eq k h)) [
  | inl b ↦ rw b (sym (ap (λ x. view x s) ((text_eq_iff k h).0 b)) ∙ e)
  | inr b ↦ rw b refl
]

consume_row-view :
    (k h : Text) (now later : ℕ) (row : Row) (s : Store)
    → view k s ≡ row_status row
    → (view h (consume_row k now later row s).0
        ≡ only (text_eq k h) (consume_spec now (row_status row)).0 (view h s))
      × ((consume_row k now later row s).1 ≡ (consume_spec now (row_status row)).1)
unfolding consume_row
consume_row-view k h now later row s e = elim (Bool-cases (is_revoked row)) [
  | inl b ↦ rw b ((view-same k h s (spent row.claims) (rw b at e), refl))
  | inr b ↦ elim (Bool-cases (ltb row.expires_at now)) [
    | inl c ↦ rw (b, c) ((view-same k h s (active row.claims row.expires_at) (rw b at e), refl))
    | inr c ↦ rw (b, c) ((view-put k h (record row { revoked_at = some later }) s, refl))
  ]
]

consume_found-view :
    (k h : Text) (now later : ℕ) (r : Option Row) (s : Store)
    → view k s ≡ status_of r
    → (view h (consume_found k now later r s).0
        ≡ only (text_eq k h) (consume_spec now (status_of r)).0 (view h s))
      × ((consume_found k now later r s).1 ≡ (consume_spec now (status_of r)).1)
unfolding consume_found
consume_found-view k h now later none s e = (view-same k h s absent e, refl)
consume_found-view k h now later (some row) s e = consume_row-view k h now later row s e

revoke_found-view :
    (k h : Text) (now : ℕ) (r : Option Row) (s : Store)
    → view k s ≡ status_of r
    → view h (revoke_found k now r s) ≡ only (text_eq k h) (revoke_spec (status_of r)) (view h s)
unfolding revoke_found revoke_row
revoke_found-view k h now none s e = view-same k h s absent e
revoke_found-view k h now (some row) s e = elim (Bool-cases (is_revoked row)) [
  | inl b ↦ rw b (view-same k h s (spent row.claims) (rw b at e))
  | inr b ↦ rw b (view-put k h (record row { revoked_at = some now }) s)
]

-- `Create` makes the token usable, whatever it was.
abbrev pub create_spec : Option Text → ℕ → Status → Status
create_spec none expires_at status = status
create_spec (some raw) expires_at status = active raw expires_at

create_row-view :
    (k h : Text) (until : ℕ) (r : Option Text) (s : Store)
    → view h (create_row k until r s).0
      ≡ only (text_eq k h) (create_spec r until (view k s)) (view h s)
unfolding create_row
create_row-view k h until none s = view-same k h s _ refl
create_row-view k h until (some raw) s =
    view-put k h (record { claims = raw; expires_at = until; revoked_at = none }) s

revoke_if-status :
    (m : Bool) (now : ℕ) (claims : Text) (until : ℕ) (at : Option ℕ)
    → row_status (if m then revoke_row now (row_of claims until at) else row_of claims until at)
      ≡ revoke_if (λ c. m) (row_status (row_of claims until at))
unfolding revoke_row
revoke_if-status true now claims until none = refl
revoke_if-status true now claims until (some t) = refl
revoke_if-status false now claims until none = refl
revoke_if-status false now claims until (some t) = refl

matched_claims :
    (f : Text → Bool) (claims : Text) (until : ℕ) (at : Option ℕ)
    → revoke_if (λ c. f claims) (row_status (row_of claims until at))
      ≡ revoke_if f (row_status (row_of claims until at))
matched_claims f claims until none = refl
matched_claims f claims until (some t) = refl

module _ {J : Type 0} (o : Outside J) where
  pub consume-view :
      (token h : Text) (now later : ℕ) (s : Store)
      → (view h (consume o token now later s).0
          ≡ only (text_eq (o.hash token) h) (consume_spec now (view (o.hash token) s)).0 (view h s))
        × ((consume o token now later s).1 ≡ (consume_spec now (view (o.hash token) s)).1)
  unfolding consume view
  consume-view token h now later s =
      consume_found-view (o.hash token) h now later (lookup (o.hash token) s) s refl

  pub revoke-view :
      (token h : Text) (now : ℕ) (s : Store)
      → view h (revoke o token now s)
        ≡ only (text_eq (o.hash token) h) (revoke_spec (view (o.hash token) s)) (view h s)
  unfolding revoke view
  revoke-view token h now s =
      revoke_found-view (o.hash token) h now (lookup (o.hash token) s) s refl

  pub create-view :
      (token claims h : Text) (until : ℕ) (s : Store)
      → view h (create o token claims until s).0
        ≡ only
            (text_eq (o.hash token) h)
            (create_spec (o.marshal_raw claims) until (view (o.hash token) s))
            (view h s)
  unfolding create
  create-view token claims h until s =
      create_row-view (o.hash token) h until (o.marshal_raw claims) s

  revoke_matching-status :
      (matcher : Dict J) (now : ℕ) (row : Row)
      → row_status (revoke_matching o matcher now row)
        ≡ revoke_if (λ c. match_claims o c matcher) (row_status row)
  unfolding revoke_matching
  revoke_matching-status matcher now row =
      revoke_if-status (match_claims o row.claims matcher) now row.claims row.expires_at
        row.revoked_at
      ∙ matched_claims (λ c. match_claims o c matcher) row.claims row.expires_at row.revoked_at

  pub revoke_rows-view :
      (matcher : Dict J) (seen_at : Text → ℕ) (h : Text) (s : Store)
      → view h (revoke_rows o matcher seen_at s)
        ≡ revoke_if (λ c. match_claims o c matcher) (view h s)
  unfolding revoke_rows view lookup
  revoke_rows-view matcher seen_at h [] = refl
  revoke_rows-view matcher seen_at h ((k, row) ∷ s) = elim (Bool-cases (text_eq k h)) [
    | inl b ↦ rw b (revoke_matching-status matcher (seen_at k) row)
    | inr b ↦ rw b (revoke_rows-view matcher seen_at h s)
  ]

  pub revoke_all-view :
      (matcher : Dict J) (seen_at : Text → ℕ) (h : Text) (s : Store)
      → view h (revoke_all o matcher seen_at s).0 ≡ (
          if is_empty matcher
          then view h s
          else revoke_if (λ c. match_claims o c matcher) (view h s))
  unfolding revoke_all
  revoke_all-view matcher seen_at h s = elim (Bool-cases (is_empty matcher)) [
    | inl e ↦ rw e refl
    | inr e ↦ rw e (revoke_rows-view matcher seen_at h s)
  ]

  -- The memory store does to the status of each token what the contract of a refresh store says:
  -- Create makes its token usable until a point in time, unless the claims cannot be marshalled;
  -- Consume answers with the claims once, then with the reuse of the token, and with not found for
  -- a token that is unknown or has expired; Revoke ends its token; RevokeAll ends the usable tokens
  -- whose claims match, and none for an empty matcher. No other token is touched.
  pub view-refines :
      (token claims h : Text) (now later until : ℕ) (matcher : Dict J) (seen_at : Text → ℕ)
      (s : Store)
      → (view h (create o token claims until s).0
          ≡ only
              (text_eq (o.hash token) h)
              (create_spec (o.marshal_raw claims) until (view (o.hash token) s))
              (view h s))
        × (view h (consume o token now later s).0
            ≡ only
                (text_eq (o.hash token) h)
                (consume_spec now (view (o.hash token) s)).0
                (view h s))
        × ((consume o token now later s).1 ≡ (consume_spec now (view (o.hash token) s)).1)
        × (view h (revoke o token now s)
            ≡ only (text_eq (o.hash token) h) (revoke_spec (view (o.hash token) s)) (view h s))
        × (view h (revoke_all o matcher seen_at s).0 ≡ (
            if is_empty matcher
            then view h s
            else revoke_if (λ c. match_claims o c matcher) (view h s)))
  view-refines token claims h now later until matcher seen_at s = (
    create-view token claims h until s,
    (consume-view token h now later s).0,
    (consume-view token h now later s).1,
    revoke-view token h now s,
    revoke_all-view matcher seen_at h s,
  )
