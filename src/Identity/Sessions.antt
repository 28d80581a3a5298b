-- ===== src/Identity/Sessions.antt =====
-- Sessions (backend/mizan/apps/identity/services.py): `login`, `refresh` with the rotation of its
-- token, `logout`, `revoke_all_sessions`, `change_password` and `disable_user`. The hash of a token,
-- Django's password functions and the comparison of e-mails that the database makes are arguments,
-- as are the clock and the random values. `refresh` is in its two transactions, between which others
-- may run. The access token, a function of the user and the session, is left out.
pub mod Tokens
pub mod Steps
pub mod Rotation
pub mod Reuse
pub mod Spent
use mizan_labs_v.Prelude.{
  ℕ, suc, ◌+◌, String, ◌≡◌, Bool, true, false, ◌&&◌, ◌||◌, not, Option, none, some, List, [], ◌∷◌,
  ◌++◌, map, ltb, leb, ◌==◌, str_eq, any, if◌then◌else◌,
}
use mizan_labs_v.Identity.{
  UserStatus, active, disabled, User, RefreshToken, AuditEntry, Database, AuthError,
  invalid_credentials, account_disabled, tenant_required, invalid_refresh_token,
  refresh_token_reused, refresh_token_expired, weak_password, Answer, ok, err, Session,
}

abbrev pub is_none {ℓ} : {A : Type ℓ} → Option A → Bool
is_none none = true
is_none (some a) = false

abbrev pub is_active : User → Bool
is_active u = elim u.status [ active ↦ true | disabled ↦ false ]

-- The rows of a query's `filter`, and `.update` on them.
unfoldable pub where_rows {ℓ} : {A : Type ℓ} → (A → Bool) → List A → List A
where_rows p [] = []
where_rows p (x ∷ xs) = let rest = where_rows p xs in if p x then x ∷ rest else rest

unfoldable pub update_rows {ℓ} : {A : Type ℓ} → (A → Bool) → (A → A) → List A → List A
update_rows p f [] = []
update_rows p f (x ∷ xs) = (if p x then f x else x) ∷ update_rows p f xs

-- The number of rows that `.update` reports.
unfoldable pub count_rows {ℓ} : {A : Type ℓ} → (A → Bool) → List A → ℕ
count_rows p [] = 0
count_rows p (x ∷ xs) = let rest = count_rows p xs in if p x then suc rest else rest

unfoldable pub first_row {ℓ} : {A : Type ℓ} → (A → Bool) → List A → Option A
first_row p [] = none
first_row p (x ∷ xs) = if p x then some x else first_row p xs

abbrev pub in_session : ℕ → RefreshToken → Bool
in_session session_id t = t.session_id == session_id

abbrev pub is_unrevoked : RefreshToken → Bool
is_unrevoked t = is_none t.revoked_at

-- Neither used nor revoked.
abbrev pub is_usable : RefreshToken → Bool
is_usable t = is_none t.used_at && is_none t.revoked_at

abbrev pub revoke : ℕ → RefreshToken → RefreshToken
revoke now t = record t { revoked_at = some now }

-- The revocation of a session, and of all sessions of a user.
unfoldable pub revoke_session : ℕ → ℕ → List RefreshToken → List RefreshToken
unfolding update_rows
revoke_session now session_id =
    update_rows (λ t. in_session session_id t && is_unrevoked t) (revoke now)

unfoldable pub revoke_all : ℕ → ℕ → List RefreshToken → List RefreshToken
unfolding update_rows
revoke_all now user_id = update_rows (λ t. t.user_id == user_id && is_unrevoked t) (revoke now)

abbrev pub record_audit : ℕ → String → Database → Database
record_audit user_id action db = record db {
  audit = db.audit ++ (record { aggregate_id = user_id; action = action } ∷ []);
}

-- What a call takes from outside: the clock, the random values and the identifier of a new row.
pub record Draw : Type 0 where
  pub now : ℕ
  pub token_id : ℕ
  pub raw : String

module _ (hash : String → String) (refresh_ttl : ℕ) where
  abbrev pub new_token : Draw → ℕ → ℕ → RefreshToken
  new_token draw user_id session_id = record {
    id = draw.token_id;
    user_id = user_id;
    session_id = session_id;
    token_hash = hash draw.raw;
    expires_at = draw.now + refresh_ttl;
    used_at = none;
    revoked_at = none;
  }

  -- _session_for, with _new_refresh_token
  abbrev pub session_for : Draw → ℕ → ℕ → Database → Database × Answer Session
  session_for draw user_id session_id db = (
    record db { tokens = db.tokens ++ (new_token draw user_id session_id ∷ []) },
    ok (record { user_id = user_id; session_id = session_id; refresh_token = draw.raw }),
  )

  -- The first transaction of `refresh`: the token, if it may be rotated. A token that was used or
  -- revoked revokes its session, which is kept.
  unfoldable pub refresh_check : ℕ → String → Database → Database × Answer RefreshToken
  unfolding first_row revoke_session
  refresh_check now raw db = elim (first_row (λ t. str_eq t.token_hash (hash raw)) db.tokens) [
    | none ↦ (db, err invalid_refresh_token)
    | some token ↦
        if not (is_none token.revoked_at) || not (is_none token.used_at)
        then (
          record db { tokens = revoke_session now token.session_id db.tokens },
          err refresh_token_reused,
        )
        else if leb token.expires_at now
        then (db, err refresh_token_expired)
        else elim (first_row (λ u. u.id == token.user_id) db.users) [
          | none ↦ (db, err account_disabled)
          | some user ↦ if is_active user then (db, ok token) else (db, err account_disabled)
        ]
  ]

  abbrev pub is_claimed : ℕ → RefreshToken → Bool
  is_claimed id t = t.id == id && is_usable t

  -- The second: the token is claimed and a new one made. Where the claim fails the session is
  -- revoked, but the error leaves the transaction, which is rolled back.
  unfoldable pub refresh_claim : Draw → ℕ → RefreshToken → Database → Database × Answer Session
  unfolding update_rows count_rows revoke_session
  refresh_claim draw now token db =
      let claimed =
        update_rows (is_claimed token.id) (λ t. record t { used_at = some now }) db.tokens in
      if count_rows (is_claimed token.id) db.tokens == 1
      then session_for draw token.user_id token.session_id (record db { tokens = claimed })
      else (db, err refresh_token_reused)

  -- Both, with nothing between them.
  unfoldable pub refresh : Draw → ℕ → String → Database → Database × Answer Session
  unfolding refresh_check refresh_claim
  refresh draw now raw db =
      let checked = refresh_check now raw db in
      elim checked.1 [
        | err e ↦ (checked.0, err e)
        | ok token ↦ refresh_claim draw now token checked.0
      ]

  unfoldable pub logout : ℕ → String → Database → Database
  unfolding first_row revoke_session
  logout now raw db = elim (first_row (λ t. str_eq t.token_hash (hash raw)) db.tokens) [
    | none ↦ db
    | some token ↦ record db { tokens = revoke_session now token.session_id db.tokens }
  ]

  module _ (same_email : String → String → Bool) (check_password : String → String → Bool) where
    -- tenant_id in {id of the tenants with the code}
    abbrev pub of_tenant : String → List (ℕ × String) → User → Bool
    of_tenant code tenants u = elim u.tenant_id [
      | none ↦ false
      | some id ↦ any (λ t. str_eq t.1 code && t.0 == id) tenants
    ]

    -- A missing or empty code keeps every candidate.
    unfoldable pub candidates : String → String → Database → List User
    unfolding where_rows
    candidates email tenant_code db =
        let found = where_rows (λ u. same_email u.email email) db.users in
        if str_eq tenant_code "" then found else where_rows (of_tenant tenant_code db.tenants) found

    unfoldable pub login :
        Draw → ℕ → String → String → String → Database → Database × Answer Session
    unfolding candidates update_rows
    login draw session_id email password tenant_code db = elim (candidates email tenant_code db) [
      | [] ↦ (db, err invalid_credentials)
      | user ∷ [] ↦
          if not (check_password user.password password)
          then (record_audit user.id "login_failed" db, err invalid_credentials)
          else if not (is_active user)
          then (record_audit user.id "login_refused_disabled" db, err account_disabled)
          else (let seen =
                update_rows (λ u. u.id == user.id) (λ u. record u { last_login = some draw.now })
                  db.users in
              let (db', answer) =
                session_for draw user.id session_id (record db { users = seen }) in
              (record_audit user.id "login" db', answer))
      | user ∷ other ∷ more ↦ (db, err tenant_required)
    ]

    -- `valid` and `make_password` are Django's.
    unfoldable pub change_password :
        (String → Bool)
        → (String → String)
        → ℕ
        → User
        → String
        → String
        → Database
        → Database × Answer (Unit {0})
    unfolding update_rows revoke_all
    change_password valid make_password now user current new db =
        if not (check_password user.password current)
        then (db, err invalid_credentials)
        else if not (valid new)
        then (db, err weak_password)
        else (
          record_audit user.id "password_changed" (record db {
            users =
                update_rows (λ u. u.id == user.id)
                  (λ u. record u { password = make_password new; must_change_password = false })
                  db.users;
            tokens = revoke_all now user.id db.tokens;
          }),
          ok tt,
        )

abbrev pub emit : String → ℕ → Database → Database
emit code user_id db = record db {
  events = db.events ++ (record { code = code; aggregate_id = user_id } ∷ []);
}

unfoldable pub disable_user : ℕ → ℕ → Database → Database
unfolding update_rows revoke_all
disable_user now user_id db = emit "user.disabled" user_id (
    record_audit user_id "disabled" (record db {
      users =
          update_rows (λ u. u.id == user_id)
            (λ u. record u { status = disabled; disabled_at = some now }) db.users;
      tokens = revoke_all now user_id db.tokens;
    }))
