-- ===== src/Identity/Sessions/Spent.antt =====
-- What the calls of backend/mizan/apps/identity/services.py do to the table of tokens, and a token that
-- was rotated.
use mizan_labs_v.Prelude.{
  ℕ, String, ◌≡◌, ◌∙◌, refl, Bool, true, false, ◌||◌, not, some, inl, inr, List, [], ◌∷◌, ◌++◌, leb,
  ◌==◌, ==_iff, Bool-cases, Option-cases, arith,
}
use mizan_labs_v.Identity.{User, RefreshToken, Database, ok, err, Session, refresh_token_reused}
use mizan_labs_v.Identity.Sessions.{
  Draw, update_rows, count_rows, first_row, is_none, is_active, is_usable, revoke, revoke_session,
  revoke_all, is_claimed, refresh_check, refresh_claim, refresh, logout, login, candidates,
  change_password, disable_user,
}
use mizan_labs_v.Identity.Sessions.Tokens.{live}
use mizan_labs_v.Identity.Sessions.Steps.{
  World, Step, checks, claims, logs_in, logs_out, changes_password, disables, Reach, start, next,
}
use mizan_labs_v.Identity.Sessions.Rotation.{none_found, one_found, many, List-cases}
use mizan_labs_v.Identity.Sessions.Reuse.{
  first_row-append, first_row-update_rows, shown, check_reused, claim-ok, refresh-ok,
}

-- What the calls do to the tokens: they revoke some, mark some as used, and add one.
pub record IsClosed (P : List RefreshToken → Type 0) : Type 0 where
  pub revoked :
      (p : RefreshToken → Bool) (now : ℕ) (ts : List RefreshToken)
      → P ts
      → P (update_rows p (revoke now) ts)
  pub used :
      (p : RefreshToken → Bool) (now : ℕ) (ts : List RefreshToken)
      → P ts
      → P (update_rows p (λ t. record t { used_at = some now }) ts)
  pub added : (t : RefreshToken) (ts : List RefreshToken) → P ts → P (ts ++ (t ∷ []))

module _ (hash : String → String) (ttl : ℕ) (same_email check_password : String → String → Bool)
    (valid : String → Bool) (make_password : String → String) (session_of : ℕ → ℕ)
    (P : List RefreshToken → Type 0) (closed : IsClosed P) where
  checks-closed :
      (now : ℕ) (raw : String) (db : Database)
      → P db.tokens
      → P (refresh_check hash ttl now raw db).0.tokens
  unfolding refresh_check revoke_session
  checks-closed now raw db h = elim (Option-cases (first_row (shown hash ttl raw) db.tokens)) [
    | inl e ↦ rw (refresh_check, e) h
    | inr (t, e) ↦ elim (Bool-cases (not (is_none t.revoked_at) || not (is_none t.used_at))) [
      | inl spent ↦ rw (refresh_check, e, spent) (closed.revoked _ now db.tokens h)
      | inr fresh ↦ elim (Bool-cases (leb t.expires_at now)) [
        | inl late ↦ rw (refresh_check, e, fresh, late) h
        | inr early ↦ elim (Option-cases (first_row (λ u. u.id == t.user_id) db.users)) [
          | inl gone ↦ rw (refresh_check, e, fresh, early, gone) h
          | inr (user, found) ↦ elim (Bool-cases (is_active user)) [
            | inl on ↦ rw (refresh_check, e, fresh, early, found, on) h
            | inr off ↦ rw (refresh_check, e, fresh, early, found, off) h
          ]
        ]
      ]
    ]
  ]

  claims-closed :
      (draw : Draw) (now : ℕ) (token : RefreshToken) (db : Database)
      → P db.tokens
      → P (refresh_claim hash ttl draw now token db).0.tokens
  unfolding refresh_claim
  claims-closed draw now token db h =
      elim (Bool-cases (count_rows (is_claimed hash ttl token.id) db.tokens == 1)) [
        | inr lost ↦ rw (refresh_claim, lost) h
        | inl won ↦ rw (refresh_claim, won) (closed.added _ _ (closed.used _ now db.tokens h))
      ]

  logs_in-closed :
      (draw : Draw) (session_id : ℕ) (email password code : String) (db : Database)
      → P db.tokens
      → P (login hash ttl same_email check_password draw session_id email password code db).0.tokens
  unfolding login
  logs_in-closed draw session_id email password code db h =
      elim (List-cases (candidates hash ttl same_email check_password email code db)) [
        | none_found e ↦ rw (login, e) h
        | many a b more e ↦ rw (login, e) h
        | one_found user e ↦ elim (Bool-cases (check_password user.password password)) [
          | inr wrong ↦ rw (login, e, wrong) h
          | inl right ↦ elim (Bool-cases (is_active user)) [
            | inr off ↦ rw (login, e, right, off) h
            | inl on ↦ rw (login, e, right, on) (closed.added _ db.tokens h)
          ]
        ]
      ]

  logs_out-closed :
      (now : ℕ) (raw : String) (db : Database) → P db.tokens → P (logout hash ttl now raw db).tokens
  unfolding logout revoke_session
  logs_out-closed now raw db h = elim (Option-cases (first_row (shown hash ttl raw) db.tokens)) [
    | inl e ↦ rw (logout, e) h
    | inr (t, e) ↦ rw (logout, e) (closed.revoked _ now db.tokens h)
  ]

  changes_password-closed :
      (now : ℕ) (user : User) (current new : String) (db : Database)
      → P db.tokens
      → P
          (change_password hash ttl same_email check_password valid make_password now user current
            new db).0.tokens
  unfolding change_password revoke_all
  changes_password-closed now user current new db h =
      elim (Bool-cases (check_password user.password current)) [
        | inr wrong ↦ rw (change_password, wrong) h
        | inl right ↦ elim (Bool-cases (valid new)) [
          | inr weak ↦ rw (change_password, right, weak) h
          | inl strong ↦ rw (change_password, right, strong) (closed.revoked _ now db.tokens h)
        ]
      ]

  Step-closed :
      {w v : World}
      → Step hash ttl same_email check_password valid make_password session_of w v
      → P w.db.tokens
      → P v.db.tokens
  unfolding disable_user revoke_all
  Step-closed {w} (checks now raw) h = checks-closed now raw w.db h
  Step-closed {w} (claims draw now token m own) h = claims-closed draw now token w.db h
  Step-closed {w} (logs_in draw session_id email password code own none_yet) h =
      logs_in-closed draw session_id email password code w.db h
  Step-closed {w} (logs_out now raw) h = logs_out-closed now raw w.db h
  Step-closed {w} (changes_password now user current new) h =
      changes_password-closed now user current new w.db h
  Step-closed {w} (disables now user_id) h = closed.revoked _ now w.db.tokens h

  pub Reach-closed :
      {w v : World}
      → Reach hash ttl same_email check_password valid make_password session_of w v
      → P w.db.tokens
      → P v.db.tokens
  Reach-closed start h = h
  Reach-closed (next r step) h = Step-closed step (Reach-closed r h)

module _ (hash : String → String) (ttl : ℕ) where
  -- The token that is found under this text is of the session, and was used or revoked.
  abbrev IsSpent : String → ℕ → List RefreshToken → Type 0
  IsSpent raw session_id ts =
      (t : RefreshToken) × (first_row (shown hash ttl raw) ts ≡ some t)
      × (is_usable t ≡ false)
      × (t.session_id ≡ session_id)

  update_rows-IsSpent :
      (raw : String) (session_id : ℕ) (q : RefreshToken → Bool) (f : RefreshToken → RefreshToken)
      (ts : List RefreshToken)
      → ((u : RefreshToken) → shown hash ttl raw (f u) ≡ shown hash ttl raw u)
      → ((u : RefreshToken) → (is_usable (f u) ≡ false) × ((f u).session_id ≡ u.session_id))
      → IsSpent raw session_id ts
      → IsSpent raw session_id (update_rows q f ts)
  update_rows-IsSpent raw session_id q f ts same spends (t, row, spent, own) =
      let moved = first_row-update_rows (shown hash ttl raw) q f ts same row in
      elim (Bool-cases (q t)) [
        | inl hit ↦ (f t, rw hit at moved, (spends t).0, (spends t).1 ∙ own)
        | inr miss ↦ (t, rw miss at moved, spent, own)
      ]

  IsSpent-IsClosed : (raw : String) (session_id : ℕ) → IsClosed (IsSpent raw session_id)
  IsSpent-IsClosed raw session_id = record {
    revoked = λ q now ts h.
        update_rows-IsSpent raw session_id q (revoke now) ts (λ u. refl) (λ u. (ground arith, refl))
          h;
    used = λ q now ts h.
        update_rows-IsSpent raw session_id q (λ t. record t { used_at = some now }) ts (λ u. refl)
          (λ u. (refl, refl)) h;
    added = λ t ts (u, row, spent, own).
        (u, first_row-append (shown hash ttl raw) ts (t ∷ []) row, spent, own);
  }

  refresh-IsSpent :
      (draw : Draw) (now : ℕ) (raw : String) (db : Database) {session : Session}
      → (refresh hash ttl draw now raw db).1 ≡ ok session
      → IsSpent raw session.session_id (refresh hash ttl draw now raw db).0.tokens
  refresh-IsSpent draw now raw db {session} h =
      let (token, row, usable, claimed, after) = refresh-ok hash ttl draw now raw db h in
      let db' = (refresh hash ttl draw now raw db).0 in
      let mark : RefreshToken → RefreshToken = λ t. record t { used_at = some now } in
      let claim = is_claimed hash ttl token.id in
      let marked = update_rows claim mark db.tokens in
      let (tokens, same_session) = claim-ok hash ttl draw now token db claimed in
      let it : claim token ≡ true = (let i = (==_iff token.id token.id).1 refl in ground arith) in
      let row' : first_row (shown hash ttl raw) marked ≡ some (mark token) =
        (let moved =
            first_row-update_rows (shown hash ttl raw) claim mark db.tokens (λ u. refl) row in
          rw it at moved) in
      let stored : first_row (shown hash ttl raw) db'.tokens ≡ some (mark token) =
        rw (after, tokens) (first_row-append (shown hash ttl raw) marked _ row') in
      (mark token, stored, refl, rw same_session refl)

module _ (hash : String → String) (ttl : ℕ) (same_email check_password : String → String → Bool)
    (valid : String → Bool) (make_password : String → String) (session_of : ℕ → ℕ) where
  -- The token that a refresh has rotated is refused from then on: whatever calls follow, in whatever
  -- order and between the two transactions of one another, showing it again is answered as a reuse and
  -- leaves its session without a usable token.
  pub refresh_rotated :
      (draw draw' : Draw) (now now' : ℕ) (raw : String) (db : Database)
      (pending : List RefreshToken) {session : Session} {later : World}
      → (refresh hash ttl draw now raw db).1 ≡ ok session
      → Reach hash ttl same_email check_password valid make_password session_of
          (record { db = (refresh hash ttl draw now raw db).0; pending = pending })
          later
      → ((refresh hash ttl draw' now' raw later.db).1 ≡ err refresh_token_reused)
        × (live session.session_id (refresh hash ttl draw' now' raw later.db).0.tokens ≡ 0)
  unfolding refresh
  refresh_rotated draw draw' now now' raw db pending {session} {later} h run =
      let (t, row, spent, own) =
        Reach-closed hash ttl same_email check_password valid make_password session_of
          (IsSpent hash ttl raw session.session_id)
          (IsSpent-IsClosed hash ttl raw session.session_id) run
          (refresh-IsSpent hash ttl draw now raw db h) in
      let (refused, dead) = check_reused hash ttl now' raw later.db row spent in
      rw (refresh, refused) (refl, rw own at dead)
