-- ===== src/Identity/Sessions/Reuse.antt =====
-- A refresh token that is shown again (`refresh` of backend/mizan/apps/identity/services.py).
use mathlib.Core.Path.{subst}
use mizan_labs_v.Prelude.{
  ℕ, ◌≤◌, String, ◌≡◌, ◌≢◌, ◌⊎◌, refl, ◌∙◌, Bool, true, false, ◌&&◌, not, ◌||◌, some, inl, inr,
  List, [], ◌∷◌, ◌++◌, leb, ◌==◌, ==_iff, str_eq, if◌then◌else◌, Bool-cases, Option-cases, arith,
}
use mizan_labs_v.Identity.{
  RefreshToken, Database, AuthError, Answer, ok, err, Session, refresh_token_reused,
}
use mizan_labs_v.Identity.Sessions.{
  Draw, update_rows, count_rows, first_row, is_usable, is_unrevoked, is_none, is_active, revoke,
  revoke_all, is_claimed, new_token, refresh_check, refresh_claim, refresh, disable_user,
}
use mizan_labs_v.Identity.Sessions.Tokens.{live, live-append, live-revoke_session}

picked :
    {b : Bool} (u t : RefreshToken) (q : RefreshToken → Bool) (f : RefreshToken → RefreshToken)
    → some u ≡ some t
    → q u ≡ b
    → some (if b then f u else u) ≡ some (if q t then f t else t)
picked {b} u t q f e h =
    (let s : u ≡ t = cc in
      subst (λ t. some (if b then f u else u) ≡ some (if q t then f t else t)) s (rw h refl))

module _ (p : RefreshToken → Bool) where
  pub first_row-append :
      (ts us : List RefreshToken) {t : RefreshToken}
      → first_row p ts ≡ some t
      → first_row p (ts ++ us) ≡ some t
  unfolding first_row
  first_row-append [] us h = cc
  first_row-append (u ∷ ts) us h = elim (Bool-cases (p u)) [
    | inl hit ↦ rw hit (rw hit at h)
    | inr skip ↦ rw skip (first_row-append ts us (rw skip at h))
  ]

  pub first_row-update_rows :
      (q : RefreshToken → Bool) (f : RefreshToken → RefreshToken) (ts : List RefreshToken)
      {t : RefreshToken}
      → ((u : RefreshToken) → p (f u) ≡ p u)
      → first_row p ts ≡ some t
      → first_row p (update_rows q f ts) ≡ some (if q t then f t else t)
  unfolding first_row update_rows
  first_row-update_rows q f [] same h = cc
  first_row-update_rows q f (u ∷ ts) {t} same h = elim (Bool-cases (p u)) [
    | inl hit ↦
        (let e : some u ≡ some t = rw hit at h in
          let k = same u in
          elim (Bool-cases (q u)) [
            | inl yes_q ↦ rw (yes_q, k, hit) (picked u t q f e yes_q)
            | inr no_q ↦ rw (no_q, hit) (picked u t q f e no_q)
          ])
    | inr skip ↦
        (let rest = first_row-update_rows q f ts same (rw skip at h) in
          let k = same u in
          elim (Bool-cases (q u)) [
            | inl yes_q ↦ rw (yes_q, k, skip) rest
            | inr no_q ↦ rw (no_q, skip) rest
          ])
  ]

pub count_claimed :
    (hash : String → String) (ttl id now : ℕ) (ts : List RefreshToken)
    → count_rows
        (is_claimed hash ttl id)
        (update_rows (is_claimed hash ttl id) (λ t. record t { used_at = some now }) ts)
      ≡ 0
unfolding count_rows update_rows
count_claimed hash ttl id now [] = refl
count_claimed hash ttl id now (t ∷ ts) = let rest = count_claimed hash ttl id now ts in ground arith

Answer-cases :
    {A : Type 0} (a : Answer A) → ((x : A) × (a ≡ ok x)) ⊎ ((e : AuthError) × (a ≡ err e))
Answer-cases (ok x) = inl (x, refl)
Answer-cases (err e) = inr (e, refl)

count-append :
    (p : RefreshToken → Bool) (ts : List RefreshToken) (t : RefreshToken)
    → p t ≡ false
    → count_rows p (ts ++ (t ∷ [])) ≡ count_rows p ts
unfolding count_rows
count-append p [] t h = rw h refl
count-append p (u ∷ ts) t h = elim (Bool-cases (p u)) [
  | inl e ↦ rw (e, count-append p ts t h) refl
  | inr e ↦ rw (e, count-append p ts t h) refl
]

module _ (hash : String → String) (ttl : ℕ) where
  abbrev pub shown : String → RefreshToken → Bool
  shown raw t = str_eq t.token_hash (hash raw)

  -- What the first transaction checks of a token that it lets through.
  check-ok :
      (now : ℕ) (raw : String) (db : Database) {token : RefreshToken}
      → (refresh_check hash ttl now raw db).1 ≡ ok token
      → ((refresh_check hash ttl now raw db).0 ≡ db)
        × (first_row (shown raw) db.tokens ≡ some token)
        × (is_usable token ≡ true)
  unfolding refresh_check
  check-ok now raw db {token} h = elim (Option-cases (first_row (shown raw) db.tokens)) [
    | inl e ↦ (let x = rw (refresh_check, e) at h in cc)
    | inr (t, e) ↦ elim (Bool-cases (not (is_none t.revoked_at) || not (is_none t.used_at))) [
      | inl spent ↦ (let x = rw (refresh_check, e, spent) at h in cc)
      | inr unspent ↦ elim (Bool-cases (leb t.expires_at now)) [
        | inl late ↦ (let x = rw (refresh_check, e, unspent, late) at h in cc)
        | inr early ↦ elim (Option-cases (first_row (λ u. u.id == t.user_id) db.users)) [
          | inl gone ↦ (let x = rw (refresh_check, e, unspent, early, gone) at h in cc)
          | inr (user, found) ↦ elim (Bool-cases (is_active user)) [
            | inr off ↦ (let x = rw (refresh_check, e, unspent, early, found, off) at h in cc)
            | inl on ↦
                (let x : ok t ≡ ok token = rw (refresh_check, e, unspent, early, found, on) at h in
                  let same : t ≡ token = cc in
                  rw (refresh_check, e, unspent, early, found, on)
                    (refl, cc, subst (λ t. is_usable t ≡ true) same (ground arith)))
          ]
        ]
      ]
    ]
  ]

  -- A token that was used or revoked is refused, and its session is left without a usable one.
  pub check_reused :
      (now : ℕ) (raw : String) (db : Database) {token : RefreshToken}
      → first_row (shown raw) db.tokens ≡ some token
      → is_usable token ≡ false
      → ((refresh_check hash ttl now raw db).1 ≡ err refresh_token_reused)
        × (live token.session_id (refresh_check hash ttl now raw db).0.tokens ≡ 0)
  unfolding refresh_check
  check_reused now raw db {token} e spent =
      let refused : (not (is_none token.revoked_at) || not (is_none token.used_at)) ≡ true =
        ground arith in
      rw (refresh_check, e, refused) (refl, live-revoke_session token.session_id now db.tokens)

  -- A claim that is won: the row is marked as used, and a token of the same session comes after it.
  pub claim-ok :
      (draw : Draw) (now : ℕ) (token : RefreshToken) (db : Database) {session : Session}
      → (refresh_claim hash ttl draw now token db).1 ≡ ok session
      → ((refresh_claim hash ttl draw now token db).0.tokens
          ≡ update_rows
              (is_claimed hash ttl token.id)
              (λ t. record t { used_at = some now })
              db.tokens
            ++ (new_token hash ttl draw token.user_id token.session_id ∷ []))
        × (session.session_id ≡ token.session_id)
  unfolding refresh_claim
  claim-ok draw now token db {session} h =
      elim (Bool-cases (count_rows (is_claimed hash ttl token.id) db.tokens == 1)) [
        | inl won ↦ (let x = rw (refresh_claim, won) at h in rw (refresh_claim, won) (refl, cc))
        | inr lost ↦ (let x = rw (refresh_claim, lost) at h in cc)
      ]

  -- Of two calls that have both passed the check of one token, at most one gets a session: after the
  -- one that does, the other is refused, and the session is still in use, since what the refused call
  -- writes is rolled back.
  pub claim_once :
      (draw draw' : Draw) (now now' : ℕ) (token : RefreshToken) (db : Database) {session : Session}
      → draw.token_id ≢ token.id
      → (refresh_claim hash ttl draw now token db).1 ≡ ok session
      → ((refresh_claim hash ttl draw' now' token (refresh_claim hash ttl draw now token db).0).1
          ≡ err refresh_token_reused)
        × (1
            ≤ live token.session_id
                (refresh_claim hash ttl draw' now' token
                  (refresh_claim hash ttl draw now token db).0).0.tokens)
  unfolding refresh_claim
  claim_once draw draw' now now' token db fresh h =
      let claim = is_claimed hash ttl token.id in
      let made = new_token hash ttl draw token.user_id token.session_id in
      let db' = (refresh_claim hash ttl draw now token db).0 in
      let marked = update_rows claim (λ t. record t { used_at = some now }) db.tokens in
      let tokens : db'.tokens ≡ marked ++ (made ∷ []) = (claim-ok draw now token db h).0 in
      let not_new : claim made ≡ false = (let i = ==_iff draw.token_id token.id in ground arith) in
      let none_left : count_rows claim db'.tokens ≡ 0 =
        rw tokens (
          count-append claim marked made not_new ∙ count_claimed hash ttl token.id now db.tokens) in
      let lost : (count_rows claim db'.tokens == 1) ≡ false = rw none_left refl in
      let lives = live-append token.session_id marked made in
      let at_itself : (token.session_id == token.session_id) ≡ true =
        (==_iff token.session_id token.session_id).1 refl in
      rw (refresh_claim, lost) (refl, rw (tokens, lives, at_itself) (omega arith))

  pub refresh-ok :
      (draw : Draw) (now : ℕ) (raw : String) (db : Database) {session : Session}
      → (refresh hash ttl draw now raw db).1 ≡ ok session
      → (token : RefreshToken) × (first_row (shown raw) db.tokens ≡ some token)
        × (is_usable token ≡ true)
        × ((refresh_claim hash ttl draw now token db).1 ≡ ok session)
        × ((refresh hash ttl draw now raw db).0 ≡ (refresh_claim hash ttl draw now token db).0)
  unfolding refresh
  refresh-ok draw now raw db {session} h =
      elim (Answer-cases (refresh_check hash ttl now raw db).1) [
        | inl (token, e) ↦
            (let (same, row, usable) = check-ok now raw db e in
              let x = rw (refresh, e, same) at h in
              (token, row, usable, x, rw (refresh, e, same) refl))
        | inr (error, e) ↦ (let x = rw (refresh, e) at h in cc)
      ]

  -- Once a user is disabled, no refresh token of theirs gives a session.
  pub refresh-disable_user :
      (draw : Draw) (now now' user_id : ℕ) (raw : String) (db : Database) {token : RefreshToken}
      → first_row (shown raw) db.tokens ≡ some token
      → token.user_id ≡ user_id
      → (refresh hash ttl draw now' raw (disable_user now user_id db)).1 ≡ err refresh_token_reused
  unfolding refresh disable_user revoke_all
  refresh-disable_user draw now now' user_id raw db {token} row own =
      let mine : RefreshToken → Bool = λ t. t.user_id == user_id && is_unrevoked t in
      let row' = first_row-update_rows (shown raw) mine (revoke now) db.tokens (λ u. refl) row in
      let it : (token.user_id == user_id) ≡ true = (==_iff token.user_id user_id).1 own in
      let spent : is_usable (if mine token then revoke now token else token) ≡ false =
        ground arith in
      let (refused, dead) = check_reused now' raw (disable_user now user_id db) row' spent in
      rw (refresh, refused) refl
