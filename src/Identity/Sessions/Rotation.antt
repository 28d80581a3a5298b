-- ===== src/Identity/Sessions/Rotation.antt =====
-- What each call of backend/mizan/apps/identity/services.py leaves of the usable tokens of a session.
use mathlib.Core.Path.{subst}
use mizan_labs_v.Prelude.{
  ℕ, ◌+◌, ◌≤◌, String, ◌≡◌, refl, sym, Bool, true, ◌&&◌, not, ◌||◌, some, inl, inr, List, [], ◌∷◌,
  ◌++◌, leb, ◌==◌, ==_iff, str_eq, if◌then◌else◌, Bool-cases, Option-cases, All, arith,
}
use mizan_labs_v.Identity.{User, RefreshToken, Database}
use mizan_labs_v.Identity.Sessions.{
  Draw, update_rows, count_rows, first_row, is_none, is_active, revoke, revoke_session, revoke_all,
  is_claimed, new_token, refresh_check, refresh_claim, logout, login, candidates, change_password,
  disable_user,
}
use mizan_labs_v.Identity.Sessions.Tokens.{
  live, live-append, All-update_rows, live-revoke_session_le, live-revoke_all_le,
}
use mizan_labs_v.Identity.Sessions.Steps.{
  World, let_through, In, here, there, Owned, IsRotating, Step, checks, claims, logs_in, logs_out,
  changes_password, disables, Reach, start, next,
}

All-In :
    (P : RefreshToken → Type 0) {t : RefreshToken} {ts : List RefreshToken}
    → All P ts
    → In t ts
    → P t
All-In P h here = h.0
All-In P h (there m) = All-In P h.1 m

All-snoc :
    (P : RefreshToken → Type 0) (ts : List RefreshToken) (t : RefreshToken)
    → All P ts
    → P t
    → All P (ts ++ (t ∷ []))
All-snoc P [] t h p = (p, tt)
All-snoc P (u ∷ ts) t h p = (h.0, All-snoc P ts t h.1 p)

first_row-All :
    (P : RefreshToken → Type 0) (p : RefreshToken → Bool) (ts : List RefreshToken)
    {t : RefreshToken}
    → All P ts
    → first_row p ts ≡ some t
    → P t
unfolding first_row
first_row-All P p [] h e = cc
first_row-All P p (u ∷ ts) {t} h e = elim (Bool-cases (p u)) [
  | inl hit ↦ (let same = rw hit at e in subst P (cc) h.0)
  | inr skip ↦ first_row-All P p ts h.1 (rw skip at e)
]

-- One usable token fewer and at most one more.
single_again :
    (before after count s owner session_id : ℕ)
    → owner ≡ session_id
    → (count == 1) ≡ true
    → after + (if owner == s then count else 0) ≡ before
    → before ≤ 1
    → after + (if session_id == s && true then 1 else 0) ≤ 1
single_again before after count s owner session_id own one taken bound = ground arith

first_of_session :
    (n s session_id : ℕ)
    → n ≤ 1
    → (s ≡ session_id → n ≡ 0)
    → n + (if session_id == s && true then 1 else 0) ≤ 1
first_of_session n s session_id bound h = elim (Bool-cases (session_id == s)) [
  | inl same ↦ (let empty = h (sym ((==_iff session_id s).0 same)) in ground arith)
  | inr other ↦ ground arith
]

pub data Found (us : List User) : Type 0 where
  none_found : us ≡ [] → Found us
  one_found : (u : User) → us ≡ u ∷ [] → Found us
  many : (u v : User) (more : List User) → us ≡ u ∷ v ∷ more → Found us

pub List-cases : (us : List User) → Found us
List-cases [] = none_found refl
List-cases (u ∷ []) = one_found u refl
List-cases (u ∷ v ∷ more) = many u v more refl

module _ (hash : String → String) (refresh_ttl : ℕ)
    (same_email check_password : String → String → Bool) (valid : String → Bool)
    (make_password : String → String) (session_of : ℕ → ℕ) where
  -- A claim takes its rows from the usable ones of their session.
  live-claim :
      (s now id : ℕ) (ts : List RefreshToken)
      → All (Owned session_of) ts
      → live s
            (update_rows (is_claimed hash refresh_ttl id) (λ t. record t { used_at = some now }) ts)
          + (if session_of id == s then count_rows (is_claimed hash refresh_ttl id) ts else 0)
        ≡ live s ts
  unfolding live update_rows count_rows
  live-claim s now id [] h = ground arith
  live-claim s now id (t ∷ ts) h =
      let rest = live-claim s now id ts h.1 in
      let own = h.0 in
      elim (Bool-cases (t.id == id)) [
        | inl same ↦ (let e = (==_iff t.id id).0 same in ground arith)
        | inr other ↦ ground arith
      ]

  checks-IsRotating :
      (w : World) (now : ℕ) (raw : String)
      → IsRotating session_of w
      → IsRotating session_of (record {
        db = (refresh_check hash refresh_ttl now raw w.db).0;
        pending = let_through (refresh_check hash refresh_ttl now raw w.db).1 w.pending;
      })
  unfolding refresh_check revoke_session
  checks-IsRotating w now raw h =
      elim (Option-cases (first_row (λ t. str_eq t.token_hash (hash raw)) w.db.tokens)) [
        | inl e ↦ rw (refresh_check, e) h
        | inr (token, e) ↦
            elim (Bool-cases (not (is_none token.revoked_at) || not (is_none token.used_at))) [
              | inl spent ↦
                  rw (refresh_check, e, spent)
                    (record {
                      single = λ s.
                          (let fewer = live-revoke_session_le s now token.session_id w.db.tokens in
                            let one = h.single s in omega arith);
                      rows_owned =
                          All-update_rows (Owned session_of) _ (revoke now) w.db.tokens (λ t o. o)
                            h.rows_owned;
                      pending_owned = h.pending_owned;
                    })
              | inr fresh ↦ elim (Bool-cases (leb token.expires_at now)) [
                | inl late ↦ rw (refresh_check, e, fresh, late) h
                | inr early ↦
                    elim (Option-cases (first_row (λ u. u.id == token.user_id) w.db.users)) [
                      | inl gone ↦ rw (refresh_check, e, fresh, early, gone) h
                      | inr (user, found) ↦ elim (Bool-cases (is_active user)) [
                        | inl on ↦
                            rw (refresh_check, e, fresh, early, found, on)
                              (record {
                                single = h.single;
                                rows_owned = h.rows_owned;
                                pending_owned = (
                                  first_row-All (Owned session_of) _ w.db.tokens h.rows_owned e,
                                  h.pending_owned,
                                );
                              })
                        | inr off ↦ rw (refresh_check, e, fresh, early, found, off) h
                      ]
                    ]
              ]
            ]
      ]

  claims-IsRotating :
      (w : World) (draw : Draw) (now : ℕ) (token : RefreshToken)
      → In token w.pending
      → session_of draw.token_id ≡ token.session_id
      → IsRotating session_of w
      → IsRotating session_of
          (record w { db = (refresh_claim hash refresh_ttl draw now token w.db).0 })
  unfolding refresh_claim
  claims-IsRotating w draw now token m own h =
      let claim = is_claimed hash refresh_ttl token.id in
      let mark : RefreshToken → RefreshToken = λ t. record t { used_at = some now } in
      let fresh = new_token hash refresh_ttl draw token.user_id token.session_id in
      let owner = All-In (Owned session_of) h.pending_owned m in
      elim (Bool-cases (count_rows claim w.db.tokens == 1)) [
        | inr lost ↦ rw (refresh_claim, lost) h
        | inl won ↦
            rw (refresh_claim, won)
              (record {
                single = λ s.
                    (let taken = live-claim s now token.id w.db.tokens h.rows_owned in
                      let one = h.single s in
                      let more = live-append s (update_rows claim mark w.db.tokens) fresh in
                      rw more (single_again _ _ _ s _ token.session_id owner won taken one));
                rows_owned =
                    All-snoc (Owned session_of) _ fresh
                      (All-update_rows (Owned session_of) claim mark w.db.tokens (λ t o. o)
                        h.rows_owned)
                      own;
                pending_owned = h.pending_owned;
              })
      ]

  logs_out-IsRotating :
      (w : World) (now : ℕ) (raw : String)
      → IsRotating session_of w
      → IsRotating session_of (record w { db = logout hash refresh_ttl now raw w.db })
  unfolding logout revoke_session
  logs_out-IsRotating w now raw h =
      elim (Option-cases (first_row (λ t. str_eq t.token_hash (hash raw)) w.db.tokens)) [
        | inl e ↦ rw (logout, e) h
        | inr (token, e) ↦
            rw (logout, e)
              (record {
                single = λ s.
                    (let fewer = live-revoke_session_le s now token.session_id w.db.tokens in
                      let one = h.single s in omega arith);
                rows_owned =
                    All-update_rows (Owned session_of) _ (revoke now) w.db.tokens (λ t o. o)
                      h.rows_owned;
                pending_owned = h.pending_owned;
              })
      ]

  disables-IsRotating :
      (w : World) (now user_id : ℕ)
      → IsRotating session_of w
      → IsRotating session_of (record w { db = disable_user now user_id w.db })
  unfolding disable_user revoke_all
  disables-IsRotating w now user_id h = record {
    single = λ s.
        (let fewer = live-revoke_all_le s now user_id w.db.tokens in
          let one = h.single s in omega arith);
    rows_owned =
        All-update_rows (Owned session_of) _ (revoke now) w.db.tokens (λ t o. o) h.rows_owned;
    pending_owned = h.pending_owned;
  }

  changes_password-IsRotating :
      (w : World) (now : ℕ) (user : User) (current new : String)
      → IsRotating session_of w
      → IsRotating session_of (record w {
        db =
            (change_password hash refresh_ttl same_email check_password valid make_password now user
              current new w.db).0;
      })
  unfolding change_password revoke_all
  changes_password-IsRotating w now user current new h =
      elim (Bool-cases (check_password user.password current)) [
        | inr wrong ↦ rw (change_password, wrong) h
        | inl right ↦ elim (Bool-cases (valid new)) [
          | inr weak ↦ rw (change_password, right, weak) h
          | inl strong ↦
              rw (change_password, right, strong)
                (record {
                  single = λ s.
                      (let fewer = live-revoke_all_le s now user.id w.db.tokens in
                        let one = h.single s in omega arith);
                  rows_owned =
                      All-update_rows (Owned session_of) _ (revoke now) w.db.tokens (λ t o. o)
                        h.rows_owned;
                  pending_owned = h.pending_owned;
                })
        ]
      ]

  -- The tokens after a login: as they were, or with one of the new session.
  new_session-IsRotating :
      (w : World) (draw : Draw) (user_id session_id : ℕ) (ts : List RefreshToken)
      → session_of draw.token_id ≡ session_id
      → live session_id w.db.tokens ≡ 0
      → IsRotating session_of w
      → ts ≡ w.db.tokens ++ (new_token hash refresh_ttl draw user_id session_id ∷ [])
      → (db : Database) → db.tokens ≡ ts
      → IsRotating session_of (record w { db = db })
  new_session-IsRotating w draw user_id session_id ts own none_yet h e db d = record {
    single = λ s.
        rw (d, e, live-append s w.db.tokens (new_token hash refresh_ttl draw user_id session_id))
          (first_of_session (live s w.db.tokens) s session_id (h.single s)
            (λ same. rw same none_yet));
    rows_owned = rw (d, e) (All-snoc (Owned session_of) w.db.tokens _ h.rows_owned own);
    pending_owned = h.pending_owned;
  }

  logs_in-IsRotating :
      (w : World) (draw : Draw) (session_id : ℕ) (email password tenant_code : String)
      → session_of draw.token_id ≡ session_id
      → live session_id w.db.tokens ≡ 0
      → IsRotating session_of w
      → IsRotating session_of (record w {
        db =
            (login hash refresh_ttl same_email check_password draw session_id email password
              tenant_code w.db).0;
      })
  unfolding login
  logs_in-IsRotating w draw session_id email password tenant_code own none_yet h =
      let found = candidates hash refresh_ttl same_email check_password email tenant_code w.db in
      elim (List-cases found) [
        | none_found e ↦ rw (login, e) h
        | many a b more e ↦ rw (login, e) h
        | one_found user e ↦ elim (Bool-cases (check_password user.password password)) [
          | inr wrong ↦
              rw (login, e, wrong)
                (record {
                  single = h.single;
                  rows_owned = h.rows_owned;
                  pending_owned = h.pending_owned;
                })
          | inl right ↦ elim (Bool-cases (is_active user)) [
            | inr off ↦
                rw (login, e, right, off)
                  (record {
                    single = h.single;
                    rows_owned = h.rows_owned;
                    pending_owned = h.pending_owned;
                  })
            | inl on ↦
                rw (login, e, right, on)
                  (new_session-IsRotating w draw user.id session_id _ own none_yet h refl _ refl)
          ]
        ]
      ]

  Step-IsRotating :
      {w v : World}
      → Step hash refresh_ttl same_email check_password valid make_password session_of w v
      → IsRotating session_of w
      → IsRotating session_of v
  Step-IsRotating (checks now raw) h = checks-IsRotating _ now raw h
  Step-IsRotating (claims draw now token m own) h = claims-IsRotating _ draw now token m own h
  Step-IsRotating (logs_in draw session_id email password code own none_yet) h =
      logs_in-IsRotating _ draw session_id email password code own none_yet h
  Step-IsRotating (logs_out now raw) h = logs_out-IsRotating _ now raw h
  Step-IsRotating (changes_password now user current new) h =
      changes_password-IsRotating _ now user current new h
  Step-IsRotating (disables now user_id) h = disables-IsRotating _ now user_id h

  -- However calls interleave, also between the two transactions of a refresh: from a state in which
  -- every session has at most one usable refresh token and each row belongs to the session of its
  -- identifier, such a state is reached. New rows get identifiers of their session, and a login a
  -- session without usable tokens.
  pub Reach-IsRotating :
      {w v : World}
      → IsRotating session_of w
      → Reach hash refresh_ttl same_email check_password valid make_password session_of w v
      → IsRotating session_of v
  Reach-IsRotating h start = h
  Reach-IsRotating h (next r st) = Step-IsRotating st (Reach-IsRotating h r)
