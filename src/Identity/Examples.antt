-- ===== src/Identity/Examples.antt =====
-- Runs of the session services (backend/mizan/apps/identity/services.py).
use mizan_labs_v.Prelude.{
  if◌then◌else◌, ◌==◌, ℕ, ◌≤◌, ◌≡◌, refl, String, Bool, true, none, some, [], ◌∷◌, str_eq, arith,
}
use mizan_labs_v.Identity.{
  User, RefreshToken, Database, Session, active, staff, ok, err, refresh_token_reused,
}
use mizan_labs_v.Identity.Sessions.{
  Draw, refresh, refresh_check, refresh_claim, disable_user, login, first_row,
}
use mizan_labs_v.Identity.Sessions.Tokens.{live}
use mizan_labs_v.Identity.Sessions.Rotation.{Reach-IsRotating}
use mizan_labs_v.Identity.Sessions.Steps.{
  World, Reach, start, next, checks, claims, logs_in, here, IsRotating, let_through,
}
use mizan_labs_v.Identity.Sessions.Spent.{refresh_rotated}
use mizan_labs_v.Identity.Sessions.Reuse.{claim_once, refresh-disable_user}

abbrev plain : String → String
plain s = s

abbrev same : String → String → Bool
same = str_eq

abbrev anything : String → Bool
anything s = true

abbrev ada : User
ada = record {
  id = 7;
  tenant_id = some 1;
  email = "ada@lab";
  password = "pw";
  realm = staff;
  status = active;
  must_change_password = true;
  last_login = none;
  disabled_at = none;
}

abbrev issued : RefreshToken
issued = record {
  id = 70;
  user_id = 7;
  session_id = 100;
  token_hash = "r0";
  expires_at = 50;
  used_at = none;
  revoked_at = none;
}

abbrev empty_db : Database
empty_db = record { users = ada ∷ []; tokens = []; audit = []; events = []; tenants = [] }

abbrev db : Database
db = record { users = ada ∷ []; tokens = issued ∷ []; audit = []; events = []; tenants = [] }

abbrev first_draw : Draw
first_draw = record { now = 10; token_id = 71; raw = "r1" }

abbrev second_draw : Draw
second_draw = record { now = 11; token_id = 72; raw = "r2" }

abbrev session : Session
session = record { user_id = 7; session_id = 100; refresh_token = "r1" }

refreshed : (refresh plain 40 first_draw 10 "r0" db).1 ≡ ok session
unfolding refresh
refreshed = refl

login_ok : (login plain 40 same same first_draw 100 "ada@lab" "pw" "" empty_db).1 ≡ ok session
unfolding login
login_ok = refl

claimed : (refresh_claim plain 40 first_draw 10 issued db).1 ≡ ok session
unfolding refresh_claim
claimed = refl

claim_once_example :
    ((refresh_claim plain 40 second_draw 11 issued
        (refresh_claim plain 40 first_draw 10 issued db).0).1
      ≡ err refresh_token_reused)
    × (1
        ≤ live 100
            (refresh_claim plain 40 second_draw 11 issued
              (refresh_claim plain 40 first_draw 10 issued db).0).0.tokens)
claim_once_example =
    claim_once plain 40 first_draw second_draw 10 11 issued db (λ e. omega arith) claimed

row : first_row (λ t. str_eq t.token_hash "r0") db.tokens ≡ some issued
unfolding first_row
row = refl

refresh-disable_user_example :
    (refresh plain 40 first_draw 10 "r0" (disable_user 9 7 db)).1 ≡ err refresh_token_reused
refresh-disable_user_example = refresh-disable_user plain 40 first_draw 9 10 7 "r0" db row refl

abbrev session_of : ℕ → ℕ
session_of n = 100

abbrev before : World
before = record { db = db; pending = [] }

before-IsRotating : IsRotating session_of before
unfolding live
before-IsRotating = record {
  single = λ s. ground arith;
  rows_owned = (refl, tt);
  pending_owned = tt;
}

-- Two calls check the same token before either claims it.
abbrev both_checked : World
both_checked = record {
  db = (refresh_check plain 40 10 "r0" db).0;
  pending = let_through (refresh_check plain 40 10 "r0" db).1 [];
}

abbrev after : World
after = record both_checked { db = (refresh_claim plain 40 first_draw 10 issued both_checked.db).0 }

run : Reach plain 40 same same anything plain session_of before after
unfolding refresh_check
run = next (next start (checks 10 "r0")) (claims first_draw 10 issued here refl)

Reach-IsRotating_example : IsRotating session_of after
Reach-IsRotating_example =
    Reach-IsRotating plain 40 same same anything plain session_of before-IsRotating run

abbrev rotated : World
rotated = record { db = (refresh plain 40 first_draw 10 "r0" db).0; pending = [] }

abbrev login_draw : Draw
login_draw = record { now = 11; token_id = 80; raw = "s1" }

abbrev two_sessions : ℕ → ℕ
two_sessions n = if n == 80 then 101 else 100

-- Another login, and the check of the new token.
abbrev logged_in : World
logged_in = record rotated {
  db = (login plain 40 same same login_draw 101 "ada@lab" "pw" "" rotated.db).0;
}

abbrev later : World
later = record {
  db = (refresh_check plain 40 12 "r1" logged_in.db).0;
  pending = let_through (refresh_check plain 40 12 "r1" logged_in.db).1 [];
}

goes_on : Reach plain 40 same same anything plain two_sessions rotated later
unfolding live refresh
goes_on = next (next start (logs_in login_draw 101 "ada@lab" "pw" "" refl refl)) (checks 12 "r1")

refresh_rotated_example :
    ((refresh plain 40 second_draw 13 "r0" later.db).1 ≡ err refresh_token_reused)
    × (live 100 (refresh plain 40 second_draw 13 "r0" later.db).0.tokens ≡ 0)
refresh_rotated_example =
    refresh_rotated plain 40 same same anything plain two_sessions first_draw second_draw 10 13 "r0"
      db [] refreshed goes_on
