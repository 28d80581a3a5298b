-- ===== src/Identity/Sessions/Steps.antt =====
-- Calls of backend/mizan/apps/identity/services.py one after another, with other calls between the two
-- transactions of `refresh`. The tokens that a first transaction has let through wait in `pending`.
use mizan_labs_v.Prelude.{ℕ, ◌≤◌, String, ◌≡◌, Bool, List, ◌∷◌, All}
use mizan_labs_v.Identity.{User, RefreshToken, Database, Answer, ok, err}
use mizan_labs_v.Identity.Sessions.{
  Draw, refresh_check, refresh_claim, logout, login, change_password, disable_user,
}
use mizan_labs_v.Identity.Sessions.Tokens.{live}

pub record World : Type 0 where
  pub db : Database
  pub pending : List RefreshToken

abbrev pub let_through : Answer RefreshToken → List RefreshToken → List RefreshToken
let_through (ok t) pending = t ∷ pending
let_through (err e) pending = pending

pub data In (t : RefreshToken) : List RefreshToken → Type 0 where
  here : {ts : List RefreshToken} → In t (t ∷ ts)
  there : {u : RefreshToken} {ts : List RefreshToken} → In t ts → In t (u ∷ ts)

-- `session_of` is the session that an identifier of a token row belongs to, for ever.
module _ (session_of : ℕ → ℕ) where
  abbrev pub Owned : RefreshToken → Type 0
  Owned t = session_of t.id ≡ t.session_id

  pub record IsRotating (w : World) : Type 0 where
    pub single : (s : ℕ) → live s w.db.tokens ≤ 1
    pub rows_owned : All Owned w.db.tokens
    pub pending_owned : All Owned w.pending

module _ (hash : String → String) (refresh_ttl : ℕ)
    (same_email check_password : String → String → Bool) (valid : String → Bool)
    (make_password : String → String) (session_of : ℕ → ℕ) where
  pub data Step (w : World) : World → Type 0 where
    checks :
        (now : ℕ) (raw : String)
        → Step w (record {
          db = (refresh_check hash refresh_ttl now raw w.db).0;
          pending = let_through (refresh_check hash refresh_ttl now raw w.db).1 w.pending;
        })
    claims :
        (draw : Draw) (now : ℕ) (token : RefreshToken)
        → In token w.pending
        → session_of draw.token_id ≡ token.session_id
        → Step w (record w { db = (refresh_claim hash refresh_ttl draw now token w.db).0 })
    logs_in :
        (draw : Draw) (session_id : ℕ) (email password tenant_code : String)
        → session_of draw.token_id ≡ session_id
        → live session_id w.db.tokens ≡ 0
        → Step w (record w {
          db =
              (login hash refresh_ttl same_email check_password draw session_id email password
                tenant_code w.db).0;
        })
    logs_out :
        (now : ℕ) (raw : String) → Step w (record w { db = logout hash refresh_ttl now raw w.db })
    changes_password :
        (now : ℕ) (user : User) (current new : String)
        → Step w (record w {
          db =
              (change_password hash refresh_ttl same_email check_password valid make_password now
                user current new w.db).0;
        })
    disables : (now user_id : ℕ) → Step w (record w { db = disable_user now user_id w.db })

  pub data Reach (w : World) : World → Type 0 where
    start : Reach w w
    next : {v u : World} → Reach w v → Step v u → Reach w u
