-- ===== src/Identity.antt =====
-- The people of the system and their sessions (backend/mizan/apps/identity). Identifiers and moments
-- are numbers, and a list stands for a table, in the order of its primary key.
pub mod Sessions
pub mod Roles
mod Examples
use mizan_labs_v.Prelude.{ℕ, String, Bool, Option, List}

pub data UserStatus : Type 0 where
  active disabled : UserStatus

pub data Realm : Type 0 where
  staff client platform : Realm

pub record User : Type 0 where
  pub id : ℕ
  pub tenant_id : Option ℕ
  pub email : String
  pub password : String
  pub realm : Realm
  pub status : UserStatus
  pub must_change_password : Bool
  pub last_login : Option ℕ
  pub disabled_at : Option ℕ

pub record RefreshToken : Type 0 where
  pub id : ℕ
  pub user_id : ℕ
  pub session_id : ℕ
  pub token_hash : String
  pub expires_at : ℕ
  pub used_at : Option ℕ
  pub revoked_at : Option ℕ

-- What the audit trail keeps of an event here: the user and the action.
pub record AuditEntry : Type 0 where
  pub aggregate_id : ℕ
  pub action : String

-- An event of the outbox, as far as these services fill it.
pub record Event : Type 0 where
  pub code : String
  pub aggregate_id : ℕ

pub record Database : Type 0 where
  pub users : List User
  pub tokens : List RefreshToken
  pub audit : List AuditEntry
  pub events : List Event
  -- the tenants, each with its code
  pub tenants : List (ℕ × String)

pub data AuthError : Type 0 where
  invalid_credentials account_disabled tenant_required : AuthError
  invalid_refresh_token refresh_token_reused refresh_token_expired weak_password : AuthError

pub data Answer (A : Type 0) : Type 0 where
  ok : A → Answer A
  err : AuthError → Answer A

pub record Session : Type 0 where
  pub user_id : ℕ
  pub session_id : ℕ
  pub refresh_token : String
