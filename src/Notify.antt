-- ===== src/Notify.antt =====
-- Notifications (backend/mizan/apps/notify): rules, templates, preferences, recipients and deliveries.
-- Identifiers and moments (in seconds) are numbers, a list stands for a table. A key that the program
-- writes as a text of several parts is a constructor of its parts. What a message says is opaque.
pub mod Recipients
pub mod Policies
pub mod Dispatch
mod Examples
use mizan_labs_v.Prelude.{ℕ, String, Bool, Option, List}

pub data RecipientType : Type 0 where
  user contact : RecipientType

-- `Recipient.key`
pub data Key : Type 0 where
  by_id : RecipientType → ℕ → Key
  by_email by_phone : String → Key

-- What `address_for` gives: an e-mail or a number, the user of an inbox, or nothing.
pub data Address : Type 0 where
  no_address : Address
  text_address : String → Address
  inbox : ℕ → Address

pub record Recipient : Type 0 where
  pub kind : RecipientType
  pub id : Option ℕ
  pub name : String
  pub email : String
  pub phone : String
  pub locale : String
  pub user_id : Option ℕ
  pub role : String

pub record Audience : Type 0 where
  pub roles : List String
  pub contact_roles : List String
  pub user_ids : List ℕ
  pub payload_user_keys : List String

pub record NotificationRule : Type 0 where
  pub id : ℕ
  pub code : String
  pub branch_id : Option ℕ
  pub event_code : String
  pub audience : Audience
  pub channels : List String
  pub template_code : String
  -- throttle.window_seconds and throttle.max, 0 where missing
  pub window_seconds : ℕ
  pub max : ℕ
  pub respect_quiet_hours : Bool
  pub active : Bool

pub record MessageTemplate : Type 0 where
  pub code : String
  pub locale : String
  pub channel : String
  pub body : ℕ
  pub active : Bool

pub record ContactChannelPreference : Type 0 where
  pub recipient_type : RecipientType
  pub recipient_id : ℕ
  pub channel : String
  pub enabled : Bool

pub data DeliveryStatus : Type 0 where
  pending scheduled sent failed skipped : DeliveryStatus

pub data Reason : Type 0 where
  no_reason no_address_for preference throttled_by no_template render_error provider_error : Reason

-- dedupe_key: of a rule, an event, a recipient and a channel; of the fallback for a delivery; of a retry
-- of one, or of a direct message, with a random value
pub data DedupeKey : Type 0 where
  of_rule : ℕ → ℕ → Key → String → DedupeKey
  of_fallback : ℕ → String → DedupeKey
  of_retry : ℕ → ℕ → DedupeKey
  of_direct : ℕ → DedupeKey

pub record NotificationDelivery : Type 0 where
  pub id : ℕ
  pub rule_id : Option ℕ
  pub event_id : Option ℕ
  pub branch_id : Option ℕ
  pub recipient : Recipient
  pub channel : String
  pub locale : String
  pub template_code : String
  pub rendered : Option String
  pub status : DeliveryStatus
  pub attempts : ℕ
  pub last_error : Reason
  pub scheduled_for : Option ℕ
  pub created_at : ℕ
  pub dedupe_key : DedupeKey
  pub fallback_of : Option ℕ

pub record Branch : Type 0 where
  pub id : ℕ
  pub default_locale : String
  -- settings.quiet_hours, start and end in seconds of the day
  pub quiet_hours : Option (ℕ × ℕ)
  -- settings.notification_fallback_channels
  pub fallback_channels : List String

pub record Membership : Type 0 where
  pub user_id : ℕ
  pub role_code : String
  pub branch_id : Option ℕ
  pub department_id : Option ℕ
  -- the membership and its role are ACTIVE, and its user is a member of the staff
  pub is_active : Bool
  pub is_staff : Bool

pub record UserRow : Type 0 where
  pub id : ℕ
  pub display_name : String
  pub email : String
  pub phone : String
  pub locale : String
  pub is_active : Bool

pub record Event : Type 0 where
  pub id : ℕ
  pub code : String
  pub tenant_id : Option ℕ
  pub branch_id : Option ℕ
  -- the identifiers in the payload, under its keys
  pub department_ids : List ℕ
  pub payload_users : String → List ℕ

pub record Database : Type 0 where
  -- in the order of their codes
  pub rules : List NotificationRule
  pub templates : List MessageTemplate
  pub preferences : List ContactChannelPreference
  pub branches : List Branch
  pub memberships : List Membership
  pub users : List UserRow
  pub deliveries : List NotificationDelivery
