-- ===== src/Notify/Dispatch.antt =====
-- Deliveries (backend/mizan/apps/notify/dispatch.py): the row of a table at work, its keys and states.
pub mod Rules
pub mod Attempts
pub mod Direct
pub mod Plan
pub mod Once
pub mod Sending
pub mod Fallback
use mizan_labs_v.Prelude.{
  ℕ, suc, ◌+◌, String, Bool, true, false, ◌&&◌, ◌||◌, not, Option, none, some, List, [], ◌∷◌, ◌++◌,
  any, ltb, leb, ◌==◌, str_eq, if◌then◌else◌,
}
use mizan_labs_v.Notify.{
  RecipientType, Key, Address, no_address, text_address, inbox, Recipient, NotificationRule,
  MessageTemplate, DeliveryStatus, pending, scheduled, sent, failed, skipped, Reason, no_reason,
  no_address_for, preference, throttled_by, no_template, render_error, provider_error, DedupeKey,
  of_rule, of_fallback, of_retry, of_direct, NotificationDelivery, Branch, Event, Database,
}
use mizan_labs_v.Notify.Recipients.{same_key, key, address_for, resolve_audience}
use mizan_labs_v.Notify.Policies.{
  is_channel, template_for, preference_for, is_refused, quiet_hours_end, throttled, is_skipped,
}

abbrev pub max_attempts : ℕ
max_attempts = 5

-- QUIET_HOURS_CHANNELS
abbrev pub is_quiet_channel : String → Bool
is_quiet_channel c = str_eq c "sms" || str_eq c "whatsapp"

abbrev pub same_dedupe : DedupeKey → DedupeKey → Bool
same_dedupe (of_rule r e k c) (of_rule r' e' k' c') =
    r == r' && e == e' && same_key k k' && str_eq c c'
same_dedupe (of_fallback i c) (of_fallback j d) = i == j && str_eq c d
same_dedupe (of_retry i draw) (of_retry j draw') = i == j && draw == draw'
same_dedupe (of_direct draw) (of_direct draw') = draw == draw'
same_dedupe _ _ = false

abbrev pub is_nowhere : Address → Bool
is_nowhere no_address = true
is_nowhere (text_address s) = false
is_nowhere (inbox id) = false

abbrev pub same_address : Address → Address → Bool
same_address (text_address s) (text_address t) = str_eq s t
same_address (inbox i) (inbox j) = i == j
same_address no_address no_address = true
same_address _ _ = false

pub record PlannedDelivery : Type 0 where
  pub recipient : Recipient
  pub channel : String
  pub locale : String
  pub template_code : String
  pub rendered : Option String
  pub status : DeliveryStatus
  pub reason : Reason
  pub scheduled_for : Option ℕ

abbrev pub skip : Reason → PlannedDelivery → PlannedDelivery
skip reason item = record item { status = skipped; reason = reason }

abbrev pub find_branch : ℕ → List Branch → Option Branch
find_branch id [] = none
find_branch id (b ∷ bs) = if b.id == id then some b else find_branch id bs

abbrev pub branch_at : Option ℕ → List Branch → Option Branch
branch_at none bs = none
branch_at (some id) bs = find_branch id bs

abbrev pub first_of {ℓ} : {A : Type ℓ} → Option A → Option A → Option A
first_of (some a) b = some a
first_of none b = b

abbrev pub default_locale : Option Branch → String
default_locale none = "fr"
default_locale (some b) = if str_eq b.default_locale "" then "fr" else b.default_locale

pub data Sent : Type 0 where
  accepted permanent_error temporary_error : Sent

-- What the code calls: Python's methods, the resolvers of contacts, the conversions of a zone, the
-- rendering of a message (from an event, or from the context that a delivery keeps) and new identifiers.
pub record Outside : Type 0 where
  pub lower : String → String
  pub upper : String → String
  pub resolvers : List (Event → List String → List Recipient)
  pub to_local : Branch → ℕ → ℕ
  pub to_utc : Branch → ℕ → ℕ
  pub render : MessageTemplate → Event → Recipient → Option Branch → String → String → Option String
  pub rerender : MessageTemplate → NotificationDelivery → String → Option String
  pub next_id : List NotificationDelivery → ℕ

abbrev pub locale_of : Option Branch → Recipient → String
locale_of branch r = if str_eq r.locale "" then default_locale branch else r.locale

abbrev pub branch_of : NotificationRule → Event → Database → Option Branch
branch_of rule event db = elim event.branch_id [
  | some id ↦ find_branch id db.branches
  | none ↦ branch_at rule.branch_id db.branches
]

unfoldable pub find_delivery : DedupeKey → List NotificationDelivery → Option NotificationDelivery
find_delivery k [] = none
find_delivery k (d ∷ ds) = if same_dedupe d.dedupe_key k then some d else find_delivery k ds

abbrev pub is_waiting : DeliveryStatus → Bool
is_waiting pending = true
is_waiting scheduled = true
is_waiting _ = false

-- The queueing lock keeps a delivery from standing twice in the queue.
abbrev pub enqueue : NotificationDelivery → List ℕ → List ℕ
enqueue d queue = if any (λ i. i == d.id) queue then queue else queue ++ (d.id ∷ [])

abbrev pub applies : Event → NotificationRule → Bool
applies event rule = rule.active && str_eq rule.event_code event.code && elim rule.branch_id [
  | none ↦ true
  | some b ↦ elim event.branch_id [ none ↦ false | some c ↦ b == c ]
]

abbrev pub fallback_order : Option Branch → List String
fallback_order none = "whatsapp" ∷ "sms" ∷ "email" ∷ []
fallback_order (some b) = elim b.fallback_channels [
  | [] ↦ "whatsapp" ∷ "sms" ∷ "email" ∷ []
  | c ∷ cs ↦ c ∷ cs
]

unfoldable pub save_delivery :
    NotificationDelivery → List NotificationDelivery → List NotificationDelivery
save_delivery d [] = []
save_delivery d (e ∷ es) =
    let rest = save_delivery d es in if e.id == d.id then d ∷ es else e ∷ rest

abbrev pub delivery_at : ℕ → List NotificationDelivery → Option NotificationDelivery
delivery_at id [] = none
delivery_at id (d ∷ ds) = if d.id == id then some d else delivery_at id ds

abbrev pub attempted : NotificationDelivery → Sent → NotificationDelivery
attempted d accepted = record d { attempts = suc d.attempts; status = sent; last_error = no_reason }
attempted d permanent_error = record d {
  attempts = suc d.attempts;
  status = failed;
  last_error = provider_error;
}
attempted d temporary_error = record d {
  attempts = suc d.attempts;
  status = if leb max_attempts (suc d.attempts) then failed else d.status;
  last_error = provider_error;
}

abbrev pub keeps_address : Sent → Bool
keeps_address permanent_error = false
keeps_address _ = true

abbrev pub has_failed : DeliveryStatus → Bool
has_failed failed = true
has_failed _ = false
