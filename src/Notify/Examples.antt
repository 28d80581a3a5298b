-- ===== src/Notify/Examples.antt =====
-- Runs of the dispatcher (backend/mizan/apps/notify/dispatch.py).
use mizan_labs_v.Prelude.{
  ℕ, ◌+◌, ◌≡◌, ◌<◌, ◌≤◌, refl, String, Bool, ◌&&◌, ◌==◌, true, false, Option, none, some, List, [],
  ◌∷◌, arith, length, All, ◌%◌,
}
use mizan_labs_v.Notify.{
  user, by_id, Recipient, NotificationRule, MessageTemplate, sent, failed, of_direct, pending,
  scheduled, no_reason, of_rule, of_fallback, NotificationDelivery, Branch, Event, Database,
  UserRow, Membership,
}
use mizan_labs_v.Notify.Recipients.{
  add_all, address_for, contacts_by_roles, key, resolve_audience, resolve_contacts, staff_by_roles,
  staff_from, users_by_ids,
}
use mizan_labs_v.Notify.Policies.{
  quiet_end, quiet_end-some, quiet_hours_end, is_quiet, recent, throttled, template_for,
  in_channels, in_locales, first_template, preference_for, own_preference, is_skipped,
}
use mizan_labs_v.Notify.Dispatch.{
  accepted, permanent_error, temporary_error, Outside, find_delivery, branch_of,
}
use mizan_labs_v.Notify.Dispatch.Rules.{
  plan_channel, plan_channels, plan_recipients, plan_rule, persist, persist_all, process_rule,
  process_rules, on_event,
}
use mizan_labs_v.Notify.Dispatch.Attempts.{can_take_over, fallback_text, fallback_from}
use mizan_labs_v.Notify.Dispatch.Direct.{
  Outcome, unknown_template, render_failed, done, send_direct,
}
use mizan_labs_v.Notify.Dispatch.Plan.{IsFit, plan_rule-IsFit}
use mizan_labs_v.Notify.Dispatch.Once.{process_rule_once}
use mizan_labs_v.Notify.Dispatch.Sending.{deliver_all, deliver_settles, at}
use mizan_labs_v.Notify.Dispatch.Fallback.{IsWay, fallback_from-some}

abbrev same_text : String → String
same_text s = s

abbrev same_time : Branch → ℕ → ℕ
same_time b n = n

abbrev render :
    MessageTemplate → Event → Recipient → Option Branch → String → String → Option String
render t event r branch locale channel = some "Your report is ready."

abbrev rerender : MessageTemplate → NotificationDelivery → String → Option String
rerender t d channel = some "Your report is ready."

abbrev next_id : List NotificationDelivery → ℕ
next_id ds = length ds

-- Two conversions of a zone that is UTC, and no resolver.
abbrev outside : Outside
outside = record {
  lower = same_text;
  upper = same_text;
  resolvers = [];
  to_local = same_time;
  to_utc = same_time;
  render = render;
  rerender = rerender;
  next_id = next_id;
}

abbrev amina : UserRow
amina = record {
  id = 1;
  display_name = "Amina";
  email = "amina@lab.ma";
  phone = "+212600000001";
  locale = "fr";
  is_active = true;
}

abbrev technician : Membership
technician = record {
  user_id = 1;
  role_code = "TECHNICIAN";
  branch_id = none;
  department_id = none;
  is_active = true;
  is_staff = true;
}

abbrev casablanca : Branch
casablanca = record {
  id = 7;
  default_locale = "fr";
  quiet_hours = some (75600, 25200);
  fallback_channels = [];
}

abbrev report_ready : NotificationRule
report_ready = record {
  id = 3;
  code = "report_ready";
  branch_id = none;
  event_code = "report.issued";
  audience = record {
    roles = "TECHNICIAN" ∷ [];
    contact_roles = [];
    user_ids = 1 ∷ [];
    payload_user_keys = [];
  };
  channels = "sms" ∷ "email" ∷ "pigeon" ∷ [];
  template_code = "report";
  window_seconds = 60;
  max = 2;
  respect_quiet_hours = true;
  active = true;
}

abbrev text : MessageTemplate
text = record { code = "report"; locale = "fr"; channel = "whatsapp"; body = 1; active = true }

abbrev mail : MessageTemplate
mail = record { code = "report"; locale = "en"; channel = "email"; body = 2; active = true }

abbrev issued : Event
issued = record {
  id = 11;
  code = "report.issued";
  tenant_id = some 1;
  branch_id = some 7;
  department_ids = [];
  payload_users = λ k. [];
}

abbrev db : Database
db = record {
  rules = report_ready ∷ [];
  templates = text ∷ mail ∷ [];
  preferences = [];
  branches = casablanca ∷ [];
  memberships = technician ∷ [];
  users = amina ∷ [];
  deliveries = [];
}

abbrev recipient : Recipient
recipient = record {
  kind = user;
  id = some 1;
  name = "Amina";
  email = "amina@lab.ma";
  phone = "+212600000001";
  locale = "fr";
  user_id = some 1;
  role = "TECHNICIAN";
}

-- The text that stands in the queue at 22:00 and waits until seven o'clock.
abbrev text_message : NotificationDelivery
text_message = record {
  id = 0;
  rule_id = some 3;
  event_id = some 11;
  branch_id = some 7;
  recipient = recipient;
  channel = "sms";
  locale = "fr";
  template_code = "report";
  rendered = some "Your report is ready.";
  status = scheduled;
  attempts = 0;
  last_error = no_reason;
  scheduled_for = some 198000;
  created_at = 165600;
  dedupe_key = of_rule 3 11 (by_id user 1) "sms";
  fallback_of = none;
}

abbrev mail_message : NotificationDelivery
mail_message = record text_message {
  id = 1;
  channel = "email";
  status = pending;
  scheduled_for = none;
  dedupe_key = of_rule 3 11 (by_id user 1) "email";
}

abbrev sending : Database
sending = record db { deliveries = text_message ∷ mail_message ∷ [] }

-- The text waits, the mail goes at once, and there is no third channel.
both_planned : on_event outside issued 165600 db [] ≡ (sending, 0 ∷ 1 ∷ [])
unfolding on_event process_rules process_rule plan_rule plan_recipients plan_channels plan_channel
    persist_all persist find_delivery add_all address_for contacts_by_roles key resolve_audience
    resolve_contacts staff_by_roles staff_from users_by_ids quiet_end quiet_hours_end recent
    throttled template_for in_channels in_locales first_template preference_for own_preference
both_planned = refl

process_rule_once_example :
    (process_rule outside report_ready issued 169200
      (process_rule outside report_ready issued 165600 db []).0
      []).0
    ≡ (process_rule outside report_ready issued 165600 db []).0
process_rule_once_example = process_rule_once outside report_ready issued 165600 169200 db [] []

plan_rule-IsFit_example :
    All
      (IsFit outside report_ready issued (branch_of report_ready issued db) 165600 db)
      (plan_rule outside report_ready issued 165600 db)
plan_rule-IsFit_example = plan_rule-IsFit outside report_ready issued 165600 db

deliver_settles_example :
    (e : NotificationDelivery) × (at outside 0
        (deliver_all outside 0
          (temporary_error ∷ accepted ∷ permanent_error ∷ accepted ∷ temporary_error ∷ [])
          198000
          sending
          []).0
      ≡ some e)
    × (e.status ≡ sent)
    × (e.attempts ≤ 5)
deliver_settles_example =
    deliver_settles outside 4 0
      (temporary_error ∷ accepted ∷ permanent_error ∷ accepted ∷ temporary_error ∷ []) 198000
      sending [] text_message refl refl refl (omega arith)

-- The number is wrong, so that the mail takes over: WhatsApp has the same number.
abbrev taken_over : NotificationDelivery
taken_over = record text_message {
  id = 1;
  channel = "email";
  status = pending;
  scheduled_for = none;
  created_at = 198000;
  dedupe_key = of_fallback 0 "email";
  fallback_of = some 0;
}

abbrev failing : Database
failing = record db { deliveries = text_message ∷ [] }

fallback_from-some_example : IsWay outside text_message false failing taken_over
unfolding fallback_from fallback_text can_take_over address_for key template_for in_channels
    in_locales first_template preference_for own_preference
fallback_from-some_example =
    fallback_from-some outside ("whatsapp" ∷ "sms" ∷ "email" ∷ []) text_message false 198000 failing
      refl

quiet_end-some_example :
    (is_quiet 75600 25200 165600 ≡ true)
    × (165600 < 198000)
    × (198000 ≤ 165600 + 86400)
    × (198000 % 86400 ≡ 25200)
    × (is_quiet 75600 25200 198000 ≡ false)
unfolding quiet_end
quiet_end-some_example = quiet_end-some 75600 25200 165600 (omega arith) (omega arith) refl

abbrev render_direct : MessageTemplate → Recipient → Option Branch → String → String → Option String
render_direct t r branch locale channel = some "Your report is ready."

-- A direct message to an address that there is not is kept, but stands in no queue.
abbrev unreachable : Recipient
unreachable = record recipient { phone = "" }

abbrev is_outcome_of : Outcome → ℕ → Bool
is_outcome_of (done d after queue) n = is_skipped d.status && length queue == n
is_outcome_of unknown_template n = false
is_outcome_of render_failed n = false

unreachable_skipped :
    is_outcome_of
      (send_direct outside render_direct "report" "sms" unreachable none "" 5 165600 db [])
      0
    ≡ true
unfolding send_direct template_for in_channels in_locales first_template address_for find_delivery
unreachable_skipped = refl

abbrev first_code : NotificationDelivery
first_code = record text_message {
  rule_id = none;
  event_id = none;
  channel = "whatsapp";
  status = sent;
  dedupe_key = of_direct 1;
}

abbrev second_code : NotificationDelivery
second_code = record first_code {
  id = 1;
  channel = "sms";
  status = failed;
  dedupe_key = of_direct 2;
}

-- A direct message has no rule and no event, so that every former one has used up its channel.
former_in_the_way :
    can_take_over outside second_code true
      (record db { deliveries = first_code ∷ second_code ∷ [] })
      "whatsapp"
    ≡ false
unfolding can_take_over address_for preference_for key
former_in_the_way = refl
