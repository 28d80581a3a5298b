-- ===== src/Notify/Dispatch/Rules.antt =====
-- From an event to deliveries (backend/mizan/apps/notify/dispatch.py).
use mizan_labs_v.Prelude.{ℕ, String, ◌&&◌, Option, none, some, List, [], ◌∷◌, ◌++◌, if◌then◌else◌}
use mizan_labs_v.Notify.{
  Recipient, NotificationRule, pending, scheduled, no_reason, no_address_for, preference,
  throttled_by, no_template, render_error, DedupeKey, of_rule, NotificationDelivery, Branch, Event,
  Database,
}
use mizan_labs_v.Notify.Recipients.{key, address_for, resolve_audience}
use mizan_labs_v.Notify.Policies.{
  is_channel, template_for, preference_for, is_refused, quiet_hours_end, throttled,
}
use mizan_labs_v.Notify.Dispatch.{
  is_quiet_channel, is_nowhere, PlannedDelivery, skip, first_of, Outside, find_delivery, is_waiting,
  enqueue, locale_of, branch_of, applies,
}

module _ (O : Outside) where
  -- One channel of one recipient: what would be sent, or why it is not.
  unfoldable pub plan_channel :
      NotificationRule
      → Event
      → Option Branch
      → ℕ
      → Database
      → Recipient
      → String
      → String
      → PlannedDelivery
  unfolding address_for preference_for throttled template_for quiet_hours_end key
  plan_channel rule event branch now db recipient locale channel =
      let item : PlannedDelivery = record {
        recipient = recipient;
        channel = channel;
        locale = locale;
        template_code = rule.template_code;
        rendered = none;
        status = pending;
        reason = no_reason;
        scheduled_for = none;
      } in
      if is_nowhere (address_for channel recipient)
      then skip no_address_for item
      else if is_refused (preference_for recipient channel db.preferences)
      then skip preference item
      else if throttled O.lower O.upper rule (key O.lower O.upper recipient) now db.deliveries
      then skip throttled_by item
      else elim (template_for rule.template_code locale channel db.templates) [
        | none ↦ skip no_template item
        | some template ↦ elim (O.render template event recipient branch locale channel) [
          | none ↦ skip render_error item
          | some text ↦
              if rule.respect_quiet_hours && is_quiet_channel channel
              then elim (quiet_hours_end O.to_local O.to_utc branch now) [
                | none ↦ record item { rendered = some text }
                | some end ↦ record item {
                  rendered = some text;
                  status = scheduled;
                  scheduled_for = some end;
                }
              ]
              else record item { rendered = some text }
        ]
      ]

  unfoldable pub plan_channels :
      NotificationRule
      → Event
      → Option Branch
      → ℕ
      → Database
      → Recipient
      → String
      → List String
      → List PlannedDelivery
  unfolding plan_channel
  plan_channels rule event branch now db recipient locale [] = []
  plan_channels rule event branch now db recipient locale (c ∷ cs) =
      let rest = plan_channels rule event branch now db recipient locale cs in
      if is_channel c then plan_channel rule event branch now db recipient locale c ∷ rest else rest

  unfoldable pub plan_recipients :
      NotificationRule
      → Event
      → Option Branch
      → ℕ
      → Database
      → List Recipient
      → List PlannedDelivery
  unfolding plan_channels
  plan_recipients rule event branch now db [] = []
  plan_recipients rule event branch now db (r ∷ rs) =
      plan_channels rule event branch now db r (locale_of branch r) rule.channels
      ++ plan_recipients rule event branch now db rs

  unfoldable pub plan_rule : NotificationRule → Event → ℕ → Database → List PlannedDelivery
  unfolding plan_recipients resolve_audience
  plan_rule rule event now db =
      plan_recipients rule event (branch_of rule event db) now db
        (resolve_audience O.lower O.upper O.resolvers rule.audience event db)

  -- get_or_create by the key that prevents duplicates
  unfoldable pub persist :
      NotificationRule
      → Event
      → PlannedDelivery
      → DedupeKey
      → ℕ
      → List NotificationDelivery
      → List NotificationDelivery × NotificationDelivery
  unfolding find_delivery
  persist rule event item k now ds =
      let new : NotificationDelivery = record {
        id = O.next_id ds;
        rule_id = some rule.id;
        event_id = some event.id;
        branch_id = first_of event.branch_id rule.branch_id;
        recipient = item.recipient;
        channel = item.channel;
        locale = item.locale;
        template_code = item.template_code;
        rendered = item.rendered;
        status = item.status;
        attempts = 0;
        last_error = item.reason;
        scheduled_for = item.scheduled_for;
        created_at = now;
        dedupe_key = k;
        fallback_of = none;
      } in
      elim (find_delivery k ds) [ some d ↦ (ds, d) | none ↦ (ds ++ (new ∷ []), new) ]

  abbrev pub key_of : NotificationRule → Event → PlannedDelivery → DedupeKey
  key_of rule event item =
      of_rule rule.id event.id (key O.lower O.upper item.recipient) item.channel

  unfoldable pub persist_all :
      NotificationRule
      → Event
      → ℕ
      → List PlannedDelivery
      → List NotificationDelivery
      → List ℕ
      → List NotificationDelivery × List ℕ
  unfolding persist key
  persist_all rule event now [] ds queue = (ds, queue)
  persist_all rule event now (item ∷ items) ds queue =
      let (ds', d) = persist rule event item (key_of rule event item) now ds in
      persist_all rule event now items ds' (if is_waiting d.status then enqueue d queue else queue)

  unfoldable pub process_rule : NotificationRule → Event → ℕ → Database → List ℕ → Database × List ℕ
  unfolding plan_rule persist_all
  process_rule rule event now db queue =
      let (ds, queue') =
        persist_all rule event now (plan_rule rule event now db) db.deliveries queue in
      (record db { deliveries = ds }, queue')

  unfoldable pub process_rules :
      List NotificationRule → Event → ℕ → Database → List ℕ → Database × List ℕ
  unfolding process_rule
  process_rules [] event now db queue = (db, queue)
  process_rules (rule ∷ rules) event now db queue =
      let (db', queue') = process_rule rule event now db queue in
      if applies event rule
      then process_rules rules event now db' queue'
      else process_rules rules event now db queue

  unfoldable pub on_event : Event → ℕ → Database → List ℕ → Database × List ℕ
  unfolding process_rules
  on_event event now db queue = elim event.tenant_id [
    | none ↦ (db, queue)
    | some t ↦ process_rules db.rules event now db queue
  ]
