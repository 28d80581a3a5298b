-- ===== src/Notify/Dispatch/Direct.antt =====
-- Deliveries outside any rule, and those that an operator tries again (`send_direct` and `retry` of
-- backend/mizan/apps/notify/dispatch.py). `draw` is a random value.
use mizan_labs_v.Prelude.{
  ℕ, String, Bool, true, false, Option, none, some, List, [], ◌∷◌, ◌++◌, str_eq, if◌then◌else◌,
}
use mizan_labs_v.Notify.{
  DeliveryStatus, pending, skipped, no_reason, no_address_for, of_retry, of_direct, Recipient,
  MessageTemplate, NotificationDelivery, Branch, Database,
}
use mizan_labs_v.Notify.Recipients.{address_for}
use mizan_labs_v.Notify.Policies.{template_for}
use mizan_labs_v.Notify.Dispatch.{is_nowhere, Outside, find_delivery, enqueue, locale_of}

-- What a call returns or raises.
pub data Outcome : Type 0 where
  unknown_template render_failed : Outcome
  done : NotificationDelivery → Database → List ℕ → Outcome

abbrev pub is_pending : DeliveryStatus → Bool
is_pending pending = true
is_pending _ = false

abbrev pub id_of : Option Branch → Option ℕ
id_of none = none
id_of (some b) = some b.id

module _ (O : Outside) where
  abbrev pub copy_of : NotificationDelivery → ℕ → ℕ → Database → NotificationDelivery
  copy_of d draw now db = record d {
    id = O.next_id db.deliveries;
    status = pending;
    attempts = 0;
    last_error = no_reason;
    scheduled_for = none;
    created_at = now;
    dedupe_key = of_retry d.id draw;
    fallback_of = some d.id;
  }

  abbrev pub queued : NotificationDelivery → Database → List ℕ → Outcome
  queued d db queue =
      done d (record db { deliveries = db.deliveries ++ (d ∷ []) }) (enqueue d queue)

  unfoldable pub retry : NotificationDelivery → ℕ → ℕ → Database → List ℕ → Outcome
  unfolding template_for
  retry d draw now db queue =
      let copy = copy_of d draw now db in
      elim d.rendered [
        | some text ↦ queued copy db queue
        | none ↦ elim (template_for d.template_code d.locale d.channel db.templates) [
          | none ↦ queued copy db queue
          | some template ↦ elim (O.rerender template d d.channel) [
            | none ↦ render_failed
            | some text ↦ queued (record copy { rendered = some text }) db queue
          ]
        ]
      ]

  -- `render_direct` renders a template in the context that the caller gives.
  module _
      (render_direct : MessageTemplate
        → Recipient
        → Option Branch
        → String
        → String
        → Option String) where
    abbrev pub persisted : NotificationDelivery → Database → List ℕ → Outcome
    persisted d db queue = elim (find_delivery d.dedupe_key db.deliveries) [
      | some old ↦ done old db (if is_pending old.status then enqueue old queue else queue)
      | none ↦
          done d (record db { deliveries = db.deliveries ++ (d ∷ []) })
            (if is_pending d.status then enqueue d queue else queue)
    ]

    unfoldable pub send_direct :
        String → String → Recipient → Option Branch → String → ℕ → ℕ → Database → List ℕ → Outcome
    unfolding template_for address_for find_delivery
    send_direct code channel recipient branch wanted draw now db queue =
        let locale = if str_eq wanted "" then locale_of branch recipient else wanted in
        let nowhere = is_nowhere (address_for channel recipient) in
        elim (template_for code locale channel db.templates) [
          | none ↦ unknown_template
          | some template ↦ elim (render_direct template recipient branch locale channel) [
            | none ↦ render_failed
            | some text ↦
                persisted
                  (record {
                    id = O.next_id db.deliveries;
                    rule_id = none;
                    event_id = none;
                    branch_id = id_of branch;
                    recipient = recipient;
                    channel = channel;
                    locale = locale;
                    template_code = code;
                    rendered = some text;
                    status = if nowhere then skipped else pending;
                    attempts = 0;
                    last_error = if nowhere then no_address_for else no_reason;
                    scheduled_for = none;
                    created_at = now;
                    dedupe_key = of_direct draw;
                    fallback_of = none;
                  })
                  db queue
          ]
        ]
