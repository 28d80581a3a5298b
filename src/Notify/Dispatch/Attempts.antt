-- ===== src/Notify/Dispatch/Attempts.antt =====
-- The worker and its fallbacks (backend/mizan/apps/notify/dispatch.py).
use mizan_labs_v.Prelude.{
  ℕ, String, Bool, ◌&&◌, ◌||◌, not, Option, none, some, List, [], ◌∷◌, ◌++◌, any, str_eq,
  if◌then◌else◌,
}
use mizan_labs_v.Notify.{pending, no_reason, of_fallback, NotificationDelivery, Database}
use mizan_labs_v.Notify.Recipients.{same_key, key, address_for}
use mizan_labs_v.Notify.Policies.{
  is_channel, template_for, preference_for, is_refused, is_skipped, same_id,
}
use mizan_labs_v.Notify.Dispatch.{
  is_nowhere, same_address, branch_at, Sent, Outside, find_delivery, is_waiting, enqueue,
  fallback_order, save_delivery, delivery_at, attempted, keeps_address, has_failed,
}

module _ (O : Outside) where
  -- The channels of a rule, an event and a recipient that were not skipped.
  abbrev pub is_used : NotificationDelivery → String → NotificationDelivery → Bool
  is_used d channel e =
      same_id e.rule_id d.rule_id
      && same_id e.event_id d.event_id
      && same_key (key O.lower O.upper e.recipient) (key O.lower O.upper d.recipient)
      && not (is_skipped e.status)
      && str_eq e.channel channel

  -- Whether a channel may take over: the conditions of `fallback` before its template.
  unfoldable pub can_take_over : NotificationDelivery → Bool → Database → String → Bool
  unfolding address_for preference_for key
  can_take_over d keep_address db channel =
      not (any (is_used d channel) db.deliveries)
      && not (str_eq channel d.channel)
      && is_channel channel
      && not (is_nowhere (address_for channel d.recipient))
      && not (is_refused (preference_for d.recipient channel db.preferences))
      && (keep_address
          || not
              (same_address (address_for channel d.recipient) (address_for d.channel d.recipient)))

  unfoldable pub fallback_text : NotificationDelivery → Database → String → Option String
  unfolding template_for
  fallback_text d db channel = elim (template_for d.template_code d.locale channel db.templates) [
    | none ↦ none
    | some template ↦ O.rerender template d channel
  ]

  unfoldable pub fallback_from :
      List String → NotificationDelivery → Bool → ℕ → Database → Option NotificationDelivery
  unfolding can_take_over fallback_text
  fallback_from [] d keep_address now db = none
  fallback_from (c ∷ cs) d keep_address now db =
      let rest = fallback_from cs d keep_address now db in
      elim (fallback_text d db c) [
        | none ↦ rest
        | some text ↦
            if can_take_over d keep_address db c
            then some (record d {
              id = O.next_id db.deliveries;
              channel = c;
              rendered = some text;
              status = pending;
              attempts = 0;
              last_error = no_reason;
              scheduled_for = none;
              created_at = now;
              dedupe_key = of_fallback d.id c;
              fallback_of = some d.id;
            })
            else rest
      ]

  unfoldable pub fallback : NotificationDelivery → Bool → ℕ → Database → List ℕ → Database × List ℕ
  unfolding fallback_from find_delivery
  fallback d keep_address now db queue =
      elim (fallback_from (fallback_order (branch_at d.branch_id db.branches)) d keep_address now
        db) [
          | none ↦ (db, queue)
          | some new ↦ elim (find_delivery new.dedupe_key db.deliveries) [
            | some old ↦ (db, enqueue old queue)
            | none ↦ (record db { deliveries = db.deliveries ++ (new ∷ []) }, enqueue new queue)
          ]
        ]

  -- One attempt, whose outcome the provider decides; the job is queued again where it raises.
  unfoldable pub deliver : ℕ → Sent → ℕ → Database → List ℕ → Database × List ℕ
  unfolding save_delivery fallback
  deliver id outcome now db queue = elim (delivery_at id db.deliveries) [
    | none ↦ (db, queue)
    | some d ↦
        let tried = attempted d outcome in
        let db' = record db { deliveries = save_delivery tried db.deliveries } in
        let passed_on = fallback tried (keeps_address outcome) now db' queue in
        if not (is_waiting d.status)
        then (db, queue)
        else if has_failed tried.status
        then passed_on
        else (db', queue)
  ]
