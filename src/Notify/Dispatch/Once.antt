-- ===== src/Notify/Dispatch/Once.antt =====
-- An event that is handled again (`process_rule` of backend/mizan/apps/notify/dispatch.py).
use mathlib.Core.Path.{subst}
use mizan_labs_v.Prelude.{
  ℕ, ◌≡◌, refl, sym, ap, ap₂, ◌∙◌, String, Bool, true, ◌||◌, Option, some, inl, inr, List, [], ◌∷◌,
  ◌++◌, map, any, All, ==_iff, eq_iff, Bool-cases, Option-cases, arith,
}
use mizan_labs_v.Notify.Dispatch.{
  same_dedupe, PlannedDelivery, Outside, find_delivery, locale_of, branch_of,
}
use mizan_labs_v.Notify.Dispatch.Plan.{plan_channel-fits}
use mizan_labs_v.Notify.Dispatch.Rules.{
  plan_channel, plan_channels, plan_recipients, plan_rule, persist, key_of, persist_all,
  process_rule,
}
use mizan_labs_v.Notify.{
  user, contact, Key, by_id, by_email, by_phone, Recipient, NotificationRule, DedupeKey, of_rule,
  of_fallback, of_retry, of_direct, NotificationDelivery, Branch, Event, Database,
}
use mizan_labs_v.Notify.Recipients.{same_key, key, resolve_audience}
use mizan_labs_v.Notify.Policies.{is_channel}

same_key_refl : (k : Key) → same_key k k ≡ true
same_key_refl (by_id user i) = (==_iff i i).1 refl
same_key_refl (by_id contact i) = (==_iff i i).1 refl
same_key_refl (by_email s) = (eq_iff s s).1 refl
same_key_refl (by_phone s) = (eq_iff s s).1 refl

module _ (O : Outside) where
  same_dedupe_refl : (k : DedupeKey) → same_dedupe k k ≡ true
  same_dedupe_refl (of_rule r e k c) =
      (let a = (==_iff r r).1 refl in
        let b = (==_iff e e).1 refl in
        let f = same_key_refl k in let g = (eq_iff c c).1 refl in ground arith)
  same_dedupe_refl (of_fallback i c) =
      (let a = (==_iff i i).1 refl in let b = (eq_iff c c).1 refl in ground arith)
  same_dedupe_refl (of_retry i draw) =
      (let a = (==_iff i i).1 refl in let b = (==_iff draw draw).1 refl in ground arith)
  same_dedupe_refl (of_direct draw) = (==_iff draw draw).1 refl

  abbrev has : DedupeKey → List NotificationDelivery → Bool
  has k ds = any (λ d. same_dedupe d.dedupe_key k) ds

  find_delivery-has :
      (k : DedupeKey) (ds : List NotificationDelivery)
      → has k ds ≡ true
      → (d : NotificationDelivery) × (find_delivery k ds ≡ some d)
  unfolding find_delivery
  find_delivery-has k [] h = cc
  find_delivery-has k (d ∷ ds) h = elim (Bool-cases (same_dedupe d.dedupe_key k)) [
    | inl e ↦ (d, rw (find_delivery, e) refl)
    | inr e ↦
        (let (d', found) = find_delivery-has k ds (ground arith) in
          (d', rw (find_delivery, e) found))
  ]

  has-append :
      (k : DedupeKey) (ds es : List NotificationDelivery)
      → has k (ds ++ es) ≡ (has k ds || has k es)
  has-append k [] es = refl
  has-append k (d ∷ ds) es = (let rest = has-append k ds es in ground arith)

  find_delivery-hit :
      (k : DedupeKey) (ds : List NotificationDelivery) (d : NotificationDelivery)
      → find_delivery k ds ≡ some d
      → has k ds ≡ true
  unfolding find_delivery
  find_delivery-hit k [] d h = cc
  find_delivery-hit k (e ∷ ds) d h = elim (Bool-cases (same_dedupe e.dedupe_key k)) [
    | inl hit ↦ ground arith
    | inr miss ↦
        (let rest = find_delivery-hit k ds d (rw (find_delivery, miss) at h) in ground arith)
  ]

  module _ (rule : NotificationRule) (event : Event) where
    -- A row is there afterwards, and what was there still is.
    persist-has :
        (item : PlannedDelivery) (k : DedupeKey) (now : ℕ) (ds : List NotificationDelivery)
        → has k (persist O rule event item k now ds).0 ≡ true
    unfolding persist
    persist-has item k now ds = elim (Option-cases (find_delivery k ds)) [
      | inr (d, h) ↦ rw (persist, h) (find_delivery-hit k ds d h)
      | inl h ↦
          (let itself = same_dedupe_refl k in rw (persist, h, has-append k ds _) (ground arith))
    ]

    persist-keeps :
        (item : PlannedDelivery) (k : DedupeKey) (now : ℕ) (ds : List NotificationDelivery)
        (j : DedupeKey)
        → has j ds ≡ true
        → has j (persist O rule event item k now ds).0 ≡ true
    unfolding persist
    persist-keeps item k now ds j there = elim (Option-cases (find_delivery k ds)) [
      | inr (d, h) ↦ rw (persist, h) there
      | inl h ↦ rw (persist, h, has-append j ds _, there) refl
    ]

    persist-known :
        (item : PlannedDelivery) (k : DedupeKey) (now : ℕ) (ds : List NotificationDelivery)
        → has k ds ≡ true
        → (persist O rule event item k now ds).0 ≡ ds
    unfolding persist
    persist-known item k now ds there =
        let (d, h) = find_delivery-has k ds there in rw (persist, h) refl

    abbrev keys : List PlannedDelivery → List DedupeKey
    keys = map (key_of O rule event)

    persist_all-keeps :
        (now : ℕ) (items : List PlannedDelivery) (ds : List NotificationDelivery) (queue : List ℕ)
        (j : DedupeKey)
        → has j ds ≡ true
        → has j (persist_all O rule event now items ds queue).0 ≡ true
    unfolding persist_all
    persist_all-keeps now [] ds queue j there = there
    persist_all-keeps now (item ∷ items) ds queue j there =
        persist_all-keeps now items _ _ j
          (persist-keeps item (key_of O rule event item) now ds j there)

    persist_all-has :
        (now : ℕ) (items : List PlannedDelivery) (ds : List NotificationDelivery) (queue : List ℕ)
        → All (λ k. has k (persist_all O rule event now items ds queue).0 ≡ true) (keys items)
    unfolding persist_all
    persist_all-has now [] ds queue = tt
    persist_all-has now (item ∷ items) ds queue = (
      persist_all-keeps now items _ _ (key_of O rule event item)
          (persist-has item (key_of O rule event item) now ds),
      persist_all-has now items _ _,
    )

    persist_all-known :
        (now : ℕ) (items : List PlannedDelivery) (ds : List NotificationDelivery) (queue : List ℕ)
        → All (λ k. has k ds ≡ true) (keys items)
        → (persist_all O rule event now items ds queue).0 ≡ ds
    unfolding persist_all
    persist_all-known now [] ds queue h = refl
    persist_all-known now (item ∷ items) ds queue h =
        (let same = persist-known item (key_of O rule event item) now ds h.0 in
          persist_all-known now items _ _
            (subst (λ es. All (λ k. has k es ≡ true) (keys items)) (sym same) h.1)
          ∙ same)

    -- The keys of a plan depend on the recipients and the channels alone.
    plan_channel-key :
        (branch : Option Branch) (now : ℕ) (db : Database) (r : Recipient) (locale channel : String)
        → key_of O rule event (plan_channel O rule event branch now db r locale channel)
          ≡ of_rule rule.id event.id (key O.lower O.upper r) channel
    plan_channel-key branch now db r locale channel =
        (let (same_recipient, same_channel, fit) =
            plan_channel-fits O rule event branch now db r locale channel in
          ap₂ (λ r c. of_rule rule.id event.id (key O.lower O.upper r) c) same_recipient
            same_channel)

    keys-append : (xs ys : List PlannedDelivery) → keys (xs ++ ys) ≡ keys xs ++ keys ys
    keys-append [] ys = refl
    keys-append (x ∷ xs) ys = rw (keys-append xs ys) refl

    keys-plan_channels :
        (branch : Option Branch) (now now' : ℕ) (db db' : Database) (r : Recipient)
        (locale : String) (cs : List String)
        → keys (plan_channels O rule event branch now db r locale cs)
          ≡ keys (plan_channels O rule event branch now' db' r locale cs)
    unfolding plan_channels
    keys-plan_channels branch now now' db db' r locale [] = refl
    keys-plan_channels branch now now' db db' r locale (c ∷ cs) = elim (Bool-cases (is_channel c)) [
      | inr unknown ↦
          rw (plan_channels, unknown) (keys-plan_channels branch now now' db db' r locale cs)
      | inl known ↦
          rw
            (
              plan_channels,
              known,
              plan_channel-key branch now db r locale c,
              plan_channel-key branch now' db' r locale c,
              keys-plan_channels branch now now' db db' r locale cs,
            )
            refl
    ]

    keys-plan_recipients :
        (branch : Option Branch) (now now' : ℕ) (db db' : Database) (rs : List Recipient)
        → keys (plan_recipients O rule event branch now db rs)
          ≡ keys (plan_recipients O rule event branch now' db' rs)
    unfolding plan_recipients
    keys-plan_recipients branch now now' db db' [] = refl
    keys-plan_recipients branch now now' db db' (r ∷ rs) =
        keys-append (plan_channels O rule event branch now db r (locale_of branch r) rule.channels)
          _
        ∙ ap₂ (λ xs ys. xs ++ ys)
            (keys-plan_channels branch now now' db db' r (locale_of branch r) rule.channels)
            (keys-plan_recipients branch now now' db db' rs)
        ∙ sym (
            keys-append
              (plan_channels O rule event branch now' db' r (locale_of branch r) rule.channels) _)

    -- An event that a rule has handled makes no further delivery when it is handled again, at whatever
    -- time and with whatever jobs are in the queue.
    pub process_rule_once :
        (now now' : ℕ) (db : Database) (queue queue' : List ℕ)
        → (process_rule O rule event now' (process_rule O rule event now db queue).0 queue').0
          ≡ (process_rule O rule event now db queue).0
    unfolding process_rule plan_rule resolve_audience
    process_rule_once now now' db queue queue' =
        (let branch = branch_of rule event db in
          let recipients = resolve_audience O.lower O.upper O.resolvers rule.audience event db in
          let plan = plan_recipients O rule event branch now db recipients in
          let db' = (process_rule O rule event now db queue).0 in
          let plan' = plan_recipients O rule event branch now' db' recipients in
          let all_there = persist_all-has now plan db.deliveries queue in
          let same_keys = keys-plan_recipients branch now now' db db' recipients in
          let known = subst (All (λ k. has k db'.deliveries ≡ true)) same_keys all_there in
          let same = persist_all-known now' plan' db'.deliveries queue' known in
          ap (λ ds. record db { deliveries = ds }) same)
