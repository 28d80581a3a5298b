-- ===== src/Notify/Dispatch/Sending.antt =====
-- Attempts of a delivery and its fallbacks (`deliver` of backend/mizan/apps/notify/dispatch.py).
use mizan_labs_v.Prelude.{
  ℕ, zero, suc, ◌+◌, ◌≤◌, ◌≡◌, refl, sym, ◌∙◌, Bool, true, false, Option, some, inl, inr, List, [],
  ◌∷◌, ◌++◌, leb, ◌==◌, ==_iff, if◌then◌else◌, Bool-cases, Option-cases, arith, length,
}
use mizan_labs_v.Notify.Dispatch.{
  max_attempts, branch_at, Sent, accepted, permanent_error, temporary_error, Outside, find_delivery,
  is_waiting, fallback_order, save_delivery, delivery_at, attempted, keeps_address, has_failed,
}
use mizan_labs_v.Notify.Dispatch.Attempts.{fallback_from, fallback, deliver}
use mizan_labs_v.Notify.{DeliveryStatus, sent, failed, NotificationDelivery, Database}

-- How a delivery ends: the provider's first answer that is not a temporary error decides, among as
-- many as there are attempts left.
abbrev pub ends_as : ℕ → List Sent → DeliveryStatus
ends_as zero outcomes = failed
ends_as (suc left) [] = failed
ends_as (suc left) (accepted ∷ outcomes) = sent
ends_as (suc left) (permanent_error ∷ outcomes) = failed
ends_as (suc left) (temporary_error ∷ outcomes) = ends_as left outcomes

module _ (O : Outside) where
  abbrev pub at : ℕ → Database → Option NotificationDelivery
  at id db = delivery_at id db.deliveries

  delivery_at-append :
      (id : ℕ) (ds es : List NotificationDelivery) (d : NotificationDelivery)
      → delivery_at id ds ≡ some d
      → delivery_at id (ds ++ es) ≡ some d
  delivery_at-append id [] es d h = cc
  delivery_at-append id (e ∷ ds) es d h = elim (Bool-cases (e.id == id)) [
    | inl hit ↦ rw hit (rw hit at h)
    | inr miss ↦ rw miss (delivery_at-append id ds es d (rw miss at h))
  ]

  delivery_at-id :
      (id : ℕ) (ds : List NotificationDelivery) (d : NotificationDelivery)
      → delivery_at id ds ≡ some d
      → d.id ≡ id
  delivery_at-id id [] d h = cc
  delivery_at-id id (e ∷ ds) d h = elim (Bool-cases (e.id == id)) [
    | inl hit ↦
        (let same : some e ≡ some d = rw hit at h in
          let it = (==_iff e.id id).0 hit in let eq : e ≡ d = cc in rw (sym eq) it)
    | inr miss ↦ delivery_at-id id ds d (rw miss at h)
  ]

  delivery_at-save_delivery :
      (id : ℕ) (ds : List NotificationDelivery) (d d' : NotificationDelivery)
      → d'.id ≡ id
      → delivery_at id ds ≡ some d
      → delivery_at id (save_delivery d' ds) ≡ some d'
  unfolding save_delivery
  delivery_at-save_delivery id [] d d' e h = cc
  delivery_at-save_delivery id (x ∷ ds) d d' e h = elim (Bool-cases (x.id == id)) [
    | inl hit ↦
        (let itself = (==_iff d'.id id).1 e in
          let hit' : (x.id == d'.id) ≡ true = rw e hit in rw (save_delivery, hit') (rw itself refl))
    | inr miss ↦
        (let miss' : (x.id == d'.id) ≡ false = rw e miss in
          rw (save_delivery, miss')
            (rw miss (delivery_at-save_delivery id ds d d' e (rw miss at h))))
  ]

  -- A fallback adds a row at most.
  fallback-keeps :
      (id : ℕ) (d e : NotificationDelivery) (keep : Bool) (now : ℕ) (db : Database) (queue : List ℕ)
      → at id db ≡ some e
      → at id (fallback O d keep now db queue).0 ≡ some e
  unfolding fallback
  fallback-keeps id d e keep now db queue h =
      elim (Option-cases
        (fallback_from O (fallback_order (branch_at d.branch_id db.branches)) d keep now db)) [
          | inl none_left ↦ rw (fallback, none_left) h
          | inr (new, found) ↦ elim (Option-cases (find_delivery new.dedupe_key db.deliveries)) [
            | inr (old, there) ↦ rw (fallback, found, there) h
            | inl absent ↦
                rw (fallback, found, absent) (delivery_at-append id db.deliveries (new ∷ []) e h)
          ]
        ]

  attempted-id : (d : NotificationDelivery) (outcome : Sent) → (attempted d outcome).id ≡ d.id
  attempted-id d accepted = refl
  attempted-id d permanent_error = refl
  attempted-id d temporary_error = refl

  -- The row after a call of the worker.
  at-deliver :
      (id : ℕ) (outcome : Sent) (now : ℕ) (db : Database) (queue : List ℕ)
      (d : NotificationDelivery)
      → at id db ≡ some d
      → at id (deliver O id outcome now db queue).0
        ≡ some (if is_waiting d.status then attempted d outcome else d)
  unfolding deliver
  at-deliver id outcome now db queue d h = elim (Bool-cases (is_waiting d.status)) [
    | inr done ↦ rw (deliver, h, done) h
    | inl waits ↦
        (let tried = attempted d outcome in
          let same_id : tried.id ≡ id =
            attempted-id d outcome ∙ delivery_at-id id db.deliveries d h in
          let saved = delivery_at-save_delivery id db.deliveries d tried same_id h in
          let db' : Database = record db { deliveries = save_delivery tried db.deliveries } in
          elim (Bool-cases (has_failed tried.status)) [
            | inl lost ↦
                rw (deliver, h, waits, lost)
                  (fallback-keeps id tried tried (keeps_address outcome) now db' queue saved)
            | inr kept ↦ rw (deliver, h, waits, kept) saved
          ])
  ]

  -- The worker's calls for one delivery, each with what the provider answers.
  unfoldable pub deliver_all : ℕ → List Sent → ℕ → Database → List ℕ → Database × List ℕ
  unfolding deliver
  deliver_all id [] now db queue = (db, queue)
  deliver_all id (outcome ∷ outcomes) now db queue =
      let (db', queue') = deliver O id outcome now db queue in
      deliver_all id outcomes now db' queue'

  attempts_le :
      (d : NotificationDelivery) (outcome : Sent) → (attempted d outcome).attempts ≡ suc d.attempts
  attempts_le d accepted = refl
  attempts_le d permanent_error = refl
  attempts_le d temporary_error = refl

  -- A row that does not wait stays as it is.
  deliver_all-done :
      (id : ℕ) (outcomes : List Sent) (now : ℕ) (db : Database) (queue : List ℕ)
      (d : NotificationDelivery)
      → at id db ≡ some d
      → is_waiting d.status ≡ false
      → at id (deliver_all id outcomes now db queue).0 ≡ some d
  unfolding deliver_all
  deliver_all-done id [] now db queue d h done = h
  deliver_all-done id (outcome ∷ outcomes) now db queue d h done =
      (let after = at-deliver id outcome now db queue d h in
        deliver_all-done id outcomes now _ _ d (rw done at after) done)

  -- A delivery that waits and has attempts left ends as sent if the provider accepts it within them and
  -- before it refuses it for good, and as failed otherwise, with no more attempts than the limit, once
  -- the worker was called as often as attempts were left.
  pub deliver_settles :
      (left id : ℕ) (outcomes : List Sent) (now : ℕ) (db : Database) (queue : List ℕ)
      (d : NotificationDelivery)
      → at id db ≡ some d
      → is_waiting d.status ≡ true
      → suc left + d.attempts ≡ max_attempts
      → suc left ≤ length outcomes
      → (e : NotificationDelivery) × (at id (deliver_all id outcomes now db queue).0 ≡ some e)
        × (e.status ≡ ends_as (suc left) outcomes)
        × (e.attempts ≤ max_attempts)
  unfolding deliver_all
  deliver_settles left id [] now db queue d h waits budget enough = absurd (omega arith)
  deliver_settles left id (accepted ∷ outcomes) now db queue d h waits budget enough =
      (let after = at-deliver id accepted now db queue d h in
        (
          attempted d accepted,
          deliver_all-done id outcomes now _ _ (attempted d accepted) (rw waits at after) refl,
          refl,
          omega arith,
        ))
  deliver_settles left id (permanent_error ∷ outcomes) now db queue d h waits budget enough =
      (let after = at-deliver id permanent_error now db queue d h in
        (
          attempted d permanent_error,
          deliver_all-done id outcomes now _ _ (attempted d permanent_error) (rw waits at after)
              refl,
          refl,
          omega arith,
        ))
  deliver_settles zero id (temporary_error ∷ outcomes) now db queue d h waits budget enough =
      (let after = at-deliver id temporary_error now db queue d h in
        let last : leb max_attempts (suc d.attempts) ≡ true = ground arith in
        let lost : (attempted d temporary_error).status ≡ failed = rw last refl in
        (
          attempted d temporary_error,
          deliver_all-done id outcomes now _ _ (attempted d temporary_error) (rw waits at after)
              (rw lost refl),
          lost,
          omega arith,
        ))
  deliver_settles (suc left) id (temporary_error ∷ outcomes) now db queue d h waits budget enough =
      (let after = at-deliver id temporary_error now db queue d h in
        let more : leb max_attempts (suc d.attempts) ≡ false = ground arith in
        let kept : is_waiting (attempted d temporary_error).status ≡ true = rw more waits in
        deliver_settles left id outcomes now _ _ (attempted d temporary_error) (rw waits at after)
          kept (omega arith) (omega arith))
