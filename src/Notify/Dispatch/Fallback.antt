-- ===== src/Notify/Dispatch/Fallback.antt =====
-- Which channel takes over from one that has failed (`fallback` of backend/mizan/apps/notify/dispatch.py).
use mathlib.Core.Path.{subst}
use mizan_labs_v.Prelude.{
  ℕ, ◌≡◌, ◌≢◌, refl, String, Bool, true, false, ◌&&◌, ◌||◌, not, none, some, inl, inr, List, [],
  ◌∷◌, any, str_eq, Bool-cases, Option-cases,
}
use mizan_labs_v.Notify.Dispatch.{is_nowhere, same_address, Outside}
use mizan_labs_v.Notify.Dispatch.Attempts.{is_used, can_take_over, fallback_text, fallback_from}
use mizan_labs_v.Notify.{pending, no_reason, of_fallback, NotificationDelivery, Database}
use mizan_labs_v.Notify.Recipients.{address_for}
use mizan_labs_v.Notify.Policies.{is_channel, preference_for, is_refused}

module _ (O : Outside) where
  take_over :
      (d : NotificationDelivery) (keep : Bool) (db : Database) (c : String)
      → can_take_over O d keep db c ≡ true
      → (any (is_used O d c) db.deliveries ≡ false)
        × (str_eq c d.channel ≡ false)
        × (is_channel c ≡ true)
        × (is_nowhere (address_for c d.recipient) ≡ false)
        × (is_refused (preference_for d.recipient c db.preferences) ≡ false)
        × ((keep
              || not (same_address (address_for c d.recipient) (address_for d.channel d.recipient)))
            ≡ true)
  unfolding can_take_over
  take_over d keep db c h =
      conditions (any (is_used O d c) db.deliveries) (str_eq c d.channel) (is_channel c)
        (is_nowhere (address_for c d.recipient))
        (is_refused (preference_for d.recipient c db.preferences)) keep
        (same_address (address_for c d.recipient) (address_for d.channel d.recipient)) h
    where
      conditions :
          (u s k n r keep a : Bool)
          → (not u && not s && k && not n && not r && (keep || not a)) ≡ true
          → (u ≡ false)
            × (s ≡ false)
            × (k ≡ true)
            × (n ≡ false)
            × (r ≡ false)
            × ((keep || not a) ≡ true)
      conditions true s k n r keep a h = cc
      conditions false true k n r keep a h = cc
      conditions false false false n r keep a h = cc
      conditions false false true true r keep a h = cc
      conditions false false true false true keep a h = cc
      conditions false false true false false true a h = (refl, refl, refl, refl, refl, refl)
      conditions false false true false false false true h = cc
      conditions false false true false false false false h = (refl, refl, refl, refl, refl, refl)

  -- A new delivery that may take over from one that has failed.
  abbrev pub IsWay : NotificationDelivery → Bool → Database → NotificationDelivery → Type 0
  IsWay d keep db new =
      (any (is_used O d new.channel) db.deliveries ≡ false)
      × (str_eq new.channel d.channel ≡ false)
      × (is_channel new.channel ≡ true)
      × (is_nowhere (address_for new.channel d.recipient) ≡ false)
      × (is_refused (preference_for d.recipient new.channel db.preferences) ≡ false)
      × ((keep
            || not (
                same_address (address_for new.channel d.recipient)
                  (address_for d.channel d.recipient)))
          ≡ true)
      × (new.recipient ≡ d.recipient)
      × (new.rendered ≢ none)
      × (new.status ≡ pending)
      × (new.attempts ≡ 0)

  -- A fallback goes over a channel that the rule has not yet used for the event and the recipient, that
  -- has an address for them, another one if the failed one was wrong, and that they did not refuse; it
  -- has a text, and no attempts yet.
  pub fallback_from-some :
      (cs : List String) (d : NotificationDelivery) (keep : Bool) (now : ℕ) (db : Database)
      {new : NotificationDelivery}
      → fallback_from O cs d keep now db ≡ some new
      → IsWay d keep db new
  unfolding fallback_from
  fallback_from-some [] d keep now db h = cc
  fallback_from-some (c ∷ cs) d keep now db {new} h = elim (Option-cases (fallback_text O d db c)) [
    | inl e ↦ fallback_from-some cs d keep now db (rw (fallback_from, e) at h)
    | inr (text, e) ↦ elim (Bool-cases (can_take_over O d keep db c)) [
      | inr no_way ↦ fallback_from-some cs d keep now db (rw (fallback_from, e, no_way) at h)
      | inl able ↦
          (let new_row : NotificationDelivery = record d {
            id = O.next_id db.deliveries;
            channel = c;
            rendered = some text;
            status = pending;
            attempts = 0;
            last_error = no_reason;
            scheduled_for = none;
            created_at = now;
            dedupe_key = of_fallback d.id c;
            fallback_of = some d.id;
          } in
            let x : some new_row ≡ some new = rw (fallback_from, e, able) at h in
            let same : new_row ≡ new = cc in
            let (a, b, f, g, i, j) = take_over d keep db c able in
            let made : IsWay d keep db new_row = (a, b, f, g, i, j, refl, (λ z. cc), refl, refl) in
            subst (IsWay d keep db) same made)
    ]
  ]
