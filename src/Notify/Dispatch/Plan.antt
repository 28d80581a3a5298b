-- ===== src/Notify/Dispatch/Plan.antt =====
-- What a plan sends, and to whom (`plan_rule` of backend/mizan/apps/notify/dispatch.py).
use mizan_labs_v.Prelude.{
  ℕ, ◌≡◌, ◌≢◌, refl, String, false, ◌&&◌, Option, none, inl, inr, List, [], ◌∷◌, ◌++◌, All,
  if◌then◌else◌, Bool-cases, Option-cases, ◌⊎◌,
}
use mizan_labs_v.Notify.Dispatch.{
  is_quiet_channel, is_nowhere, PlannedDelivery, Outside, is_waiting, locale_of, branch_of,
}
use mizan_labs_v.Notify.Dispatch.Rules.{plan_channel, plan_channels, plan_recipients, plan_rule}
use mizan_labs_v.Notify.{Recipient, NotificationRule, Branch, Event, Database}
use mizan_labs_v.Notify.Recipients.{key, address_for, resolve_audience}
use mizan_labs_v.Notify.Policies.{
  is_channel, template_for, preference_for, is_refused, quiet_hours_end, throttled,
}

module _ (O : Outside) where
  module _ (rule : NotificationRule) (event : Event) (branch : Option Branch) (now : ℕ)
      (db : Database) where
    -- What is planned to be sent has an address that the recipient did not refuse, is not throttled, has
    -- a text, and waits for the end of the quiet hours where these count.
    abbrev pub IsFit : PlannedDelivery → Type 0
    IsFit item =
        (is_waiting item.status ≡ false)
        ⊎ ((is_nowhere (address_for item.channel item.recipient) ≡ false)
            × (is_refused (preference_for item.recipient item.channel db.preferences) ≡ false)
            × (throttled O.lower O.upper rule (key O.lower O.upper item.recipient) now db.deliveries
                ≡ false)
            × (item.rendered ≢ none)
            × (item.scheduled_for ≡ (
                if rule.respect_quiet_hours && is_quiet_channel item.channel
                then quiet_hours_end O.to_local O.to_utc branch now
                else none)))

    -- An item is of its recipient and its channel, and fit.
    pub plan_channel-fits :
        (r : Recipient) (locale channel : String)
        → (let item = plan_channel O rule event branch now db r locale channel in
            (item.recipient ≡ r) × (item.channel ≡ channel) × IsFit item)
    unfolding plan_channel
    plan_channel-fits r locale channel = elim (Bool-cases (is_nowhere (address_for channel r))) [
      | inl a ↦ rw (IsFit, plan_channel, a) (refl, refl, inl refl)
      | inr a ↦ elim (Bool-cases (is_refused (preference_for r channel db.preferences))) [
        | inl b ↦ rw (IsFit, plan_channel, a, b) (refl, refl, inl refl)
        | inr b ↦
            elim (Bool-cases
              (throttled O.lower O.upper rule (key O.lower O.upper r) now db.deliveries)) [
                | inl c ↦ rw (IsFit, plan_channel, a, b, c) (refl, refl, inl refl)
                | inr c ↦
                    elim (Option-cases
                      (template_for rule.template_code locale channel db.templates)) [
                        | inl e ↦ rw (IsFit, plan_channel, a, b, c, e) (refl, refl, inl refl)
                        | inr (t, e) ↦
                            elim (Option-cases (O.render t event r branch locale channel)) [
                              | inl f ↦
                                  rw (IsFit, plan_channel, a, b, c, e, f) (refl, refl, inl refl)
                              | inr (text, f) ↦
                                  elim (Bool-cases
                                    (rule.respect_quiet_hours && is_quiet_channel channel)) [
                                      | inr loud ↦
                                          rw (IsFit, plan_channel, a, b, c, e, f, loud)
                                            (refl, refl, inr (a, b, c, (λ x. cc), rw loud refl))
                                      | inl quiet ↦
                                          elim (Option-cases
                                            (quiet_hours_end O.to_local O.to_utc branch now)) [
                                              | inl g ↦
                                                  rw (IsFit, plan_channel, a, b, c, e, f, quiet, g)
                                                    (
                                                      refl,
                                                      refl,
                                                      inr (a, b, c, (λ x. cc), rw quiet refl),
                                                    )
                                              | inr (end, g) ↦
                                                  rw (IsFit, plan_channel, a, b, c, e, f, quiet, g)
                                                    (
                                                      refl,
                                                      refl,
                                                      inr (a, b, c, (λ x. cc), rw quiet refl),
                                                    )
                                            ]
                                    ]
                            ]
                      ]
              ]
      ]
    ]

    All-append : (xs ys : List PlannedDelivery) → All IsFit xs → All IsFit ys → All IsFit (xs ++ ys)
    All-append [] ys hx hy = hy
    All-append (x ∷ xs) ys hx hy = (hx.0, All-append xs ys hx.1 hy)

    plan_channels-IsFit :
        (r : Recipient) (locale : String) (cs : List String)
        → All IsFit (plan_channels O rule event branch now db r locale cs)
    unfolding plan_channels
    plan_channels-IsFit r locale [] = tt
    plan_channels-IsFit r locale (c ∷ cs) = elim (Bool-cases (is_channel c)) [
      | inl known ↦
          rw (plan_channels, known)
            ((plan_channel-fits r locale c).2, plan_channels-IsFit r locale cs)
      | inr unknown ↦ rw (plan_channels, unknown) (plan_channels-IsFit r locale cs)
    ]

    plan_recipients-IsFit :
        (rs : List Recipient) → All IsFit (plan_recipients O rule event branch now db rs)
    unfolding plan_recipients
    plan_recipients-IsFit [] = tt
    plan_recipients-IsFit (r ∷ rs) =
        All-append (plan_channels O rule event branch now db r (locale_of branch r) rule.channels) _
          (plan_channels-IsFit r (locale_of branch r) rule.channels) (plan_recipients-IsFit rs)

  -- Whatever a rule plans to send goes to an address that there is, over a channel that the recipient did
  -- not refuse, to a recipient who is not throttled, with a text; and over a channel with quiet hours it
  -- waits for their end.
  pub plan_rule-IsFit :
      (rule : NotificationRule) (event : Event) (now : ℕ) (db : Database)
      → All (IsFit rule event (branch_of rule event db) now db) (plan_rule O rule event now db)
  unfolding plan_rule
  plan_rule-IsFit rule event now db =
      plan_recipients-IsFit rule event (branch_of rule event db) now db
        (resolve_audience O.lower O.upper O.resolvers rule.audience event db)
