-- ===== src/Notify/Policies.antt =====
-- Templates, preferences, quiet hours and throttling (backend/mizan/apps/notify/dispatch.py).
use mizan_labs_v.Prelude.{
  ℕ, suc, ◌+◌, ◌*◌, ◌/◌, ◌%◌, ◌≤◌, ◌<◌, ◌≡◌, String, Bool, true, false, ◌&&◌, ◌||◌, not, Option,
  none, some, List, [], ◌∷◌, ◌++◌, any, ltb, leb, ◌==◌, str_eq, if◌then◌else◌, arith,
}
use mizan_labs_v.Notify.{
  RecipientType, user, contact, Recipient, NotificationRule, MessageTemplate,
  ContactChannelPreference, DeliveryStatus, skipped, NotificationDelivery, Branch, Key,
}
use mizan_labs_v.Notify.Recipients.{same_type, same_key, key}

abbrev pub channel_codes : List String
channel_codes = "email" ∷ "sms" ∷ "whatsapp" ∷ "in_app" ∷ []

abbrev pub is_channel : String → Bool
is_channel c = any (λ k. str_eq k c) channel_codes

-- TEMPLATE_CHANNEL_FALLBACKS.get(channel, (channel,))
abbrev pub template_channels : String → List String
template_channels c =
    if str_eq c "email"
    then "email" ∷ "in_app" ∷ []
    else if str_eq c "sms"
    then "sms" ∷ "whatsapp" ∷ "in_app" ∷ []
    else if str_eq c "whatsapp"
    then "whatsapp" ∷ "sms" ∷ "in_app" ∷ []
    else if str_eq c "in_app"
    then "in_app" ∷ "sms" ∷ "whatsapp" ∷ "email" ∷ []
    else c ∷ []

abbrev pub locales_from : String → List String
locales_from locale =
    locale
    ∷ ((if str_eq "fr" locale then [] else "fr" ∷ [])
        ++ (if str_eq "en" locale then [] else "en" ∷ []))

unfoldable pub first_template :
    (MessageTemplate → Bool) → List MessageTemplate → Option MessageTemplate
first_template p [] = none
first_template p (t ∷ ts) = if p t then some t else first_template p ts

abbrev pub or_else {ℓ} : {A : Type ℓ} → Option A → Option A → Option A
or_else (some a) b = some a
or_else none b = b

abbrev pub has_code : String → MessageTemplate → Bool
has_code code t = str_eq t.code code && t.active

unfoldable pub in_locales :
    String → String → List String → List MessageTemplate → Option MessageTemplate
unfolding first_template
in_locales code channel [] rows = none
in_locales code channel (l ∷ ls) rows =
    or_else
      (first_template (λ t. has_code code t && str_eq t.channel channel && str_eq t.locale l) rows)
      (in_locales code channel ls rows)

unfoldable pub in_channels :
    String → List String → List String → List MessageTemplate → Option MessageTemplate
unfolding first_template in_locales
in_channels code locales [] rows = none
in_channels code locales (c ∷ cs) rows = or_else (in_locales code c locales rows) (
    or_else (first_template (λ t. has_code code t && str_eq t.channel c) rows)
      (in_channels code locales cs rows))

unfoldable pub template_for :
    String → String → String → List MessageTemplate → Option MessageTemplate
unfolding in_channels
template_for code locale channel =
    in_channels code (locales_from locale) (template_channels channel)

unfoldable pub own_preference :
    RecipientType → ℕ → String → List ContactChannelPreference → Option Bool
own_preference t id channel [] = none
own_preference t id channel (p ∷ ps) =
    if same_type p.recipient_type t && p.recipient_id == id && str_eq p.channel channel
    then some p.enabled
    else own_preference t id channel ps

-- preferences_for(recipient).get(channel): a contact's portal user decides where the contact does not.
unfoldable pub preference_for : Recipient → String → List ContactChannelPreference → Option Bool
unfolding own_preference
preference_for r channel rows = elim r.id [
  | none ↦ none
  | some id ↦ or_else (own_preference r.kind id channel rows) (elim r.kind [
    | user ↦ none
    | contact ↦ elim r.user_id [ none ↦ none | some u ↦ own_preference user u channel rows ]
  ])
]

abbrev pub is_refused : Option Bool → Bool
is_refused (some false) = true
is_refused (some true) = false
is_refused none = false

abbrev pub day : ℕ
day = 86400

-- The end of the quiet hours that a local moment falls in, as a local moment.
unfoldable pub quiet_end : ℕ → ℕ → ℕ → Option ℕ
quiet_end start stop local =
    let today = local / 86400 in
    let time = local % 86400 in
    if leb start stop
    then (if leb start time && ltb time stop then some (today * 86400 + stop) else none)
    else if leb start time
    then some ((today + 1) * 86400 + stop)
    else if ltb time stop
    then some (today * 86400 + stop)
    else none

-- The conversions of a moment to the time of a branch, by its zone, and back.
module _ (to_local to_utc : Branch → ℕ → ℕ) where
  unfoldable pub quiet_hours_end : Option Branch → ℕ → Option ℕ
  unfolding quiet_end
  quiet_hours_end none now = none
  quiet_hours_end (some b) now = elim b.quiet_hours [
    | none ↦ none
    | some (start, stop) ↦ elim (quiet_end start stop (to_local b now)) [
      | none ↦ none
      | some l ↦ some (to_utc b l)
    ]
  ]

-- Equal, or both NULL.
abbrev pub same_id : Option ℕ → Option ℕ → Bool
same_id none none = true
same_id none (some j) = false
same_id (some i) none = false
same_id (some i) (some j) = i == j

abbrev pub is_skipped : DeliveryStatus → Bool
is_skipped skipped = true
is_skipped _ = false

module _ (lower upper : String → String) where
  -- The deliveries of a rule to a recipient within the window that were not skipped.
  unfoldable pub recent : NotificationRule → Key → ℕ → List NotificationDelivery → ℕ
  unfolding key
  recent rule k now [] = 0
  recent rule k now (d ∷ ds) =
      let rest = recent rule k now ds in
      if same_id d.rule_id (some rule.id)
        && same_key (key lower upper d.recipient) k
        && leb now (d.created_at + rule.window_seconds)
        && not (is_skipped d.status)
      then suc rest
      else rest

  unfoldable pub throttled : NotificationRule → Key → ℕ → List NotificationDelivery → Bool
  unfolding recent
  throttled rule k now ds =
      if rule.window_seconds == 0 || rule.max == 0
      then false
      else leb rule.max (recent rule k now ds)

-- A quiet moment: the time of day is within the hours, which may go over midnight.
abbrev pub is_quiet : ℕ → ℕ → ℕ → Bool
is_quiet start stop local =
    if leb start stop
    then leb start (local % 86400) && ltb (local % 86400) stop
    else leb start (local % 86400) || ltb (local % 86400) stop

-- The end comes within a day after the moment, is the hour that the branch set, and is quiet no more.
pub quiet_end-some :
    (start stop local : ℕ) {end : ℕ}
    → start < 86400
    → stop < 86400
    → quiet_end start stop local ≡ some end
    → (is_quiet start stop local ≡ true)
      × (local < end)
      × (end ≤ local + 86400)
      × (end % 86400 ≡ stop)
      × (is_quiet start stop end ≡ false)
unfolding quiet_end
quiet_end-some start stop local {end} hs he h = ground arith

-- No quiet hours are missed.
quiet_end-none :
    (start stop local : ℕ) → quiet_end start stop local ≡ none → is_quiet start stop local ≡ false
unfolding quiet_end
quiet_end-none start stop local h = ground arith
