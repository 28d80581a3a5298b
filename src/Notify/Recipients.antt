-- ===== src/Notify/Recipients.antt =====
-- Who gets a notification (backend/mizan/apps/notify/recipients.py). `lower` and `upper` are Python's,
-- and the resolvers of client contacts, which other applications register, are arguments.
use mizan_labs_v.Prelude.{
  ℕ, String, Bool, true, false, ◌&&◌, ◌||◌, not, Option, none, some, List, [], ◌∷◌, ◌++◌, any, ◌==◌,
  str_eq, if◌then◌else◌,
}
use mizan_labs_v.Notify.{
  RecipientType, user, contact, Key, by_id, by_email, by_phone, Address, no_address, text_address,
  inbox, Recipient, Audience, Membership, UserRow, Event, Database,
}

abbrev pub same_type : RecipientType → RecipientType → Bool
same_type user user = true
same_type user contact = false
same_type contact user = false
same_type contact contact = true

abbrev pub same_key : Key → Key → Bool
same_key (by_id t i) (by_id u j) = same_type t u && i == j
same_key (by_email s) (by_email t) = str_eq s t
same_key (by_phone s) (by_phone t) = str_eq s t
same_key (by_id t i) (by_email s) = false
same_key (by_id t i) (by_phone s) = false
same_key (by_email s) (by_id t i) = false
same_key (by_email s) (by_phone t) = false
same_key (by_phone s) (by_id t i) = false
same_key (by_phone s) (by_email t) = false

abbrev pub text_or_none : String → Address
text_or_none s = if str_eq s "" then no_address else text_address s

abbrev pub inbox_of : Option ℕ → Address
inbox_of none = no_address
inbox_of (some id) = inbox id

unfoldable pub address_for : String → Recipient → Address
address_for channel r =
    if str_eq channel "email"
    then text_or_none r.email
    else if str_eq channel "sms" || str_eq channel "whatsapp"
    then text_or_none r.phone
    else if str_eq channel "in_app"
    then inbox_of r.user_id
    else no_address

-- Recipient.from_user
abbrev pub from_user : String → UserRow → Recipient
from_user role u = record {
  kind = user;
  id = some u.id;
  name = if str_eq u.display_name "" then u.email else u.display_name;
  email = u.email;
  phone = u.phone;
  locale = u.locale;
  user_id = some u.id;
  role = role;
}

abbrev pub one_of : ℕ → List ℕ → Bool
one_of id ids = any (λ i. i == id) ids

-- Q(x__isnull=True) | Q(x=…)
abbrev pub open_or_in : Option ℕ → List ℕ → Bool
open_or_in none ids = true
open_or_in (some id) ids = one_of id ids

abbrev pub find_user : ℕ → List UserRow → Option UserRow
find_user id [] = none
find_user id (u ∷ us) = if u.id == id then some u else find_user id us

module _ (lower upper : String → String) where
  unfoldable pub key : Recipient → Key
  key r = elim r.id [
    | some id ↦ by_id r.kind id
    | none ↦ if str_eq r.email "" then by_phone r.phone else by_email (lower r.email)
  ]

  -- found.setdefault(recipient.key, recipient) for each
  abbrev pub has_key : Key → List Recipient → Bool
  has_key k found = any (λ r. same_key (key r) k) found

  unfoldable pub add_all : List Recipient → List Recipient → List Recipient
  unfolding key
  add_all [] found = found
  add_all (r ∷ rs) found = add_all rs (if has_key (key r) found then found else found ++ (r ∷ []))

  abbrev pub in_branch : Option ℕ → Membership → Bool
  in_branch none m = true
  in_branch (some branch) m = open_or_in m.branch_id (branch ∷ [])

  abbrev pub in_departments : List ℕ → Membership → Bool
  in_departments [] m = true
  in_departments (d ∷ ds) m = open_or_in m.department_id (d ∷ ds)

  abbrev pub holds_one : List String → Membership → Bool
  holds_one roles m = any (λ r. str_eq (upper r) m.role_code) roles

  -- The first membership of each user.
  unfoldable pub staff_from :
      (Membership → Bool) → List UserRow → List Membership → List Recipient → List Recipient
  staff_from holds users [] seen = seen
  staff_from holds users (m ∷ ms) seen = elim (find_user m.user_id users) [
    | none ↦ staff_from holds users ms seen
    | some u ↦ staff_from holds users ms (
        if m.is_active
          && m.is_staff
          && u.is_active
          && holds m
          && not (any (λ r. same_key (key r) (by_id user u.id)) seen)
        then seen ++ (from_user m.role_code u ∷ [])
        else seen)
  ]

  unfoldable pub staff_by_roles : List String → Option ℕ → List ℕ → Database → List Recipient
  unfolding staff_from
  staff_by_roles roles branch departments db =
      staff_from (λ m. holds_one roles m && in_branch branch m && in_departments departments m)
        db.users db.memberships []

  unfoldable pub users_by_ids : List ℕ → List UserRow → List Recipient
  users_by_ids ids [] = []
  users_by_ids ids (u ∷ us) =
      let rest = users_by_ids ids us in
      if u.is_active && one_of u.id ids then from_user "" u ∷ rest else rest

  abbrev pub payload_ids : Event → List String → List ℕ
  payload_ids event [] = []
  payload_ids event (k ∷ ks) = event.payload_users k ++ payload_ids event ks

  module _ (resolvers : List (Event → List String → List Recipient)) where
    unfoldable pub resolve_contacts :
        List (Event → List String → List Recipient)
        → Event
        → List String
        → List Recipient
        → List Recipient
    unfolding add_all
    resolve_contacts [] event roles found = found
    resolve_contacts (f ∷ fs) event roles found =
        resolve_contacts fs event roles (add_all (f event roles) found)

    unfoldable pub contacts_by_roles : Event → List String → List Recipient
    unfolding resolve_contacts
    contacts_by_roles event [] = []
    contacts_by_roles event (r ∷ rs) = resolve_contacts resolvers event (r ∷ rs) []

    unfoldable pub resolve_audience : Audience → Event → Database → List Recipient
    unfolding staff_by_roles users_by_ids contacts_by_roles add_all
    resolve_audience audience event db =
        let staff = staff_by_roles audience.roles event.branch_id event.department_ids db in
        let ids = audience.user_ids ++ payload_ids event audience.payload_user_keys in
        add_all (contacts_by_roles event audience.contact_roles)
          (add_all (users_by_ids ids db.users) (add_all staff []))
