-- ===== src/Numbering/Allocate/Laws.antt =====
-- Allocation, preview, and the numbers of one scheme over time.
use mizan_labs_v.Prelude.{
  ℕ, suc, ◌≤◌, ◌<◌, ◌≡◌, ◌≢◌, refl, sym, ap, ◌∙◌, inl, inr, Bool, true, false, ◌&&◌, some, List,
  arith, ◌==◌, ==_iff, Bool-cases, length,
}
use mizan_labs_v.Workflow.Validate.{is_active}
use mizan_labs_v.Numbering.Digits.{Text}
use mizan_labs_v.Numbering.{Date, segments, seq_count, period_key}
use mizan_labs_v.Numbering.Format.{format_number_injective}
use mizan_labs_v.Numbering.Allocate.{
  Scheme, Store, same_text, elem, reserved_for, fields_of, format, set_counter, AllocatedNumber,
  max_skips, skip, allocated, exhausted, finish, allocate, preview, reserve,
}
use mizan_labs_v.Numbering.Schemes.{changed, activate, Changes, new_version}
use mizan_labs_v.Numbering.Allocate.Search.{
  same_text_iff, skip_found, skip_le, skip_enough, skip_more, look-skip,
}

format_injective :
    (scheme : Scheme) (on : Date)
    → seq_count (segments scheme.pattern) ≡ 1
    → (m n : ℕ) → format scheme on m ≡ format scheme on n
    → m ≡ n
unfolding format
format_injective scheme on one m n h =
    format_number_injective scheme.pattern (fields_of scheme on) m n one h

same_text_refl : (s : Text) → same_text s s ≡ true
same_text_refl s = (same_text_iff s s).1 refl

set_counter_same :
    (scheme : ℕ) (key : Text) (value : ℕ) (counters : ℕ → Text → ℕ)
    → set_counter scheme key value counters scheme key ≡ value
unfolding set_counter
set_counter_same scheme key value counters = ground (arith, same_text_refl key)

set_counter_le :
    (scheme : ℕ) (key : Text) (value : ℕ) (counters : ℕ → Text → ℕ)
    → counters scheme key ≤ value
    → (s : ℕ) (k : Text) → counters s k ≤ set_counter scheme key value counters s k
unfolding set_counter
set_counter_le scheme key value counters h s k =
    elim (Bool-cases (s == scheme && same_text k key)) [
      | inl here ↦
          let e : s ≡ scheme = (==_iff s scheme).0 (ground arith) in
          let e' : k ≡ key = (same_text_iff k key).0 (ground arith) in rw (here, e, e') h
      | inr other ↦ rw other (omega arith)
    ]

module _ (scheme : Scheme) (on : Date) (store : Store) where
  abbrev pub key : Text
  key = period_key scheme.reset on

  abbrev pub reserved : List Text
  reserved = reserved_for scheme.id store.reservations

  abbrev pub counter : ℕ
  counter = store.counters scheme.id key

  abbrev search : ℕ × Bool
  search = skip max_skips (format scheme on) reserved counter

  -- An allocation, once the search has ended.
  allocate_inv :
      {a : AllocatedNumber} {scheme' : Scheme} {store' : Store}
      → allocate scheme on store ≡ allocated a scheme' store'
      → (is_active scheme.status ≡ true)
        × (search.1 ≡ true)
        × (a.sequence ≡ search.0)
        × (a.number ≡ format scheme on search.0)
        × (store'.counters ≡ set_counter scheme.id key search.0 store.counters)
        × (store'.reservations ≡ store.reservations)
  unfolding allocate finish
  allocate_inv h = ground arith

  exhausted_inv :
      {store' : Store}
      → allocate scheme on store ≡ exhausted store'
      → store'.counters ≡ set_counter scheme.id key search.0 store.counters
  unfolding allocate finish
  exhausted_inv h = ground arith

  -- An allocated number belongs to an active scheme, is not reserved, comes after the counter of
  -- its period, and is what the counter then stands at.
  pub allocate_lem :
      {a : AllocatedNumber} {scheme' : Scheme} {store' : Store}
      → allocate scheme on store ≡ allocated a scheme' store'
      → (is_active scheme.status ≡ true)
        × (a.number ≡ format scheme on a.sequence)
        × (elem a.number reserved ≡ false)
        × (counter < a.sequence)
        × (store'.counters scheme.id key ≡ a.sequence)
  allocate_lem h =
      let (live, found, at, text, after, _) = allocate_inv h in
      let (low, _, free) =
        skip_found (format scheme on) max_skips reserved counter search.0
          (ap (λ (b : Bool). (search.0, b)) found) in
      (
        live,
        rw at text,
        rw text free,
        omega (arith, at),
        rw (after, at) (set_counter_same scheme.id key search.0 store.counters),
      )

  -- With one sequence in the pattern and fewer reserved numbers than rounds, an active scheme always
  -- gives a number.
  pub allocate_total :
      seq_count (segments scheme.pattern) ≡ 1
      → is_active scheme.status ≡ true
      → length reserved < max_skips
      → (a : AllocatedNumber) × (scheme' : Scheme) × (store' : Store) × (allocate scheme on store
          ≡ allocated a scheme' store')
  unfolding allocate finish
  allocate_total one live few =
      let found =
        skip_enough (format scheme on) (format_injective scheme on one) max_skips reserved counter
          few in
      let run : allocate scheme on store
          ≡ finish scheme on search.0
              (record store { counters = set_counter scheme.id key search.0 store.counters }) =
        rw (live, found) in
      (_, _, _, run)

  preview_found :
      seq_count (segments scheme.pattern) ≡ 1
      → preview scheme on store
        ≡ some
            (format scheme on (skip (suc (length reserved)) (format scheme on) reserved counter).0)
  unfolding preview
  preview_found one = look-skip (format scheme on) (suc (length reserved)) reserved counter (
      skip_enough (format scheme on) (format_injective scheme on one) (suc (length reserved))
        reserved counter (omega arith))

  -- With one sequence in the pattern, the preview ends, and it shows the number that an allocation
  -- would give, where there are fewer reserved numbers than rounds.
  pub preview-allocate :
      {a : AllocatedNumber} {scheme' : Scheme} {store' : Store}
      → seq_count (segments scheme.pattern) ≡ 1
      → length reserved < max_skips
      → allocate scheme on store ≡ allocated a scheme' store'
      → preview scheme on store ≡ some a.number
  preview-allocate one few h =
      let (_, _, _, text, _, _) = allocate_inv h in
      let enough =
        skip_enough (format scheme on) (format_injective scheme on one) (suc (length reserved))
          reserved counter (omega arith) in
      let same =
        skip_more (format scheme on) (suc (length reserved)) max_skips reserved counter
          (omega arith) enough in
      preview_found one
      ∙ ap (λ (p : ℕ × Bool). some (format scheme on p.0)) (sym same)
      ∙ ap some (sym text)

-- What happens to the tables of numbering, in any order.
pub data Step : Store → Store → Type 0 where
  allocates :
      {store store' : Store} {a : AllocatedNumber} {scheme' : Scheme} (scheme : Scheme) (on : Date)
      → allocate scheme on store ≡ allocated a scheme' store'
      → Step store store'
  exhausts :
      {store store' : Store} (scheme : Scheme) (on : Date)
      → allocate scheme on store ≡ exhausted store'
      → Step store store'
  reserves :
      {store : Store} (scheme : Scheme) (numbers : List Text)
      → Step store (reserve scheme numbers store)
  activates :
      {store store' : Store} {scheme' : Scheme} (effective : Date) (scheme : Scheme)
      → activate effective scheme store ≡ changed scheme' store'
      → Step store store'
  versions :
      {store store' : Store} {scheme' : Scheme} (id : ℕ) (scheme : Scheme) (changes : Changes)
      → new_version id scheme changes store ≡ changed scheme' store'
      → Step store store'

pub data Steps : Store → Store → Type 0 where
  stay : {store : Store} → Steps store store
  before : {a b c : Store} → Step a b → Steps b c → Steps a c

activate_counters :
    (effective : Date) (scheme : Scheme) (store : Store) {scheme' : Scheme} {store' : Store}
    → activate effective scheme store ≡ changed scheme' store'
    → store'.counters ≡ store.counters
unfolding activate
activate_counters effective scheme store h = ground arith

new_version_counters :
    (id : ℕ) (scheme : Scheme) (changes : Changes) (store : Store) {scheme' : Scheme}
    {store' : Store}
    → new_version id scheme changes store ≡ changed scheme' store'
    → store'.counters ≡ store.counters
unfolding new_version
new_version_counters id scheme changes store h = ground arith

Step-le : {a b : Store} → Step a b → (s : ℕ) (k : Text) → a.counters s k ≤ b.counters s k
Step-le {a = a} (allocates scheme on h) s k =
    let (_, _, _, _, after, _) = allocate_inv scheme on a h in
    rw after
      (set_counter_le scheme.id _ _ a.counters (skip_le (format scheme on) max_skips _ _) s k)
Step-le {a = a} (exhausts scheme on h) s k =
    rw (exhausted_inv scheme on a h)
      (set_counter_le scheme.id _ _ a.counters (skip_le (format scheme on) max_skips _ _) s k)
Step-le (reserves scheme numbers) s k = unfold reserve in omega arith
Step-le {a = a} (activates effective scheme h) s k =
    rw (activate_counters effective scheme a h) (omega arith)
Step-le {a = a} (versions id scheme changes h) s k =
    rw (new_version_counters id scheme changes a h) (omega arith)

-- No counter ever goes back.
Steps-le : {a b : Store} → Steps a b → (s : ℕ) (k : Text) → a.counters s k ≤ b.counters s k
Steps-le stay s k = omega arith
Steps-le (before one rest) s k = omega (arith, Step-le one s k, Steps-le rest s k)

-- No number is given twice: whatever happens to the tables between two allocations of a scheme on
-- one day, the numbers differ, where the pattern has one sequence.
pub allocate_distinct :
    (scheme : Scheme) (on : Date) (one : seq_count (segments scheme.pattern) ≡ 1)
    (store store₂ : Store) {a b : AllocatedNumber} {scheme₁ scheme₂ : Scheme}
    {store₁ store₃ : Store}
    → allocate scheme on store ≡ allocated a scheme₁ store₁
    → Steps store₁ store₂
    → allocate scheme on store₂ ≡ allocated b scheme₂ store₃
    → a.number ≢ b.number
allocate_distinct scheme on one store store₂ first between second same =
    let (_, text, _, _, after) = allocate_lem scheme on store first in
    let (_, text', _, low, _) = allocate_lem scheme on store₂ second in
    let grown = Steps-le between scheme.id (period_key scheme.reset on) in
    absurd (
      omega
        (arith, after, low, grown, format_injective scheme on one _ _ (sym text ∙ same ∙ text')))
