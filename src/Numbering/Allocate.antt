-- ===== src/Numbering/Allocate.antt =====
-- Allocation, preview and reservation of numbers
-- (backend/mizan/apps/config/numbering.py). The tables are a store: the counters by scheme and
-- period (zero where there is no row), the reservations and the schemes. A new row gets the
-- identifier that is passed. The counter is not bounded by the database's 64 bits.
pub mod Search
pub mod Laws
pub mod Versions
use mizan_labs_v.Prelude.{
  ℕ, zero, suc, ◌+◌, Bool, true, false, ◌&&◌, ◌||◌, not, Option, none, some, List, [], ◌∷◌, ◌++◌,
  ltb, ◌==◌, if◌then◌else◌, length, any,
}
use mizan_labs_v.Workflow.{ConfigStatus, draft, active, retired}
use mizan_labs_v.Workflow.Validate.{is_active, same_branch}
use mizan_labs_v.Numbering.Digits.{Text}
use mizan_labs_v.Numbering.{
  NumberingReset, GapPolicy, Allocation, Date, NumberingError, validate_scheme, period_key, Fields,
  format_number,
}

pub record Scheme : Type 0 where
  pub id : ℕ
  pub branch_id : ℕ
  pub department_id : Option ℕ
  pub applies_to : Text
  pub prefix : Text
  pub pattern : Text
  pub reset : NumberingReset
  pub gap_policy : GapPolicy
  pub allocation : Allocation
  pub version : ℕ
  pub status : ConfigStatus
  pub effective_from : Option Date
  pub immutable : Bool
  pub supersedes : Option ℕ
  pub branch_text : Text
  pub department_text : Text

pub record Store : Type 0 where
  pub counters : ℕ → Text → ℕ
  pub reservations : List (ℕ × Text)
  pub schemes : List Scheme

abbrev pub same_text : Text → Text → Bool
same_text [] [] = true
same_text (a ∷ s) (b ∷ t) = a == b && same_text s t
same_text _ _ = false

-- number in reserved
abbrev pub elem : Text → List Text → Bool
elem number numbers = any (λ n. same_text n number) numbers

-- The numbers that are reserved for a scheme.
unfoldable pub reserved_for : ℕ → List (ℕ × Text) → List Text
reserved_for scheme [] = []
reserved_for scheme ((owner, number) ∷ rows) =
    let others = reserved_for scheme rows in if owner == scheme then number ∷ others else others

abbrev pub fields_of : Scheme → Date → Fields
fields_of scheme on = record {
  prefix_text = scheme.prefix;
  branch_code = scheme.branch_text;
  department_code = scheme.department_text;
  on = on;
}

-- _format
unfoldable pub format : Scheme → Date → ℕ → Text
format scheme on sequence = format_number scheme.pattern (fields_of scheme on) sequence

-- _next_counter_value, as the counters it leaves: the new value is one more than the old.
unfoldable pub set_counter : ℕ → Text → ℕ → (ℕ → Text → ℕ) → ℕ → Text → ℕ
set_counter scheme key value counters s k =
    if s == scheme && same_text k key then value else counters s k

pub record AllocatedNumber : Type 0 where
  pub number : Text
  pub scheme_id : ℕ
  pub sequence : ℕ
  pub key : Text

abbrev pub max_skips : ℕ
max_skips = 10000

-- The loop of `allocate`: the counter is incremented until the number is not reserved. The answer is
-- the counter at the end, and whether its number is free.
unfoldable pub skip : ℕ → (ℕ → Text) → List Text → ℕ → ℕ × Bool
skip zero number reserved counter = (counter, false)
skip (suc rounds) number reserved counter =
    let more = skip rounds number reserved (counter + 1) in
    if elem (number (counter + 1)) reserved then more else (counter + 1, true)

pub data Allocated : Type 0 where
  allocated : AllocatedNumber → Scheme → Store → Allocated
  scheme_not_active : Allocated
  exhausted : Store → Allocated

abbrev pub freeze : ℕ → Scheme → Scheme
freeze id row = if row.id == id then record row { immutable = true } else row

abbrev pub freeze_all : ℕ → List Scheme → List Scheme
freeze_all id [] = []
freeze_all id (row ∷ rows) = freeze id row ∷ freeze_all id rows

-- The scheme in memory and its row become immutable, unless they are already.
unfoldable pub finish : Scheme → Date → ℕ → Store → Allocated
finish scheme on sequence store =
    allocated
      (record {
        number = format scheme on sequence;
        scheme_id = scheme.id;
        sequence = sequence;
        key = period_key scheme.reset on;
      })
      (record scheme { immutable = true })
      (if scheme.immutable
        then store
        else record store { schemes = freeze_all scheme.id store.schemes })

unfoldable pub allocate : Scheme → Date → Store → Allocated
unfolding finish
allocate scheme on store =
    let key = period_key scheme.reset on in
    let reserved = reserved_for scheme.id store.reservations in
    let (sequence, free) =
      skip max_skips (format scheme on) reserved (store.counters scheme.id key) in
    let store' = record store { counters = set_counter scheme.id key sequence store.counters } in
    if not (is_active scheme.status)
    then scheme_not_active
    else if free
    then finish scheme on sequence store'
    else exhausted store'

-- The loop of `preview`, by rounds: `none` when they run out.
unfoldable pub look : ℕ → (ℕ → Text) → List Text → ℕ → Option Text
look zero number reserved sequence = none
look (suc rounds) number reserved sequence =
    let more = look rounds number reserved (sequence + 1) in
    if elem (number sequence) reserved then more else some (number sequence)

-- One round more than there are reserved numbers.
unfoldable pub preview : Scheme → Date → Store → Option Text
preview scheme on store =
    let reserved = reserved_for scheme.id store.reservations in
    look (suc (length reserved)) (format scheme on) reserved
      (store.counters scheme.id (period_key scheme.reset on) + 1)

-- The rows that `reserve` adds: each number that the table does not have yet.
unfoldable pub new_rows : ℕ → List Text → List Text → List (ℕ × Text)
new_rows scheme taken [] = []
new_rows scheme taken (n ∷ numbers) =
    let rest = new_rows scheme taken numbers in if elem n taken then rest else (scheme, n) ∷ rest

unfoldable pub reserve : Scheme → List Text → Store → Store
unfolding new_rows
reserve scheme numbers store = record store {
  reservations =
      store.reservations ++ new_rows scheme.id (reserved_for scheme.id store.reservations) numbers;
}
