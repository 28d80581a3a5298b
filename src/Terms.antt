-- ===== src/Terms.antt =====
-- Payment terms (backend/mizan/apps/config/payment_terms.py): the validation of milestones and their
-- amounts. A Decimal that comes in is not negative: its digits as a number, and how many of them are
-- behind the point; products and quotients are exact, as Decimal has them up to 28 digits. An amount
-- is a whole number of cents, which may be negative where one is computed as a rest.
pub mod Laws
mod Examples
use mizan_labs_v.Prelude.{
  ℕ, zero, suc, ◌+◌, ◌-◌, ◌*◌, ◌/◌, ◌^◌, String, Bool, true, false, ◌&&◌, ◌||◌, not, Option, none,
  some, List, [], ◌∷◌, ◌++◌, str_eq, ltb, ◌==◌, if◌then◌else◌, any,
}

pub data ℤ : Type 0 where
  pos : ℕ → ℤ
  negsuc : ℕ → ℤ

-- m - n
infixl 65 ◌⊖◌
abbrev pub ◌⊖◌ : ℕ → ℕ → ℤ
m ⊖ n = if ltb m n then negsuc (n - m - 1) else pos (m - n)

infixl 65 ◌+ℤ◌
abbrev pub ◌+ℤ◌ : ℤ → ℤ → ℤ
pos m +ℤ pos n = pos (m + n)
pos m +ℤ negsuc n = m ⊖ suc n
negsuc m +ℤ pos n = n ⊖ suc m
negsuc m +ℤ negsuc n = negsuc (suc (m + n))

pub record Decimal : Type 0 where
  pub digits : ℕ
  pub places : ℕ

-- The quotient, rounded half up.
unfoldable pub half_up : ℕ → ℕ → ℕ
half_up a b = (2 * a + b) / (2 * b)

-- d.quantize(CENT, rounding=ROUND_HALF_UP)
unfoldable pub to_cents : Decimal → ℕ
unfolding half_up
to_cents d = half_up (d.digits * 100) (10 ^ d.places)

abbrev pub plus : Decimal → Decimal → Decimal
plus a b = record {
  digits = a.digits * 10 ^ b.places + b.digits * 10 ^ a.places;
  places = a.places + b.places;
}

abbrev pub is_hundred : Decimal → Bool
is_hundred d = d.digits == 100 * 10 ^ d.places

pub record Milestone : Type 0 where
  pub percent : Option Decimal
  pub amount : Option Decimal
  pub trigger : String
  pub label : List (String × String)

abbrev pub triggers : List String
triggers = "ON_ACCEPTANCE" ∷ "ON_DELIVERY" ∷ "ON_REPORT" ∷ "ON_DATE" ∷ "ON_PHASE" ∷ "MANUAL" ∷ []

pub data Problem : Type 0 where
  at_least_one percent_and_amount percents_must_total_100 : Problem
  bad_trigger no_percent_or_amount no_label : ℕ → Problem

abbrev pub is_set : Option Decimal → Bool
is_set none = false
is_set (some d) = true

-- The sum of the percents that are given.
unfoldable pub percent_total : List Milestone → Decimal
percent_total [] = record { digits = 0; places = 0 }
percent_total (m ∷ ms) = elim m.percent [
  | none ↦ percent_total ms
  | some p ↦ plus p (percent_total ms)
]

abbrev pub is_empty {ℓ} : {A : Type ℓ} → List A → Bool
is_empty [] = true
is_empty (x ∷ xs) = false

unfoldable pub milestone_problems : ℕ → Milestone → List Problem
milestone_problems i m =
    (if any (λ t. str_eq t m.trigger) triggers then [] else bad_trigger i ∷ [])
    ++ ((if is_set m.percent || is_set m.amount then [] else no_percent_or_amount i ∷ [])
        ++ (if is_empty m.label then no_label i ∷ [] else []))

unfoldable pub each_problems : ℕ → List Milestone → List Problem
unfolding milestone_problems
each_problems i [] = []
each_problems i (m ∷ ms) = milestone_problems i m ++ each_problems (suc i) ms

abbrev pub has_percent : List Milestone → Bool
has_percent ms = any (λ m. is_set m.percent) ms

abbrev pub has_amount : List Milestone → Bool
has_amount ms = any (λ m. is_set m.amount) ms

unfoldable pub validate_milestones : List Milestone → List Problem
unfolding each_problems percent_total
validate_milestones [] = at_least_one ∷ []
validate_milestones (m ∷ ms) =
    (if has_percent (m ∷ ms) && has_amount (m ∷ ms) then percent_and_amount ∷ [] else [])
    ++ ((if has_percent (m ∷ ms) && not (is_hundred (percent_total (m ∷ ms)))
          then percents_must_total_100 ∷ []
          else [])
        ++ each_problems 0 (m ∷ ms))

pub data Amounts : Type 0 where
  amounts : List ℤ → Amounts
  amounts_must_equal_total : Amounts
  invalid_operation : Amounts

-- Decimal(str(None)) is invalid.
unfoldable pub given_amounts : List Milestone → Option (List ℕ)
unfolding to_cents
given_amounts [] = some []
given_amounts (m ∷ ms) = elim m.amount [
  | none ↦ none
  | some a ↦ elim (given_amounts ms) [ none ↦ none | some xs ↦ some (to_cents a ∷ xs) ]
]

unfoldable pub share : ℕ → Decimal → ℕ
unfolding half_up
share total p = half_up (total * p.digits) (100 * 10 ^ p.places)

-- The amounts of all milestones but the last.
unfoldable pub shares : ℕ → List Milestone → Option (List ℕ)
unfolding share
shares total [] = some []
shares total (m ∷ []) = some []
shares total (m ∷ (n ∷ ms)) = elim m.percent [
  | none ↦ none
  | some p ↦ elim (shares total (n ∷ ms)) [ none ↦ none | some xs ↦ some (share total p ∷ xs) ]
]

abbrev pub sum : List ℕ → ℕ
sum [] = 0
sum (x ∷ xs) = x + sum xs

abbrev pub all_pos : List ℕ → List ℤ
all_pos [] = []
all_pos (x ∷ xs) = pos x ∷ all_pos xs

unfoldable pub by_amounts : ℕ → Option (List ℕ) → Amounts
by_amounts total none = invalid_operation
by_amounts total (some xs) =
    if sum xs == total then amounts (all_pos xs) else amounts_must_equal_total

-- The last one absorbs the difference.
unfoldable pub by_percents : ℕ → Option (List ℕ) → Amounts
by_percents total none = invalid_operation
by_percents total (some xs) = amounts (all_pos xs ++ ((total ⊖ sum xs) ∷ []))

unfoldable pub compute_amounts : List Milestone → Decimal → Amounts
unfolding by_amounts by_percents given_amounts shares
compute_amounts ms total =
    if has_amount ms
    then by_amounts (to_cents total) (given_amounts ms)
    else by_percents (to_cents total) (shares (to_cents total) ms)
