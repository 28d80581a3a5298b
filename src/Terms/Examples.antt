-- ===== src/Terms/Examples.antt =====
-- Three thirds of a total, and the theorems on payment terms at them.
use mizan_labs_v.Prelude.{ℕ, ◌≡◌, refl, none, some, List, [], ◌∷◌}
use mizan_labs_v.Terms.{
  pos, negsuc, Decimal, half_up, to_cents, Milestone, percent_total, milestone_problems,
  each_problems, validate_milestones, amounts, share, shares, by_percents, compute_amounts,
}
use mizan_labs_v.Terms.Laws.{total_of, compute_amounts-total}

abbrev part : ℕ → ℕ → Milestone
part digits places = record {
  percent = some (record { digits = digits; places = places });
  amount = none;
  trigger = "MANUAL";
  label = ("fr", "Tranche") ∷ [];
}

-- 33.3 %, 33.3 % and 33.4 % of 100.01
abbrev thirds : List Milestone
thirds = part 333 1 ∷ part 333 1 ∷ part 334 1 ∷ []

abbrev price : Decimal
price = record { digits = 10001; places = 2 }

valid_thirds : validate_milestones thirds ≡ []
unfolding validate_milestones each_problems milestone_problems percent_total
valid_thirds = refl

amounts_of_thirds : compute_amounts thirds price ≡ amounts (pos 3330 ∷ pos 3330 ∷ pos 3341 ∷ [])
unfolding compute_amounts by_percents shares share half_up to_cents
amounts_of_thirds = refl

compute_amounts-total_example :
    total_of (pos 0) (pos 3330 ∷ pos 3330 ∷ pos 3341 ∷ []) ≡ pos (to_cents price)
compute_amounts-total_example =
    compute_amounts-total thirds price (pos 3330 ∷ pos 3330 ∷ pos 3341 ∷ []) amounts_of_thirds

-- Four quarters of two cents: the first three are rounded up, and the last is below zero.
quarters_negative :
    compute_amounts
      (part 25 0 ∷ part 25 0 ∷ part 25 0 ∷ part 25 0 ∷ [])
      (record { digits = 2; places = 2 })
    ≡ amounts (pos 1 ∷ pos 1 ∷ pos 1 ∷ negsuc 0 ∷ [])
unfolding compute_amounts by_percents shares share half_up to_cents
quarters_negative = refl
