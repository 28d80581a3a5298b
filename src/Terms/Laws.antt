-- ===== src/Terms/Laws.antt =====
-- The sum of the amounts of milestones, and the amounts of validated milestones.
use mizan_labs_v.Prelude.{
  ℕ, suc, ◌+◌, ◌-◌, ◌≤◌, ◌≡◌, ◌≢◌, ◌⊎◌, refl, sym, ap, ◌∙◌, inl, inr, Bool, true, false, ◌&&◌, ◌||◌,
  Option, none, some, List, [], ◌∷◌, ◌++◌, arith, ltb, ◌==◌, ==_iff, if◌then◌else◌, Bool-cases,
  Option-cases, ltb→lt, ltb_false→le,
}
use mizan_labs_v.Terms.{
  ℤ, pos, ◌⊖◌, ◌+ℤ◌, Decimal, to_cents, Milestone, Problem, is_set, milestone_problems,
  each_problems, has_percent, has_amount, validate_milestones, amounts, amounts_must_equal_total,
  invalid_operation, given_amounts, share, shares, sum, all_pos, by_amounts, by_percents,
  compute_amounts,
}

-- sum(amounts, start)
abbrev pub total_of : ℤ → List ℤ → ℤ
total_of acc [] = acc
total_of acc (x ∷ xs) = total_of (acc +ℤ x) xs

total_of-all_pos : (n : ℕ) (xs : List ℕ) → total_of (pos n) (all_pos xs) ≡ pos (n + sum xs)
total_of-all_pos n [] = ap pos (omega arith)
total_of-all_pos n (x ∷ xs) = total_of-all_pos (n + x) xs ∙ ap pos (omega arith)

total_of-zero : (xs : List ℕ) → total_of (pos 0) (all_pos xs) ≡ pos (sum xs)
total_of-zero xs = total_of-all_pos 0 xs ∙ ap pos (omega arith)

total_of-append :
    (acc : ℤ) (xs ys : List ℤ) → total_of acc (xs ++ ys) ≡ total_of (total_of acc xs) ys
total_of-append acc [] ys = refl
total_of-append acc (x ∷ xs) ys = total_of-append (acc +ℤ x) xs ys

rest_of : {m n : ℕ} → n ≤ m → m ⊖ n ≡ pos (m - n)
rest_of {m = m} {n = n} h = ground arith

rest_lem : (s t : ℕ) → pos s +ℤ (t ⊖ s) ≡ pos t
rest_lem s t = elim (Bool-cases (ltb t s)) [
  | inl less ↦
      let small = ltb→lt t s less in
      rw less (rest_of (omega (arith, small)) ∙ ap pos (omega (arith, small)))
  | inr enough ↦ rw enough (ap pos (omega (arith, ltb_false→le t s enough)))
]

by_amounts-total :
    (total : ℕ) (o : Option (List ℕ)) (xs : List ℤ)
    → by_amounts total o ≡ amounts xs
    → total_of (pos 0) xs ≡ pos total
unfolding by_amounts
by_amounts-total total none xs h = cc
by_amounts-total total (some ns) xs h = elim (Bool-cases (sum ns == total)) [
  | inl right ↦
      let found : amounts (all_pos ns) ≡ amounts xs = rw right at h in
      let same : all_pos ns ≡ xs = cc in
      rw (← same) (total_of-zero ns ∙ ap pos ((==_iff (sum ns) total).0 right))
  | inr wrong ↦ let stuck : amounts_must_equal_total ≡ amounts xs = rw wrong at h in cc
]

by_percents-total :
    (total : ℕ) (o : Option (List ℕ)) (xs : List ℤ)
    → by_percents total o ≡ amounts xs
    → total_of (pos 0) xs ≡ pos total
unfolding by_percents
by_percents-total total none xs h = cc
by_percents-total total (some ns) xs h =
    let same : all_pos ns ++ ((total ⊖ sum ns) ∷ []) ≡ xs = cc in
    rw (← same) (
      total_of-append (pos 0) (all_pos ns) ((total ⊖ sum ns) ∷ [])
      ∙ ap (λ z. z +ℤ (total ⊖ sum ns)) (total_of-zero ns)
      ∙ rest_lem (sum ns) total)

-- Whenever amounts come out, by amount or by percent, they add up to the total in cents.
pub compute_amounts-total :
    (ms : List Milestone) (total : Decimal) (xs : List ℤ)
    → compute_amounts ms total ≡ amounts xs
    → total_of (pos 0) xs ≡ pos (to_cents total)
unfolding compute_amounts
compute_amounts-total ms total xs h = elim (Bool-cases (has_amount ms)) [
  | inl given ↦ by_amounts-total (to_cents total) (given_amounts ms) xs (rw given at h)
  | inr not_given ↦
      by_percents-total (to_cents total) (shares (to_cents total) ms) xs (rw not_given at h)
]

append_nil {ℓ} : {A : Type ℓ} (xs ys : List A) → xs ++ ys ≡ [] → (xs ≡ []) × (ys ≡ [])
append_nil [] ys h = (refl, h)
append_nil (x ∷ xs) ys h = cc

module _ {ℓ} {A : Type ℓ} (x : A) where
  if_nil : (b : Bool) → (if b then [] else x ∷ []) ≡ [] → b ≡ true
  if_nil true h = refl
  if_nil false h = cc

  unless_nil : (b : Bool) → (if b then x ∷ [] else []) ≡ [] → b ≡ false
  unless_nil true h = cc
  unless_nil false h = refl

-- A milestone without problems has a percent or an amount.
milestone_set :
    (i : ℕ) (m : Milestone)
    → milestone_problems i m ≡ []
    → (is_set m.percent || is_set m.amount) ≡ true
unfolding milestone_problems
milestone_set i m h =
    let (_, rest) = append_nil _ _ h in
    let (one, _) = append_nil _ _ rest in
    if_nil (Problem.no_percent_or_amount i) (is_set m.percent || is_set m.amount) one

shares-some :
    (total i : ℕ) (ms : List Milestone)
    → each_problems i ms ≡ []
    → has_amount ms ≡ false
    → (xs : List ℕ) × (shares total ms ≡ some xs)
unfolding each_problems shares
shares-some total i [] h none_given = ([], refl)
shares-some total i (m ∷ []) h none_given = ([], refl)
shares-some total i (m ∷ (n ∷ ms)) h none_given =
    let (first, rest) = append_nil (milestone_problems i m) _ h in
    let (xs, found) = shares-some total (suc i) (n ∷ ms) rest (ground arith) in
    let set = milestone_set i m first in
    elim (Option-cases m.percent) [
      | inl missing ↦ ground arith
      | inr (p, given) ↦ (share total p ∷ xs, rw (given, found))
    ]

given_amounts-some :
    (i : ℕ) (ms : List Milestone)
    → each_problems i ms ≡ []
    → has_percent ms ≡ false
    → (xs : List ℕ) × (given_amounts ms ≡ some xs)
unfolding each_problems given_amounts
given_amounts-some i [] h none_given = ([], refl)
given_amounts-some i (m ∷ ms) h none_given =
    let (first, rest) = append_nil (milestone_problems i m) _ h in
    let (xs, found) = given_amounts-some (suc i) ms rest (ground arith) in
    let set = milestone_set i m first in
    elim (Option-cases m.amount) [
      | inl missing ↦ ground arith
      | inr (a, given) ↦ (to_cents a ∷ xs, rw (given, found))
    ]

validate_inv :
    (m : Milestone) (ms : List Milestone)
    → validate_milestones (m ∷ ms) ≡ []
    → ((has_percent (m ∷ ms) && has_amount (m ∷ ms)) ≡ false) × (each_problems 0 (m ∷ ms) ≡ [])
unfolding validate_milestones
validate_inv m ms h =
    let (apart, rest) = append_nil _ _ h in
    let (_, each) = append_nil _ _ rest in
    (
      unless_nil Problem.percent_and_amount (has_percent (m ∷ ms) && has_amount (m ∷ ms)) apart,
      each,
    )

by_amounts-valid : (total : ℕ) (xs : List ℕ) → by_amounts total (some xs) ≢ invalid_operation
unfolding by_amounts
by_amounts-valid total xs h = ground arith

-- Milestones that validation passes never make the computation of the amounts fail, but for given
-- amounts that are not the total: with percents they always have amounts.
compute_amounts-validated :
    (ms : List Milestone) (total : Decimal)
    → validate_milestones ms ≡ []
    → (compute_amounts ms total ≢ invalid_operation)
      × ((has_amount ms ≡ true) ⊎ ((xs : List ℤ) × (compute_amounts ms total ≡ amounts xs)))
unfolding compute_amounts
compute_amounts-validated [] total h =
    let stuck : Problem.at_least_one ∷ [] ≡ [] = unfold validate_milestones in h in cc
compute_amounts-validated (m ∷ ms) total h =
    let (apart, each) = validate_inv m ms h in
    elim (Bool-cases (has_amount (m ∷ ms))) [
      | inl given ↦
          let no_percent : has_percent (m ∷ ms) ≡ false = ground (arith, apart, given) in
          let (xs, found) = given_amounts-some 0 (m ∷ ms) each no_percent in
          let run : compute_amounts (m ∷ ms) total ≡ by_amounts (to_cents total) (some xs) =
            rw (given, found) in
          (λ bad. by_amounts-valid (to_cents total) xs (sym run ∙ bad), inl given)
      | inr not_given ↦
          let (xs, found) = shares-some (to_cents total) 0 (m ∷ ms) each not_given in
          let run : compute_amounts (m ∷ ms) total
              ≡ amounts (all_pos xs ++ ((to_cents total ⊖ sum xs) ∷ [])) =
            unfold by_percents in rw (not_given, found) in
          (λ bad. cc (run, bad), inr (_, run))
    ]
