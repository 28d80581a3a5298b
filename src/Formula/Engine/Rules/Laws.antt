-- ===== src/Formula/Engine/Rules/Laws.antt =====
-- The aggregates and the exclusions after the rules.
use mizan_labs_v.Prelude.{
  ℕ, zero, suc, ◌+◌, ◌<◌, String, ◌≡◌, refl, inl, inr, Bool, true, false, ◌&&◌, not, Option, none,
  some, List, [], ◌∷◌, arith, if◌then◌else◌, get_elem?, get_elem?-lt, length, length-append,
  Bool-cases, Option-cases,
}
use mizan_labs_v.Formula.{Numbers, Items}
use mizan_labs_v.Formula.Engine.{
  is_fine, Subject, RunData, Spec, Machine, active, compute_aggregates,
}
use mizan_labs_v.Formula.Engine.Rules.{
  Effect, flag, block, exclude_and_recompute, unknown, Rule, Definition, EvaluationResult,
  exclude_nth, pass_count, victim_at, Pass, stop, again, recompute, exclude_victim, exclude, fire,
  fire_if, rule_pass, passes, apply_rules, before_rules, evaluate_definition,
}

module _ (N : Numbers) where
  abbrev pub excluded_count : List (Subject N) → ℕ
  excluded_count [] = 0
  excluded_count (s ∷ ss) = if s.excluded then suc (excluded_count ss) else excluded_count ss

  -- Excluding an active subject adds one.
  exclude_nth-count :
      (code : String) (i : ℕ) (ss : List (Subject N))
      → i < length (active N ss)
      → excluded_count (exclude_nth N code i ss) ≡ suc (excluded_count ss)
  unfolding exclude_nth active
  exclude_nth-count code i [] h = absurd (omega arith)
  exclude_nth-count code zero (s ∷ ss) h = elim (Bool-cases (not s.excluded && is_fine s.status)) [
    | inl live ↦ ground arith
    | inr gone ↦ let rest = exclude_nth-count code zero ss (rw gone at h) in ground (arith, rest)
  ]
  exclude_nth-count code (suc i) (s ∷ ss) h =
      elim (Bool-cases (not s.excluded && is_fine s.status)) [
        | inl live ↦
            let fewer : i < length (active N ss) = omega (arith, rw live at h) in
            let rest = exclude_nth-count code i ss fewer in ground (arith, rest)
        | inr gone ↦
            let rest = exclude_nth-count code (suc i) ss (rw gone at h) in ground (arith, rest)
      ]

  module _ (M : Machine N) (specs : List (Spec N)) where
    abbrev pub result_of : Pass N M → EvaluationResult N
    result_of (stop r) = r
    result_of (again r) = r

    -- The aggregates are those of the subjects as they are, and the exclusions are all recorded, from
    -- a number of excluded subjects on.
    abbrev pub IsCoherent : ℕ → EvaluationResult N → Type 0
    IsCoherent base r =
        (r.aggregates ≡ (compute_aggregates N M r.run_data r.run_computed specs).0)
        × (excluded_count r.run_data.subjects ≡ base + length r.exclusions)

    victim_at-lt :
        (ss : List (Subject N)) (position : Option ℕ) (i : ℕ) (victim : Subject N)
        → victim_at N M ss position ≡ some (i, victim)
        → i < length ss
    victim_at-lt ss none i victim h = cc
    victim_at-lt ss (some j) i victim h = elim (Option-cases (get_elem? ss j)) [
      | inl outside ↦ let stuck : none ≡ some (i, victim) = rw (outside, victim_at) at h in cc
      | inr (s, found) ↦
          let pair : some (j, s) ≡ some (i, victim) = rw (found, victim_at) at h in
          let same : j ≡ i = cc in rw (← same) (get_elem?-lt ss j found)
    ]

    recompute-IsCoherent :
        (base : ℕ) (rule : Rule N) (i : ℕ) (victim : Subject N) (r : EvaluationResult N)
        → i < length (active N r.run_data.subjects)
        → IsCoherent base r
        → IsCoherent base (recompute N M specs rule (i, victim) r)
    unfolding recompute
    recompute-IsCoherent base rule i victim r h c = (
      refl,
      omega (
        arith,
        exclude_nth-count rule.code i r.run_data.subjects h,
        c.1,
        length-append r.exclusions _,
      ),
    )

    exclude_victim-IsCoherent :
        (base : ℕ) (rule : Rule N) (r : EvaluationResult N) (o : Option (ℕ × Subject N))
        → ((i : ℕ) (victim : Subject N)
            → o ≡ some (i, victim)
            → i < length (active N r.run_data.subjects))
        → IsCoherent base r
        → IsCoherent base (result_of (exclude_victim N M specs rule r o))
    unfolding exclude_victim
    exclude_victim-IsCoherent base rule r none h c = c
    exclude_victim-IsCoherent base rule r (some (i, victim)) h c =
        recompute-IsCoherent base rule i victim r (h i victim refl) c

    exclude-IsCoherent :
        (base : ℕ) (rule : Rule N) (env : Items N) (r : EvaluationResult N)
        → IsCoherent base r
        → IsCoherent base (result_of (exclude N M specs rule env r))
    unfolding exclude
    exclude-IsCoherent base rule env r c =
        exclude_victim-IsCoherent base rule _ _ (λ i victim h. victim_at-lt _ _ i victim h) c

    fire-IsCoherent :
        (base : ℕ) (e : Effect) (rule : Rule N) (env : Items N) (r : EvaluationResult N)
        → IsCoherent base r
        → IsCoherent base (result_of (fire N M specs e rule env r))
    unfolding fire
    fire-IsCoherent base flag rule env r c = c
    fire-IsCoherent base block rule env r c = c
    fire-IsCoherent base exclude_and_recompute rule env r c = exclude-IsCoherent base rule env r c
    fire-IsCoherent base unknown rule env r c = c

    fire_if-IsCoherent :
        (base : ℕ) (b : Bool) (rule : Rule N) (env : Items N) (r : EvaluationResult N)
        → IsCoherent base r
        → IsCoherent base (result_of (fire_if N M specs b rule env r))
    unfolding fire_if
    fire_if-IsCoherent base true rule env r c = fire-IsCoherent base rule.effect rule env r c
    fire_if-IsCoherent base false rule env r c = c

    rule_pass-IsCoherent :
        (base : ℕ) (rule : Rule N) (r : EvaluationResult N)
        → IsCoherent base r
        → IsCoherent base (result_of (rule_pass N M specs rule r))
    unfolding rule_pass
    rule_pass-IsCoherent base rule r c = fire_if-IsCoherent base _ rule _ _ c

    passes-IsCoherent :
        (base n : ℕ) (rule : Rule N) (r : EvaluationResult N)
        → IsCoherent base r
        → IsCoherent base (passes N M specs n rule r)
    unfolding passes
    passes-IsCoherent base zero rule r c = c
    passes-IsCoherent base (suc n) rule r c =
        go (λ r' c'. passes-IsCoherent base n rule r' c') (rule_pass N M specs rule r)
          (rule_pass-IsCoherent base rule r c)
      where
        go :
            ((r' : EvaluationResult N)
              → IsCoherent base r'
              → IsCoherent base (passes N M specs n rule r'))
            → (p : Pass N M) → IsCoherent base (result_of p)
            → IsCoherent base (elim p [ stop r' ↦ r' | again r' ↦ passes N M specs n rule r' ])
        go rest (stop r') c' = c'
        go rest (again r') c' = rest r' c'

    apply_rules-IsCoherent :
        (base : ℕ) (rules : List (Rule N)) (r : EvaluationResult N)
        → IsCoherent base r
        → IsCoherent base (apply_rules N M specs rules r)
    unfolding apply_rules
    apply_rules-IsCoherent base [] r c = c
    apply_rules-IsCoherent base (rule ∷ rules) r c =
        apply_rules-IsCoherent base rules _
          (passes-IsCoherent base (pass_count N rule.params) rule r c)

  -- After an evaluation, the aggregates are those of the subjects that are left, computed anew; and
  -- there are as many subjects more that are excluded, than after the levels were computed, as there
  -- are recorded exclusions.
  pub evaluate_definition-IsCoherent :
      (M : Machine N) (def : Definition N) (d : RunData N)
      → IsCoherent M def.aggregates
          (excluded_count (before_rules N M def d).run_data.subjects)
          (evaluate_definition N M def d)
  unfolding evaluate_definition before_rules
  evaluate_definition-IsCoherent M def d =
      apply_rules-IsCoherent M def.aggregates _ def.rules (before_rules N M def d)
        (refl, omega arith)
