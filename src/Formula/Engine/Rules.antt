-- ===== src/Formula/Engine/Rules.antt =====
-- The rules of a test definition, and the whole evaluation (`apply_rules` and `run` of
-- backend/mizan/platform/formula/engine.py).
pub mod Laws
mod Examples
use mizan_labs_v.Prelude.{
  ℕ, zero, suc, String, Bool, true, false, ◌&&◌, not, Option, none, some, List, [], ◌∷◌, ◌++◌,
  str_eq, if◌then◌else◌, get_elem?,
}
use mizan_labs_v.Formula.{
  Numbers, Result, Node, Value, decimal, plain, boolean, text, vector, mapping, nothing, Values,
  Items, no_items,
}
use mizan_labs_v.Formula.Operations.{find_item, truthy}
use mizan_labs_v.Formula.Engine.{
  is_fine, per_specimen, per_portion, per_series, per_run, rule_at, target_at, Problem, Subject,
  RunData, Spec, Machine, active, base_env, aggregate_env, evaluate_at, specs_of, compute_each,
  compute_run, compute_aggregates,
}

pub data Effect : Type 0 where
  flag block exclude_and_recompute unknown : Effect

module _ (N : Numbers) where
  pub record Rule : Type 0 where
    pub code : String
    pub effect : Effect
    pub expression : Result (Node N)
    pub target : Result (Node N)
    pub params : Items N

  pub record RuleHit : Type 0 where
    pub code : String
    pub effect : Effect
    pub params : Items N
    pub target_subject_id : Option String

  pub record Definition : Type 0 where
    pub computed : List (Spec N)
    pub aggregates : List (Spec N)
    pub rules : List Rule

  -- EvaluationResult, also while the rules are applied.
  pub record EvaluationResult : Type 0 where
    pub run_data : RunData N
    pub run_computed : Items N
    pub aggregates : Items N
    pub flags : List RuleHit
    pub blocks : List RuleHit
    pub exclusions : List RuleHit
    pub problems : List Problem

  -- The i-th active subject is excluded, for the rule's code.
  unfoldable pub exclude_nth : String → ℕ → List (Subject N) → List (Subject N)
  exclude_nth code i [] = []
  exclude_nth code i (s ∷ ss) = elim (not s.excluded && is_fine s.status) [
    | false ↦ s ∷ exclude_nth code i ss
    | true ↦ elim i [
      | zero ↦ record s { excluded = true; exclusion_reason = some code } ∷ ss
      | suc j ↦ s ∷ exclude_nth code j ss
    ]
  ]

  -- params.get("iterative")
  abbrev pub is_iterative : Items N → Bool
  is_iterative params = elim (find_item N "iterative" params) [ none ↦ false | some v ↦ truthy N v ]

  abbrev pub max_iterative_passes : ℕ
  max_iterative_passes = 3

  abbrev pub pass_count : Items N → ℕ
  pass_count params = if is_iterative params then max_iterative_passes else 1

  abbrev pub hit_of : Rule → Option String → RuleHit
  hit_of rule target = record {
    code = rule.code;
    effect = rule.effect;
    params = rule.params;
    target_subject_id = target;
  }

  module _ (M : Machine N) where
    -- int(target) of an int or float; a Boolean is an int.
    abbrev pub position_of : Option (Value N) → Option ℕ
    position_of (some (plain p)) = M.index_of p
    position_of (some (boolean b)) = some (if b then 1 else 0)
    position_of _ = none

    abbrev pub victim_at : List (Subject N) → Option ℕ → Option (ℕ × Subject N)
    victim_at subjects none = none
    victim_at subjects (some i) = elim (get_elem? subjects i) [ none ↦ none | some s ↦ some (i, s) ]

    -- Whether the passes of a rule go on.
    pub data Pass : Type 0 where
      stop : EvaluationResult → Pass
      again : EvaluationResult → Pass

    module _ (specs : List (Spec N)) where
      -- The victim is excluded, and the aggregates are computed again.
      unfoldable pub recompute : Rule → ℕ × Subject N → EvaluationResult → EvaluationResult
      recompute rule (i, victim) r =
          let d = record r.run_data { subjects = exclude_nth rule.code i r.run_data.subjects } in
          let (aggregates, ps) = compute_aggregates N M d r.run_computed specs in
          record r {
            run_data = d;
            aggregates = aggregates;
            exclusions = r.exclusions ++ (hit_of rule (some victim.id) ∷ []);
            problems = r.problems ++ ps;
          }

      -- A target that names no active subject blocks.
      unfoldable pub exclude_victim : Rule → EvaluationResult → Option (ℕ × Subject N) → Pass
      unfolding recompute
      exclude_victim rule r none = stop (record r { blocks = r.blocks ++ (hit_of rule none ∷ []) })
      exclude_victim rule r (some victim) = again (recompute rule victim r)

      unfoldable pub exclude : Rule → Items N → EvaluationResult → Pass
      unfolding exclude_victim
      exclude rule env r =
          let (target, ps) = evaluate_at N M rule.target env (target_at rule.code) none in
          exclude_victim rule (record r { problems = r.problems ++ ps })
            (victim_at (active N r.run_data.subjects) (position_of target))

      unfoldable pub fire : Effect → Rule → Items N → EvaluationResult → Pass
      unfolding exclude
      fire flag rule env r = stop (record r { flags = r.flags ++ (hit_of rule none ∷ []) })
      fire block rule env r = stop (record r { blocks = r.blocks ++ (hit_of rule none ∷ []) })
      fire exclude_and_recompute rule env r = exclude rule env r
      fire unknown rule env r = stop (record r { blocks = r.blocks ++ (hit_of rule none ∷ []) })

      abbrev pub fired : Option (Value N) → Bool
      fired none = false
      fired (some v) = truthy N v

      unfoldable pub fire_if : Bool → Rule → Items N → EvaluationResult → Pass
      unfolding fire
      fire_if true rule env r = fire rule.effect rule env r
      fire_if false rule env r = stop r

      unfoldable pub rule_pass : Rule → EvaluationResult → Pass
      unfolding fire_if
      rule_pass rule r =
          let env = aggregate_env N r.run_data r.run_computed r.aggregates rule.params in
          let (v, ps) = evaluate_at N M rule.expression env (rule_at rule.code) none in
          fire_if (fired v) rule env (record r { problems = r.problems ++ ps })

      unfoldable pub passes : ℕ → Rule → EvaluationResult → EvaluationResult
      passes zero rule r = r
      passes (suc n) rule r = elim (rule_pass rule r) [ stop r' ↦ r' | again r' ↦ passes n rule r' ]

      unfoldable pub apply_rules : List Rule → EvaluationResult → EvaluationResult
      unfolding passes
      apply_rules [] r = r
      apply_rules (rule ∷ rules) r = apply_rules rules (passes (pass_count rule.params) rule r)

    -- The levels in turn: run, portions, series, specimens.
    unfoldable pub compute_levels : Definition → RunData N → RunData N × (Items N × List Problem)
    compute_levels def d =
        let (run_computed, p₁) = compute_run N M d no_items (specs_of N M per_run def.computed) in
        let (portions, p₂) =
          compute_each N M (λ ss. base_env N (record d { portions = ss }))
            (specs_of N M per_portion def.computed) [] d.portions in
        let d₂ = record d { portions = portions } in
        let (series, p₃) =
          compute_each N M (λ ss. base_env N (record d₂ { series = ss }))
            (specs_of N M per_series def.computed) [] d.series in
        let d₃ = record d₂ { series = series } in
        let (subjects, p₄) =
          compute_each N M (λ ss. base_env N d₃) (specs_of N M per_specimen def.computed) []
            d.subjects in
        (record d₃ { subjects = subjects }, (run_computed, p₁ ++ (p₂ ++ (p₃ ++ p₄))))

    -- The result before the rules.
    unfoldable pub before_rules : Definition → RunData N → EvaluationResult
    unfolding compute_levels
    before_rules def d =
        let (d', (run_computed, ps)) = compute_levels def d in
        let (aggregates, qs) = compute_aggregates N M d' run_computed def.aggregates in
        record {
          run_data = d';
          run_computed = run_computed;
          aggregates = aggregates;
          flags = [];
          blocks = [];
          exclusions = [];
          problems = ps ++ qs;
        }

    unfoldable pub evaluate_definition : Definition → RunData N → EvaluationResult
    unfolding before_rules apply_rules
    evaluate_definition def d = apply_rules def.aggregates def.rules (before_rules def d)
