-- ===== src/Formula/Engine.antt =====
-- The evaluation of a test definition over one run (`DefinitionEvaluator` of
-- backend/mizan/platform/formula/engine.py). A formula is its compilation, or the error of its
-- syntax. The subjects that the code changes in place are passed along; labels are left out of a
-- hit, and the clock counts each evaluation alike.
pub mod Rules
use mizan_labs_v.Prelude.{
  ℕ, zero, suc, String, Bool, true, false, ◌&&◌, not, Option, none, some, List, [], ◌∷◌, ◌++◌,
  str_eq, if◌then◌else◌,
}
use mizan_labs_v.Formula.{
  Numbers, FormulaError, Result, ok, err, Node, Value, decimal, plain, boolean, text, vector,
  mapping, nothing, Values, no_values, value, Items, no_items, item,
}
use mizan_labs_v.Formula.Operations.{then_with, find_item, truthy}
use mizan_labs_v.Formula.Eval.{Outcome, returns, raises, evaluate}

pub data Status : Type 0 where
  fine missing damaged : Status

pub data Level : Type 0 where
  per_specimen per_portion per_series per_run : Level

pub data Where : Type 0 where
  computed_at : String → Option String → Where
  aggregate_at : String → Where
  rule_at : String → Where
  target_at : String → Where

pub record Problem : Type 0 where
  pub error : FormulaError
  pub place : Where

abbrev pub is_fine : Status → Bool
is_fine fine = true
is_fine _ = false

abbrev pub same_level : Level → Level → Bool
same_level per_specimen per_specimen = true
same_level per_portion per_portion = true
same_level per_series per_series = true
same_level per_run per_run = true
same_level _ _ = false

module _ (N : Numbers) where
  pub record Subject : Type 0 where
    pub id : String
    pub inputs : Items N
    pub properties : Items N
    pub computed : Items N
    pub excluded : Bool
    pub exclusion_reason : Option String
    pub status : Status

  pub record RunData : Type 0 where
    pub subjects : List Subject
    pub run : Items N
    pub intake : Items N
    pub series : List Subject
    pub portions : List Subject
    pub const : Items N

  -- An entry of `computed` or `aggregates`.
  pub record Spec : Type 0 where
    pub key : String
    pub level : Level
    pub formula : Result (Node N)
    pub precision : Option ℕ

  -- What is not the program's: str, the registry, the clock, rounding of a number, and int(x) of an
  -- int or float that is not negative.
  pub record Machine : Type 0 where
    pub show : Value N → String
    pub functions : String → Option (Values N → Result (Value N))
    pub late : ℕ → Bool
    pub max_steps : ℕ
    pub round : ℕ → Value N → Result (Value N)
    pub index_of : N.Plain → Option ℕ

  -- d[key] = v
  unfoldable pub put : String → Value N → Items N → Items N
  put key v no_items = item key v no_items
  put key v (item k w rest) =
      let others = put key v rest in if str_eq k key then item k v rest else item k w others

  -- {**xs, **ys}
  unfoldable pub merge : Items N → Items N → Items N
  unfolding put
  merge xs no_items = xs
  merge xs (item k v ys) = merge (put k v xs) ys

  unfoldable pub merged : Subject → Value N
  unfolding put merge
  merged s = mapping (put "id" (text s.id) (merge s.inputs s.computed))

  unfoldable pub merged_all : List Subject → Values N
  unfolding merged
  merged_all [] = no_values
  merged_all (s ∷ ss) = value (merged s) (merged_all ss)

  -- _active
  unfoldable pub active : List Subject → List Subject
  active [] = []
  active (s ∷ ss) =
      let rest = active ss in if not s.excluded && is_fine s.status then s ∷ rest else rest

  unfoldable pub base_env : RunData → Items N
  unfolding merged_all
  base_env d = item "run" (mapping d.run) (
      item "intake" (mapping d.intake) (
        item "series" (vector (merged_all d.series)) (
          item "portions" (vector (merged_all d.portions))
            (item "const" (mapping d.const) (item "params" (mapping no_items) no_items)))))

  -- An environment over a base: the names that come first hide those of the base.
  unfoldable pub subject_env : Items N → Subject → Items N
  subject_env base s =
      item "inputs" (mapping s.inputs)
        (item "computed" (mapping s.computed) (item "specimen" (mapping s.properties) base))

  unfoldable pub aggregate_env : RunData → Items N → Items N → Items N → Items N
  unfolding base_env merged_all active
  aggregate_env d run_computed aggregates params =
      item "specimens" (vector (merged_all (active d.subjects))) (
        item "aggregates" (mapping aggregates) (
          item "inputs" (mapping d.run)
            (item "computed" (mapping run_computed) (item "params" (mapping params) (base_env d)))))

  abbrev pub is_number : Value N → Bool
  is_number (decimal d) = true
  is_number (plain p) = true
  is_number _ = false

  module _ (M : Machine) where
    -- _round
    abbrev pub rounded : Option ℕ → Value N → Result (Value N)
    rounded none v = ok v
    rounded (some digits) v = if is_number v then M.round digits v else ok v

    abbrev pub outcome_of : Option ℕ → Outcome (Value N) → Result (Value N)
    outcome_of precision (returns v steps) = rounded precision v
    outcome_of precision (raises e steps) = err e

    unfoldable pub run_formula : Result (Node N) → Items N → Option ℕ → Result (Value N)
    run_formula formula env precision = then_with formula (λ node. outcome_of precision (
        evaluate N
          (record {
            env = λ key. find_item N key env;
            show = M.show;
            functions = M.functions;
            late = M.late;
            max_steps = M.max_steps;
          })
          node))

    abbrev pub recorded : Where → Result (Value N) → Option (Value N) × List Problem
    recorded place (ok nothing) = (none, [])
    recorded place (ok v) = (some v, [])
    recorded place (err e) = (none, record { error = e; place = place } ∷ [])

    -- _evaluate: a value, if there is one, and the problem, if there is one.
    unfoldable pub evaluate_at :
        Result (Node N) → Items N → Where → Option ℕ → Option (Value N) × List Problem
    unfolding run_formula
    evaluate_at formula env place precision = recorded place (run_formula formula env precision)

    abbrev pub store : String → Option (Value N) → Items N → Items N
    store key none items = items
    store key (some v) items = put key v items

    unfoldable pub specs_of : Level → List Spec → List Spec
    specs_of level [] = []
    specs_of level (s ∷ ss) =
        let rest = specs_of level ss in if same_level s.level level then s ∷ rest else rest

    -- The computed values of one subject, each seeing those before it.
    unfoldable pub compute_subject : Items N → Subject → List Spec → Subject × List Problem
    unfolding evaluate_at put subject_env
    compute_subject base s [] = (s, [])
    compute_subject base s (spec ∷ specs) =
        let (v, ps) =
          evaluate_at spec.formula (subject_env base s) (computed_at spec.key (some s.id))
            spec.precision in
        let (end, qs) =
          compute_subject base (record s { computed = store spec.key v s.computed }) specs in
        (end, ps ++ qs)

    -- The subjects of a collection in turn; the base is made anew for each, from the collection as it
    -- then is.
    unfoldable pub compute_each :
        (List Subject → Items N)
        → List Spec
        → List Subject
        → List Subject
        → List Subject × List Problem
    unfolding compute_subject
    compute_each base specs before [] = (before, [])
    compute_each base specs before (s ∷ after) =
        let (s', ps) = compute_subject (base (before ++ (s ∷ after))) s specs in
        let (end, qs) = compute_each base specs (before ++ (s' ∷ [])) after in
        let skipped = compute_each base specs (before ++ (s ∷ [])) after in
        if is_fine s.status then (end, ps ++ qs) else skipped

    unfoldable pub compute_run : RunData → Items N → List Spec → Items N × List Problem
    unfolding evaluate_at put
    compute_run d computed [] = (computed, [])
    compute_run d computed (spec ∷ specs) =
        let env =
          item "inputs" (mapping d.run) (
            item "computed" (mapping computed) (item "specimen" (mapping no_items) (base_env d))) in
        let (v, ps) = evaluate_at spec.formula env (computed_at spec.key none) spec.precision in
        let (end, qs) = compute_run d (store spec.key v computed) specs in (end, ps ++ qs)

    -- compute_aggregates, from the aggregates so far.
    unfoldable pub aggregates_from :
        RunData → Items N → Items N → List Spec → Items N × List Problem
    unfolding evaluate_at put aggregate_env
    aggregates_from d run_computed aggregates [] = (aggregates, [])
    aggregates_from d run_computed aggregates (spec ∷ specs) =
        let (v, ps) =
          evaluate_at spec.formula (aggregate_env d run_computed aggregates no_items)
            (aggregate_at spec.key) spec.precision in
        let (end, qs) = aggregates_from d run_computed (store spec.key v aggregates) specs in
        (end, ps ++ qs)

    unfoldable pub compute_aggregates : RunData → Items N → List Spec → Items N × List Problem
    unfolding aggregates_from
    compute_aggregates d run_computed specs = aggregates_from d run_computed no_items specs
