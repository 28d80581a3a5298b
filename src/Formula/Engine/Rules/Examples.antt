-- ===== src/Formula/Engine/Rules/Examples.antt =====
-- A test of three specimens with one outlier, which a rule excludes, and the theorem on evaluation
-- at it.
use mizan_labs_v.Prelude.{
  ℕ, suc, ◌≡◌, refl, String, false, none, some, [], ◌∷◌, ltb, ◌==◌, str_eq, if◌then◌else◌,
}
use mizan_labs_v.Formula.Naturals.{naturals}
use mizan_labs_v.Formula.{
  lt, formula_error, Result, ok, err, num, name, compare, call, end, link, Nodes, no_nodes, node,
  Value, decimal, plain, vector, Values, no_values, value, no_items, item,
}
use mizan_labs_v.Formula.Operations.{number, get_attr, follow, compare_op, truthy}
use mizan_labs_v.Formula.Eval.{eval, evaluate}
use mizan_labs_v.Formula.Engine.{
  fine, per_run, Subject, RunData, Machine, put, merge, merged, merged_all, active, base_env,
  aggregate_env, run_formula, evaluate_at, specs_of, compute_each, compute_run, aggregates_from,
  compute_aggregates,
}
use mizan_labs_v.Formula.Engine.Rules.{
  exclude_and_recompute, Rule, Definition, EvaluationResult, exclude_nth, recompute, exclude_victim,
  exclude, fire, fire_if, rule_pass, passes, apply_rules, compute_levels, before_rules,
  evaluate_definition,
}
use mizan_labs_v.Formula.Engine.Rules.Laws.{
  excluded_count, IsCoherent, evaluate_definition-IsCoherent,
}

-- The least of a vector of numbers, and its first position.
abbrev least : Values naturals → ℕ
least (value (decimal d) no_values) = d
least (value (decimal d) vs) = if ltb d (least vs) then d else least vs
least _ = 0

abbrev least_at : ℕ → Values naturals → ℕ
least_at d (value (decimal e) vs) = if e == d then 0 else suc (least_at d vs)
least_at d _ = 0

abbrev min : Values naturals → Result (Value naturals)
min (value (vector vs) no_values) = ok (decimal (least vs))
min _ = err formula_error

abbrev argmin : Values naturals → Result (Value naturals)
argmin (value (vector vs) no_values) = ok (plain (least_at (least vs) vs))
argmin _ = err formula_error

abbrev machine : Machine naturals
machine = record {
  show = λ v. "";
  functions =
      λ f. if str_eq f "min" then some min else if str_eq f "argmin" then some argmin else none;
  late = λ n. false;
  max_steps = 1000;
  round = λ digits v. ok v;
  index_of = λ p. some p;
}

abbrev specimen : String → ℕ → Subject naturals
specimen id load = record {
  id = id;
  inputs = item "load" (decimal load) no_items;
  properties = no_items;
  computed = no_items;
  excluded = false;
  exclusion_reason = none;
  status = fine;
}

abbrev run_data : RunData naturals
run_data = record {
  subjects = specimen "a" 70 ∷ specimen "b" 5 ∷ specimen "c" 80 ∷ [];
  run = no_items;
  intake = no_items;
  series = [];
  portions = [];
  const = no_items;
}

abbrev loads : Nodes naturals
loads = node (name "specimens" ("load" ∷ [])) no_nodes

abbrev outlier : Rule naturals
outlier = record {
  code = "SINGLE_OUTLIER";
  effect = exclude_and_recompute;
  expression = ok (compare (name "aggregates" ("low" ∷ [])) (link lt (num 50) end));
  target = ok (call "argmin" loads);
  params = no_items;
}

abbrev definition : Definition naturals
definition = record {
  computed = [];
  aggregates =
      record { key = "low"; level = per_run; formula = ok (call "min" loads); precision = none }
      ∷ [];
  rules = outlier ∷ [];
}

abbrev result : EvaluationResult naturals
result = evaluate_definition naturals machine definition run_data

excludes_outlier : result.aggregates ≡ item "low" (decimal 70) no_items
unfolding evaluate_definition before_rules compute_levels compute_run compute_each specs_of
    compute_aggregates aggregates_from evaluate_at run_formula evaluate eval aggregate_env base_env
    merged_all merged merge put active apply_rules passes rule_pass fire_if fire exclude
    exclude_victim recompute exclude_nth truthy get_attr follow compare_op number
excludes_outlier = refl

evaluate_definition-IsCoherent_example :
    IsCoherent naturals machine definition.aggregates
      (excluded_count naturals
        (before_rules naturals machine definition run_data).run_data.subjects)
      result
evaluate_definition-IsCoherent_example =
    evaluate_definition-IsCoherent naturals machine definition run_data
