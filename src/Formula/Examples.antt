-- ===== src/Formula/Examples.antt =====
-- Formulas over natural numbers as a toy arithmetic, and the theorems on evaluation at them.
use mizan_labs_v.Prelude.{
  ℕ, ◌≡◌, refl, String, false, Option, none, some, [], arith, str_eq, if◌then◌else◌,
}
use mizan_labs_v.Formula.Naturals.{naturals}
use mizan_labs_v.Formula.{
  div, gt, division_by_zero, limit_exceeded, Node, num, name, dot, binary, compare, call, lambda,
  end, link, no_nodes, node, Value, decimal, vector, mapping, no_values, value, no_items, item,
}
use mizan_labs_v.Formula.Operations.{
  number, get_attr, follow, binary_op, arithmetic, compare_op, truthy,
}
use mizan_labs_v.Formula.Eval.{returns, raises, Context, eval, evaluate}
use mizan_labs_v.Formula.Eval.Laws.{evaluate-env}
use mizan_labs_v.Formula.Eval.Budget.{is_limited, evaluate-budget, IsWithin, evaluate-IsWithin}

abbrev specimen : ℕ → Value naturals
specimen load = mapping (item "load" (decimal load) no_items)

-- Two specimens with loads, and one name that the formulas below do not read.
abbrev env : ℕ → String → Option (Value naturals)
env other key =
    if str_eq key "specimens"
    then some (vector (value (specimen 40) (value (specimen 90) no_values)))
    else if str_eq key "other"
    then some (decimal other)
    else none

abbrev context : ℕ → ℕ → Context naturals
context other max_steps = record {
  env = env other;
  show = λ v. "";
  functions = λ f. none;
  late = λ n. false;
  max_steps = max_steps;
}

-- map(specimens, {.load / 2})
abbrev halves : Node naturals
halves =
    call "map"
      (node (name "specimens" []) (node (lambda (binary div (dot (some "load")) (num 2))) no_nodes))

maps_halves :
    evaluate naturals (context 0 100) halves
    ≡ returns (vector (value (decimal 20) (value (decimal 45) no_values))) 8
unfolding evaluate eval get_attr follow binary_op number arithmetic truthy
maps_halves = refl

-- filter(specimens, {.load > 50})
abbrev strong : Node naturals
strong = call "filter" (
    node (name "specimens" [])
      (node (lambda (compare (dot (some "load")) (link gt (num 50) end))) no_nodes))

filters_strong :
    evaluate naturals (context 0 100) strong ≡ returns (vector (value (specimen 90) no_values)) 8
unfolding evaluate eval get_attr follow compare_op number truthy
filters_strong = refl

-- coalesce(absent, 7)
goes_on :
    evaluate naturals
      (context 0 100)
      (call "coalesce" (node (name "absent" []) (node (num 7) no_nodes)))
    ≡ returns (decimal 7) 3
unfolding evaluate eval
goes_on = refl

divides_by_zero :
    evaluate naturals (context 0 100) (binary div (num 1) (num 0)) ≡ raises division_by_zero 3
unfolding evaluate eval binary_op number arithmetic
divides_by_zero = refl

exceeds : evaluate naturals (context 0 2) halves ≡ raises limit_exceeded 3
unfolding evaluate eval get_attr follow binary_op number arithmetic truthy
exceeds = refl

evaluate-env_example :
    evaluate naturals (context 1 100) halves ≡ evaluate naturals (context 2 100) halves
evaluate-env_example = evaluate-env naturals (context 1 100) (env 2) halves (refl, ((tt, tt), tt))

within_hundred : is_limited (evaluate naturals (context 0 100) halves) ≡ false
unfolding evaluate eval get_attr follow binary_op number arithmetic truthy
within_hundred = refl

evaluate-budget_example :
    evaluate naturals (context 0 100) halves ≡ evaluate naturals (context 0 5000) halves
evaluate-budget_example =
    evaluate-budget naturals (context 0 100) 5000 (omega arith) halves within_hundred

evaluate-IsWithin_example : IsWithin 2 0 (evaluate naturals (context 0 2) halves)
evaluate-IsWithin_example = evaluate-IsWithin naturals (context 0 2) halves
