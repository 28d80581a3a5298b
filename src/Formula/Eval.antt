-- ===== src/Formula/Eval.antt =====
-- The evaluator (`Evaluator` of backend/mizan/platform/formula/evaluator.py). The number of steps is
-- passed along; the clock is an argument, which says whether the time is over at a step. The names
-- of the environment and the functions of the registry are arguments too; a function's TypeError and
-- ValueError are its two kinds of error here. The stack of elements is the list of the lambdas'
-- current elements, the innermost first.
pub mod Related
pub mod Laws
pub mod Budget
use mizan_labs_v.Prelude.{
  ℕ, ◌+◌, ◌%◌, String, Bool, true, false, ◌&&◌, not, Option, none, some, List, [], ◌∷◌, str_eq, ltb,
  ◌==◌, if◌then◌else◌,
}
use mizan_labs_v.Formula.{
  Numbers, FormulaError, formula_error, missing_value, limit_exceeded, type_error, Result, ok, err,
  Node, num, str, name, attr, index, dot, unary, binary, compare, not_node, and_node, or_node,
  ternary, call, lambda, Chain, end, link, Nodes, no_nodes, node, Value, decimal, plain, boolean,
  text, vector, mapping, nothing, Values, no_values, value,
}
use mizan_labs_v.Formula.Operations.{
  then_with, number, get_attr, follow, get_index, binary_op, compare_op, truthy,
}

-- A value or an error, and the steps made so far.
pub data Outcome (A : Type 0) : Type 0 where
  returns : A → ℕ → Outcome A
  raises : FormulaError → ℕ → Outcome A

abbrev pub bind : {A B : Type 0} → Outcome A → (A → ℕ → Outcome B) → Outcome B
bind (returns a n) f = f a n
bind (raises e n) f = raises e n

abbrev pub lift : {A : Type 0} → Result A → ℕ → Outcome A
lift (ok a) n = returns a n
lift (err e) n = raises e n

abbrev pub is_lazy : String → Bool
is_lazy f = if str_eq f "coalesce" then true else if str_eq f "map" then true else str_eq f "filter"

pub record Context (N : Numbers) : Type 0 where
  pub env : String → Option (Value N)
  pub show : Value N → String
  pub functions : String → Option (Values N → Result (Value N))
  pub late : ℕ → Bool
  pub max_steps : ℕ

module _ (N : Numbers) where
  abbrev pub negated : Value N → Result (Value N)
  negated v = then_with (number N v) (λ d. ok (decimal (N.negate d)))

  abbrev pub found : List String → Option (Value N) → Result (Value N)
  found rest none = err missing_value
  found rest (some v) = follow N rest v

  -- `coalesce` goes on where an argument is missing or null.
  abbrev pub or_else : Outcome (Value N) → (ℕ → Outcome (Value N)) → Outcome (Value N)
  or_else (returns nothing m) f = f m
  or_else (returns v m) f = returns v m
  or_else (raises missing_value m) f = f m
  or_else (raises e m) f = raises e m

  -- The loops of `map` and `filter` over a vector.
  abbrev pub each_map : (Value N → ℕ → Outcome (Value N)) → Values N → ℕ → Outcome (Values N)
  each_map f no_values n = returns no_values n
  each_map f (value element rest) n =
      bind (f element n) (λ v m. bind (each_map f rest m) (λ vs k. returns (value v vs) k))

  abbrev pub kept : Value N → Value N → Values N → Values N
  kept v element rest = if truthy N v then value element rest else rest

  abbrev pub each_filter : (Value N → ℕ → Outcome (Value N)) → Values N → ℕ → Outcome (Values N)
  each_filter f no_values n = returns no_values n
  each_filter f (value element rest) n =
      bind (f element n)
        (λ v m. bind (each_filter f rest m) (λ vs k. returns (kept v element vs) k))

  -- The loop of `map` or `filter` over what the first argument gives.
  abbrev pub over : String → (Value N → ℕ → Outcome (Value N)) → Value N → ℕ → Outcome (Value N)
  over f body (vector vs) n =
      bind (elim (str_eq f "map") [ true ↦ each_map body vs n | false ↦ each_filter body vs n ])
        (λ rs m. returns (vector rs) m)
  over f body _ n = raises type_error n

module _ (N : Numbers) (C : Context N) where
  -- _tick
  abbrev pub tick : ℕ → Outcome Unit
  tick n =
      if ltb C.max_steps (n + 1)
      then raises limit_exceeded (n + 1)
      else if (n + 1) % 256 == 0 && C.late (n + 1)
      then raises limit_exceeded (n + 1)
      else returns tt (n + 1)

  abbrev pub resolve : String → List String → Result (Value N)
  resolve head rest = found N rest (C.env head)

  abbrev pub current : List (Value N) → Option String → Result (Value N)
  current [] key = err formula_error
  current (element ∷ stack) none = ok element
  current (element ∷ stack) (some key) = get_attr N key element

  abbrev pub apply : String → Values N → Result (Value N)
  apply f args = elim (C.functions f) [ none ↦ err formula_error | some function ↦ function args ]

  abbrev pub is_known : String → Bool
  is_known f = elim (C.functions f) [ none ↦ false | some function ↦ true ]

  unfoldable mutual
    pub eval : List (Value N) → Node N → ℕ → Outcome (Value N)
    eval stack (num d) n = bind (tick n) (λ _ m. returns (decimal d) m)
    eval stack (str s) n = bind (tick n) (λ _ m. returns (text s) m)
    eval stack (name head rest) n = bind (tick n) (λ _ m. lift (resolve head rest) m)
    eval stack (attr base key) n =
        bind (tick n) (λ _ m. bind (eval stack base m) (λ v k. lift (get_attr N key v) k))
    eval stack (index base i) n = bind (tick n) (λ _ m.
        bind (eval stack base m)
          (λ v k. bind (eval stack i k) (λ w j. lift (get_index N C.show v w) j)))
    eval stack (dot key) n = bind (tick n) (λ _ m. lift (current stack key) m)
    eval stack (unary operand) n =
        bind (tick n) (λ _ m. bind (eval stack operand m) (λ v k. lift (negated N v) k))
    eval stack (binary op left right) n = bind (tick n) (λ _ m.
        bind (eval stack left m)
          (λ v k. bind (eval stack right k) (λ w j. lift (binary_op N op v w) j)))
    eval stack (compare first rest) n =
        bind (tick n) (λ _ m. bind (eval stack first m) (λ v k. eval_chain stack v rest k))
    eval stack (not_node operand) n =
        bind (tick n)
          (λ _ m. bind (eval stack operand m) (λ v k. returns (boolean (not (truthy N v))) k))
    eval stack (and_node left right) n = bind (tick n) (λ _ m. bind (eval stack left m) (λ v k.
        elim (truthy N v) [
          | true ↦ bind (eval stack right k) (λ w j. returns (boolean (truthy N w)) j)
          | false ↦ returns (boolean false) k
        ]))
    eval stack (or_node left right) n = bind (tick n) (λ _ m. bind (eval stack left m) (λ v k.
        elim (truthy N v) [
          | true ↦ returns (boolean true) k
          | false ↦ bind (eval stack right k) (λ w j. returns (boolean (truthy N w)) j)
        ]))
    eval stack (ternary condition if_true if_false) n = bind (tick n) (λ _ m.
        bind (eval stack condition m) (λ v k. elim (truthy N v) [
          | true ↦ eval stack if_true k
          | false ↦ eval stack if_false k
        ]))
    eval stack (call f args) n = bind (tick n) (λ _ m. elim (is_lazy f) [
      | true ↦ elim (str_eq f "coalesce") [
        | true ↦ eval_coalesce stack args m
        | false ↦ eval_each stack f args m
      ]
      | false ↦ elim (is_known f) [
        | true ↦ bind (eval_all stack args m) (λ vs k. lift (apply f vs) k)
        | false ↦ raises formula_error m
      ]
    ])
    eval stack (lambda body) n = bind (tick n) (λ _ m. raises formula_error m)

    -- The rest of a comparison chain, after its left operand.
    pub eval_chain : List (Value N) → Value N → Chain N → ℕ → Outcome (Value N)
    eval_chain stack left end n = returns (boolean true) n
    eval_chain stack left (link op operand rest) n = bind (eval stack operand n) (λ right m.
        bind (lift (compare_op N op left right) m) (λ holds k. elim holds [
          | true ↦ eval_chain stack right rest k
          | false ↦ returns (boolean false) k
        ]))

    pub eval_all : List (Value N) → Nodes N → ℕ → Outcome (Values N)
    eval_all stack no_nodes n = returns no_values n
    eval_all stack (node arg args) n =
        bind (eval stack arg n)
          (λ v m. bind (eval_all stack args m) (λ vs k. returns (value v vs) k))

    -- `coalesce`: the first argument that is neither missing nor null.
    pub eval_coalesce : List (Value N) → Nodes N → ℕ → Outcome (Value N)
    eval_coalesce stack no_nodes n = raises missing_value n
    eval_coalesce stack (node arg args) n =
        or_else N (eval stack arg n) (λ m. eval_coalesce stack args m)

    -- `map` and `filter` want a vector and a lambda.
    pub eval_each : List (Value N) → String → Nodes N → ℕ → Outcome (Value N)
    eval_each stack f (node arg (node (lambda body) no_nodes)) n =
        bind (eval stack arg n) (λ v m. over N f (λ element k. eval (element ∷ stack) body k) v m)
    eval_each stack f _ n = raises type_error n

  -- Formula.evaluate: a new evaluator, with no steps made and no lambda entered.
  unfoldable pub evaluate : Node N → Outcome (Value N)
  unfolding eval
  evaluate formula = eval [] formula 0
