-- ===== src/Formula/Eval/Budget.antt =====
-- The budget of steps of an evaluation.
use mizan_labs_v.Prelude.{ℕ, suc, ◌≤◌, ◌≡◌, refl, ap, ◌∙◌, Bool, true, false, [], arith}
use mizan_labs_v.Formula.{
  Numbers, FormulaError, formula_error, missing_value, division_by_zero, limit_exceeded, type_error,
  Result, ok, err, Node, num, str, name, attr, index, dot, unary, binary, compare, not_node,
  and_node, or_node, ternary, call, lambda, Chain, end, link, Nodes, no_nodes, node, Value, decimal,
  plain, boolean, text, vector, mapping, nothing,
}
use mizan_labs_v.Formula.Eval.{
  Outcome, returns, raises, bind, lift, Context, or_else, tick, evaluate,
}
use mizan_labs_v.Formula.Eval.Related.{Heads, HeadsChain, HeadsAll, Kept, other, eval-related}

module _ (N : Numbers) where
  mutual
    every_head : (e : Node N) → Heads N (λ head. Unit) e
    every_head (num d) = tt
    every_head (str s) = tt
    every_head (name head rest) = tt
    every_head (attr base key) = every_head base
    every_head (index base i) = (every_head base, every_head i)
    every_head (dot key) = tt
    every_head (unary operand) = every_head operand
    every_head (binary op left right) = (every_head left, every_head right)
    every_head (compare first rest) = (every_head first, every_chain rest)
    every_head (not_node operand) = every_head operand
    every_head (and_node left right) = (every_head left, every_head right)
    every_head (or_node left right) = (every_head left, every_head right)
    every_head (ternary c t f) = (every_head c, (every_head t, every_head f))
    every_head (call f args) = every_args args
    every_head (lambda body) = every_head body

    every_chain : (c : Chain N) → HeadsChain N (λ head. Unit) c
    every_chain end = tt
    every_chain (link op operand rest) = (every_head operand, every_chain rest)

    every_args : (args : Nodes N) → HeadsAll N (λ head. Unit) args
    every_args no_nodes = tt
    every_args (node arg args) = (every_head arg, every_args args)

abbrev pub is_limit : FormulaError → Bool
is_limit limit_exceeded = true
is_limit _ = false

abbrev pub is_limited : {A : Type 0} → Outcome A → Bool
is_limited (returns a n) = false
is_limited (raises e n) = is_limit e

module _ (N : Numbers) (C : Context N) (max : ℕ) (more : C.max_steps ≤ max) where
  abbrev Grows : {A : Type 0} → ℕ → Outcome A → Outcome A → Type 0
  Grows n o o' = is_limited o ≡ false → o ≡ o'

  Grows-bind :
      {A B : Type 0} (n : ℕ) (o o' : Outcome A) (f f' : A → ℕ → Outcome B)
      → Grows n o o'
      → ((a : A) (k : ℕ) → Grows k (f a k) (f' a k))
      → Grows n (bind o f) (bind o' f')
  Grows-bind n (returns a k) o' f f' e h fine = h a k fine ∙ ap (λ x. bind x f') (e refl)
  Grows-bind n (raises error k) o' f f' e h fine = ap (λ x. bind x f') (e fine)

  Grows-or_else :
      (n : ℕ) (o o' : Outcome (Value N)) (f f' : ℕ → Outcome (Value N))
      → Grows n o o'
      → ((k : ℕ) → Grows k (f k) (f' k))
      → Grows n (or_else N o f) (or_else N o' f')
  Grows-or_else n (returns nothing k) o' f f' e h fine =
      h k fine ∙ ap (λ x. or_else N x f') (e refl)
  Grows-or_else n (raises missing_value k) o' f f' e h fine =
      h k fine ∙ ap (λ x. or_else N x f') (e refl)
  Grows-or_else n (raises limit_exceeded k) o' f f' e h fine = cc
  Grows-or_else n (raises formula_error k) o' f f' e h fine = ap (λ x. or_else N x f') (e refl)
  Grows-or_else n (raises division_by_zero k) o' f f' e h fine = ap (λ x. or_else N x f') (e refl)
  Grows-or_else n (raises type_error k) o' f f' e h fine = ap (λ x. or_else N x f') (e refl)
  Grows-or_else n (returns (decimal d) k) o' f f' e h fine = ap (λ x. or_else N x f') (e refl)
  Grows-or_else n (returns (plain d) k) o' f f' e h fine = ap (λ x. or_else N x f') (e refl)
  Grows-or_else n (returns (boolean d) k) o' f f' e h fine = ap (λ x. or_else N x f') (e refl)
  Grows-or_else n (returns (text d) k) o' f f' e h fine = ap (λ x. or_else N x f') (e refl)
  Grows-or_else n (returns (vector d) k) o' f f' e h fine = ap (λ x. or_else N x f') (e refl)
  Grows-or_else n (returns (mapping d) k) o' f f' e h fine = ap (λ x. or_else N x f') (e refl)

  Grows-tick : (n : ℕ) → Grows n (tick N C n) (tick N (other N C C.env max) n)
  Grows-tick n fine = ground arith

  abbrev grows : Kept N C (other N C C.env max)
  grows = record {
    R = Grows;
    still = λ n r fine. refl;
    binds = λ {A} {B} {n} {o} {o'} {f} {f'} e h. Grows-bind n o o' f f' e h;
    or_elses = λ {n} {o} {o'} {f} {f'} e h. Grows-or_else n o o' f f' e h;
    ticks = Grows-tick;
  }

  -- An evaluation that keeps within its budget of steps and of time gives the same outcome, in the
  -- same number of steps, under every larger budget of steps.
  pub evaluate-budget :
      (e : Node N)
      → is_limited (evaluate N C e) ≡ false
      → evaluate N C e ≡ evaluate N (record C { max_steps = max }) e
  unfolding evaluate
  evaluate-budget e fine =
      eval-related N C C.env max grows (λ head. Unit) (λ head p. refl) [] e 0 (every_head N e) fine

-- The last step at which an error may come: for the limit it is the one that exceeds the budget.
abbrev pub last_step : FormulaError → ℕ → ℕ
last_step limit_exceeded max = suc max
last_step _ max = max

-- An outcome of an evaluation from a number of steps on that keeps within a budget.
abbrev pub IsWithin : {A : Type 0} → ℕ → ℕ → Outcome A → Type 0
IsWithin max n (returns a k) = (n ≤ k) × (k ≤ max)
IsWithin max n (raises e k) = (n ≤ k) × (k ≤ last_step e max)

IsWithin-mono :
    {A : Type 0} (max m n : ℕ) (o : Outcome A) → m ≤ n → IsWithin max n o → IsWithin max m o
IsWithin-mono max m n (returns a k) le (low, high) = (omega arith, high)
IsWithin-mono max m n (raises e k) le (low, high) = (omega arith, high)

module _ (N : Numbers) (C : Context N) where
  abbrev Within : {A : Type 0} → ℕ → Outcome A → Outcome A → Type 0
  Within n o o' = n ≤ C.max_steps → IsWithin C.max_steps n o

  Within-still : {A : Type 0} (n : ℕ) (r : Result A) → Within n (lift r n) (lift r n)
  Within-still n (ok a) le = (omega arith, le)
  Within-still n (err limit_exceeded) le = (omega arith, omega arith)
  Within-still n (err formula_error) le = (omega arith, le)
  Within-still n (err missing_value) le = (omega arith, le)
  Within-still n (err division_by_zero) le = (omega arith, le)
  Within-still n (err type_error) le = (omega arith, le)

  Within-bind :
      {A B : Type 0} (n : ℕ) (o o' : Outcome A) (f f' : A → ℕ → Outcome B)
      → Within n o o'
      → ((a : A) (k : ℕ) → Within k (f a k) (f' a k))
      → Within n (bind o f) (bind o' f')
  Within-bind n (returns a k) o' f f' e h le =
      let (low, high) = e le in IsWithin-mono C.max_steps n k (f a k) low (h a k high)
  Within-bind n (raises error k) o' f f' e h le = e le

  Within-or_else :
      (n : ℕ) (o o' : Outcome (Value N)) (f f' : ℕ → Outcome (Value N))
      → Within n o o'
      → ((k : ℕ) → Within k (f k) (f' k))
      → Within n (or_else N o f) (or_else N o' f')
  Within-or_else n (returns nothing k) o' f f' e h le =
      let (low, high) = e le in IsWithin-mono C.max_steps n k (f k) low (h k high)
  Within-or_else n (raises missing_value k) o' f f' e h le =
      let (low, high) = e le in IsWithin-mono C.max_steps n k (f k) low (h k high)
  Within-or_else n (raises limit_exceeded k) o' f f' e h le = e le
  Within-or_else n (raises formula_error k) o' f f' e h le = e le
  Within-or_else n (raises division_by_zero k) o' f f' e h le = e le
  Within-or_else n (raises type_error k) o' f f' e h le = e le
  Within-or_else n (returns (decimal d) k) o' f f' e h le = e le
  Within-or_else n (returns (plain d) k) o' f f' e h le = e le
  Within-or_else n (returns (boolean d) k) o' f f' e h le = e le
  Within-or_else n (returns (text d) k) o' f f' e h le = e le
  Within-or_else n (returns (vector d) k) o' f f' e h le = e le
  Within-or_else n (returns (mapping d) k) o' f f' e h le = e le

  Within-tick : (n : ℕ) → Within n (tick N C n) (tick N C n)
  Within-tick n le = ground arith

  abbrev within : Kept N C C
  within = record {
    R = Within;
    still = Within-still;
    binds = λ {A} {B} {n} {o} {o'} {f} {f'} e h. Within-bind n o o' f f' e h;
    or_elses = λ {n} {o} {o'} {f} {f'} e h. Within-or_else n o o' f f' e h;
    ticks = Within-tick;
  }

  -- No evaluation makes more steps than its budget and one: a value comes within the budget, and so
  -- does every error but that of the limit, which comes at the latest with the step that exceeds it.
  pub evaluate-IsWithin : (e : Node N) → IsWithin C.max_steps 0 (evaluate N C e)
  unfolding evaluate
  evaluate-IsWithin e =
      eval-related N C C.env C.max_steps within (λ head. Unit) (λ head p. refl) [] e 0
        (every_head N e) (omega arith)
