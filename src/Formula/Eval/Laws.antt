-- ===== src/Formula/Eval/Laws.antt =====
-- The environment of an evaluation.
use mizan_labs_v.Prelude.{ℕ, String, ◌≡◌, refl, ap, ◌∙◌, Option, []}
use mizan_labs_v.Formula.{
  Numbers, formula_error, missing_value, division_by_zero, limit_exceeded, type_error, Node, Value,
  decimal, plain, boolean, text, vector, mapping, nothing,
}
use mizan_labs_v.Formula.Eval.{Outcome, returns, raises, bind, Context, or_else, evaluate}
use mizan_labs_v.Formula.Eval.Related.{Heads, Kept, other, eval-related}

module _ (N : Numbers) where
  bind-cong :
      {A B : Type 0} {o o' : Outcome A} {f f' : A → ℕ → Outcome B}
      → o ≡ o'
      → ((a : A) (k : ℕ) → f a k ≡ f' a k)
      → bind o f ≡ bind o' f'
  bind-cong {o = returns a k} {f' = f'} e h = h a k ∙ ap (λ x. bind x f') e
  bind-cong {o = raises error k} {f' = f'} e h = ap (λ x. bind x f') e

  or_else-cong :
      {o o' : Outcome (Value N)} {f f' : ℕ → Outcome (Value N)}
      → o ≡ o'
      → ((k : ℕ) → f k ≡ f' k)
      → or_else N o f ≡ or_else N o' f'
  or_else-cong {o = o} {f = f} {f' = f'} e h = same o ∙ ap (λ x. or_else N x f') e
    where
      same : (x : Outcome (Value N)) → or_else N x f ≡ or_else N x f'
      same (returns nothing k) = h k
      same (raises missing_value k) = h k
      same (returns (decimal d) k) = refl
      same (returns (plain d) k) = refl
      same (returns (boolean d) k) = refl
      same (returns (text d) k) = refl
      same (returns (vector d) k) = refl
      same (returns (mapping d) k) = refl
      same (raises formula_error k) = refl
      same (raises division_by_zero k) = refl
      same (raises limit_exceeded k) = refl
      same (raises type_error k) = refl

module _ (N : Numbers) (C : Context N) (env : String → Option (Value N)) where
  abbrev equals : Kept N C (other N C env C.max_steps)
  equals = record {
    R = λ n o o'. o ≡ o';
    still = λ n r. refl;
    binds = λ e h. bind-cong N e h;
    or_elses = λ e h. or_else-cong N e h;
    ticks = λ n. refl;
  }

  -- A formula depends on nothing in the environment but the values of the names that stand in it:
  -- where two environments agree on them, the outcome and the number of steps are the same.
  pub evaluate-env :
      (e : Node N)
      → Heads N (λ head. C.env head ≡ env head) e
      → evaluate N C e ≡ evaluate N (record C { env = env }) e
  unfolding evaluate
  evaluate-env e h =
      eval-related N C env C.max_steps equals (λ head. C.env head ≡ env head) (λ head p. p) [] e 0 h
