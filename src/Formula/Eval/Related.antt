-- ===== src/Formula/Eval/Related.antt =====
-- Two evaluations of a formula, step by step, in two environments and under two budgets.
use mathlib.Core.Path.{subst}
use mizan_labs_v.Prelude.{ℕ, String, ◌≡◌, sym, Bool, true, false, not, Option, List, ◌∷◌, str_eq}
use mizan_labs_v.Formula.{
  Numbers, formula_error, missing_value, type_error, Result, ok, err, Node, num, str, name, attr,
  index, dot, unary, binary, compare, not_node, and_node, or_node, ternary, call, lambda, Chain,
  end, link, Nodes, no_nodes, node, Value, decimal, plain, boolean, text, vector, mapping, nothing,
  Values, no_values, value,
}
use mizan_labs_v.Formula.Operations.{get_attr, get_index, binary_op, compare_op, truthy}
use mizan_labs_v.Formula.Eval.{
  Outcome, bind, lift, is_lazy, Context, negated, or_else, each_map, each_filter, kept, over, tick,
  found, resolve, current, apply, is_known, eval, eval_chain, eval_all, eval_coalesce, eval_each,
}

-- The names of the environment that a formula reads satisfy a predicate.
module _ (N : Numbers) (P : String → Type 0) where
  abbrev mutual
    pub Heads : Node N → Type 0
    Heads (num d) = Unit
    Heads (str s) = Unit
    Heads (name head rest) = P head
    Heads (attr base key) = Heads base
    Heads (index base i) = Heads base × Heads i
    Heads (dot key) = Unit
    Heads (unary operand) = Heads operand
    Heads (binary op left right) = Heads left × Heads right
    Heads (compare first rest) = Heads first × HeadsChain rest
    Heads (not_node operand) = Heads operand
    Heads (and_node left right) = Heads left × Heads right
    Heads (or_node left right) = Heads left × Heads right
    Heads (ternary condition if_true if_false) = Heads condition × (Heads if_true × Heads if_false)
    Heads (call f args) = HeadsAll args
    Heads (lambda body) = Heads body

    pub HeadsChain : Chain N → Type 0
    HeadsChain end = Unit
    HeadsChain (link op operand rest) = Heads operand × HeadsChain rest

    pub HeadsAll : Nodes N → Type 0
    HeadsAll no_nodes = Unit
    HeadsAll (node arg args) = Heads arg × HeadsAll args

-- What a relation of outcomes, of evaluations from the same number of steps on, must keep.
pub record Kept (N : Numbers) (C D : Context N) : Type 1 where
  pub R : {A : Type 0} → ℕ → Outcome A → Outcome A → Type 0
  pub still : {A : Type 0} (n : ℕ) (r : Result A) → R n (lift r n) (lift r n)
  pub binds :
      {A B : Type 0} {n : ℕ} {o o' : Outcome A} {f f' : A → ℕ → Outcome B}
      → R n o o'
      → ((a : A) (k : ℕ) → R k (f a k) (f' a k))
      → R n (bind o f) (bind o' f')
  pub or_elses :
      {n : ℕ} {o o' : Outcome (Value N)} {f f' : ℕ → Outcome (Value N)}
      → R n o o'
      → ((k : ℕ) → R k (f k) (f' k))
      → R n (or_else N o f) (or_else N o' f')
  pub ticks : (n : ℕ) → R n (tick N C n) (tick N D n)

module _ (N : Numbers) (C : Context N) (env : String → Option (Value N)) (max : ℕ) where
  abbrev pub other : Context N
  other = record C { env = env; max_steps = max }

  module _ (K : Kept N C other) where
    open K use {R, still, binds, or_elses, ticks}

    when :
        {A : Type 0} (n : ℕ) (b : Bool) {x x' y y' : Outcome A}
        → R n x x'
        → R n y y'
        → R n (elim b [ true ↦ x | false ↦ y ]) (elim b [ true ↦ x' | false ↦ y' ])
    when n true here there = here
    when n false here there = there

    each_maps :
        {f f' : Value N → ℕ → Outcome (Value N)}
        → ((v : Value N) (k : ℕ) → R k (f v k) (f' v k))
        → (vs : Values N) (n : ℕ) → R n (each_map N f vs n) (each_map N f' vs n)
    each_maps h no_values n = still n (ok no_values)
    each_maps h (value v vs) n =
        binds (h v n) (λ w m. binds (each_maps h vs m) (λ ws k. still k (ok (value w ws))))

    each_filters :
        {f f' : Value N → ℕ → Outcome (Value N)}
        → ((v : Value N) (k : ℕ) → R k (f v k) (f' v k))
        → (vs : Values N) (n : ℕ) → R n (each_filter N f vs n) (each_filter N f' vs n)
    each_filters h no_values n = still n (ok no_values)
    each_filters h (value v vs) n =
        binds (h v n) (λ w m. binds (each_filters h vs m) (λ ws k. still k (ok (kept N w v ws))))

    overs :
        {f f' : Value N → ℕ → Outcome (Value N)}
        → (op : String) → ((v : Value N) (k : ℕ) → R k (f v k) (f' v k))
        → (v : Value N) (n : ℕ) → R n (over N op f v n) (over N op f' v n)
    overs op h (vector vs) n =
        binds (when n (str_eq op "map") (each_maps h vs n) (each_filters h vs n))
          (λ ws k. still k (ok (vector ws)))
    overs op h (decimal d) n = still n (err type_error)
    overs op h (plain p) n = still n (err type_error)
    overs op h (boolean b) n = still n (err type_error)
    overs op h (text s) n = still n (err type_error)
    overs op h (mapping items) n = still n (err type_error)
    overs op h nothing n = still n (err type_error)

    module _ (P : String → Type 0) (agree : (head : String) → P head → C.env head ≡ env head) where
      resolves :
          (head : String) (rest : List String) (n : ℕ)
          → P head
          → R n (lift (resolve N C head rest) n) (lift (resolve N other head rest) n)
      resolves head rest n p =
          subst (λ v. R n (lift (found N rest v) n) (lift (found N rest (env head)) n))
            (sym (agree head p)) (still n (found N rest (env head)))

      mutual
        unfolding eval

        evals :
            (stack : List (Value N)) (e : Node N) (n : ℕ)
            → Heads N P e
            → R n (eval N C stack e n) (eval N other stack e n)
        evals stack (num d) n h = binds (ticks n) (λ _ m. still m (ok (decimal d)))
        evals stack (str s) n h = binds (ticks n) (λ _ m. still m (ok (text s)))
        evals stack (name head rest) n h = binds (ticks n) (λ _ m. resolves head rest m h)
        evals stack (attr base key) n h =
            binds (ticks n)
              (λ _ m. binds (evals stack base m h) (λ v k. still k (get_attr N key v)))
        evals stack (index base i) n h = binds (ticks n) (λ _ m.
            binds (evals stack base m h.0)
              (λ v k. binds (evals stack i k h.1) (λ w j. still j (get_index N C.show v w))))
        evals stack (dot key) n h = binds (ticks n) (λ _ m. still m (current N C stack key))
        evals stack (unary operand) n h =
            binds (ticks n) (λ _ m. binds (evals stack operand m h) (λ v k. still k (negated N v)))
        evals stack (binary op left right) n h = binds (ticks n) (λ _ m.
            binds (evals stack left m h.0)
              (λ v k. binds (evals stack right k h.1) (λ w j. still j (binary_op N op v w))))
        evals stack (compare first rest) n h =
            binds (ticks n)
              (λ _ m. binds (evals stack first m h.0) (λ v k. eval_chains stack v rest k h.1))
        evals stack (not_node operand) n h = binds (ticks n) (λ _ m.
            binds (evals stack operand m h) (λ v k. still k (ok (boolean (not (truthy N v))))))
        evals stack (and_node left right) n h = binds (ticks n) (λ _ m.
            binds (evals stack left m h.0) (λ v k.
              when k (truthy N v)
                (binds (evals stack right k h.1) (λ w j. still j (ok (boolean (truthy N w)))))
                (still k (ok (boolean false)))))
        evals stack (or_node left right) n h = binds (ticks n) (λ _ m.
            binds (evals stack left m h.0) (λ v k.
              when k (truthy N v) (still k (ok (boolean true)))
                (binds (evals stack right k h.1) (λ w j. still j (ok (boolean (truthy N w)))))))
        evals stack (ternary condition if_true if_false) n h = binds (ticks n) (λ _ m.
            binds (evals stack condition m h.0) (λ v k.
              when k (truthy N v) (evals stack if_true k h.1.0) (evals stack if_false k h.1.1)))
        evals stack (call f args) n h = binds (ticks n) (λ _ m.
            when m (is_lazy f)
              (when m (str_eq f "coalesce") (eval_coalesces stack args m h)
                (eval_eachs stack f args m h))
              (when m (is_known N C f)
                (binds (eval_alls stack args m h) (λ vs k. still k (apply N C f vs)))
                (still m (err formula_error))))
        evals stack (lambda body) n h = binds (ticks n) (λ _ m. still m (err formula_error))

        eval_chains :
            (stack : List (Value N)) (left : Value N) (c : Chain N) (n : ℕ)
            → HeadsChain N P c
            → R n (eval_chain N C stack left c n) (eval_chain N other stack left c n)
        eval_chains stack left end n h = still n (ok (boolean true))
        eval_chains stack left (link op operand rest) n h =
            binds (evals stack operand n h.0) (λ right m.
              binds (still m (compare_op N op left right)) (λ holds k.
                when k holds (eval_chains stack right rest k h.1) (still k (ok (boolean false)))))

        eval_alls :
            (stack : List (Value N)) (args : Nodes N) (n : ℕ)
            → HeadsAll N P args
            → R n (eval_all N C stack args n) (eval_all N other stack args n)
        eval_alls stack no_nodes n h = still n (ok no_values)
        eval_alls stack (node arg args) n h =
            binds (evals stack arg n h.0)
              (λ v m. binds (eval_alls stack args m h.1) (λ vs k. still k (ok (value v vs))))

        eval_coalesces :
            (stack : List (Value N)) (args : Nodes N) (n : ℕ)
            → HeadsAll N P args
            → R n (eval_coalesce N C stack args n) (eval_coalesce N other stack args n)
        eval_coalesces stack no_nodes n h = still n (err missing_value)
        eval_coalesces stack (node arg args) n h =
            or_elses (evals stack arg n h.0) (λ m. eval_coalesces stack args m h.1)

        eval_eachs :
            (stack : List (Value N)) (f : String) (args : Nodes N) (n : ℕ)
            → HeadsAll N P args
            → R n (eval_each N C stack f args n) (eval_each N other stack f args n)
        eval_eachs stack f (node arg (node (lambda body) no_nodes)) n h =
            binds (evals stack arg n h.0)
              (λ v m. overs f (λ element k. evals (element ∷ stack) body k h.1.0) v m)
        eval_eachs stack f args n h = still n (err type_error)

      -- Related steps make related evaluations.
      pub eval-related :
          (stack : List (Value N)) (e : Node N) (n : ℕ)
          → Heads N P e
          → R n (eval N C stack e n) (eval N other stack e n)
      eval-related = evals
