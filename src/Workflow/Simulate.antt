-- ===== src/Workflow/Simulate.antt =====
-- The dry run of a workflow (`simulate` of backend/mizan/apps/config/workflows.py): a walk through the
-- state graph, with guards and effects ignored.
use mathlib.Core.List.{Memᴰ}
use mizan_labs_v.Prelude.{
  String, ◌≡◌, refl, inl, inr, Bool, true, false, ◌&&◌, ◌||◌, Option, none, some, List, [], ◌∷◌,
  arith, str_eq, if◌then◌else◌, Bool-cases, Option-cases, eq_iff,
}
use mizan_labs_v.Workflow.{State, Transition, Workflow, first, initial_state, leaves}

-- An entry of the path: the start, a step, or the action that is denied.
pub data Visit : Type 0 where
  start : State → Visit
  step : String → Transition → State → Visit
  denied : String → State → Visit

unfoldable pub match : List Transition → State → String → Option Transition
match transitions current action =
    first (λ t. str_eq t.required_action action && leaves t.from_state current) transitions

unfoldable pub walk : List Transition → State → List String → List Visit
walk transitions current [] = []
walk transitions current (action ∷ actions) = elim (match transitions current action) [
  | none ↦ denied action current ∷ []
  | some t ↦
      let rest = walk transitions t.to_state actions in
      if current.is_terminal then denied action current ∷ [] else step action t t.to_state ∷ rest
]

-- `none` is the Conflict of `initial_state`.
unfoldable pub simulate : Workflow → List String → Option (List Visit)
unfolding walk match
simulate w actions = elim (initial_state w) [
  | none ↦ none
  | some s ↦ some (start s ∷ walk w.transitions s actions)
]

-- A run of the state graph: each action takes a transition of the workflow that leaves the state,
-- which is not terminal.
pub data Run (transitions : List Transition) : State → List String → State → Type 0 where
  here : {s : State} → Run transitions s [] s
  next :
      {s u : State} {actions : List String} (t : Transition)
      → Memᴰ t transitions
      → leaves t.from_state s ≡ true
      → s.is_terminal ≡ false
      → Run transitions t.to_state actions u
      → Run transitions s (t.required_action ∷ actions) u

abbrev pub refuses : Visit → Bool
refuses (denied action s) = true
refuses _ = false

abbrev pub refused : List Visit → Bool
refused [] = false
refused (v ∷ vs) = refuses v || refused vs

-- The state in which a path ends.
abbrev pub last_state : State → List Visit → State
last_state s [] = s
last_state s (start r ∷ vs) = last_state r vs
last_state s (step a t r ∷ vs) = last_state r vs
last_state s (denied a r ∷ vs) = last_state r vs

first-Memᴰ {ℓ} :
    {A : Type ℓ} (p : A → Bool) (xs : List A) (x : A)
    → first p xs ≡ some x
    → Memᴰ x xs × (p x ≡ true)
first-Memᴰ p [] x h = cc
first-Memᴰ p (y ∷ xs) x h = elim (Bool-cases (p y)) [
  | inl hit ↦ let same : y ≡ x = cc (rw hit at h) in rw (← same) (Memᴰ.head refl, hit)
  | inr miss ↦ let (there, holds) = first-Memᴰ p xs x (rw miss at h) in (Memᴰ.tail there, holds)
]

walk-Run :
    (transitions : List Transition) (s : State) (actions : List String)
    → refused (walk transitions s actions) ≡ false
    → Run transitions s actions (last_state s (walk transitions s actions))
walk-Run transitions s [] h = unfold walk in here
walk-Run transitions s (action ∷ actions) h = elim (Option-cases (match transitions s action)) [
  | inl miss ↦ let stuck : true ≡ false = unfold walk in rw (miss, walk) at h in cc
  | inr (t, found) ↦ elim (Bool-cases s.is_terminal) [
    | inl end ↦ let stuck : true ≡ false = unfold walk in rw (found, end, walk) at h in cc
    | inr live ↦
        let (there, both) =
          first-Memᴰ (λ t. str_eq t.required_action action && leaves t.from_state s) transitions t
            (unfold match in found) in
        let path : walk transitions s (action ∷ actions)
            ≡ step action t t.to_state ∷ walk transitions t.to_state actions =
          unfold walk in rw (found, live, walk) in
        let same : t.required_action ≡ action =
          (eq_iff t.required_action action).0 (ground (arith, both)) in
        let rest = walk-Run transitions t.to_state actions (rw path at h) in
        rw (path, ← same) (next t there (ground (arith, both)) live rest)
  ]
]

-- A dry run that starts and refuses no action starts in the initial state, and its actions are a run
-- of the state graph from there to the state in which it ends.
simulate-Run :
    (w : Workflow) (actions : List String) (path : List Visit)
    → simulate w actions ≡ some path
    → refused path ≡ false
    → (s : State) × (initial_state w ≡ some s) × Run w.transitions s actions (last_state s path)
simulate-Run w actions path h ok = elim (Option-cases (initial_state w)) [
  | inl missing ↦
      let stuck : none ≡ some path = unfold simulate in rw (missing, simulate) at h in cc
  | inr (s, found) ↦
      let same : start s ∷ walk w.transitions s actions ≡ path =
        let eq : some (start s ∷ walk w.transitions s actions) ≡ some path =
          unfold simulate in rw (found, simulate) at h in
        cc in
      (s, found, rw (← same) (walk-Run w.transitions s actions (rw (← same) at ok)))
]
