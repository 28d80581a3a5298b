-- ===== src/Workflow/Validate/Laws.antt =====
-- Validation of a workflow against well-formedness.
use mathlib.Core.Path.{subst}
use mizan_labs_v.Prelude.{
  String, ◌<◌, ◌≡◌, ◌↔◌, inl, inr, refl, sym, ◌∙◌, Bool, true, false, some, List, [], ◌∷◌, ◌++◌,
  arith, str_eq, ◌==◌, ==_iff, if◌then◌else◌, Bool-cases, Option-cases, length, any, All, eq_iff,
}
use mizan_labs_v.Workflow.{
  State, Transition, Workflow, filter, first, initial_state, state_for_semantic,
}
use mizan_labs_v.Workflow.Catalog.{semantics_of, known_guards, known_effects, contains}
use mizan_labs_v.Workflow.Validate.{
  Problem, faults, gather, has_semantic, initial_count, stays_within, guard_code, effect_code,
  transition_problems, workflow_problems, validate_workflow,
}

append_nil {ℓ} : {A : Type ℓ} (xs ys : List A) → (xs ++ ys ≡ []) ↔ ((xs ≡ []) × (ys ≡ []))
append_nil [] ys = (λ h. (refl, h), λ h. h.1)
append_nil (x ∷ xs) ys = (λ h. cc, λ h. cc (h.0))

module _ {ℓ} {A : Type ℓ} where
  faults-nil :
      (ok : A → Bool) (problem : A → Problem) (xs : List A)
      → (faults ok problem xs ≡ []) ↔ All (λ x. ok x ≡ true) xs
  unfolding faults
  faults-nil ok problem [] = (λ h. tt, λ h. refl)
  faults-nil ok problem (x ∷ xs) =
      let (there, back) = faults-nil ok problem xs in
      elim (Bool-cases (ok x)) [
        | inl good ↦ rw good (λ h. (refl, there h), λ h. back h.1)
        | inr bad ↦ rw bad (λ h. cc, λ h. cc (h.0))
      ]

  gather-nil : (f : A → List Problem) (xs : List A) → (gather f xs ≡ []) ↔ All (λ x. f x ≡ []) xs
  unfolding gather
  gather-nil f [] = (λ h. tt, λ h. refl)
  gather-nil f (x ∷ xs) =
      let (there, back) = gather-nil f xs in
      let (apart, joined) = append_nil (f x) (gather f xs) in
      (λ h. ((apart h).0, there (apart h).1), λ h. joined (h.0, back h.1))

  All-iff : {P Q : A → Type 0} → ((x : A) → P x ↔ Q x) → (xs : List A) → All P xs ↔ All Q xs
  All-iff f [] = (λ h. tt, λ h. tt)
  All-iff f (x ∷ xs) =
      let (there, back) = All-iff f xs in
      (λ h. ((f x).0 h.0, there h.1), λ h. ((f x).1 h.0, back h.1))

if_nil : (b : Bool) (p : Problem) → ((if b then [] else p ∷ []) ≡ []) ↔ (b ≡ true)
if_nil true p = (λ h. refl, λ h. refl)
if_nil false p = (λ h. cc, λ h. cc)

-- A transition stays among the states and names guards and effects that the engine knows.
abbrev pub TransitionOk : List State → Transition → Type 0
TransitionOk states t =
    (stays_within states t ≡ true)
    × (All (λ g. contains known_guards (guard_code g) ≡ true) t.guards
        × All (λ e. contains known_effects (effect_code e) ≡ true) t.effects)

transition_problems-nil :
    (states : List State) (t : Transition)
    → (transition_problems states t ≡ []) ↔ TransitionOk states t
unfolding transition_problems
transition_problems-nil states t =
    let (apart, joined) = append_nil _ _ in
    let (apart', joined') = append_nil _ _ in
    let (stays, stays') = if_nil (stays_within states t) _ in
    let (gs, gs') = faults-nil _ _ t.guards in
    let (es, es') = faults-nil _ _ t.effects in
    (
      λ h. (stays (apart h).0, (gs (apart' (apart h).1).0, es (apart' (apart h).1).1)),
      λ h. joined (stays' h.0, joined' (gs' h.1.0, es' h.1.1)),
    )

-- The states have semantics of the kind and cover them all, exactly one is initial, and every
-- transition is in order.
pub record IsValid (semantics : List String) (w : Workflow) : Type 0 where
  pub states_known : All (λ s. contains semantics s.semantic ≡ true) w.states
  pub semantics_covered : All (λ s. has_semantic w.states s ≡ true) semantics
  pub one_initial : initial_count w.states ≡ 1
  pub transitions_ok : All (TransitionOk w.states) w.transitions

one_initial-nil :
    (w : Workflow)
    → ((if initial_count w.states == 1
          then []
          else Problem.one_initial_state_required (initial_count w.states) ∷ [])
        ≡ [])
      ↔ (initial_count w.states ≡ 1)
one_initial-nil w =
    let (there, back) = if_nil (initial_count w.states == 1) _ in
    let (eq, test) = ==_iff (initial_count w.states) 1 in (λ h. eq (there h), λ h. back (test h))

workflow_problems-nil :
    (semantics : List String) (w : Workflow)
    → (workflow_problems semantics w ≡ []) ↔ IsValid semantics w
unfolding workflow_problems
workflow_problems-nil semantics w =
    let (a, a') = append_nil _ _ in
    let (b, b') = append_nil _ _ in
    let (c, c') = append_nil _ _ in
    let (known, known') = faults-nil _ _ w.states in
    let (covered, covered') = faults-nil _ _ semantics in
    let (one, one') = one_initial-nil w in
    let (ts, ts') = gather-nil (transition_problems w.states) w.transitions in
    let (oks, oks') = All-iff (transition_problems-nil w.states) w.transitions in
    (
      λ h. record {
        states_known = known (a h).0;
        semantics_covered = covered (b (a h).1).0;
        one_initial = one (c (b (a h).1).1).0;
        transitions_ok = oks (ts (c (b (a h).1).1).1);
      },
      λ v. a' (
        known' v.states_known,
        b' (covered' v.semantics_covered, c' (one' v.one_initial, ts' (oks' v.transitions_ok))),
      ),
    )

validate_known :
    (w : Workflow) (semantics : List String)
    → semantics_of w.kind ≡ some semantics
    → validate_workflow w ≡ workflow_problems semantics w
unfolding validate_workflow
validate_known w semantics known = rw (known, validate_workflow)

-- Validation reports nothing exactly for the workflows of a known kind that are valid for it.
pub validate_workflow-nil :
    (w : Workflow)
    → (validate_workflow w ≡ [])
      ↔ ((semantics : List String) × (semantics_of w.kind ≡ some semantics) × IsValid semantics w)
validate_workflow-nil w = elim (Option-cases (semantics_of w.kind)) [
  | inl unknown ↦
      let found : validate_workflow w ≡ Problem.unknown_kind w.kind ∷ [] =
        unfold validate_workflow in rw (unknown, validate_workflow) in
      (λ h. cc, λ v. cc (v.1, unknown))
  | inr (semantics, known) ↦
      let found = validate_known w semantics known in
      let (there, back) = workflow_problems-nil semantics w in
      (
        λ h. (semantics, known, there (sym found ∙ h)),
        λ v.
            let same : v.0 ≡ semantics = cc (v.1) in
            found ∙ back (subst (λ ss. IsValid ss w) same v.2),
      )
]

module _ {ℓ} {A : Type ℓ} (p : A → Bool) where
  first-some : (xs : List A) → any p xs ≡ true → (x : A) × (first p xs ≡ some x) × (p x ≡ true)
  first-some [] h = cc
  first-some (x ∷ xs) h = elim (Bool-cases (p x)) [
    | inl hit ↦ (x, rw hit, hit)
    | inr miss ↦ let (y, found, holds) = first-some xs (ground arith) in (y, rw miss found, holds)
  ]

  any-filter : (xs : List A) → 0 < length (filter p xs) → any p xs ≡ true
  any-filter [] h = absurd (omega arith)
  any-filter (x ∷ xs) h = elim (Bool-cases (p x)) [
    | inl hit ↦ rw hit
    | inr miss ↦ rw miss (any-filter xs (rw miss at h))
  ]

All-contains :
    (q : String → Bool) (names : List String) (name : String)
    → All (λ n. q n ≡ true) names
    → contains names name ≡ true
    → q name ≡ true
All-contains q [] name h c = cc
All-contains q (n ∷ names) name h c = elim (Bool-cases (str_eq n name)) [
  | inl same ↦ let e : n ≡ name = (eq_iff n name).0 same in rw (← e) h.0
  | inr other ↦ All-contains q names name h.1 (rw other at c)
]

module _ (semantics : List String) (w : Workflow) (valid : IsValid semantics w) where
  -- A valid workflow has an initial state.
  pub initial_state-IsValid : (s : State) × (initial_state w ≡ some s) × (s.is_initial ≡ true)
  unfolding initial_state
  initial_state-IsValid =
      first-some (λ (s : State). s.is_initial) w.states
        (any-filter (λ (s : State). s.is_initial) w.states (omega (arith, valid.one_initial)))

  -- A valid workflow has a state for each semantic of its kind.
  state_for_semantic-IsValid :
      (semantic : String)
      → contains semantics semantic ≡ true
      → (s : State) × (state_for_semantic w semantic ≡ some s) × (s.semantic ≡ semantic)
  unfolding state_for_semantic
  state_for_semantic-IsValid semantic h =
      let (s, found, same) =
        first-some (λ (s : State). str_eq s.semantic semantic) w.states
          (All-contains (has_semantic w.states) semantics semantic valid.semantics_covered h) in
      (s, found, (eq_iff s.semantic semantic).0 same)
