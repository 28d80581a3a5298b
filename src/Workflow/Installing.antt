-- ===== src/Workflow/Installing.antt =====
-- The installation of the default workflows (`install_workflow` of
-- backend/mizan/apps/config/defaults/workflows.py).
use mathlib.Core.List.{Memᴰ}
use mizan_labs_v.Prelude.{
  ℕ, ◌≡◌, refl, inl, inr, true, false, Option, none, some, List, [], ◌∷◌, arith, ◌==◌, ==_iff,
  Option-cases, any, All,
}
use mizan_labs_v.Workflow.{draft, active, Transition, Workflow}
use mizan_labs_v.Workflow.Validate.{
  validate_workflow, workflow_problems, latest, get_active_workflow,
}
use mizan_labs_v.Workflow.Validate.Activating.{activate_lem}
use mizan_labs_v.Workflow.Install.{
  WorkflowSpec, make_states, make_transitions, build, installed, of_kind, settle, install_workflow,
}
use mizan_labs_v.Workflow.Defaults.{default_workflows, problems_of, default_workflows_valid}

-- The workflow of a template with these transitions.
abbrev version_one : ℕ → Option ℕ → WorkflowSpec → List Transition → Workflow
version_one id branch spec transitions = record {
  id = id;
  kind = spec.kind;
  branch_id = branch;
  version = 1;
  status = draft;
  activated_at = none;
  states = make_states 0 spec.states;
  transitions = transitions;
}

same_problems :
    (id : ℕ) (branch : Option ℕ) (spec : WorkflowSpec) (ts : List Transition)
    → validate_workflow (version_one id branch spec ts)
      ≡ validate_workflow (version_one 0 none spec ts)
unfolding validate_workflow workflow_problems
same_problems id branch spec ts = refl

build_valid :
    (id : ℕ) (branch : Option ℕ) (spec : WorkflowSpec)
    → problems_of spec ≡ some []
    → (ts : List Transition) × (build id branch spec ≡ some (version_one id branch spec ts))
      × (validate_workflow (version_one id branch spec ts) ≡ [])
unfolding build
build_valid id branch spec fine =
    elim (Option-cases (make_transitions 0 (make_states 0 spec.states) spec.transitions)) [
      | inl missing ↦ (let stuck = rw (problems_of, build, missing) at fine in cc)
      | inr (ts, found) ↦
          (let problems : some (validate_workflow (version_one 0 none spec ts)) ≡ some [] =
              rw (problems_of, build, found) at fine in
            (ts, rw (build, found) refl, rw (same_problems id branch spec ts) cc))
    ]

All-at {ℓ κ} : {A : Type ℓ} (P : A → Type κ) (xs : List A) {x : A} → All P xs → Memᴰ x xs → P x
All-at P [] h there = elim there [ ]
All-at P (y ∷ xs) h (Memᴰ.head e) = rw e h.0
All-at P (y ∷ xs) h (Memᴰ.tail there) = All-at P xs h.1 there

others :
    (w : Workflow) (rows : List Workflow)
    → All (λ r. (r.id == w.id) ≡ false) rows
    → All (λ r. (r.id == w.id) ≡ true → r ≡ w) rows
others w [] h = tt
others w (r ∷ rows) h = ((λ same. absurd (ground (arith, h.0, same))), others w rows h.1)

-- A default workflow that is installed for a kind and a branch without one, under a new identifier, and
-- activated, is built, passes validation, and is the workflow that the engine then finds for them.
pub install_default_lem :
    (id now : ℕ) (spec : WorkflowSpec) (branch : Option ℕ) (rows : List Workflow)
    → Memᴰ spec default_workflows
    → latest (of_kind spec.kind branch) rows ≡ none
    → All (λ r. (r.id == id) ≡ false) rows
    → (w : Workflow) × (rows' : List Workflow) × (build id branch spec ≡ some w)
      × (validate_workflow w ≡ [])
      × (install_workflow id now spec branch true rows ≡ installed rows')
      × (get_active_workflow rows' spec.kind branch
          ≡ some (record w { status = active; activated_at = some now }))
unfolding install_workflow settle
install_default_lem id now spec branch rows default absent fresh =
    let fine =
      All-at (λ spec. problems_of spec ≡ some []) default_workflows default_workflows_valid
        default in
    let (ts, built, valid) = build_valid id branch spec fine in
    let w = version_one id branch spec ts in
    let itself : (id == id) ≡ true = (==_iff id id).1 refl in
    let here : any (λ r. r.id == w.id) (w ∷ rows) ≡ true = rw itself refl in
    let (rows', done, only, found) =
      activate_lem now w w (w ∷ rows) valid refl refl here ((λ h. refl), others w rows fresh) in
    (w, rows', built, valid, rw (install_workflow, absent, built, settle, done) refl, found)
