-- ===== src/Workflow/Defaults.antt =====
-- The seventeen default workflows, and their validation.
mod Commercial
mod Laboratory
mod Finance
mod Assets
pub use Commercial.{project, account, quote, contract, order}
pub use Laboratory.{intake, test_run, report}
pub use Finance.{invoice, payment, rental, sale}
pub use Assets.{outing, transfer, maintenance, work_order, phase}
use mizan_labs_v.Prelude.{
  ℕ, zero, suc, ◌+◌, String, ◌≡◌, refl, Bool, true, false, ◌&&◌, ◌||◌, not, Option, none, some,
  List, [], ◌∷◌, str_eq, ◌==◌, if◌then◌else◌, length, any, all, All,
}
use mizan_labs_v.Text.{remove_prefix}
use mizan_labs_v.Workflow.{State, Transition, Workflow, available_transitions, initial_state}
use mizan_labs_v.Workflow.Spec.{parse_spec}
use mizan_labs_v.Workflow.Catalog.{semantics_of, known_guards, known_effects}
use mizan_labs_v.Workflow.Validate.{
  Problem, faults, gather, transition_problems, workflow_problems, validate_workflow,
}
use mizan_labs_v.Workflow.Install.{WorkflowSpec, build}

-- DEFAULT_WORKFLOWS
abbrev pub default_workflows : List WorkflowSpec
default_workflows =
    project ∷ account ∷ quote ∷ contract ∷ order ∷ intake ∷ test_run ∷ report ∷ invoice ∷ payment
    ∷ rental ∷ sale ∷ outing ∷ transfer ∷ maintenance ∷ work_order ∷ phase ∷ []

-- The problems that validation finds in the workflow of a template, if it can be built.
abbrev pub problems_of : WorkflowSpec → Option (List Problem)
problems_of spec = elim (build 0 none spec) [ none ↦ none | some w ↦ some (validate_workflow w) ]

-- Every default workflow can be built, and validation finds no problem in it.
pub default_workflows_valid : All (λ spec. problems_of spec ≡ some []) default_workflows
unfolding build validate_workflow workflow_problems transition_problems faults gather parse_spec
    remove_prefix semantics_of known_guards known_effects
default_workflows_valid = (
  refl,
  (
    refl,
    (
      refl,
      (
        refl,
        (
          refl,
          (
            refl,
            (
              refl,
              (refl, (refl, (refl, (refl, (refl, (refl, (refl, (refl, (refl, (refl, tt)))))))))),
            ),
          ),
        ),
      ),
    ),
  ),
)
