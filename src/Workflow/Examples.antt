-- ===== src/Workflow/Examples.antt =====
-- A small review workflow, and the theorems on workflows at it.
use mizan_labs_v.Prelude.{◌⊎◌, String, ◌≡◌, ◌↔◌, refl, true, false, none, some, List, [], ◌∷◌, All}
use mizan_labs_v.Text.{remove_prefix, starts_with}
use mizan_labs_v.Workflow.{draft, active, text, State, Transition, Workflow, available_transitions}
use mizan_labs_v.Workflow.Spec.{parse_spec}
use mizan_labs_v.Workflow.Catalog.{semantics_of, known_guards, known_effects}
use mizan_labs_v.Workflow.Validate.{
  faults, gather, transition_problems, workflow_problems, validate_workflow, active_at, activated,
  activate, latest, get_active_workflow,
}
use mizan_labs_v.Workflow.Validate.Laws.{IsValid, validate_workflow-nil}
use mizan_labs_v.Workflow.Validate.Activating.{activated_row, activate_lem}
use mathlib.Core.List.{Memᴰ}
use mizan_labs_v.Workflow.Install.{build, install_workflow, installed}
use mizan_labs_v.Workflow.Defaults.{project}
use mizan_labs_v.Workflow.Installing.{install_default_lem}
use mizan_labs_v.Workflow.Perform.{
  Actor, Document, Database, guard_failed, effect_missing, moved, permitted, run_guard, run_guards,
  run_effect, run_effects, Performed, carry_out, candidates, choose, perform,
}
use mizan_labs_v.Workflow.Perform.Atomic.{IsSpoiled, choices, perform_atomic}
use mizan_labs_v.Workflow.Perform.Success.{Carried, perform-ok}
use mizan_labs_v.Workflow.Perform.Review.{perform-differs}
use mizan_labs_v.Workflow.Perform.Builtin.{
  differs, actor_is_not_entrant, builtin_guards, Event, emit_event, builtin_effects,
}

parse_notify : parse_spec (text "notify('approvers')") ≡ ("notify", ("arg", "approvers") ∷ [])
unfolding parse_spec
parse_notify = refl

parse_plain : parse_spec (text " freeze_revision ") ≡ ("freeze_revision", [])
unfolding parse_spec
parse_plain = refl

parse_negated :
    parse_spec (text "not discount_within_threshold") ≡ ("not discount_within_threshold", [])
unfolding parse_spec
parse_negated = refl

abbrev pending : State
pending = record {
  id = 0;
  code = "PENDING";
  semantic = "PENDING";
  is_initial = true;
  is_terminal = false;
  sla_days = none;
}

abbrev started : State
started = record {
  id = 1;
  code = "IN_PROGRESS";
  semantic = "IN_PROGRESS";
  is_initial = false;
  is_terminal = false;
  sla_days = none;
}

abbrev completed : State
completed = record {
  id = 2;
  code = "COMPLETED";
  semantic = "COMPLETED";
  is_initial = false;
  is_terminal = true;
  sla_days = none;
}

abbrev begin_phase : Transition
begin_phase = record {
  id = 0;
  from_state = some pending;
  to_state = started;
  required_action = "system";
  guards = [];
  effects = text "emit(phase.started)" ∷ [];
}

abbrev complete_phase : Transition
complete_phase = record {
  id = 1;
  from_state = some started;
  to_state = completed;
  required_action = "system";
  guards = text "actor_is_not_entrant" ∷ [];
  effects = text "emit(phase.completed)" ∷ [];
}

abbrev phases : Workflow
phases = record {
  id = 7;
  kind = "PHASE";
  branch_id = none;
  version = 1;
  status = draft;
  activated_at = none;
  states = pending ∷ started ∷ completed ∷ [];
  transitions = begin_phase ∷ complete_phase ∷ [];
}

phases_valid : validate_workflow phases ≡ []
unfolding validate_workflow workflow_problems transition_problems faults gather parse_spec
    remove_prefix semantics_of known_guards known_effects
phases_valid = refl

validate_workflow-nil_example : (validate_workflow phases ≡ []) ↔ (
    (semantics : List String) × (semantics_of "PHASE" ≡ some semantics) × IsValid semantics phases)
validate_workflow-nil_example = validate_workflow-nil phases

phase_semantics : semantics_of "PHASE" ≡ some ("PENDING" ∷ "IN_PROGRESS" ∷ "COMPLETED" ∷ [])
unfolding semantics_of
phase_semantics = refl

phases-IsValid : IsValid ("PENDING" ∷ "IN_PROGRESS" ∷ "COMPLETED" ∷ []) phases
unfolding parse_spec remove_prefix known_guards known_effects
phases-IsValid = record {
  states_known = (refl, (refl, (refl, tt)));
  semantics_covered = (refl, (refl, (refl, tt)));
  one_initial = refl;
  transitions_ok = ((refl, (tt, (refl, tt))), ((refl, ((refl, tt), (refl, tt))), tt));
}

activate_lem_example :
    (rows' : List Workflow) × (activate 3 phases (phases ∷ []) ≡ activated rows')
    × All (λ r. active_at "PHASE" none r ≡ true → r ≡ activated_row 3 phases phases) rows'
    × (get_active_workflow rows' "PHASE" none ≡ some (activated_row 3 phases phases))
activate_lem_example =
    activate_lem 3 phases phases (phases ∷ []) phases_valid refl refl refl ((λ h. refl), tt)

abbrev robot : Actor
robot = record { id = some 5; type = "SYSTEM" }

abbrev phase_record : Document
phase_record = record {
  pk = 40;
  state = started;
  state_entered_at = 1;
  state_entered_by = some 4;
  branch_id = none;
  reviewer_must_differ = true;
  number = none;
  columns = λ c. "checked twice";
}

abbrev empty_database : Database (List Event)
empty_database = record {
  row = (started, 1, some 4);
  saved_columns = λ c. "";
  audit = [];
  world = [];
}

-- Completing the phase, by an actor; and beginning it again, which no transition does.
abbrev complete_by : Actor → Performed (List Event)
complete_by actor =
    perform (List Event) builtin_guards builtin_effects ("note" ∷ []) 9 phases phase_record
      "COMPLETED" none actor none [] empty_database

completes : (complete_by robot).answer ≡ none
unfolding perform candidates available_transitions permitted choose carry_out run_guards run_guard
    parse_spec remove_prefix starts_with builtin_guards actor_is_not_entrant run_effects run_effect
    builtin_effects emit_event
completes = refl

perform-ok_example :
    Carried
      (List Event)
      builtin_guards
      builtin_effects
      ("note" ∷ [])
      9
      phases
      phase_record
      "COMPLETED"
      none
      robot
      none
      []
      empty_database
      (complete_by robot)
perform-ok_example =
    perform-ok (List Event) builtin_guards builtin_effects ("note" ∷ []) 9 phases phase_record
      "COMPLETED" none robot none [] empty_database completes

perform-differs_example : differs (some 4) (some 5) ≡ true
perform-differs_example =
    perform-differs (List Event) builtin_effects ("note" ∷ []) 9 phases phase_record "COMPLETED"
      none robot none [] empty_database refl refl completes

abbrev entrant : Actor
entrant = record { id = some 4; type = "SYSTEM" }

refuses_entrant :
    (complete_by entrant).answer
    ≡ some (guard_failed "actor_is_not_entrant" "workflow.actor_is_entrant")
unfolding perform candidates available_transitions permitted choose carry_out run_guards run_guard
    parse_spec remove_prefix starts_with builtin_guards actor_is_not_entrant run_effects run_effect
    builtin_effects emit_event
refuses_entrant = refl

-- A phase that emits its event and then wants to reserve stock, for which no effect is registered.
abbrev stock_phases : Workflow
stock_phases = record phases {
  transitions =
      record complete_phase { effects = text "emit(phase.completed)" ∷ text "reserve_stock" ∷ [] }
      ∷ [];
}

abbrev out_of_stock : Performed (List Event)
out_of_stock =
    perform (List Event) builtin_guards builtin_effects ("note" ∷ []) 9 stock_phases phase_record
      "COMPLETED" none robot none [] empty_database

fails : out_of_stock.answer ≡ some (effect_missing "reserve_stock")
unfolding perform candidates available_transitions permitted choose carry_out run_guards run_guard
    parse_spec remove_prefix starts_with builtin_guards actor_is_not_entrant run_effects run_effect
    builtin_effects emit_event
fails = refl

-- The record in memory has moved all the same.
stays_moved : out_of_stock.document.state ≡ completed
unfolding perform candidates available_transitions permitted choose carry_out run_guards run_guard
    parse_spec remove_prefix starts_with builtin_guards actor_is_not_entrant run_effects run_effect
    builtin_effects emit_event moved
stays_moved = refl

perform_atomic_example :
    (out_of_stock.database ≡ empty_database)
    × ((out_of_stock.document ≡ phase_record)
        ⊎ IsSpoiled
            (List Event)
            builtin_guards
            builtin_effects
            ("note" ∷ [])
            9
            stock_phases
            phase_record
            "COMPLETED"
            none
            robot
            none
            []
            empty_database
            (choices
              (List Event)
              builtin_guards
              builtin_effects
              ("note" ∷ [])
              9
              stock_phases
              phase_record
              "COMPLETED"
              none
              robot
              none
              []
              empty_database)
            (effect_missing "reserve_stock")
            out_of_stock)
perform_atomic_example =
    perform_atomic (List Event) builtin_guards builtin_effects ("note" ∷ []) 9 stock_phases
      phase_record "COMPLETED" none robot none [] empty_database fails

install_default_lem_example :
    (w : Workflow) × (rows' : List Workflow) × (build 9 (some 3) project ≡ some w)
    × (validate_workflow w ≡ [])
    × (install_workflow 9 5 project (some 3) true (phases ∷ []) ≡ installed rows')
    × (get_active_workflow rows' "PROJECT" (some 3)
        ≡ some (record w { status = active; activated_at = some 5 }))
unfolding latest
install_default_lem_example =
    install_default_lem 9 5 project (some 3) (phases ∷ []) (Memᴰ.head refl) refl (refl, tt)
