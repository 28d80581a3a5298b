-- ===== src/Workflow/Install.antt =====
-- The shape of a default workflow and its installation (`StateSpec`, `TransitionSpec`,
-- `WorkflowSpec`, `_s`, `_t` and `install_workflow` of
-- backend/mizan/apps/config/defaults/workflows.py). The identifier of a state or transition is its
-- position, since the database gives each row another one; labels and colours are kept in the
-- templates and have no part in the engine.
use mizan_labs_v.Prelude.{
  ℕ, ◌+◌, String, Bool, true, false, ◌&&◌, Option, none, some, List, [], ◌∷◌, str_eq,
}
use mizan_labs_v.Workflow.{draft, Entry, State, Transition, Workflow, first}
use mizan_labs_v.Workflow.Validate.{same_branch, Problem, latest, activate, activated, invalid}

pub record StateSpec : Type 0 where
  pub code : String
  pub semantic : String
  pub label_fr : String
  pub label_en : String
  pub colour : String
  pub initial : Bool
  pub terminal : Bool
  pub sla_days : Option ℕ

pub record TransitionSpec : Type 0 where
  pub from_code : Option String
  pub to_code : String
  pub action : String
  pub guards : List Entry
  pub effects : List Entry
  pub label_fr : String
  pub label_en : String

pub record WorkflowSpec : Type 0 where
  pub kind : String
  pub states : List StateSpec
  pub transitions : List TransitionSpec

abbrev pub s : String → String → String → String → Bool → Bool → Option ℕ → StateSpec
s code fr en colour initial terminal sla = record {
  code = code;
  semantic = code;
  label_fr = fr;
  label_en = en;
  colour = colour;
  initial = initial;
  terminal = terminal;
  sla_days = sla;
}

abbrev pub t :
    Option String → String → String → List Entry → List Entry → String → String → TransitionSpec
t from_code to action guards effects fr en = record {
  from_code = from_code;
  to_code = to;
  action = action;
  guards = guards;
  effects = effects;
  label_fr = fr;
  label_en = en;
}

unfoldable pub make_states : ℕ → List StateSpec → List State
make_states ord [] = []
make_states ord (spec ∷ specs) =
    record {
      id = ord;
      code = spec.code;
      semantic = spec.semantic;
      is_initial = spec.initial;
      is_terminal = spec.terminal;
      sla_days = spec.sla_days;
    }
    ∷ make_states (ord + 1) specs

-- states[code]; `none` is the KeyError. Codes are unique in a workflow.
abbrev pub by_code : List State → String → Option State
by_code states code = first (λ x. str_eq x.code code) states

-- states[t.from_code] if t.from_code else None
unfoldable pub start_of : List State → Option String → Option (Option State)
start_of states none = some none
start_of states (some code) = elim (by_code states code) [ none ↦ none | some x ↦ some (some x) ]

unfoldable pub make_transition : ℕ → List State → TransitionSpec → Option Transition
unfolding start_of
make_transition ord states spec = elim (start_of states spec.from_code) [
  | none ↦ none
  | some from_state ↦ elim (by_code states spec.to_code) [
    | none ↦ none
    | some to_state ↦ some (record {
      id = ord;
      from_state = from_state;
      to_state = to_state;
      required_action = spec.action;
      guards = spec.guards;
      effects = spec.effects;
    })
  ]
]

unfoldable pub make_transitions : ℕ → List State → List TransitionSpec → Option (List Transition)
unfolding make_transition
make_transitions ord states [] = some []
make_transitions ord states (spec ∷ specs) =
    let rest = make_transitions (ord + 1) states specs in
    elim (make_transition ord states spec) [
      | none ↦ none
      | some x ↦ elim rest [ none ↦ none | some xs ↦ some (x ∷ xs) ]
    ]

-- Version 1 of a template, as a draft with the given identifier.
unfoldable pub build : ℕ → Option ℕ → WorkflowSpec → Option Workflow
unfolding make_states make_transitions
build id branch spec =
    let states = make_states 0 spec.states in
    elim (make_transitions 0 states spec.transitions) [
      | none ↦ none
      | some transitions ↦ some (record {
        id = id;
        kind = spec.kind;
        branch_id = branch;
        version = 1;
        status = draft;
        activated_at = none;
        states = states;
        transitions = transitions;
      })
    ]

pub data Installation : Type 0 where
  existing : Workflow → Installation
  installed : List Workflow → Installation
  key_error : Installation
  rejected : List Problem → Installation

abbrev pub of_kind : String → Option ℕ → Workflow → Bool
of_kind kind branch w = str_eq w.kind kind && same_branch w.branch_id branch

unfoldable pub settle : ℕ → Bool → Workflow → List Workflow → Installation
settle now false w rows = installed (w ∷ rows)
settle now true w rows = elim (activate now w (w ∷ rows)) [
  | activated rows' ↦ installed rows'
  | invalid problems ↦ rejected problems
]

-- A workflow of the kind and branch that exists is kept as it is.
unfoldable pub install_workflow :
    ℕ → ℕ → WorkflowSpec → Option ℕ → Bool → List Workflow → Installation
install_workflow id now spec branch active rows = elim (latest (of_kind spec.kind branch) rows) [
  | some w ↦ existing w
  | none ↦ elim (build id branch spec) [ none ↦ key_error | some w ↦ settle now active w rows ]
]
