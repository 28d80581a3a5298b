-- ===== src/Workflow.antt =====
-- The workflow engine (backend/mizan/apps/config/workflows.py and guards_effects.py): states with
-- system semantics, transitions with guards and effects. A foreign key is the row that it names; the
-- lists of states and transitions are in the order of `ord`. Identifiers and times are numbers.
pub mod Spec
pub mod Catalog
pub mod Validate
pub mod Install
pub mod Defaults
pub mod Perform
pub mod Simulate
pub mod Installing
mod Examples
use mizan_labs_v.Prelude.{
  ℕ, String, Bool, true, false, ◌&&◌, ◌||◌, not, Option, none, some, List, [], ◌∷◌, str_eq, ◌==◌,
  if◌then◌else◌,
}

pub data ConfigStatus : Type 0 where
  draft active retired : ConfigStatus

-- A dictionary of JSON texts, by its items.
abbrev pub Params : Type 0
Params = List (String × String)

-- An entry of `guards` or `effects`: a text such as `notify(approvers)`, or a dictionary with a
-- code and its parameters.
pub data Entry : Type 0 where
  text : String → Entry
  dict : String → Params → Entry

pub record State : Type 0 where
  pub id : ℕ
  pub code : String
  pub semantic : String
  pub is_initial : Bool
  pub is_terminal : Bool
  pub sla_days : Option ℕ

pub record Transition : Type 0 where
  pub id : ℕ
  pub from_state : Option State
  pub to_state : State
  pub required_action : String
  pub guards : List Entry
  pub effects : List Entry

pub record Workflow : Type 0 where
  pub id : ℕ
  pub kind : String
  pub branch_id : Option ℕ
  pub version : ℕ
  pub status : ConfigStatus
  pub activated_at : Option ℕ
  pub states : List State
  pub transitions : List Transition

module _ {ℓ} {A : Type ℓ} where
  -- The elements that pass the test, in order; and the first of them.
  abbrev pub filter : (A → Bool) → List A → List A
  filter p [] = []
  filter p (x ∷ xs) = let rest = filter p xs in if p x then x ∷ rest else rest

  abbrev pub first : (A → Bool) → List A → Option A
  first p [] = none
  first p (x ∷ xs) = if p x then some x else first p xs

-- workflow.states.filter(is_initial=True).order_by("ord").first(); `none` is the Conflict.
unfoldable pub initial_state : Workflow → Option State
initial_state w = first (λ s. s.is_initial) w.states

-- `none` is NotFound.
unfoldable pub state_for_semantic : Workflow → String → Option State
state_for_semantic w semantic = first (λ s. str_eq s.semantic semantic) w.states

-- The transition starts at this state, or at any state.
abbrev pub leaves : Option State → State → Bool
leaves none current = true
leaves (some s) current = s.id == current.id

unfoldable pub available_transitions : Workflow → State → List Transition
available_transitions w current =
    if current.is_terminal
    then []
    else filter (λ t. leaves t.from_state current && not (t.to_state.id == current.id))
        w.transitions
