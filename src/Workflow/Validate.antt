-- ===== src/Workflow/Validate.antt =====
-- Validation, activation and lookup of workflows (`validate_workflow`, `activate` and
-- `get_active_workflow` of backend/mizan/apps/config/workflows.py). The table of workflows is a list.
pub mod Laws
pub mod Activating
use mizan_labs_v.Prelude.{
  ℕ, String, Bool, true, false, ◌&&◌, ◌||◌, not, Option, none, some, List, [], ◌∷◌, ◌++◌, map,
  str_eq, ltb, leb, ◌==◌, if◌then◌else◌, length, any,
}
use mizan_labs_v.Text.{remove_prefix}
use mizan_labs_v.Workflow.{
  ConfigStatus, draft, active, retired, Entry, State, Transition, Workflow, filter,
}
use mizan_labs_v.Workflow.Spec.{parse_spec}
use mizan_labs_v.Workflow.Catalog.{semantics_of, known_guards, known_effects, contains}

pub data Problem : Type 0 where
  unknown_kind : String → Problem
  unknown_semantic : String → String → Problem
  semantic_missing : String → Problem
  one_initial_state_required : ℕ → Problem
  transition_state_unknown : ℕ → Problem
  unknown_guard : String → Problem
  unknown_effect : String → Problem

-- [problem(x) for x in xs if not ok(x)]
module _ {ℓ} {A : Type ℓ} where
  unfoldable pub faults : (A → Bool) → (A → Problem) → List A → List Problem
  faults ok problem [] = []
  faults ok problem (x ∷ xs) =
      let rest = faults ok problem xs in if ok x then rest else problem x ∷ rest

  unfoldable pub gather : (A → List Problem) → List A → List Problem
  gather f [] = []
  gather f (x ∷ xs) = f x ++ gather f xs

abbrev pub has_semantic : List State → String → Bool
has_semantic states semantic = any (λ s. str_eq s.semantic semantic) states

abbrev pub initial_count : List State → ℕ
initial_count states = length (filter (λ s. s.is_initial) states)

-- transition.to_state_id in state_ids, and so the start, if there is one
abbrev pub is_state : List State → State → Bool
is_state states x = any (λ s. s.id == x.id) states

abbrev pub starts_within : List State → Option State → Bool
starts_within states none = true
starts_within states (some x) = is_state states x

abbrev pub stays_within : List State → Transition → Bool
stays_within states t = is_state states t.to_state && starts_within states t.from_state

abbrev pub guard_code : Entry → String
guard_code entry = remove_prefix "not " (parse_spec entry).0

abbrev pub effect_code : Entry → String
effect_code entry = (parse_spec entry).0

unfoldable pub transition_problems : List State → Transition → List Problem
transition_problems states t =
    (if stays_within states t then [] else transition_state_unknown t.id ∷ [])
    ++ (faults (λ g. contains known_guards (guard_code g)) (λ g. unknown_guard (parse_spec g).0)
          t.guards
        ++ faults (λ e. contains known_effects (effect_code e))
            (λ e. unknown_effect (effect_code e)) t.effects)

unfoldable pub workflow_problems : List String → Workflow → List Problem
workflow_problems semantics w =
    faults (λ s. contains semantics s.semantic) (λ s. unknown_semantic s.code s.semantic) w.states
    ++ (faults (has_semantic w.states) semantic_missing semantics
        ++ ((if initial_count w.states == 1
              then []
              else one_initial_state_required (initial_count w.states) ∷ [])
            ++ gather (transition_problems w.states) w.transitions))

unfoldable pub validate_workflow : Workflow → List Problem
validate_workflow w = elim (semantics_of w.kind) [
  | none ↦ unknown_kind w.kind ∷ []
  | some semantics ↦ workflow_problems semantics w
]

abbrev pub is_active : ConfigStatus → Bool
is_active active = true
is_active _ = false

abbrev pub same_branch : Option ℕ → Option ℕ → Bool
same_branch none none = true
same_branch (some a) (some b) = a == b
same_branch _ _ = false

-- kind, branch and status of the two queries
abbrev pub active_at : String → Option ℕ → Workflow → Bool
active_at kind branch w =
    str_eq w.kind kind && (same_branch w.branch_id branch && is_active w.status)

-- One row under the update of `activate`: another active one of the kind and branch is retired, and
-- the status and the time of the row itself are saved.
unfoldable pub activate_row : ℕ → Workflow → Workflow → Workflow
activate_row now w row =
    if row.id == w.id
    then record row { status = active; activated_at = some now }
    else if active_at w.kind w.branch_id row
    then record row { status = retired }
    else row

unfoldable pub activate_rows : ℕ → Workflow → List Workflow → List Workflow
activate_rows now w [] = []
activate_rows now w (row ∷ rows) = activate_row now w row ∷ activate_rows now w rows

pub data Activation : Type 0 where
  activated : List Workflow → Activation
  invalid : List Problem → Activation

unfoldable pub activate : ℕ → Workflow → List Workflow → Activation
activate now w rows = elim (validate_workflow w) [
  | [] ↦ activated (activate_rows now w rows)
  | p ∷ ps ↦ invalid (p ∷ ps)
]

-- .order_by("-version").first() after a filter: the first of the highest version.
unfoldable pub latest : (Workflow → Bool) → List Workflow → Option Workflow
latest p [] = none
latest p (w ∷ ws) =
    let rest = latest p ws in
    if p w
    then elim rest [ none ↦ some w | some v ↦ if ltb w.version v.version then some v else some w ]
    else rest

-- `none` is NotFound.
unfoldable pub get_active_workflow : List Workflow → String → Option ℕ → Option Workflow
get_active_workflow rows kind none = latest (active_at kind none) rows
get_active_workflow rows kind (some branch) = elim (latest (active_at kind (some branch)) rows) [
  | some specific ↦ some specific
  | none ↦ latest (active_at kind none) rows
]
