-- ===== src/Numbering/Schemes.antt =====
-- Activation, new versions and lookup of numbering schemes
-- (backend/mizan/apps/config/numbering.py).
use mizan_labs_v.Prelude.{
  ℕ, ◌+◌, Bool, false, ◌&&◌, Option, none, some, List, [], ◌∷◌, ltb, ◌==◌, if◌then◌else◌,
}
use mizan_labs_v.Workflow.{draft, active, retired}
use mizan_labs_v.Workflow.Validate.{is_active, same_branch}
use mizan_labs_v.Numbering.Digits.{Text}
use mizan_labs_v.Numbering.{
  NumberingReset, GapPolicy, Allocation, Date, NumberingError, validate_scheme,
}
use mizan_labs_v.Numbering.Allocate.{Scheme, Store, same_text}

-- The filter on branch, department and kind of record.
abbrev pub same_series : Scheme → Scheme → Bool
same_series scheme row =
    row.branch_id == scheme.branch_id
    && (same_branch row.department_id scheme.department_id
        && same_text row.applies_to scheme.applies_to)

unfoldable pub activate_row : Date → Scheme → Scheme → Scheme
activate_row effective scheme row =
    if row.id == scheme.id
    then record row { status = active; effective_from = some effective }
    else if same_series scheme row && is_active row.status
    then record row { status = retired }
    else row

unfoldable pub activate_rows : Date → Scheme → List Scheme → List Scheme
activate_rows effective scheme [] = []
activate_rows effective scheme (row ∷ rows) =
    activate_row effective scheme row ∷ activate_rows effective scheme rows

pub data Changed : Type 0 where
  changed : Scheme → Store → Changed
  rejected : NumberingError → Changed

-- The scheme in memory keeps its other fields; its row gets the status and the date.
unfoldable pub activate : Date → Scheme → Store → Changed
activate effective scheme store =
    elim (validate_scheme scheme.pattern scheme.gap_policy scheme.allocation) [
      | some error ↦ rejected error
      | none ↦
          changed (record scheme { status = active; effective_from = some effective })
            (record store { schemes = activate_rows effective scheme store.schemes })
    ]

-- .order_by("-version").first() after a filter
unfoldable pub latest : (Scheme → Bool) → List Scheme → Option Scheme
latest p [] = none
latest p (row ∷ rows) =
    let rest = latest p rows in
    if p row
    then elim rest [
      | none ↦ some row
      | some best ↦ if ltb row.version best.version then some best else some row
    ]
    else rest

abbrev pub active_for : ℕ → Text → Option ℕ → Scheme → Bool
active_for branch applies_to department row =
    row.branch_id == branch
    && (same_text row.applies_to applies_to
        && (is_active row.status && same_branch row.department_id department))

-- `none` is NotFound.
unfoldable pub active_scheme : List Scheme → Text → ℕ → Option ℕ → Option Scheme
active_scheme rows applies_to branch none = latest (active_for branch applies_to none) rows
active_scheme rows applies_to branch (some department) =
    elim (latest (active_for branch applies_to (some department)) rows) [
      | some specific ↦ some specific
      | none ↦ latest (active_for branch applies_to none) rows
    ]

-- The fields of `changes` that a new version may change, `none` where they are kept.
pub record Changes : Type 0 where
  pub prefix_to : Option Text
  pub pattern_to : Option Text
  pub reset_to : Option NumberingReset
  pub gap_policy_to : Option GapPolicy
  pub allocation_to : Option Allocation

abbrev pub or_else {ℓ} : {A : Type ℓ} → Option A → A → A
or_else none a = a
or_else (some a) b = a

abbrev pub next_version : Scheme → Option Scheme → ℕ
next_version scheme none = scheme.version + 1
next_version scheme (some best) = best.version + 1

unfoldable pub new_version : ℕ → Scheme → Changes → Store → Changed
new_version id scheme changes store =
    let created : Scheme = record {
      id = id;
      branch_id = scheme.branch_id;
      department_id = scheme.department_id;
      applies_to = scheme.applies_to;
      prefix = or_else changes.prefix_to scheme.prefix;
      pattern = or_else changes.pattern_to scheme.pattern;
      reset = or_else changes.reset_to scheme.reset;
      gap_policy = or_else changes.gap_policy_to scheme.gap_policy;
      allocation = or_else changes.allocation_to scheme.allocation;
      version = next_version scheme (latest (same_series scheme) store.schemes);
      status = draft;
      effective_from = none;
      immutable = false;
      supersedes = some scheme.id;
      branch_text = scheme.branch_text;
      department_text = scheme.department_text;
    } in
    elim (validate_scheme created.pattern created.gap_policy created.allocation) [
      | some error ↦ rejected error
      | none ↦ changed created (record store { schemes = created ∷ store.schemes })
    ]
