-- ===== src/Workflow/Validate/Activating.antt =====
-- The table of workflows after an activation.
use mizan_labs_v.Prelude.{
  ℕ, String, ◌≡◌, inl, inr, refl, ap, Bool, true, false, Option, none, some, List, [], ◌∷◌, arith,
  ◌==◌, ==_iff, Bool-cases, any, All, eq_iff,
}
use mizan_labs_v.Workflow.{active, Workflow}
use mizan_labs_v.Workflow.Validate.{
  validate_workflow, active_at, same_branch, activate_row, activate_rows, activated, activate,
  latest, get_active_workflow,
}

same_branch_refl : (b : Option ℕ) → same_branch b b ≡ true
same_branch_refl none = refl
same_branch_refl (some b) = (==_iff b b).1 refl

latest-none :
    (p : Workflow → Bool) (rows : List Workflow) → any p rows ≡ false → latest p rows ≡ none
unfolding latest
latest-none p [] h = refl
latest-none p (r ∷ rows) h = ground (arith, latest-none p rows)

latest_unique :
    (p : Workflow → Bool) (v : Workflow) (rows : List Workflow)
    → All (λ r. p r ≡ true → r ≡ v) rows
    → any p rows ≡ true
    → latest p rows ≡ some v
unfolding latest
latest_unique p v [] all found = cc
latest_unique p v (r ∷ rows) all found = elim (Bool-cases (p r)) [
  | inl hit ↦
      let same = all.0 hit in
      elim (Bool-cases (any p rows)) [
        | inl more ↦
            ground (arith, latest_unique p v rows all.1 more, ap (λ (x : Workflow). x.version) same)
        | inr none_left ↦ ground (arith, latest-none p rows none_left)
      ]
  | inr miss ↦ rw miss (latest_unique p v rows all.1 (rw miss at found))
]

get_found :
    (rows : List Workflow) (kind : String) (branch : Option ℕ) {v : Workflow}
    → latest (active_at kind branch) rows ≡ some v
    → get_active_workflow rows kind branch ≡ some v
unfolding get_active_workflow
get_found rows kind none h = h
get_found rows kind (some b) h = ground arith

-- `w` is the workflow in memory, and `v` its row.
module _ (now : ℕ) (w v : Workflow) where
  abbrev pub activated_row : Workflow
  activated_row = record v { status = active; activated_at = some now }

  active_row :
      (row : Workflow)
      → ((row.id == w.id) ≡ true → row ≡ v)
      → active_at w.kind w.branch_id (activate_row now w row) ≡ true
      → activate_row now w row ≡ activated_row
  unfolding activate_row
  active_row row own h = elim (Bool-cases (row.id == w.id)) [
    | inl hit ↦
        rw (activate_row, hit)
          (ap (λ (r : Workflow). record r { status = active; activated_at = some now }) (own hit))
    | inr miss ↦ ground arith
  ]

  active_rows :
      (rows : List Workflow)
      → All (λ r. (r.id == w.id) ≡ true → r ≡ v) rows
      → All
          (λ r. active_at w.kind w.branch_id r ≡ true → r ≡ activated_row)
          (activate_rows now w rows)
  unfolding activate_rows
  active_rows [] own = tt
  active_rows (row ∷ rows) own = (active_row row own.0, active_rows rows own.1)

  row_active :
      (row : Workflow)
      → (row.id == w.id) ≡ true
      → row ≡ v
      → v.kind ≡ w.kind
      → v.branch_id ≡ w.branch_id
      → active_at w.kind w.branch_id (activate_row now w row) ≡ true
  unfolding activate_row
  row_active row hit same kind branch =
      rw (activate_row, hit, same, kind, branch)
        (ground (arith, (eq_iff w.kind w.kind).1 refl, same_branch_refl w.branch_id))

  row_there :
      (rows : List Workflow)
      → v.kind ≡ w.kind
      → v.branch_id ≡ w.branch_id
      → All (λ r. (r.id == w.id) ≡ true → r ≡ v) rows
      → any (λ r. r.id == w.id) rows ≡ true
      → any (active_at w.kind w.branch_id) (activate_rows now w rows) ≡ true
  unfolding activate_rows
  row_there [] kind branch own h = cc
  row_there (row ∷ rows) kind branch own h = elim (Bool-cases (row.id == w.id)) [
    | inl hit ↦ rw (row_active row hit (own.0 hit) kind branch) refl
    | inr miss ↦ ground (arith, row_there rows kind branch own.1 (rw miss at h))
  ]

  -- Activating a workflow that validation passes, and whose row in the table is of its kind and branch,
  -- makes this row the only active one of the kind and branch, with nothing but its status and its time
  -- changed, and the one that the engine then finds for them.
  pub activate_lem :
      (rows : List Workflow)
      → validate_workflow w ≡ []
      → v.kind ≡ w.kind
      → v.branch_id ≡ w.branch_id
      → any (λ r. r.id == w.id) rows ≡ true
      → All (λ r. (r.id == w.id) ≡ true → r ≡ v) rows
      → (rows' : List Workflow) × (activate now w rows ≡ activated rows')
        × All (λ r. active_at w.kind w.branch_id r ≡ true → r ≡ activated_row) rows'
        × (get_active_workflow rows' w.kind w.branch_id ≡ some activated_row)
  unfolding activate
  activate_lem rows fine kind branch there own =
      let only = active_rows rows own in
      let found =
        latest_unique (active_at w.kind w.branch_id) activated_row (activate_rows now w rows) only
          (row_there rows kind branch own there) in
      (
        activate_rows now w rows,
        rw (fine, activate),
        only,
        get_found (activate_rows now w rows) w.kind w.branch_id found,
      )
