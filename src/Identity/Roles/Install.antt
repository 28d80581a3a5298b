-- ===== src/Identity/Roles/Install.antt =====
-- The rows of a role: `install_default_roles` of backend/mizan/apps/identity/roles.py. A row is found by
-- its key (resource, action, scope), which is unique within a role in the database.
use mizan_labs_v.Prelude.{
  String, Bool, true, false, ◌&&◌, Option, none, some, List, [], ◌∷◌, ◌++◌, str_eq, if◌then◌else◌,
}
use mizan_labs_v.Authz.Catalog.{Checked, valid, invalid}
use mizan_labs_v.Identity.Roles.{RoleTemplate, Row, sorted, expand, same_key}

abbrev pub same_names : List String → List String → Bool
same_names [] [] = true
same_names [] (m ∷ ms) = false
same_names (n ∷ ns) [] = false
same_names (n ∷ ns) (m ∷ ms) = str_eq n m && same_names ns ms

-- existing.pop(key, None)
unfoldable pub pop : Row → List Row → Option Row × List Row
pop key [] = (none, [])
pop key (g ∷ gs) =
    let rest = pop key gs in if same_key key g then (some g, gs) else (rest.0, g ∷ rest.1)

-- A save of the groups of one grant, and the deletion of one.
unfoldable pub set_groups : Row → List Row → List Row
set_groups row [] = []
set_groups row (g ∷ gs) =
    let rest = set_groups row gs in
    if same_key row g then (record g { groups = row.groups }) ∷ gs else g ∷ rest

unfoldable pub delete_row : Row → List Row → List Row
delete_row row [] = []
delete_row row (g ∷ gs) = let rest = delete_row row gs in if same_key row g then gs else g ∷ rest

-- The loop over the wanted rows: the grants of the table, and those not yet met.
unfoldable pub sync_rows : List Row → List Row → List Row → List Row × List Row
unfolding pop set_groups sorted
sync_rows [] table existing = (table, existing)
sync_rows (row ∷ wanted) table existing =
    let (found, others) = pop row existing in
    elim found [
      | none ↦ sync_rows wanted (table ++ (row ∷ [])) others
      | some g ↦
          sync_rows wanted
            (if same_names (sorted g.groups) row.groups then table else set_groups row table) others
    ]

unfoldable pub delete_rows : List Row → List Row → List Row
unfolding delete_row
delete_rows [] table = table
delete_rows (stale ∷ more) table = delete_rows more (delete_row stale table)

-- The grants of a role after `install_default_roles` has brought it up to date.
unfoldable pub sync_grants : List Row → List Row → List Row
unfolding sync_rows delete_rows
sync_grants wanted grants =
    let (table, stale) = sync_rows wanted grants grants in delete_rows stale table

pub data RoleStatus : Type 0 where
  active retired : RoleStatus

pub record Role : Type 0 where
  pub code : String
  pub is_template : Bool
  pub description : String
  pub status : RoleStatus
  pub labels : List (String × String)
  pub grants : List Row

abbrev pub find_role : String → List Role → Option Role
find_role code [] = none
find_role code (r ∷ rs) = if str_eq r.code code then some r else find_role code rs

-- update_or_create of each label, by its locale
unfoldable pub set_label : String × String → List (String × String) → List (String × String)
set_label label [] = label ∷ []
set_label label (l ∷ ls) =
    let rest = set_label label ls in if str_eq label.0 l.0 then label ∷ ls else l ∷ rest

unfoldable pub set_labels : List (String × String) → List (String × String) → List (String × String)
unfolding set_label
set_labels [] existing = existing
set_labels (label ∷ labels) existing = set_labels labels (set_label label existing)

unfoldable pub save_role : Role → List Role → List Role
save_role role [] = []
save_role role (r ∷ rs) =
    let rest = save_role role rs in if str_eq r.code role.code then role ∷ rs else r ∷ rest

-- get_or_create
abbrev pub found_or_new : RoleTemplate → Option Role → Role
found_or_new template (some role) = role
found_or_new template none = record {
  code = template.code;
  is_template = true;
  description = template.description;
  status = active;
  labels = [];
  grants = [];
}

abbrev pub with_role : RoleTemplate → List Role → List Role
with_role template roles = elim (find_role template.code roles) [
  | none ↦ roles ++ (found_or_new template none ∷ [])
  | some role ↦ roles
]

unfoldable pub install_role : RoleTemplate → List Role → Checked (List Role)
unfolding expand sync_grants save_role set_labels
install_role template roles =
    let role = found_or_new template (find_role template.code roles) in
    elim (expand template) [
      | invalid e ↦ invalid e
      | valid wanted ↦ valid (
          save_role
            (record role {
              labels = set_labels template.labels role.labels;
              grants = sync_grants wanted role.grants;
            })
            (with_role template roles))
    ]

-- An error leaves the request's transaction, so nothing of the installation stays.
unfoldable pub install_roles : List RoleTemplate → List Role → Checked (List Role)
unfolding install_role
install_roles [] roles = valid roles
install_roles (template ∷ templates) roles = elim (install_role template roles) [
  | invalid e ↦ invalid e
  | valid roles' ↦ install_roles templates roles'
]
