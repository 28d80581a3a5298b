-- ===== src/Identity/Roles/Services.antt =====
-- `create_role`, `replace_grants`, `duplicate_role` and `retire_role` of
-- backend/mizan/apps/identity/services.py.
use mizan_labs_v.Prelude.{
  String, Bool, false, none, some, List, [], ◌∷◌, ◌++◌, str_eq, any, if◌then◌else◌,
}
use mizan_labs_v.Authz.Catalog.{GrantError, valid, invalid, validate_grant}
use mizan_labs_v.Identity.Roles.{Row, insert_names, sorted_set, same_key}
use mizan_labs_v.Identity.Roles.Install.{Role, find_role, set_labels, save_role, active, retired}

pub data RoleError : Type 0 where
  grant_invalid : GrantError → RoleError
  role_code_exists : RoleError

pub data Saved (A : Type 0) : Type 0 where
  saved : A → Saved A
  refused : RoleError → Saved A

abbrev pub has_key : Row → List Row → Bool
has_key key rows = any (same_key key) rows

-- The loop of `replace_grants`: a key that was seen before is passed over, but is validated first.
unfoldable pub new_grants : List Row → List Row → Saved (List Row)
unfolding validate_grant insert_names
new_grants [] rows = saved rows
new_grants (spec ∷ specs) rows =
    elim (validate_grant spec.resource spec.action spec.scope spec.groups) [
      | invalid e ↦ refused (grant_invalid e)
      | valid u ↦ new_grants specs (
          if has_key spec rows
          then rows
          else rows ++ ((record spec { groups = sorted_set spec.groups }) ∷ []))
    ]

unfoldable pub replace_grants : Role → List Row → Saved Role
unfolding new_grants
replace_grants role specs = elim (new_grants specs []) [
  | refused e ↦ refused e
  | saved rows ↦ saved (record role { grants = rows })
]

-- {k: v for k, v in labels.items() if v}
unfoldable pub kept_labels : List (String × String) → List (String × String)
kept_labels [] = []
kept_labels ((k, v) ∷ labels) =
    let rest = kept_labels labels in if str_eq v "" then rest else (k, v) ∷ rest

unfoldable pub create_role :
    String → List (String × String) → String → List Row → List Role → Saved (List Role)
unfolding replace_grants kept_labels set_labels
create_role code labels description grants roles =
    let role : Role = record {
      code = code;
      is_template = false;
      description = description;
      status = active;
      labels = set_labels (kept_labels labels) [];
      grants = [];
    } in
    elim (find_role code roles) [
      | some r ↦ refused role_code_exists
      | none ↦ elim (replace_grants role grants) [
        | refused e ↦ refused e
        | saved role' ↦ saved (roles ++ (role' ∷ []))
      ]
    ]

unfoldable pub duplicate_role :
    Role → String → List (String × String) → List Role → Saved (List Role)
unfolding create_role
duplicate_role role code labels roles = create_role code labels role.description role.grants roles

unfoldable pub retire_role : Role → List Role → List Role
unfolding save_role
retire_role role roles = save_role (record role { status = retired }) roles
