-- ===== src/Identity/Roles/Examples.antt =====
-- Runs of the role services (backend/mizan/apps/identity/roles.py and services.py).
use mizan_labs_v.Prelude.{◌≡◌, refl, false, [], ◌∷◌, any, All}
use mizan_labs_v.Authz.Catalog.{valid, validate_grant}
use mizan_labs_v.Identity.Roles.{RoleTemplate, Row, expand, add_row, insert_names}
use mizan_labs_v.Identity.Roles.Install.{Role, active, sync_grants}
use mizan_labs_v.Identity.Roles.Services.{saved, has_key, replace_grants}
use mizan_labs_v.Identity.Roles.Rows.{expand_exact, grants_it, IsValid}
use mizan_labs_v.Identity.Roles.Replace.{replace_grants-saved, IsUnique}

abbrev view_project : Row
view_project = record {
  resource = "project";
  action = "view";
  scope = "OWN_BRANCH";
  groups = "financial" ∷ "commercial" ∷ "financial" ∷ [];
}

abbrev edit_project : Row
edit_project = record { resource = "project"; action = "edit"; scope = "OWN_BRANCH"; groups = [] }

abbrev tidy : Row
tidy = record view_project { groups = "commercial" ∷ "financial" ∷ [] }

abbrev template : RoleTemplate
template = record {
  code = "T";
  labels = [];
  description = "";
  grants =
      (record {
        resources = "project" ∷ [];
        actions = "view" ∷ [];
        scope = "OWN_BRANCH";
        groups = "financial" ∷ "commercial" ∷ [];
      })
      ∷ [];
}

expanded : expand template ≡ valid (tidy ∷ [])
unfolding expand add_row insert_names validate_grant
expanded = refl

expand_exact_example :
    All IsValid (tidy ∷ [])
    × ((k : Row) → has_key k (tidy ∷ []) ≡ any (grants_it k) template.grants)
expand_exact_example = expand_exact template expanded

abbrev role : Role
role = record {
  code = "R";
  is_template = false;
  description = "";
  status = active;
  labels = [];
  grants = edit_project ∷ [];
}

abbrev role' : Role
role' = record role { grants = tidy ∷ edit_project ∷ [] }

replaced : replace_grants role (view_project ∷ edit_project ∷ view_project ∷ []) ≡ saved role'
unfolding replace_grants
replaced = refl

replace_grants-saved_example :
    All IsValid role'.grants
    × IsUnique role'.grants
    × ((k : Row)
        → has_key k role'.grants ≡ has_key k (view_project ∷ edit_project ∷ view_project ∷ []))
    × (role' ≡ record role { grants = role'.grants })
replace_grants-saved_example =
    replace_grants-saved role (view_project ∷ edit_project ∷ view_project ∷ []) replaced

-- A stale grant goes, a new one comes, and groups are brought up to date.
synced : sync_grants (tidy ∷ []) (edit_project ∷ (record tidy { groups = [] }) ∷ []) ≡ tidy ∷ []
unfolding sync_grants
synced = refl
