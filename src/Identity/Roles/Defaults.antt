-- ===== src/Identity/Roles/Defaults.antt =====
-- The default role templates (`COMMERCIAL_GRANTS`, `CLIENT_USER_GRANTS` and `DEFAULT_ROLES` of
-- backend/mizan/apps/identity/roles.py).
use mizan_labs_v.Prelude.{String, List, [], ◌∷◌, ◌++◌, not, str_eq}
use mizan_labs_v.Authz.Catalog.{resources, configuration_resources}
use mizan_labs_v.Identity.Sessions.{where_rows}
use mizan_labs_v.Identity.Roles.{GrantSpec, RoleTemplate, sorted_set, insert_name, insert_names}

abbrev pub grant : List String → List String → String → List String → GrantSpec
grant resources actions scope groups = record {
  resources = resources;
  actions = actions;
  scope = scope;
  groups = groups;
}

abbrev pub template : String → List (String × String) → List GrantSpec → RoleTemplate
template code labels grants = record {
  code = code;
  labels = labels;
  grants = grants;
  description = "";
}

abbrev pub view_only : List String
view_only = "view" ∷ []

abbrev pub view_create_edit : List String
view_create_edit = "view" ∷ "create" ∷ "edit" ∷ []

abbrev pub view_create : List String
view_create = "view" ∷ "create" ∷ []

abbrev pub all_actions : List String
all_actions =
    "view" ∷ "create" ∷ "edit" ∷ "delete" ∷ "submit" ∷ "approve" ∷ "issue" ∷ "cancel" ∷ "print"
    ∷ "export" ∷ []

abbrev pub asset_resources : List String
asset_resources =
    "equipment" ∷ "stock" ∷ "consumable" ∷ "rental" ∷ "sale" ∷ "outing" ∷ "transfer" ∷ "maintenance"
    ∷ "vehicle" ∷ "fleet_document" ∷ []

abbrev pub lab_resources : List String
lab_resources =
    "expected_intake" ∷ "intake" ∷ "specimen" ∷ "sample" ∷ "test_run" ∷ "measurement" ∷ "report"
    ∷ []

abbrev pub commercial_groups : List String
commercial_groups = "commercial" ∷ "financial" ∷ "client_contact" ∷ []

abbrev pub commercial_grants : List GrantSpec
commercial_grants =
    (grant ("account" ∷ []) view_create_edit "OWN_BRANCH" ("client_contact" ∷ [])
      ∷ grant ("contact" ∷ []) view_create_edit "OWN_BRANCH" []
      ∷ grant ("project" ∷ "task" ∷ "work_item" ∷ []) view_create_edit "OWN_BRANCH"
          commercial_groups
      ∷ grant ("quote" ∷ []) ("view" ∷ "create" ∷ "edit" ∷ "submit" ∷ "print" ∷ "export" ∷ [])
          "OWN_BRANCH" []
      ∷ grant ("quote_revision" ∷ []) ("view" ∷ "create" ∷ "edit" ∷ "print" ∷ "export" ∷ [])
          "OWN_BRANCH" []
      ∷ grant ("acceptance" ∷ []) ("create" ∷ []) "OWN_BRANCH" []
      ∷ grant ("contract" ∷ []) view_create "OWN_BRANCH" []
      ∷ grant ("order" ∷ []) view_only "OWN_BRANCH" ("commercial" ∷ [])
      ∷ grant ("invoice" ∷ "expected_intake" ∷ "intake" ∷ "report" ∷ "work_order" ∷ []) view_only
          "OWN_BRANCH" []
      ∷ grant ("attachment" ∷ "comment" ∷ []) view_create "OWN_BRANCH" []
      ∷ grant ("dashboard" ∷ []) view_only "OWN_BRANCH" []
      ∷ [])

abbrev pub client_user_grants : List GrantSpec
client_user_grants =
    (grant
        ("account" ∷ "contact" ∷ "project" ∷ "task" ∷ "work_item" ∷ "quote" ∷ "quote_revision"
          ∷ "contract" ∷ "order" ∷ "expected_intake" ∷ "intake" ∷ "specimen" ∷ "sample" ∷ "test_run"
          ∷ "invoice" ∷ "credit_note" ∷ "payment" ∷ "rental" ∷ "work_order" ∷ "comment" ∷ [])
        view_only "OWN_ACCOUNT" []
      ∷ grant ("project" ∷ []) view_only "OWN_ACCOUNT" ("financial" ∷ [])
      ∷ grant ("report" ∷ []) ("view" ∷ "print" ∷ []) "OWN_ACCOUNT" []
      ∷ grant ("acceptance" ∷ []) ("create" ∷ []) "OWN_ACCOUNT" []
      ∷ grant ("attachment" ∷ []) view_create "OWN_ACCOUNT" []
      ∷ [])

-- tuple(sorted(RESOURCES - {"tenant"})) and tuple(sorted(CONFIGURATION_RESOURCES))
abbrev pub branch_resources : List String
unfolding insert_names insert_name where_rows
branch_resources = sorted_set (where_rows (λ r. not (str_eq r "tenant")) resources)

abbrev pub sorted_configuration : List String
unfolding insert_names insert_name
sorted_configuration = sorted_set configuration_resources

abbrev pub commercial_role : RoleTemplate
commercial_role =
    template "COMMERCIAL" (("fr", "Commercial") ∷ ("en", "Commercial") ∷ []) commercial_grants

abbrev pub commercial_manager_role : RoleTemplate
commercial_manager_role =
    template "COMMERCIAL_MANAGER"
      (("fr", "Responsable commercial") ∷ ("en", "Commercial manager") ∷ [])
      (commercial_grants
        ++ (grant ("quote" ∷ []) ("approve" ∷ "sign" ∷ "cancel" ∷ []) "OWN_BRANCH" []
            ∷ grant ("contract" ∷ []) ("sign" ∷ "edit" ∷ []) "OWN_BRANCH" []
            ∷ grant ("order" ∷ []) ("edit" ∷ []) "OWN_BRANCH" ("commercial" ∷ [])
            ∷ grant asset_resources view_only "OWN_BRANCH" []
            ∷ []))

abbrev pub lab_reception_role : RoleTemplate
lab_reception_role =
    template "LAB_RECEPTION" (("fr", "Réception laboratoire") ∷ ("en", "Lab reception") ∷ []) (
      (grant ("account" ∷ "contact" ∷ "project" ∷ "order" ∷ []) view_only "OWN_BRANCH" []
        ∷ grant ("task" ∷ "work_item" ∷ []) view_create "OWN_BRANCH" []
        ∷ grant ("expected_intake" ∷ []) view_only "OWN_BRANCH" []
        ∷ grant ("intake" ∷ []) ("view" ∷ "create" ∷ "edit" ∷ "print" ∷ []) "OWN_BRANCH" []
        ∷ grant ("specimen" ∷ "sample" ∷ []) ("view" ∷ "create" ∷ "change_stage" ∷ "print" ∷ [])
            "OWN_BRANCH" []
        ∷ grant ("test_run" ∷ "report" ∷ []) view_only "OWN_BRANCH" []
        ∷ grant ("attachment" ∷ "comment" ∷ []) view_create "OWN_BRANCH" []
        ∷ []))

abbrev pub technician_role : RoleTemplate
technician_role = template "TECHNICIAN" (("fr", "Technicien") ∷ ("en", "Technician") ∷ []) (
    (grant ("project" ∷ []) view_only "OWN_DEPARTMENT" []
      ∷ grant ("task" ∷ "work_item" ∷ []) view_only "ASSIGNED_TO_ME" []
      ∷ grant ("expected_intake" ∷ "intake" ∷ "report" ∷ []) view_only "OWN_DEPARTMENT" []
      ∷ grant ("specimen" ∷ "sample" ∷ []) ("view" ∷ "change_stage" ∷ []) "OWN_DEPARTMENT" []
      ∷ grant ("test_run" ∷ []) ("view" ∷ "edit" ∷ []) "ASSIGNED_TO_ME" []
      ∷ grant ("measurement" ∷ []) ("view" ∷ "create" ∷ "edit" ∷ []) "ASSIGNED_TO_ME" []
      ∷ grant ("equipment" ∷ "stock" ∷ "consumable" ∷ []) view_only "OWN_DEPARTMENT" []
      ∷ grant ("work_order" ∷ []) view_only "ASSIGNED_TO_ME" []
      ∷ grant ("attachment" ∷ "comment" ∷ []) view_create "ASSIGNED_TO_ME" []
      ∷ []))

abbrev pub lab_supervisor_role : RoleTemplate
lab_supervisor_role =
    template "LAB_SUPERVISOR" (("fr", "Superviseur laboratoire") ∷ ("en", "Lab supervisor") ∷ []) (
      (grant ("account" ∷ "contact" ∷ "project" ∷ "order" ∷ []) view_only "OWN_DEPARTMENT" []
        ∷ grant ("task" ∷ "work_item" ∷ []) view_create "OWN_DEPARTMENT" []
        ∷ grant ("expected_intake" ∷ "intake" ∷ []) ("view" ∷ "create" ∷ "edit" ∷ "print" ∷ [])
            "OWN_DEPARTMENT" []
        ∷ grant ("specimen" ∷ "sample" ∷ [])
            ("view" ∷ "create" ∷ "edit" ∷ "change_stage" ∷ "print" ∷ []) "OWN_DEPARTMENT" []
        ∷ grant ("test_run" ∷ [])
            ("view" ∷ "create" ∷ "edit" ∷ "assign" ∷ "reassign" ∷ "cancel" ∷ "review_results"
              ∷ "override_computed_value" ∷ [])
            "OWN_DEPARTMENT" ("raw_measurements" ∷ [])
        ∷ grant ("measurement" ∷ []) ("view" ∷ "create" ∷ "edit" ∷ []) "OWN_DEPARTMENT" []
        ∷ grant ("report" ∷ [])
            ("view" ∷ "create" ∷ "edit" ∷ "issue" ∷ "print" ∷ "export" ∷ "cancel" ∷ [])
            "OWN_DEPARTMENT" ("raw_measurements" ∷ [])
        ∷ grant ("equipment" ∷ "stock" ∷ "consumable" ∷ []) view_only "OWN_DEPARTMENT" []
        ∷ grant ("work_order" ∷ []) ("view" ∷ "edit" ∷ []) "OWN_DEPARTMENT" []
        ∷ grant ("attachment" ∷ "comment" ∷ []) view_create "OWN_DEPARTMENT" []
        ∷ grant ("dashboard" ∷ []) view_only "OWN_DEPARTMENT" []
        ∷ []))

abbrev pub finance_role : RoleTemplate
finance_role = template "FINANCE" (("fr", "Finance") ∷ ("en", "Finance") ∷ []) (
    (grant ("account" ∷ []) view_only "OWN_BRANCH" ("financial" ∷ [])
      ∷ grant ("contact" ∷ []) view_only "OWN_BRANCH" []
      ∷ grant ("project" ∷ "task" ∷ "work_item" ∷ []) view_only "OWN_BRANCH" ("financial" ∷ [])
      ∷ grant ("quote" ∷ "quote_revision" ∷ "contract" ∷ "order" ∷ []) view_only "OWN_BRANCH" []
      ∷ grant ("invoice" ∷ "credit_note" ∷ [])
          ("view" ∷ "create" ∷ "edit" ∷ "issue" ∷ "cancel" ∷ "print" ∷ "export" ∷ []) "OWN_BRANCH"
          []
      ∷ grant ("payment" ∷ []) ("view" ∷ "create" ∷ "allocate_payment" ∷ "cancel" ∷ "print" ∷ [])
          "OWN_BRANCH" []
      ∷ grant ("treasury_account" ∷ "treasury_entry" ∷ []) view_create_edit "OWN_BRANCH" []
      ∷ grant asset_resources view_only "OWN_BRANCH" []
      ∷ grant ("attachment" ∷ "comment" ∷ []) view_create "OWN_BRANCH" []
      ∷ grant ("dashboard" ∷ []) view_only "OWN_BRANCH" []
      ∷ []))

abbrev pub assets_role : RoleTemplate
assets_role = template "ASSETS" (("fr", "Matériel et stocks") ∷ ("en", "Assets") ∷ []) (
    (grant ("account" ∷ "contact" ∷ "project" ∷ "task" ∷ "work_item" ∷ "order" ∷ []) view_only
        "OWN_BRANCH" []
      ∷ grant asset_resources all_actions "OWN_BRANCH" []
      ∷ grant ("attachment" ∷ "comment" ∷ []) view_create "OWN_BRANCH" []
      ∷ grant ("dashboard" ∷ []) view_only "OWN_BRANCH" []
      ∷ []))

abbrev pub branch_manager_role : RoleTemplate
branch_manager_role =
    template "BRANCH_MANAGER" (("fr", "Responsable d'agence") ∷ ("en", "Branch manager") ∷ []) (
      (grant branch_resources view_only "OWN_BRANCH" []
        ∷ grant ("project" ∷ "task" ∷ "work_item" ∷ []) view_only "OWN_BRANCH" commercial_groups
        ∷ grant ("account" ∷ []) view_only "OWN_BRANCH" ("financial" ∷ "client_contact" ∷ [])
        ∷ grant ("report" ∷ "test_run" ∷ []) view_only "OWN_BRANCH" ("raw_measurements" ∷ [])
        ∷ grant ("project" ∷ []) ("edit" ∷ []) "OWN_BRANCH" commercial_groups
        ∷ grant ("quote" ∷ "contract" ∷ "report" ∷ "invoice" ∷ [])
            ("approve" ∷ "sign" ∷ "issue" ∷ []) "OWN_BRANCH" []
        ∷ grant ("rental" ∷ "transfer" ∷ []) ("approve" ∷ []) "OWN_BRANCH" []
        ∷ grant ("work_order" ∷ []) ("edit" ∷ []) "OWN_BRANCH" []
        ∷ grant ("attachment" ∷ "comment" ∷ []) view_create "OWN_BRANCH" []
        ∷ grant ("dashboard" ∷ []) view_only "OWN_BRANCH" []
        ∷ grant ("export" ∷ []) ("export" ∷ []) "OWN_BRANCH" []
        ∷ []))

abbrev pub tenant_admin_role : RoleTemplate
tenant_admin_role =
    template "TENANT_ADMIN" (("fr", "Administrateur") ∷ ("en", "Tenant administrator") ∷ []) (
      (grant sorted_configuration ("view" ∷ "create" ∷ "edit" ∷ "configure" ∷ []) "ALL_BRANCHES" []
        ∷ grant ("user" ∷ []) ("view" ∷ "create" ∷ "edit" ∷ "delete" ∷ "configure" ∷ [])
            "ALL_BRANCHES" ("security" ∷ [])
        ∷ grant ("role" ∷ []) ("view" ∷ "create" ∷ "edit" ∷ "delete" ∷ "configure" ∷ [])
            "ALL_BRANCHES" []
        ∷ grant ("user" ∷ []) ("impersonate_view" ∷ []) "ALL_BRANCHES" []
        ∷ grant ("contact" ∷ []) view_create_edit "ALL_BRANCHES" []
        ∷ grant ("audit_event" ∷ []) view_only "ALL_BRANCHES" []
        ∷ grant ("dashboard" ∷ []) view_only "ALL_BRANCHES" []
        ∷ grant ("export" ∷ []) ("export" ∷ []) "ALL_BRANCHES" []
        ∷ []))

abbrev pub client_user_role : RoleTemplate
client_user_role =
    template "CLIENT_USER" (("fr", "Utilisateur client") ∷ ("en", "Client user") ∷ [])
      client_user_grants

abbrev pub client_admin_role : RoleTemplate
client_admin_role =
    template "CLIENT_ADMIN" (("fr", "Administrateur client") ∷ ("en", "Client admin") ∷ []) (
      client_user_grants
      ++ (grant ("contact" ∷ []) ("create" ∷ "edit" ∷ []) "OWN_ACCOUNT" []
          ∷ grant ("user" ∷ []) view_create_edit "OWN_ACCOUNT" []
          ∷ []))

abbrev pub default_roles : List RoleTemplate
default_roles =
    commercial_role ∷ commercial_manager_role ∷ lab_reception_role ∷ technician_role
    ∷ lab_supervisor_role ∷ finance_role ∷ assets_role ∷ branch_manager_role ∷ tenant_admin_role
    ∷ client_user_role ∷ client_admin_role ∷ []
