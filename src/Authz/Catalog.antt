-- ===== src/Authz/Catalog.antt =====
-- The permission catalogue (backend/mizan/platform/authz/catalog.py): what a grant may name. A frozenset
-- is the list of its members.
use mizan_labs_v.Prelude.{String, Bool, List, [], ◌∷◌, str_eq, if◌then◌else◌, any, all}

abbrev pub resources : List String
resources =
    "tenant" ∷ "branch" ∷ "department" ∷ "user" ∷ "role" ∷ "numbering_scheme" ∷ "vocabulary"
    ∷ "workflow" ∷ "service_category" ∷ "service" ∷ "test_definition" ∷ "specimen_type"
    ∷ "sieve_set" ∷ "price_list" ∷ "tax_rule" ∷ "document_template" ∷ "notification_rule"
    ∷ "integration" ∷ "account" ∷ "contact" ∷ "project" ∷ "task" ∷ "work_item" ∷ "quote"
    ∷ "quote_revision" ∷ "acceptance" ∷ "contract" ∷ "order" ∷ "expected_intake" ∷ "intake"
    ∷ "specimen" ∷ "sample" ∷ "test_run" ∷ "measurement" ∷ "report" ∷ "invoice" ∷ "credit_note"
    ∷ "payment" ∷ "treasury_account" ∷ "treasury_entry" ∷ "equipment" ∷ "stock" ∷ "consumable"
    ∷ "rental" ∷ "sale" ∷ "outing" ∷ "transfer" ∷ "maintenance" ∷ "vehicle" ∷ "fleet_document"
    ∷ "phase_template" ∷ "work_order" ∷ "attachment" ∷ "comment" ∷ "audit_event" ∷ "dashboard"
    ∷ "export" ∷ "payment_terms_template" ∷ "signatory" ∷ []

abbrev pub actions : List String
actions =
    "view" ∷ "create" ∷ "edit" ∷ "delete" ∷ "submit" ∷ "approve" ∷ "issue" ∷ "sign" ∷ "cancel"
    ∷ "export" ∷ "print" ∷ "configure" ∷ "assign" ∷ "reassign" ∷ "change_stage" ∷ "review_results"
    ∷ "override_computed_value" ∷ "allocate_payment" ∷ "unlock_revision" ∷ "impersonate_view" ∷ []

abbrev pub scopes : List String
scopes =
    "ALL_BRANCHES" ∷ "OWN_BRANCH" ∷ "OWN_DEPARTMENT" ∷ "ASSIGNED_TO_ME" ∷ "OWN_RECORDS"
    ∷ "OWN_ACCOUNT" ∷ []

abbrev pub configuration_resources : List String
configuration_resources =
    "tenant" ∷ "branch" ∷ "department" ∷ "numbering_scheme" ∷ "vocabulary" ∷ "workflow"
    ∷ "service_category" ∷ "service" ∷ "test_definition" ∷ "specimen_type" ∷ "sieve_set"
    ∷ "price_list" ∷ "tax_rule" ∷ "document_template" ∷ "notification_rule" ∷ "integration"
    ∷ "phase_template" ∷ "treasury_account" ∷ "payment_terms_template" ∷ "signatory" ∷ []

abbrev pub step_up_actions : List String
step_up_actions = "issue" ∷ "sign" ∷ "configure" ∷ "allocate_payment" ∷ []

abbrev pub field_groups : List (String × List String)
field_groups =
    ("project", "commercial" ∷ "financial" ∷ "client_contact" ∷ [])
    ∷ ("work_item", "commercial" ∷ "financial" ∷ "client_contact" ∷ [])
    ∷ ("task", "commercial" ∷ "financial" ∷ "client_contact" ∷ [])
    ∷ ("order", "commercial" ∷ [])
    ∷ ("report", "raw_measurements" ∷ [])
    ∷ ("test_run", "raw_measurements" ∷ [])
    ∷ ("user", "security" ∷ [])
    ∷ ("account", "financial" ∷ "client_contact" ∷ [])
    ∷ []

pub data GrantError : Type 0 where
  unknown_resource unknown_action unknown_scope unknown_groups : GrantError

pub data Checked (A : Type 0) : Type 0 where
  valid : A → Checked A
  invalid : GrantError → Checked A

-- name in the list
abbrev pub one_of : List String → String → Bool
one_of names name = any (λ n. str_eq n name) names

-- FIELD_GROUPS.get(resource, frozenset())
abbrev pub groups_in : String → List (String × List String) → List String
groups_in resource [] = []
groups_in resource ((r, gs) ∷ more) = if str_eq r resource then gs else groups_in resource more

unfoldable pub validate_grant : String → String → String → List String → Checked (Unit {0})
validate_grant resource action scope groups =
    if one_of resources resource
    then (if one_of actions action
        then (if one_of scopes scope
            then (if all (one_of (groups_in resource field_groups)) groups
                then valid tt
                else invalid unknown_groups)
            else invalid unknown_scope)
        else invalid unknown_action)
    else invalid unknown_resource
