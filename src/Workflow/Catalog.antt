-- ===== src/Workflow/Catalog.antt =====
-- The constants of backend/mizan/apps/config/workflows.py: the semantics of each kind of record, and
-- the guards and effects that a transition may name.
use mizan_labs_v.Prelude.{
  String, Bool, Option, none, some, List, [], ◌∷◌, str_eq, if◌then◌else◌, any,
}

-- SEMANTICS.get(kind)
unfoldable pub semantics_of : String → Option (List String)
semantics_of kind =
    if str_eq kind "PROJECT"
    then some ("OPEN" ∷ "ON_HOLD" ∷ "CLOSED" ∷ "CANCELLED" ∷ [])
    else if str_eq kind "ACCOUNT"
    then some ("ACTIVE" ∷ "INACTIVE" ∷ "BLOCKED" ∷ [])
    else if str_eq kind "QUOTE"
    then some (
        "DRAFT" ∷ "PENDING_APPROVAL" ∷ "SENT" ∷ "NEGOTIATING" ∷ "ACCEPTED" ∷ "REFUSED" ∷ "SUSPENDED"
        ∷ "EXPIRED" ∷ "CANCELLED" ∷ [])
    else if str_eq kind "CONTRACT"
    then some ("DRAFT" ∷ "SENT_FOR_SIGNATURE" ∷ "SIGNED" ∷ "CANCELLED" ∷ [])
    else if str_eq kind "ORDER"
    then some ("OPEN" ∷ "AMENDED" ∷ "COMPLETED" ∷ "CANCELLED" ∷ [])
    else if str_eq kind "INTAKE"
    then some ("REGISTERED" ∷ "PARTIALLY_PROCESSED" ∷ "PROCESSED" ∷ "CANCELLED" ∷ [])
    else if str_eq kind "TEST_RUN"
    then some (
        "SCHEDULED" ∷ "IN_PROGRESS" ∷ "MEASURED" ∷ "UNDER_REVIEW" ∷ "VALIDATED" ∷ "REPORTED"
        ∷ "CANCELLED" ∷ [])
    else if str_eq kind "REPORT"
    then some ("DRAFT" ∷ "ISSUED" ∷ "SUPERSEDED" ∷ "REVOKED" ∷ [])
    else if str_eq kind "INVOICE"
    then some ("DRAFT" ∷ "ISSUED" ∷ "CANCELLED" ∷ [])
    else if str_eq kind "PAYMENT"
    then some ("RECORDED" ∷ "REVERSED" ∷ [])
    else if str_eq kind "RENTAL"
    then some ("RESERVED" ∷ "ACTIVE" ∷ "RETURNED" ∷ "LATE" ∷ "CLOSED" ∷ "CANCELLED" ∷ [])
    else if str_eq kind "SALE"
    then some ("RESERVED" ∷ "DELIVERED" ∷ "CANCELLED" ∷ [])
    else if str_eq kind "OUTING"
    then some ("OPEN" ∷ "PARTIALLY_RETURNED" ∷ "CLOSED" ∷ [])
    else if str_eq kind "TRANSFER"
    then some ("DRAFT" ∷ "VALIDATED" ∷ "IN_TRANSIT" ∷ "RECEIVED" ∷ "CANCELLED" ∷ [])
    else if str_eq kind "MAINTENANCE"
    then some ("PLANNED" ∷ "IN_PROGRESS" ∷ "DONE" ∷ "CANCELLED" ∷ [])
    else if str_eq kind "WORK_ORDER"
    then some ("PLANNED" ∷ "IN_PROGRESS" ∷ "LATE" ∷ "COMPLETED" ∷ "CANCELLED" ∷ [])
    else if str_eq kind "PHASE"
    then some ("PENDING" ∷ "IN_PROGRESS" ∷ "COMPLETED" ∷ [])
    else none

unfoldable pub known_guards : List String
known_guards =
    "has_billable_lines" ∷ "totals_computed" ∷ "discount_within_threshold"
    ∷ "acceptance_evidence_attached" ∷ "actor_is_not_entrant" ∷ "all_runs_of_intake_reported"
    ∷ "all_measurements_present" ∷ "no_rule_blocking" ∷ "stock_available" ∷ "no_open_children"
    ∷ "signatory_authorised" ∷ "invoice_has_lines" ∷ "payment_fully_allocated" ∷ "reason_required"
    ∷ "all_runs_validated" ∷ "validity_elapsed" ∷ "condition_recorded" ∷ "penalties_settled"
    ∷ "assigned_or_can_assign" ∷ []

unfoldable pub known_effects : List String
known_effects =
    "freeze_revision" ∷ "create_next_revision_on_edit" ∷ "create_order" ∷ "provision_work"
    ∷ "notify" ∷ "make_milestone_invoiceable" ∷ "reserve_stock" ∷ "release_stock"
    ∷ "request_signature" ∷ "issue_document" ∷ "increment_delivered" ∷ "decrement_delivered"
    ∷ "close_parent_if_complete" ∷ "allocate_number" ∷ "emit" ∷ "release_specimens"
    ∷ "stock_movement" ∷ "compute_penalty" ∷ "update_document_status" ∷ []

-- The Python test `name in names`.
abbrev pub contains : List String → String → Bool
contains names name = any (λ n. str_eq n name) names
