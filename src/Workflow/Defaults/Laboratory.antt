-- ===== src/Workflow/Defaults/Laboratory.antt =====
-- Default workflows (backend/mizan/apps/config/defaults/workflows.py):
-- intake, test_run, report. Each is the literal of the source, in its order.
use mizan_labs_v.Prelude.{true, false, none, some, [], ◌∷◌}
use mizan_labs_v.Workflow.{text}
use mizan_labs_v.Workflow.Install.{WorkflowSpec, s, t}

abbrev pub test_run : WorkflowSpec
test_run = record {
  kind = "TEST_RUN";
  states =
      s "SCHEDULED" "Planifié" "Scheduled" "slate" true false none
      ∷ s "IN_PROGRESS" "En cours" "In progress" "blue" false false none
      ∷ s "MEASURED" "Mesuré" "Measured" "violet" false false none
      ∷ s "UNDER_REVIEW" "En revue" "Under review" "amber" false false none
      ∷ s "VALIDATED" "Validé" "Validated" "green" false false none
      ∷ s "REPORTED" "Rapporté" "Reported" "green" false true none
      ∷ s "CANCELLED" "Annulé" "Cancelled" "gray" false true none
      ∷ [];
  transitions =
      t (some "SCHEDULED") "IN_PROGRESS" "test_run.edit" (text "assigned_or_can_assign" ∷ [])
        (text "emit(test_run.started)" ∷ []) "Démarrer" "Start"
      ∷ t (some "IN_PROGRESS") "MEASURED" "test_run.edit"
          (text "all_measurements_present" ∷ text "no_rule_blocking" ∷ [])
          (text "notify(supervisor_measured)" ∷ text "emit(test_run.measured)" ∷ [])
          "Marquer mesuré" "Mark measured"
      ∷ t (some "MEASURED") "UNDER_REVIEW" "test_run.review_results"
          (text "actor_is_not_entrant" ∷ []) [] "Prendre en revue" "Review"
      ∷ t (some "UNDER_REVIEW") "VALIDATED" "test_run.review_results" []
          (text "emit(test_run.validated)" ∷ []) "Valider" "Validate"
      ∷ t (some "UNDER_REVIEW") "IN_PROGRESS" "test_run.review_results"
          (text "reason_required" ∷ []) (text "notify(technician_returned)" ∷ [])
          "Renvoyer au technicien" "Return to technician"
      ∷ t (some "VALIDATED") "REPORTED" "system" []
          (text "increment_delivered" ∷ text "close_parent_if_complete" ∷ []) "" ""
      ∷ t none "CANCELLED" "test_run.cancel" (text "reason_required" ∷ [])
          (text "release_specimens" ∷ text "emit(test_run.cancelled)" ∷ []) "Annuler" "Cancel"
      ∷ [];
}

abbrev pub report : WorkflowSpec
report = record {
  kind = "REPORT";
  states =
      s "DRAFT" "Brouillon" "Draft" "slate" true false none
      ∷ s "ISSUED" "Émis" "Issued" "green" false false none
      ∷ s "SUPERSEDED" "Remplacé" "Superseded" "gray" false true none
      ∷ s "REVOKED" "Révoqué" "Revoked" "red" false true none
      ∷ [];
  transitions =
      t (some "DRAFT") "ISSUED" "report.issue"
        (text "all_runs_validated" ∷ text "signatory_authorised" ∷ [])
        (text "allocate_number"
          ∷ text "issue_document(REPORT)"
          ∷ text "notify(client_report_issued)"
          ∷ text "make_milestone_invoiceable(ON_REPORT)"
          ∷ text "emit(report.issued)"
          ∷ [])
        "Émettre" "Issue"
      ∷ t (some "ISSUED") "SUPERSEDED" "system" []
          (text "update_document_status(SUPERSEDED)"
            ∷ text "notify(client_report_superseded)"
            ∷ text "emit(report.superseded)"
            ∷ [])
          "" ""
      ∷ t (some "ISSUED") "REVOKED" "report.cancel" (text "reason_required" ∷ [])
          (text "update_document_status(REVOKED)"
            ∷ text "notify(client_report_revoked)"
            ∷ text "decrement_delivered"
            ∷ text "emit(report.revoked)"
            ∷ [])
          "Révoquer" "Revoke"
      ∷ [];
}

abbrev pub intake : WorkflowSpec
intake = record {
  kind = "INTAKE";
  states =
      s "REGISTERED" "Enregistrée" "Registered" "blue" true false none
      ∷ s "PARTIALLY_PROCESSED" "Partiellement traitée" "Partially processed" "amber" false false
          none
      ∷ s "PROCESSED" "Traitée" "Processed" "green" false true none
      ∷ s "CANCELLED" "Annulée" "Cancelled" "gray" false true none
      ∷ [];
  transitions =
      t (some "REGISTERED") "PARTIALLY_PROCESSED" "system" [] [] "" ""
      ∷ t (some "PARTIALLY_PROCESSED") "PROCESSED" "system"
          (text "all_runs_of_intake_reported" ∷ []) [] "" ""
      ∷ t (some "REGISTERED") "PROCESSED" "system" (text "all_runs_of_intake_reported" ∷ []) [] ""
          ""
      ∷ t (some "REGISTERED") "CANCELLED" "intake.cancel"
          (text "reason_required" ∷ text "all_measurements_present" ∷ []) [] "Annuler" "Cancel"
      ∷ [];
}
