-- ===== src/Workflow/Defaults/Assets.antt =====
-- Default workflows (backend/mizan/apps/config/defaults/workflows.py):
-- outing, transfer, maintenance, work_order, phase. Each is the literal of the source, in its order.
use mizan_labs_v.Prelude.{true, false, none, some, [], ◌∷◌}
use mizan_labs_v.Workflow.{text}
use mizan_labs_v.Workflow.Install.{WorkflowSpec, s, t}

abbrev pub outing : WorkflowSpec
outing = record {
  kind = "OUTING";
  states =
      s "OPEN" "Ouverte" "Open" "blue" true false none
      ∷ s "PARTIALLY_RETURNED" "Partiellement retournée" "Partially returned" "amber" false false
          none
      ∷ s "CLOSED" "Clôturée" "Closed" "green" false true none
      ∷ [];
  transitions =
      t (some "OPEN") "PARTIALLY_RETURNED" "outing.edit" [] (text "stock_movement(OUTING_IN)" ∷ [])
        "Retour partiel" "Partial return"
      ∷ t (some "OPEN") "CLOSED" "outing.edit" [] (text "stock_movement(OUTING_IN)" ∷ []) "Clôturer"
          "Close"
      ∷ t (some "PARTIALLY_RETURNED") "CLOSED" "outing.edit" []
          (text "stock_movement(OUTING_IN)" ∷ []) "Clôturer" "Close"
      ∷ [];
}

abbrev pub transfer : WorkflowSpec
transfer = record {
  kind = "TRANSFER";
  states =
      s "DRAFT" "Brouillon" "Draft" "slate" true false none
      ∷ s "VALIDATED" "Validé" "Validated" "blue" false false none
      ∷ s "IN_TRANSIT" "En transit" "In transit" "violet" false false none
      ∷ s "RECEIVED" "Reçu" "Received" "green" false true none
      ∷ s "CANCELLED" "Annulé" "Cancelled" "gray" false true none
      ∷ [];
  transitions =
      t (some "DRAFT") "VALIDATED" "transfer.approve" (text "stock_available" ∷ []) [] "Valider"
        "Validate"
      ∷ t (some "VALIDATED") "IN_TRANSIT" "transfer.edit" []
          (text "stock_movement(TRANSFER_OUT)" ∷ text "emit(transfer.dispatched)" ∷ []) "Expédier"
          "Dispatch"
      ∷ t (some "IN_TRANSIT") "RECEIVED" "transfer.edit" []
          (text "stock_movement(TRANSFER_IN)" ∷ text "emit(transfer.received)" ∷ []) "Réceptionner"
          "Receive"
      ∷ t (some "DRAFT") "CANCELLED" "transfer.cancel" (text "reason_required" ∷ []) [] "Annuler"
          "Cancel"
      ∷ t (some "VALIDATED") "CANCELLED" "transfer.cancel" (text "reason_required" ∷ []) []
          "Annuler" "Cancel"
      ∷ [];
}

abbrev pub maintenance : WorkflowSpec
maintenance = record {
  kind = "MAINTENANCE";
  states =
      s "PLANNED" "Planifiée" "Planned" "slate" true false none
      ∷ s "IN_PROGRESS" "En cours" "In progress" "blue" false false none
      ∷ s "DONE" "Terminée" "Done" "green" false true none
      ∷ s "CANCELLED" "Annulée" "Cancelled" "gray" false true none
      ∷ [];
  transitions =
      t (some "PLANNED") "IN_PROGRESS" "maintenance.edit" [] [] "Démarrer" "Start"
      ∷ t (some "IN_PROGRESS") "DONE" "maintenance.edit" [] (text "emit(maintenance.done)" ∷ [])
          "Clôturer" "Close"
      ∷ t none "CANCELLED" "maintenance.cancel" (text "reason_required" ∷ []) [] "Annuler" "Cancel"
      ∷ [];
}

abbrev pub work_order : WorkflowSpec
work_order = record {
  kind = "WORK_ORDER";
  states =
      s "PLANNED" "Planifié" "Planned" "slate" true false none
      ∷ s "IN_PROGRESS" "En cours" "In progress" "blue" false false none
      ∷ s "LATE" "En retard" "Late" "red" false false none
      ∷ s "COMPLETED" "Terminé" "Completed" "green" false true none
      ∷ s "CANCELLED" "Annulé" "Cancelled" "gray" false true none
      ∷ [];
  transitions =
      t (some "PLANNED") "IN_PROGRESS" "system" [] [] "" ""
      ∷ t (some "IN_PROGRESS") "LATE" "system" []
          (text "notify(work_order_late)" ∷ text "emit(work_order.late)" ∷ []) "" ""
      ∷ t (some "IN_PROGRESS") "COMPLETED" "system" []
          (text "increment_delivered"
            ∷ text "make_milestone_invoiceable(ON_DELIVERY)"
            ∷ text "emit(work_order.completed)"
            ∷ [])
          "" ""
      ∷ t (some "LATE") "COMPLETED" "system" []
          (text "increment_delivered"
            ∷ text "make_milestone_invoiceable(ON_DELIVERY)"
            ∷ text "emit(work_order.completed)"
            ∷ [])
          "" ""
      ∷ t none "CANCELLED" "work_order.cancel" (text "reason_required" ∷ []) [] "Annuler" "Cancel"
      ∷ [];
}

abbrev pub phase : WorkflowSpec
phase = record {
  kind = "PHASE";
  states =
      s "PENDING" "À faire" "Pending" "slate" true false none
      ∷ s "IN_PROGRESS" "En cours" "In progress" "blue" false false none
      ∷ s "COMPLETED" "Terminée" "Completed" "green" false true none
      ∷ [];
  transitions =
      t (some "PENDING") "IN_PROGRESS" "work_order.edit" [] [] "Démarrer" "Start"
      ∷ t (some "IN_PROGRESS") "COMPLETED" "work_order.edit" [] (text "emit(phase.completed)" ∷ [])
          "Terminer" "Complete"
      ∷ [];
}
