-- ===== src/Workflow/Defaults/Finance.antt =====
-- Default workflows (backend/mizan/apps/config/defaults/workflows.py):
-- invoice, payment, rental, sale. Each is the literal of the source, in its order.
use mizan_labs_v.Prelude.{true, false, none, some, [], ◌∷◌}
use mizan_labs_v.Workflow.{text}
use mizan_labs_v.Workflow.Install.{WorkflowSpec, s, t}

abbrev pub invoice : WorkflowSpec
invoice = record {
  kind = "INVOICE";
  states =
      s "DRAFT" "Brouillon" "Draft" "slate" true false none
      ∷ s "ISSUED" "Émise" "Issued" "green" false true none
      ∷ s "CANCELLED" "Annulée" "Cancelled" "gray" false true none
      ∷ [];
  transitions =
      t (some "DRAFT") "ISSUED" "invoice.issue" (text "invoice_has_lines" ∷ [])
        (text "allocate_number"
          ∷ text "issue_document(INVOICE)"
          ∷ text "notify(client_invoice_issued)"
          ∷ text "emit(invoice.issued)"
          ∷ [])
        "Émettre" "Issue"
      ∷ t (some "DRAFT") "CANCELLED" "invoice.cancel" [] [] "Annuler" "Cancel"
      ∷ [];
}

abbrev pub payment : WorkflowSpec
payment = record {
  kind = "PAYMENT";
  states =
      s "RECORDED" "Enregistré" "Recorded" "green" true false none
      ∷ s "REVERSED" "Annulé" "Reversed" "red" false true none
      ∷ [];
  transitions =
      t (some "RECORDED") "REVERSED" "payment.cancel" (text "reason_required" ∷ [])
        (text "emit(payment.reversed)" ∷ []) "Annuler le paiement" "Reverse"
      ∷ [];
}

abbrev pub rental : WorkflowSpec
rental = record {
  kind = "RENTAL";
  states =
      s "RESERVED" "Réservée" "Reserved" "slate" true false none
      ∷ s "ACTIVE" "En cours" "Active" "blue" false false none
      ∷ s "LATE" "En retard" "Late" "red" false false none
      ∷ s "RETURNED" "Retournée" "Returned" "amber" false false none
      ∷ s "CLOSED" "Clôturée" "Closed" "green" false true none
      ∷ s "CANCELLED" "Annulée" "Cancelled" "gray" false true none
      ∷ [];
  transitions =
      t (some "RESERVED") "ACTIVE" "rental.edit" (text "stock_available" ∷ [])
        (text "stock_movement(RENTAL_OUT)"
          ∷ text "issue_document(RENTAL_NOTE)"
          ∷ text "emit(rental.started)"
          ∷ [])
        "Remettre" "Hand over"
      ∷ t (some "ACTIVE") "LATE" "system" []
          (text "notify(rental_late)" ∷ text "emit(rental.late)" ∷ []) "" ""
      ∷ t (some "ACTIVE") "RETURNED" "rental.edit" (text "condition_recorded" ∷ [])
          (text "stock_movement(RENTAL_IN)"
            ∷ text "compute_penalty"
            ∷ text "emit(rental.returned)"
            ∷ [])
          "Retour" "Return"
      ∷ t (some "LATE") "RETURNED" "rental.edit" (text "condition_recorded" ∷ [])
          (text "stock_movement(RENTAL_IN)"
            ∷ text "compute_penalty"
            ∷ text "emit(rental.returned)"
            ∷ [])
          "Retour" "Return"
      ∷ t (some "RETURNED") "CLOSED" "rental.edit" (text "penalties_settled" ∷ []) [] "Clôturer"
          "Close"
      ∷ t (some "RESERVED") "CANCELLED" "rental.cancel" (text "reason_required" ∷ [])
          (text "release_stock" ∷ []) "Annuler" "Cancel"
      ∷ [];
}

abbrev pub sale : WorkflowSpec
sale = record {
  kind = "SALE";
  states =
      s "RESERVED" "Réservée" "Reserved" "slate" true false none
      ∷ s "DELIVERED" "Livrée" "Delivered" "green" false true none
      ∷ s "CANCELLED" "Annulée" "Cancelled" "gray" false true none
      ∷ [];
  transitions =
      t (some "RESERVED") "DELIVERED" "sale.edit" (text "stock_available" ∷ [])
        (text "stock_movement(SALE)" ∷ text "issue_document(SALE_NOTE)" ∷ []) "Livrer" "Deliver"
      ∷ t (some "RESERVED") "CANCELLED" "sale.cancel" (text "reason_required" ∷ [])
          (text "release_stock" ∷ []) "Annuler" "Cancel"
      ∷ [];
}
