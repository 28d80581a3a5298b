-- ===== src/Workflow/Defaults/Commercial.antt =====
-- Default workflows (backend/mizan/apps/config/defaults/workflows.py):
-- project, account, quote, contract, order. Each is the literal of the source, in its order.
use mizan_labs_v.Prelude.{true, false, none, some, [], ◌∷◌}
use mizan_labs_v.Workflow.{text}
use mizan_labs_v.Workflow.Install.{WorkflowSpec, s, t}

abbrev pub quote : WorkflowSpec
quote = record {
  kind = "QUOTE";
  states =
      s "DRAFT" "Brouillon" "Draft" "slate" true false none
      ∷ s "PENDING_APPROVAL" "En attente d'approbation" "Pending approval" "amber" false false none
      ∷ s "SENT" "Envoyé" "Sent" "blue" false false (some 15)
      ∷ s "NEGOTIATING" "En négociation" "Negotiating" "violet" false false none
      ∷ s "ACCEPTED" "Accepté" "Accepted" "green" false true none
      ∷ s "REFUSED" "Refusé" "Refused" "red" false true none
      ∷ s "SUSPENDED" "Suspendu" "Suspended" "orange" false false none
      ∷ s "EXPIRED" "Expiré" "Expired" "gray" false true none
      ∷ s "CANCELLED" "Annulé" "Cancelled" "gray" false true none
      ∷ [];
  transitions =
      t (some "DRAFT") "PENDING_APPROVAL" "quote.submit"
        (text "has_billable_lines"
          ∷ text "totals_computed"
          ∷ text "not discount_within_threshold"
          ∷ [])
        (text "notify(approvers)" ∷ text "emit(quote.approval_requested)" ∷ [])
        "Soumettre pour approbation" "Submit for approval"
      ∷ t (some "DRAFT") "SENT" "quote.submit"
          (text "has_billable_lines"
            ∷ text "totals_computed"
            ∷ text "discount_within_threshold"
            ∷ [])
          (text "freeze_revision"
            ∷ text "allocate_number"
            ∷ text "issue_document(QUOTE)"
            ∷ text "notify(client_quote_sent)"
            ∷ text "emit(quote.sent)"
            ∷ [])
          "Envoyer" "Send"
      ∷ t (some "PENDING_APPROVAL") "SENT" "quote.approve" (text "signatory_authorised" ∷ [])
          (text "freeze_revision"
            ∷ text "allocate_number"
            ∷ text "issue_document(QUOTE)"
            ∷ text "notify(client_quote_sent)"
            ∷ text "emit(quote.approved)"
            ∷ text "emit(quote.sent)"
            ∷ [])
          "Approuver et envoyer" "Approve and send"
      ∷ t (some "PENDING_APPROVAL") "DRAFT" "quote.edit" [] [] "Reprendre" "Back to draft"
      ∷ t (some "SENT") "NEGOTIATING" "quote.edit" [] (text "emit(quote.negotiating)" ∷ [])
          "Marquer en négociation" "Mark negotiating"
      ∷ t (some "SENT") "DRAFT" "quote.edit" [] (text "create_next_revision_on_edit" ∷ [])
          "Nouvelle révision" "New revision"
      ∷ t (some "NEGOTIATING") "DRAFT" "quote.edit" [] (text "create_next_revision_on_edit" ∷ [])
          "Nouvelle révision" "New revision"
      ∷ t (some "SENT") "ACCEPTED" "quote.approve" (text "acceptance_evidence_attached" ∷ [])
          (text "create_order"
            ∷ text "provision_work"
            ∷ text "make_milestone_invoiceable(ON_ACCEPTANCE)"
            ∷ text "notify(internal_accepted)"
            ∷ text "emit(quote.accepted)"
            ∷ [])
          "Accepter" "Accept"
      ∷ t (some "NEGOTIATING") "ACCEPTED" "quote.approve" (text "acceptance_evidence_attached" ∷ [])
          (text "create_order"
            ∷ text "provision_work"
            ∷ text "make_milestone_invoiceable(ON_ACCEPTANCE)"
            ∷ text "notify(internal_accepted)"
            ∷ text "emit(quote.accepted)"
            ∷ [])
          "Accepter" "Accept"
      ∷ t (some "SENT") "REFUSED" "quote.cancel" (text "reason_required" ∷ [])
          (text "notify(internal_refused)" ∷ text "emit(quote.refused)" ∷ []) "Marquer refusé"
          "Mark refused"
      ∷ t (some "NEGOTIATING") "REFUSED" "quote.cancel" (text "reason_required" ∷ [])
          (text "notify(internal_refused)" ∷ text "emit(quote.refused)" ∷ []) "Marquer refusé"
          "Mark refused"
      ∷ t (some "SENT") "SUSPENDED" "quote.edit" (text "reason_required" ∷ [])
          (text "emit(quote.suspended)" ∷ []) "Suspendre" "Suspend"
      ∷ t (some "NEGOTIATING") "SUSPENDED" "quote.edit" (text "reason_required" ∷ [])
          (text "emit(quote.suspended)" ∷ []) "Suspendre" "Suspend"
      ∷ t (some "SUSPENDED") "NEGOTIATING" "quote.edit" [] [] "Reprendre la négociation"
          "Resume negotiation"
      ∷ t (some "SENT") "EXPIRED" "system" (text "validity_elapsed" ∷ [])
          (text "notify(owner_expired)" ∷ text "emit(quote.expired)" ∷ []) "" ""
      ∷ t none "CANCELLED" "quote.cancel" (text "reason_required" ∷ [])
          (text "release_stock" ∷ text "emit(quote.cancelled)" ∷ []) "Annuler" "Cancel"
      ∷ [];
}

abbrev pub project : WorkflowSpec
project = record {
  kind = "PROJECT";
  states =
      s "OPEN" "Ouvert" "Open" "blue" true false none
      ∷ s "ON_HOLD" "En pause" "On hold" "amber" false false none
      ∷ s "CLOSED" "Clôturé" "Closed" "green" false true none
      ∷ s "CANCELLED" "Annulé" "Cancelled" "gray" false true none
      ∷ [];
  transitions =
      t (some "OPEN") "ON_HOLD" "project.edit" (text "reason_required" ∷ []) [] "Mettre en pause"
        "Put on hold"
      ∷ t (some "ON_HOLD") "OPEN" "project.edit" [] [] "Reprendre" "Resume"
      ∷ t (some "OPEN") "CLOSED" "project.edit" (text "no_open_children" ∷ [])
          (text "emit(project.closed)" ∷ []) "Clôturer" "Close"
      ∷ t none "CANCELLED" "project.cancel" (text "reason_required" ∷ []) [] "Annuler" "Cancel"
      ∷ [];
}

abbrev pub account : WorkflowSpec
account = record {
  kind = "ACCOUNT";
  states =
      s "ACTIVE" "Actif" "Active" "green" true false none
      ∷ s "INACTIVE" "Inactif" "Inactive" "gray" false false none
      ∷ s "BLOCKED" "Bloqué" "Blocked" "red" false false none
      ∷ [];
  transitions =
      t (some "ACTIVE") "INACTIVE" "account.edit" [] [] "Désactiver" "Deactivate"
      ∷ t (some "INACTIVE") "ACTIVE" "account.edit" [] [] "Réactiver" "Reactivate"
      ∷ t (some "ACTIVE") "BLOCKED" "account.edit" (text "reason_required" ∷ []) [] "Bloquer"
          "Block"
      ∷ t (some "BLOCKED") "ACTIVE" "account.edit" [] [] "Débloquer" "Unblock"
      ∷ [];
}

abbrev pub contract : WorkflowSpec
contract = record {
  kind = "CONTRACT";
  states =
      s "DRAFT" "Brouillon" "Draft" "slate" true false none
      ∷ s "SENT_FOR_SIGNATURE" "Envoyé pour signature" "Sent for signature" "blue" false false none
      ∷ s "SIGNED" "Signé" "Signed" "green" false true none
      ∷ s "CANCELLED" "Annulé" "Cancelled" "gray" false true none
      ∷ [];
  transitions =
      t (some "DRAFT") "SENT_FOR_SIGNATURE" "contract.submit" []
        (text "request_signature" ∷ text "emit(contract.sent)" ∷ []) "Envoyer pour signature"
        "Send for signature"
      ∷ t (some "SENT_FOR_SIGNATURE") "SIGNED" "contract.sign"
          (text "acceptance_evidence_attached" ∷ [])
          (text "issue_document(CONTRACT)" ∷ text "emit(contract.signed)" ∷ [])
          "Enregistrer la signature" "Record signature"
      ∷ t none "CANCELLED" "contract.cancel" (text "reason_required" ∷ []) [] "Annuler" "Cancel"
      ∷ [];
}

abbrev pub order : WorkflowSpec
order = record {
  kind = "ORDER";
  states =
      s "OPEN" "Ouverte" "Open" "blue" true false none
      ∷ s "AMENDED" "Amendée" "Amended" "violet" false false none
      ∷ s "COMPLETED" "Terminée" "Completed" "green" false true none
      ∷ s "CANCELLED" "Annulée" "Cancelled" "gray" false true none
      ∷ [];
  transitions =
      t (some "OPEN") "AMENDED" "system" [] (text "emit(order.amended)" ∷ []) "" ""
      ∷ t (some "AMENDED") "COMPLETED" "system" (text "no_open_children" ∷ [])
          (text "emit(order.completed)" ∷ []) "" ""
      ∷ t (some "OPEN") "COMPLETED" "system" (text "no_open_children" ∷ [])
          (text "emit(order.completed)" ∷ []) "" ""
      ∷ t none "CANCELLED" "order.cancel" (text "reason_required" ∷ []) (text "release_stock" ∷ [])
          "Annuler" "Cancel"
      ∷ [];
}
