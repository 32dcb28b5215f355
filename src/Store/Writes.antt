-- ===== src/Store/Writes.antt =====
-- The writes themselves, on the case tables.
use saps_case_dockets.Prelude.{ℕ, some, [], ◌∷◌, ◌++◌, ◌==◌, update_where}
use saps_case_dockets.Schema.{
  World, CaseDb, Complaint, ComplaintStatus, ComplaintStatement, ComplaintDecision,
  RefusalEscalation, Docket, DocketApproval, CaseAssignment, DocketStatusHistory, InvestigationNote,
  EvidenceItem, EvidenceFile, EvidenceCustodyEvent,
}

abbrev pub with_cases : World → CaseDb → World
with_cases w c = record w { db = record w.db { cases = c } }

abbrev pub add_complaint : Complaint → CaseDb → CaseDb
add_complaint row c = record c { complaints = c.complaints ++ row ∷ [] }

abbrev pub change_complaint : ℕ → (Complaint → Complaint) → CaseDb → CaseDb
change_complaint id f c = record c { complaints = update_where (λ x. x.id == id) f c.complaints }

abbrev pub set_status : ComplaintStatus → Complaint → Complaint
set_status status c = record c { status = status }

abbrev pub reviewed_at : ℕ → Complaint → Complaint
reviewed_at now c = record c { status = ComplaintStatus.under_review; review_started_at = some now }

abbrev pub add_statement : ComplaintStatement → CaseDb → CaseDb
add_statement row c = record c { statements = c.statements ++ row ∷ [] }

abbrev pub add_decision : ComplaintDecision → CaseDb → CaseDb
add_decision row c = record c { decisions = c.decisions ++ row ∷ [] }

abbrev pub add_escalation : RefusalEscalation → CaseDb → CaseDb
add_escalation row c = record c { escalations = c.escalations ++ row ∷ [] }

abbrev pub change_escalation : ℕ → (RefusalEscalation → RefusalEscalation) → CaseDb → CaseDb
change_escalation id f c = record c { escalations = update_where (λ x. x.id == id) f c.escalations }

abbrev pub add_docket : Docket → CaseDb → CaseDb
add_docket row c = record c { dockets = c.dockets ++ row ∷ [] }

abbrev pub change_docket : ℕ → (Docket → Docket) → CaseDb → CaseDb
change_docket id f c = record c { dockets = update_where (λ x. x.id == id) f c.dockets }

abbrev pub add_approval : DocketApproval → CaseDb → CaseDb
add_approval row c = record c { approvals = c.approvals ++ row ∷ [] }

abbrev pub add_assignment : CaseAssignment → CaseDb → CaseDb
add_assignment row c = record c { assignments = c.assignments ++ row ∷ [] }

abbrev pub change_assignment : ℕ → (CaseAssignment → CaseAssignment) → CaseDb → CaseDb
change_assignment id f c = record c { assignments = update_where (λ x. x.id == id) f c.assignments }

abbrev pub add_history : DocketStatusHistory → CaseDb → CaseDb
add_history row c = record c { history = c.history ++ row ∷ [] }

abbrev pub add_note : InvestigationNote → CaseDb → CaseDb
add_note row c = record c { notes = c.notes ++ row ∷ [] }

abbrev pub add_item : EvidenceItem → CaseDb → CaseDb
add_item row c = record c { evidence_items = c.evidence_items ++ row ∷ [] }

abbrev pub change_item : ℕ → (EvidenceItem → EvidenceItem) → CaseDb → CaseDb
change_item id f c = record c { evidence_items = update_where (λ x. x.id == id) f c.evidence_items }

abbrev pub add_file : EvidenceFile → CaseDb → CaseDb
add_file row c = record c { evidence_files = c.evidence_files ++ row ∷ [] }

abbrev pub add_custody_event : EvidenceCustodyEvent → CaseDb → CaseDb
add_custody_event row c = record c { custody_events = c.custody_events ++ row ∷ [] }
