-- ===== src/Store.antt =====
-- Writes to the case tables, with what the schema itself enforces on them: primary and unique keys,
-- check constraints (app/modules/*/models.py) and the integrity triggers of the migrations
-- 53b49290f8f4 and fd1a582b8271. A write that breaks one raises the database's error. SQLAlchemy
-- sends a pending row at the next flush or query of the transaction; here it is checked when added.
pub mod Writes
pub mod Effects
use saps_case_dockets.Prelude.{
  ℕ, Bool, true, false, not, ◌&&◌, ◌||◌, Option, none, some, List, [], ◌∷◌, ◌++◌, ◌==◌, is_none,
  is_some, ltb, if◌then◌else◌, first_where, exists_where, update_where,
}
use Writes.{
  with_cases, change_complaint, set_status, add_decision, add_escalation, change_escalation,
  add_docket, change_docket, add_approval, add_assignment, add_history, add_note, add_item,
  change_item, add_custody_event, reviewed_at,
}
use saps_case_dockets.Text.{text_eq}
use saps_case_dockets.Schema.{
  CaseDb, World, Complaint, ComplaintStatus, ComplaintDecision, Verdict, RefusalEscalation, Docket,
  DocketStatus, DocketApproval, CaseAssignment, DocketStatusHistory, InvestigationNote,
  EvidenceItem, EvidenceCustodyEvent, same_target, same_docket_status,
}
use saps_case_dockets.Tx.{Tx, ok, err, sql, put_cases, ◌>>=◌, ◌>>◌}

-- a key, a check or a trigger that the schema puts on a write
unfoldable pub check : (CaseDb → Bool) → Tx (Unit {0})
check holds w = (if holds w.cases then ok tt else err sql, w)

-- `status IN ('ACCEPTED', 'DOCKET_CREATED')`
abbrev pub is_accepted_status : ComplaintStatus → Bool
is_accepted_status ComplaintStatus.accepted = true
is_accepted_status ComplaintStatus.docket_created = true
is_accepted_status _ = false

abbrev pub is_acceptance : Verdict → Bool
is_acceptance Verdict.accepted = true
is_acceptance Verdict.refused = false

abbrev pub status_is_accepted : Option Complaint → Bool
status_is_accepted none = false
status_is_accepted (some c) = is_accepted_status c.status

-- `validate_docket_acceptance`
unfoldable pub docket_is_accepted : CaseDb → Docket → Bool
docket_is_accepted cases row =
    status_is_accepted (first_where (λ c. c.id == row.complaint_id) cases.complaints)
    && exists_where
        (λ d.
          d.id == row.created_from_decision_id
          && d.complaint_id == row.complaint_id
          && is_acceptance d.decision)
        cases.decisions

-- the unique columns of `dockets`
abbrev pub clashes : Docket → Docket → Bool
clashes row d =
    d.id == row.id || d.complaint_id == row.complaint_id || text_eq d.cas_number row.cas_number

unfoldable pub insert_docket : Docket → Tx (Unit {0})
unfolding docket_is_accepted
insert_docket row = do
  check (λ cases. not (exists_where (clashes row) cases.dockets))
  check (λ cases. docket_is_accepted cases row)
  put_cases (λ w. add_docket row w.cases)

abbrev pub is_docket : ℕ → Docket → Bool
is_docket id d = d.id == id

-- `UPDATE dockets` of the row that a handler holds, given as it was and as it will be
unfoldable pub update_docket : Docket → (Docket → Docket) → Tx (Unit {0})
unfolding docket_is_accepted
update_docket row f = do
  check (λ cases. docket_is_accepted cases (f row))
  put_cases (λ w. change_docket row.id f w.cases)

abbrev pub is_complaint : ℕ → Complaint → Bool
is_complaint id c = c.id == id

-- `UPDATE OF status ON complaints`, guarded by `protect_docket_complaint_status`
unfoldable pub update_complaint_status : ℕ → ComplaintStatus → Tx (Unit {0})
update_complaint_status id status = do
  check (λ cases.
      is_accepted_status status || not (exists_where (λ d. d.complaint_id == id) cases.dockets))
  put_cases (λ w. change_complaint id (set_status status) w.cases)

-- the check `(decision = 'ACCEPTED' AND reason IS NULL) OR (decision = 'REFUSED' AND reason IS NOT NULL)`
abbrev pub reason_fits : Verdict → Option ℕ → Bool
reason_fits Verdict.accepted reason = is_none reason
reason_fits Verdict.refused reason = is_some reason

-- the keys
abbrev pub decision_clashes : ComplaintDecision → ComplaintDecision → Bool
decision_clashes row x =
    x.id == row.id
    || (x.complaint_id == row.complaint_id && x.decision_sequence == row.decision_sequence)

unfoldable pub insert_decision : ComplaintDecision → Tx (Unit {0})
insert_decision row = do
  check (λ cases. not (exists_where (decision_clashes row) cases.decisions))
  check (λ _. reason_fits row.decision row.refusal_reason_id)
  check (λ _. ltb 0 row.decision_sequence)
  put_cases (λ w. add_decision row w.cases)

-- `validate_refusal_escalation`
unfoldable pub escalates_refusal : CaseDb → RefusalEscalation → Bool
escalates_refusal cases row =
    exists_where
      (λ d.
        d.id == row.complaint_decision_id
        && d.complaint_id == row.complaint_id
        && not (is_acceptance d.decision))
      cases.decisions

-- the keys
abbrev pub escalation_clashes : RefusalEscalation → RefusalEscalation → Bool
escalation_clashes row x =
    x.id == row.id
    || (x.complaint_decision_id == row.complaint_decision_id && same_target x.target row.target)

unfoldable pub insert_escalation : RefusalEscalation → Tx (Unit {0})
unfolding escalates_refusal
insert_escalation row = do
  check (λ cases. not (exists_where (escalation_clashes row) cases.escalations))
  check (λ cases. escalates_refusal cases row)
  put_cases (λ w. add_escalation row w.cases)

unfoldable pub update_escalation :
    RefusalEscalation → (RefusalEscalation → RefusalEscalation) → Tx (Unit {0})
unfolding escalates_refusal
update_escalation row f = do
  check (λ cases. escalates_refusal cases (f row))
  put_cases (λ w. change_escalation row.id f w.cases)

-- the keys
abbrev pub approval_clashes : DocketApproval → DocketApproval → Bool
approval_clashes row x =
    x.id == row.id || (x.docket_id == row.docket_id && x.decision_sequence == row.decision_sequence)

unfoldable pub insert_approval : DocketApproval → Tx (Unit {0})
insert_approval row = do
  check (λ cases. not (exists_where (approval_clashes row) cases.approvals))
  check (λ _. ltb 0 row.decision_sequence)
  put_cases (λ w. add_approval row w.cases)

-- a current assignment of that docket: `unassigned_at IS NULL`
abbrev pub is_active_of : ℕ → CaseAssignment → Bool
is_active_of docket_id a = a.docket_id == docket_id && is_none a.unassigned_at

-- the key, and the partial unique index `uq_case_assignments_active_docket`
abbrev pub assignment_clashes : CaseAssignment → CaseAssignment → Bool
assignment_clashes row x =
    x.id == row.id || (is_none row.unassigned_at && is_active_of row.docket_id x)

unfoldable pub insert_assignment : CaseAssignment → Tx (Unit {0})
insert_assignment row = do
  check (λ cases. not (exists_where (assignment_clashes row) cases.assignments))
  put_cases (λ w. add_assignment row w.cases)

abbrev pub unchanged : Option DocketStatus → DocketStatus → Bool
unchanged none to_status = false
unchanged (some from_status) to_status = same_docket_status from_status to_status

-- an entry of that docket that must not stand beside the new one
abbrev pub misplaces : DocketStatusHistory → DocketStatusHistory → Bool
misplaces row h = elim row.from_status [
  | none ↦ h.docket_id == row.docket_id
  | some s ↦
      h.docket_id == row.docket_id && is_none h.from_status && ltb row.changed_at h.changed_at
]

-- the check `from_status <> to_status`, the key, and `validate_initial_docket_history` on INSERT
unfoldable pub insert_history : DocketStatusHistory → Tx (Unit {0})
insert_history row = do
  check (λ _. not (unchanged row.from_status row.to_status))
  check (λ cases. not (exists_where (λ h. h.id == row.id || misplaces row h) cases.history))
  put_cases (λ w. add_history row w.cases)

unfoldable pub insert_note : InvestigationNote → Tx (Unit {0})
insert_note row = do
  check (λ cases. not (exists_where (λ n. n.id == row.id) cases.notes))
  put_cases (λ w. add_note row w.cases)

-- the keys: of the row, and the unique `evidence_reference`
abbrev pub item_clashes : EvidenceItem → EvidenceItem → Bool
item_clashes row x = x.id == row.id || text_eq x.evidence_reference row.evidence_reference

unfoldable pub insert_item : EvidenceItem → Tx (Unit {0})
insert_item row = do
  check (λ cases. not (exists_where (item_clashes row) cases.evidence_items))
  put_cases (λ w. add_item row w.cases)

unfoldable pub update_item : ℕ → (EvidenceItem → EvidenceItem) → Tx (Unit {0})
update_item id f = put_cases (λ w. change_item id f w.cases)

unfoldable pub insert_custody_event : EvidenceCustodyEvent → Tx (Unit {0})
insert_custody_event row = do
  check (λ cases. not (exists_where (λ e. e.id == row.id) cases.custody_events))
  put_cases (λ w. add_custody_event row w.cases)

-- `row.status = 'UNDER_REVIEW'; row.review_started_at = ...`, under the same trigger
unfoldable pub start_complaint_review : ℕ → ℕ → Tx (Unit {0})
start_complaint_review id now = do
  check (λ cases. not (exists_where (λ d. d.complaint_id == id) cases.dockets))
  put_cases (λ w. change_complaint id (reviewed_at now) w.cases)
