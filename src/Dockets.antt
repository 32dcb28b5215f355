-- ===== src/Dockets.antt =====
-- Digital dockets: creation from an accepted complaint and the commander's review
-- (app/modules/dockets/service.py).
pub mod Review
pub mod Creation
pub mod Opening
use saps_case_dockets.Prelude.{
  ℕ, ◌+◌, Bool, true, false, not, ◌&&◌, ◌||◌, Option, none, some, List, [], ◌∷◌, ◌++◌, ◌==◌,
  is_none, String, if◌then◌else◌, first_where, exists_where, max_where, top_where,
}
use saps_case_dockets.Text.{Text, codes}
use saps_case_dockets.Schema.{
  CaseDb, Complaint, ComplaintStatus, ComplaintDecision, Verdict, Docket, DocketStatus,
  DocketApproval, ApprovalDecision, DocketStatusHistory, Officer, Station, docket_status_text,
  complaint_status_text, same_docket_status,
}
use saps_case_dockets.Schema.{charge_officer, station_commander, docket_created, docket_approved}
use saps_case_dockets.Tx.{
  Tx, http, attribute_error, raise, pure, gets, or_raise, raise_if, utcnow, new_id, transactional,
  ◌>>=◌, ◌>>◌,
}
use saps_case_dockets.Access.{active_officer_with_role}
use saps_case_dockets.Identifiers.{allocate_cas_number}
use saps_case_dockets.Notify.{audit, enqueue, notify_complainant}
use saps_case_dockets.Store.{
  insert_docket, update_docket, update_complaint_status, insert_history, insert_approval,
  is_acceptance, is_docket, is_complaint,
}

-- `db.add(AuditLog(...)); return result` with the result computed before
abbrev pub returning {ℓ} : {A : Type ℓ} → Tx (Unit {0}) → A → Tx A
returning m a = m >> pure a

-- `create_from_acceptance`; the complaint's row becomes DOCKET_CREATED
unfoldable pub create_from_acceptance : ℕ → Officer → Complaint → ComplaintDecision → Tx Docket
create_from_acceptance user_id officer complaint decision = do
  found ← gets (λ w. first_where (λ s. s.id == complaint.station_id && s.is_active) w.stations)
  station ← or_raise found (http 409 (codes "Complaint station is inactive"))
  now ← utcnow
  cas_number ← allocate_cas_number station now
  id ← new_id
  let docket : Docket = record {
    id = id;
    complaint_id = complaint.id;
    cas_number = cas_number;
    status = DocketStatus.pending_approval;
    created_from_decision_id = decision.id;
    opened_by_officer_id = officer.id;
    opened_at = now;
    closed_at = none;
    closure_reason = none;
  }
  insert_docket docket
  history_id ← new_id
  insert_history (record {
    id = history_id;
    docket_id = id;
    from_status = none;
    to_status = DocketStatus.pending_approval;
    changed_by_user_id = user_id;
    change_reason = some (codes "Docket created from accepted complaint");
    changed_at = now;
  })
  update_complaint_status complaint.id ComplaintStatus.docket_created
  audit user_id "docket.create" "docket" (some id) (some officer.station_id)
  notify_complainant (record complaint { status = ComplaintStatus.docket_created }) docket_created
      (some id) user_id
  pure docket

abbrev pub is_accepted : ComplaintStatus → Bool
is_accepted ComplaintStatus.accepted = true
is_accepted _ = false

-- the complaint has no docket yet
unfoldable pub open_new : ℕ → Officer → Complaint → Tx Docket
unfolding create_from_acceptance
open_new user_id officer complaint = do
  raise_if (not (is_accepted complaint.status)) (
      http 409
        (codes "Docket cannot be created from status " ++ complaint_status_text complaint.status))
  found ← gets (λ w.
      top_where (λ d. d.complaint_id == complaint.id && is_acceptance d.decision)
        (λ d. d.decision_sequence) w.decisions)
  decision ← or_raise found (http 409 (codes "Accepted complaint decision not found"))
  create_from_acceptance user_id officer complaint decision

unfoldable pub open_existing : ℕ → Officer → Complaint → Option Docket → Tx Docket
unfolding open_new
open_existing user_id officer complaint none = open_new user_id officer complaint
open_existing user_id officer complaint (some existing) =
    returning
      (audit user_id "docket.ensure_existing" "docket" (some existing.id) (some officer.station_id))
      existing

-- the complaint, if it is one of that station
unfoldable pub station_complaint : ℕ → ℕ → CaseDb → Option Complaint
station_complaint complaint_id station_id cases =
    first_where (λ c. c.id == complaint_id && c.station_id == station_id) cases.complaints

-- `DocketService.open`
unfoldable pub open_docket : ℕ → ℕ → Tx Docket
unfolding open_existing
open_docket user_id complaint_id = transactional (codes "Docket service unavailable") do
  officer ← active_officer_with_role user_id charge_officer
  found ← gets (λ w. first_where (is_complaint complaint_id) w.complaints)
  complaint ← or_raise found (http 404 (codes "Complaint not found"))
  raise_if (not (complaint.station_id == officer.station_id))
      (http 404 (codes "Complaint not found"))
  existing ← gets (λ w. first_where (λ d. d.complaint_id == complaint.id) w.dockets)
  open_existing user_id officer complaint existing

-- the docket, if its complaint is one of that station
unfoldable pub station_docket : ℕ → ℕ → CaseDb → Option Docket
station_docket docket_id station_id cases =
    first_where
      (λ d.
        d.id == docket_id
        && exists_where (λ c. c.id == d.complaint_id && c.station_id == station_id)
            cases.complaints)
      cases.dockets

-- `DocketService.get_for_commander`
unfoldable pub get_for_commander : ℕ → ℕ → Tx Docket
unfolding station_docket
get_for_commander user_id docket_id = transactional (codes "Docket service unavailable") do
  officer ← active_officer_with_role user_id station_commander
  found ← gets (λ w. station_docket docket_id officer.station_id w.cases)
  docket ← or_raise found (http 404 (codes "Docket not found"))
  audit user_id "docket.view_station" "docket" (some docket.id) (some officer.station_id)
  pure docket

-- `DocketApprovalRequest`
pub record DocketApprovalRequest : Type 0 where
  pub decision : ApprovalDecision
  pub notes : Option Text

-- `DocketApprovalOut`
pub record DocketApprovalOut : Type 0 where
  pub approval : DocketApproval
  pub docket_status : DocketStatus

abbrev pub is_pending : DocketStatus → Bool
is_pending DocketStatus.pending_approval = true
is_pending _ = false

abbrev review_action : ApprovalDecision → String
review_action ApprovalDecision.approved = "docket.review.approved"
review_action ApprovalDecision.returned_for_correction = "docket.review.returned_for_correction"

abbrev pub status_after : ApprovalDecision → DocketStatus → DocketStatus
status_after ApprovalDecision.approved status = DocketStatus.approved
status_after ApprovalDecision.returned_for_correction status = status

-- `if data.decision == 'APPROVED': ...`
unfoldable pub record_approval :
    ApprovalDecision → ℕ → Complaint → Docket → Option Text → ℕ → ℕ → Tx (Unit {0})
record_approval ApprovalDecision.returned_for_correction user_id complaint docket notes id now =
    pure tt
record_approval ApprovalDecision.approved user_id complaint docket notes id now = do
  update_docket docket (λ d. record d { status = DocketStatus.approved })
  enqueue complaint (some docket.id) docket_approved id
  history_id ← new_id
  insert_history (record {
    id = history_id;
    docket_id = docket.id;
    from_status = some DocketStatus.pending_approval;
    to_status = DocketStatus.approved;
    changed_by_user_id = user_id;
    change_reason = notes;
    changed_at = now;
  })

-- `DocketService.approve`
unfoldable pub approve : ℕ → ℕ → DocketApprovalRequest → Tx DocketApprovalOut
unfolding record_approval station_complaint
approve user_id docket_id request = transactional (codes "Docket service unavailable") do
  officer ← active_officer_with_role user_id station_commander
  row ← gets (λ w. first_where (is_docket docket_id) w.dockets)
  parent ← or_raise row (http 404 (codes "Docket not found"))
  found ← gets (λ w. station_complaint parent.complaint_id officer.station_id w.cases)
  complaint ← or_raise found (http 404 (codes "Docket not found"))
  held ← gets (λ w. first_where (is_docket docket_id) w.dockets)
  docket ← or_raise held attribute_error
  raise_if (not (is_pending docket.status)) (
      http 409 (codes "Docket cannot be reviewed from status " ++ docket_status_text docket.status))
  last ←
      gets (λ w. max_where (λ a. a.docket_id == docket.id) (λ a. a.decision_sequence) w.approvals)
  now ← utcnow
  id ← new_id
  let approval : DocketApproval = record {
    id = id;
    docket_id = docket.id;
    decided_by_officer_id = officer.id;
    decision = request.decision;
    notes = request.notes;
    decision_sequence = last + 1;
    decided_at = now;
  }
  insert_approval approval
  record_approval request.decision user_id complaint docket request.notes id now
  audit user_id (review_action request.decision) "docket" (some docket.id) (some officer.station_id)
  pure (record { approval = approval; docket_status = status_after request.decision docket.status })
