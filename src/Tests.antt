-- ===== src/Tests.antt =====
-- The workflow run on a small station: what each theorem needs is that these calls return.
pub mod Accounts
pub mod Returns
pub mod SigninWitnesses
pub mod Station
pub mod Witnesses
use saps_case_dockets.Refusals.{
  decide, announce, carry_out, escalate, refusal_reason, acknowledge, resolve,
  update_escalation_row, escalation_scope, in_scope, change_escalation, ComplaintDecisionRequest,
}
use saps_case_dockets.Tx.{transactional, ◌>>=◌, utcnow, new_id, for_each, rolled_back}
use saps_case_dockets.Access.{
  active_officer_with_role, active_officer, has_role, station_is_active, investigation_officer,
  active_user_officer, user_is_active, has_permission, station_officer, has_one_of,
}
use saps_case_dockets.Prelude.{
  exists_where, first_where, max_where, update_where, top_where, ℕ, ◌≡◌, refl, Bool, false, true,
  none, some, [], ◌∷◌, ◌&&◌, not,
}
use saps_case_dockets.Store.{
  insert_decision, check, update_complaint_status, insert_docket, docket_is_accepted,
  escalates_refusal, insert_escalation, insert_history, update_docket, insert_approval,
  insert_assignment, insert_note, update_escalation, insert_item, update_item, insert_custody_event,
  start_complaint_review,
}
use saps_case_dockets.Dockets.{
  create_from_acceptance, approve, record_approval, station_complaint, station_docket, open_docket,
  open_existing, open_new, DocketApprovalRequest,
}
use saps_case_dockets.Identifiers.{
  allocate_cas_number, allocate_identifier, bump, code_rest, decimal, digits, format_identifier,
  is_alnum, is_counter, is_station_code, padded, zeros, allocate_evidence_reference,
}
use saps_case_dockets.Text.{codes, occurs, starts_with, text_eq}
use saps_case_dockets.Notify.{
  audit, enqueue, enqueue_event, enqueue_new, enqueue_unless, event_body, notify_complainant,
  queue_reason, system_audit, tracking_link, verified_email,
}
use saps_case_dockets.Schema.{
  complaint_status_text, docket_status_text, World, Verdict, ApprovalDecision, DocketStatus,
}
use saps_case_dockets.Investigations.{
  assign, scope, is_busy, unfinished_docket, end_current, end_assignment, activate, transition,
  is_assigned, update_status, add_note, unassign, AssignmentRequest, StatusRequest, NoteRequest,
}
use saps_case_dockets.Evidence.{
  item_scope, custody_version, latest_event, evidence_out, register_record, register_evidence,
  custody, destination_of, EvidenceRequest, CustodyRequest, CustodyAction,
}
use saps_case_dockets.Complaints.{start_review}
use saps_case_dockets.Oversight.{
  review_scope, ensure_row, act, acknowledge_open, escalate_new, audit_change, snapshot,
  act_on_review, ReviewAction, ReviewVerb,
}
use saps_case_dockets.Tx.Rules.{is_error}
use saps_case_dockets.Tests.Station.{start}

abbrev pub acceptance : ComplaintDecisionRequest
acceptance = record { decision = Verdict.accepted; refusal_reason_id = none; officer_notes = none }

abbrev pub refusal : ComplaintDecisionRequest
refusal = record {
  decision = Verdict.refused;
  refusal_reason_id = some 41;
  officer_notes = some (codes "No crime is described");
}

abbrev pub approval : DocketApprovalRequest
approval = record { decision = ApprovalDecision.approved; notes = none }

abbrev pub assignment : AssignmentRequest
assignment = record { investigating_officer_id = 13; reason = codes "Nearest" }

abbrev pub hold : StatusRequest
hold = record {
  status = DocketStatus.on_hold;
  expected_status = DocketStatus.active;
  reason = codes "Witness abroad";
}

abbrev pub closing : StatusRequest
closing = record {
  status = DocketStatus.closed;
  expected_status = DocketStatus.active;
  reason = codes "Solved";
}

abbrev pub note : NoteRequest
note = record { note_type = "GENERAL"; content = "Called the witness"; is_sensitive = false }

abbrev pub exhibit : EvidenceRequest
exhibit = record {
  title = "Lock";
  description = "A cut lock";
  evidence_type = "PHYSICAL_OBJECT";
  is_digital = false;
  collected_at = none;
  collection_location = none;
  storage_location = "Locker A";
}

-- the states of the run; the decision draws 100, the docket 101
abbrev pub decided : World
decided = (decide 1 21 acceptance start).1

abbrev pub refused : World
refused = (decide 1 21 refusal start).1

abbrev pub approved : World
approved = (approve 2 101 approval decided).1

abbrev pub assigned : World
assigned = (assign 2 101 assignment approved).1

abbrev pub registered : World
registered = (register_evidence 3 101 exhibit assigned).1

-- the registration draws 126 for the item and 127 for its first event
abbrev pub transfer : CustodyRequest
transfer = record {
  expected_custody_event_id = 127;
  event_type = CustodyAction.transferred;
  to_custodian_officer_id = some 14;
  to_location = "Laboratory";
  notes = "Signed";
}

abbrev pub forward : ReviewAction
forward = record { decision_id = 100; action = ReviewVerb.escalate; reason = some (codes "Policy") }

-- every call of the run returns
run :
    (is_error (decide 1 21 acceptance start).0 ≡ false)
    × (is_error (open_docket 1 21 decided).0 ≡ false)
    × (is_error (approve 2 101 approval decided).0 ≡ false)
    × (is_error (assign 2 101 assignment approved).0 ≡ false)
    × (is_error (update_status 3 101 hold assigned).0 ≡ false)
    × (is_error (update_status 3 101 closing assigned).0 ≡ false)
    × (is_error (add_note 3 101 note assigned).0 ≡ false)
    × (is_error (register_evidence 3 101 exhibit assigned).0 ≡ false)
    × (is_error (custody 3 126 transfer registered).0 ≡ false)
    × (is_error (start_review 1 21 start).0 ≡ false)
    × (is_error (act_on_review 2 21 forward refused).0 ≡ false)
    × (is_error (unassign 2 101 (codes "Leave") assigned).0 ≡ false)
unfolding decide transactional ◌>>=◌ active_officer_with_role exists_where first_where utcnow new_id
    insert_decision check max_where update_complaint_status create_from_acceptance
    allocate_cas_number allocate_identifier codes insert_docket update_where active_officer has_role
    station_is_active bump code_rest decimal digits format_identifier is_alnum is_counter
    is_station_code padded zeros audit enqueue enqueue_event enqueue_new enqueue_unless event_body
    notify_complainant queue_reason system_audit tracking_link verified_email announce carry_out
    escalate refusal_reason complaint_status_text docket_status_text docket_is_accepted
    escalates_refusal insert_escalation insert_history occurs starts_with text_eq for_each approve
    record_approval station_complaint update_docket insert_approval assign scope station_docket
    investigation_officer active_user_officer user_is_active is_busy unfinished_docket end_current
    end_assignment activate transition insert_assignment is_assigned update_status has_permission
    add_note insert_note unassign open_docket open_existing open_new top_where acknowledge resolve
    update_escalation_row escalation_scope in_scope change_escalation update_escalation item_scope
    custody_version latest_event evidence_out register_record register_evidence custody
    destination_of insert_item update_item insert_custody_event allocate_evidence_reference
    start_review station_officer has_one_of start_complaint_review rolled_back review_scope
    ensure_row act acknowledge_open escalate_new audit_change snapshot act_on_review
run = (refl, refl, refl, refl, refl, refl, refl, refl, refl, refl, refl, refl)

-- a refusal returns, and the commander can acknowledge and then resolve its escalation
refusal_run :
    (is_error (decide 1 21 refusal start).0 ≡ false)
    × (is_error (acknowledge 2 101 refused).0 ≡ false)
    × (is_error (resolve 2 101 (codes "Reviewed") refused).0 ≡ false)
unfolding decide transactional ◌>>=◌ active_officer_with_role exists_where first_where utcnow new_id
    insert_decision check max_where update_complaint_status create_from_acceptance
    allocate_cas_number allocate_identifier codes insert_docket update_where active_officer has_role
    station_is_active bump code_rest decimal digits format_identifier is_alnum is_counter
    is_station_code padded zeros audit enqueue enqueue_event enqueue_new enqueue_unless event_body
    notify_complainant queue_reason system_audit tracking_link verified_email announce carry_out
    escalate refusal_reason complaint_status_text docket_status_text docket_is_accepted
    escalates_refusal insert_escalation insert_history occurs starts_with text_eq for_each approve
    record_approval station_complaint update_docket insert_approval assign scope station_docket
    investigation_officer active_user_officer user_is_active is_busy unfinished_docket end_current
    end_assignment activate transition insert_assignment is_assigned update_status has_permission
    add_note insert_note unassign open_docket open_existing open_new top_where acknowledge resolve
    update_escalation_row escalation_scope in_scope change_escalation update_escalation item_scope
    custody_version latest_event evidence_out register_record register_evidence custody
    destination_of insert_item update_item insert_custody_event allocate_evidence_reference
    start_review station_officer has_one_of start_complaint_review rolled_back review_scope
    ensure_row act acknowledge_open escalate_new audit_change snapshot act_on_review
refusal_run = (refl, refl, refl)
