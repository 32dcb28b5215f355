-- ===== src/Refusals.antt =====
-- Charge-officer decisions on complaints and the escalation of refusals
-- (app/modules/refusals/service.py).
use saps_case_dockets.Prelude.{
  ℕ, ◌+◌, String, Bool, true, false, not, ◌&&◌, ◌||◌, Option, none, some, List, [], ◌∷◌, ◌++◌, ◌==◌,
  is_none, if◌then◌else◌, first_where, exists_where, max_where, rows_where, is_id,
}
pub mod Decision
pub mod Escalations
pub mod Final
use mathlib.Core.List.{reverse}
use saps_case_dockets.Text.{Text, codes}
use saps_case_dockets.Schema.{
  CaseDb, Complaint, ComplaintStatus, ComplaintDecision, Verdict, RefusalReason, RefusalEscalation,
  EscalationStatus, Target, Docket, DocketStatus, Officer, complaint_status_text,
}
use saps_case_dockets.Schema.{
  charge_officer, station_commander, ncc_officer, complaint_accepted, complaint_refused,
}
use saps_case_dockets.Tx.{
  Tx, http, attribute_error, raise, pure, gets, or_raise, raise_if, utcnow, new_id, for_each,
  transactional, ◌>>=◌, ◌>>◌,
}
use saps_case_dockets.Access.{active_officer_with_role, has_role}
use saps_case_dockets.Notify.{audit, enqueue, notify_complainant}
use saps_case_dockets.Store.{
  update_complaint_status, insert_decision, insert_escalation, update_escalation, is_complaint,
}
use saps_case_dockets.Dockets.{create_from_acceptance}

-- `DECIDABLE_STATUSES`
abbrev pub is_decidable : ComplaintStatus → Bool
is_decidable ComplaintStatus.submitted = true
is_decidable ComplaintStatus.under_review = true
is_decidable _ = false

-- `ComplaintDecisionRequest`; its validator asks for a reason exactly with a refusal
pub record ComplaintDecisionRequest : Type 0 where
  pub decision : Verdict
  pub refusal_reason_id : Option ℕ
  pub officer_notes : Option Text

-- `ComplaintDecisionOut`
pub record ComplaintDecisionOut : Type 0 where
  pub decision : ComplaintDecision
  pub complaint_status : ComplaintStatus
  pub docket : Option Docket

-- Python's truth of `data.officer_notes and data.officer_notes.strip()`
abbrev pub has_notes : (Text → Text) → Option Text → Bool
has_notes strip none = false
has_notes strip (some []) = false
has_notes strip (some (c ∷ s)) = elim (strip (c ∷ s)) [ [] ↦ false | d ∷ t ↦ true ]

-- `if data.decision == 'REFUSED': reason = ...`
unfoldable pub refusal_reason : ComplaintDecisionRequest → Verdict → Tx (Option RefusalReason)
refusal_reason request Verdict.accepted = pure none
refusal_reason request Verdict.refused = do
  found ← gets (λ w.
      first_where (λ r. is_id request.refusal_reason_id r.id && r.is_active) w.refusal_reasons)
  reason ← or_raise found (http 404 (codes "Active refusal reason not found"))
  strip ← gets (λ w. w.platform.strip)
  raise_if (reason.requires_officer_notes && not (has_notes strip request.officer_notes))
      (http 422 (codes "officer_notes is required for this refusal reason"))
  pure (some reason)

abbrev pub must_escalate : RefusalReason → Bool
must_escalate reason = reason.requires_escalation || reason.is_non_compliant

abbrev pub refused_status : RefusalReason → ComplaintStatus
refused_status reason =
    if must_escalate reason then ComplaintStatus.escalated else ComplaintStatus.refused

-- the targets of a refusal; Python iterates its set in either order
abbrev pub targets : RefusalReason → List Target
targets reason =
    if must_escalate reason
    then (if reason.is_non_compliant
        then Target.station_commander ∷ Target.ncc ∷ []
        else Target.station_commander ∷ [])
    else []

unfoldable pub escalate : ComplaintDecision → Target → Tx (Unit {0})
escalate decision target = do
  id ← new_id
  insert_escalation (record {
    id = id;
    complaint_id = decision.complaint_id;
    complaint_decision_id = decision.id;
    target = target;
    status = EscalationStatus.open_escalation;
    acknowledged_by_user_id = none;
    acknowledged_at = none;
    resolved_by_user_id = none;
    resolved_at = none;
    resolution_notes = none;
  })

-- the branch on `data.decision`, with the complaint's new status and its docket
unfoldable pub carry_out :
    ℕ
    → Officer
    → Complaint
    → ComplaintDecision
    → Option RefusalReason
    → Verdict
    → Tx (ComplaintStatus × Option Docket)
unfolding escalate
carry_out user_id officer complaint decision reason Verdict.accepted = do
  update_complaint_status complaint.id ComplaintStatus.accepted
  docket ←
      create_from_acceptance user_id officer
        (record complaint { status = ComplaintStatus.accepted }) decision
  pure (ComplaintStatus.docket_created, some docket)
carry_out user_id officer complaint decision reason Verdict.refused = do
  given ← or_raise reason attribute_error
  update_complaint_status complaint.id (refused_status given)
  for_each (targets given) (escalate decision)
  pure (refused_status given, none)

abbrev decide_action : Verdict → String
decide_action Verdict.accepted = "complaint.decide.accepted"
decide_action Verdict.refused = "complaint.decide.refused"

abbrev pub reason_id : Option RefusalReason → Option ℕ
reason_id none = none
reason_id (some reason) = some reason.id

-- the audit, the notification and, for a refusal, the mail
unfoldable pub announce : ℕ → Officer → Complaint → ComplaintDecision → Verdict → Tx (Unit {0})
announce user_id officer complaint decision Verdict.accepted = do
  audit user_id (decide_action Verdict.accepted) "complaint" (some complaint.id)
      (some officer.station_id)
  notify_complainant complaint complaint_accepted none user_id
announce user_id officer complaint decision Verdict.refused = do
  audit user_id (decide_action Verdict.refused) "complaint" (some complaint.id)
      (some officer.station_id)
  notify_complainant complaint complaint_refused none user_id
  enqueue complaint none complaint_refused decision.id
  pure tt

-- `ComplaintDecisionService.decide`; the second role query repeats the first
unfoldable pub decide : ℕ → ℕ → ComplaintDecisionRequest → Tx ComplaintDecisionOut
unfolding refusal_reason carry_out announce
decide user_id complaint_id request = transactional (codes "Complaint decision unavailable") do
  officer ← active_officer_with_role user_id charge_officer
  granted ← gets (λ w. has_role w.access user_id charge_officer)
  raise_if (not granted) (http 403 (codes "Charge officer role required"))
  found ← gets (λ w. first_where (is_complaint complaint_id) w.complaints)
  complaint ← or_raise found (http 404 (codes "Complaint not found"))
  raise_if (not (complaint.station_id == officer.station_id))
      (http 404 (codes "Complaint not found"))
  raise_if (not (is_decidable complaint.status)) (
      http 409 (
        codes "Complaint cannot be decided from status " ++ complaint_status_text complaint.status))
  reason ← refusal_reason request request.decision
  last ←
      gets (λ w.
        max_where (λ d. d.complaint_id == complaint_id) (λ d. d.decision_sequence) w.decisions)
  now ← utcnow
  id ← new_id
  let decision : ComplaintDecision = record {
    id = id;
    complaint_id = complaint_id;
    decision = request.decision;
    decided_by_officer_id = officer.id;
    refusal_reason_id = reason_id reason;
    officer_notes = request.officer_notes;
    decision_sequence = last + 1;
    decided_at = now;
  }
  insert_decision decision
  result ← carry_out user_id officer complaint decision reason request.decision
  announce user_id officer (record complaint { status = result.0 }) decision request.decision
  pure (record { decision = decision; complaint_status = result.0; docket = result.1 })

-- the escalations that `_scoped_escalations` lets the user see
unfoldable pub in_scope : CaseDb → Bool → Option Officer → RefusalEscalation → Bool
in_scope cases is_ncc commander row = elim row.target [
  | Target.ncc ↦ is_ncc
  | Target.station_commander ↦ elim commander [
    | none ↦ false
    | some officer ↦
        exists_where (λ c. c.id == row.complaint_id && c.station_id == officer.station_id)
          cases.complaints
  ]
]

-- the roles and the profile that `_scoped_escalations` reads; here the station may be inactive
unfoldable pub escalation_scope : ℕ → Tx (Bool × Option Officer)
escalation_scope user_id = do
  is_ncc ← gets (λ w. has_role w.access user_id ncc_officer)
  is_commander ← gets (λ w. has_role w.access user_id station_commander)
  profile ← gets (λ w. first_where (λ o. o.user_id == user_id && o.is_active) w.officers)
  let commander : Option Officer = if is_commander then profile else none
  raise_if (not is_ncc && is_none commander)
      (http 403 (codes "Authorized escalation role and scope required"))
  pure (is_ncc, commander)

abbrev pub is_open : EscalationStatus → Bool
is_open EscalationStatus.open_escalation = true
is_open _ = false

abbrev pub is_resolved : EscalationStatus → Bool
is_resolved EscalationStatus.resolved = true
is_resolved _ = false

-- the branch on `resolve is None`
unfoldable pub change_escalation :
    ℕ → RefusalEscalation → ℕ → Option Text → Tx (RefusalEscalation × String)
change_escalation user_id row now none = do
  raise_if (not (is_open row.status)) (http 409 (codes "Only open escalations can be acknowledged"))
  let change = λ (e : RefusalEscalation). record e {
    status = EscalationStatus.acknowledged;
    acknowledged_by_user_id = some user_id;
    acknowledged_at = some now;
  }
  update_escalation row change
  pure (change row, "refusal.escalation.acknowledge")
change_escalation user_id row now (some notes) = do
  raise_if (is_resolved row.status) (http 409 (codes "Escalation is already resolved"))
  let change = λ (e : RefusalEscalation). record e {
    status = EscalationStatus.resolved;
    resolved_by_user_id = some user_id;
    resolved_at = some now;
    resolution_notes = some notes;
  }
  update_escalation row change
  pure (change row, "refusal.escalation.resolve")

-- `RefusalService._update_escalation`
unfoldable pub update_escalation_row : ℕ → ℕ → Option Text → Tx RefusalEscalation
unfolding escalation_scope in_scope change_escalation
update_escalation_row user_id escalation_id resolve =
    transactional (codes "Refusal escalation service unavailable") do
      scope ← escalation_scope user_id
      found ← gets (λ w.
          first_where (λ e. e.id == escalation_id && in_scope w.cases scope.0 scope.1 e)
            w.escalations)
      row ← or_raise found (http 404 (codes "Refusal escalation not found"))
      now ← utcnow
      changed ← change_escalation user_id row now resolve
      parent ← gets (λ w. first_where (is_complaint row.complaint_id) w.complaints)
      complaint ← or_raise parent attribute_error
      audit user_id changed.1 "refusal_escalation" (some row.id) (some complaint.station_id)
      pure changed.0

-- `RefusalService.acknowledge` and `RefusalService.resolve`
unfoldable pub acknowledge : ℕ → ℕ → Tx RefusalEscalation
acknowledge user_id escalation_id = update_escalation_row user_id escalation_id none

unfoldable pub resolve : ℕ → ℕ → Text → Tx RefusalEscalation
resolve user_id escalation_id notes = update_escalation_row user_id escalation_id (some notes)
