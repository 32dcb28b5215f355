-- ===== src/Oversight.antt =====
-- The commander's oversight of refused complaints (app/modules/refusals/commander_review.py).
pub mod Action
use saps_case_dockets.Prelude.{
  ℕ, String, Bool, true, false, not, ◌&&◌, ◌||◌, Option, none, some, List, [], ◌∷◌, ◌++◌, ◌==◌,
  first_where, top_where, if◌then◌else◌,
}
use saps_case_dockets.Text.{Text, codes}
use saps_case_dockets.Schema.{
  World, Complaint, ComplaintStatus, ComplaintDecision, Verdict, RefusalEscalation,
  EscalationStatus, Target, AuditMetadata, same_target, station_commander, user,
}
use saps_case_dockets.Tx.{
  Tx, http, attribute_error, raise, pure, gets, or_raise, raise_if, put_comms, utcnow, new_id,
  rolled_back, ◌>>=◌, ◌>>◌,
}
use saps_case_dockets.Access.{active_officer_with_role}
use saps_case_dockets.Store.{
  insert_escalation, update_escalation, update_complaint_status, is_complaint, is_acceptance,
}
use saps_case_dockets.Dockets.{station_complaint}
use saps_case_dockets.Refusals.{is_open, is_resolved}

pub data ReviewVerb : Type 0 where
  acknowledge escalate : ReviewVerb

-- `ReviewAction`
pub record ReviewAction : Type 0 where
  pub decision_id : ℕ
  pub action : ReviewVerb
  pub reason : Option Text

-- `complaint.status in {'REFUSED', 'ESCALATED'}`
abbrev pub is_refused_status : ComplaintStatus → Bool
is_refused_status ComplaintStatus.refused = true
is_refused_status ComplaintStatus.escalated = true
is_refused_status _ = false

-- the latest decision refuses, and so does the complaint's status
abbrev pub is_refusal : ComplaintDecision → ComplaintStatus → Bool
is_refusal decision status = not (is_acceptance decision.decision) && is_refused_status status

-- `scope`
unfoldable pub review_scope : ℕ → ℕ → Tx (Complaint × ComplaintDecision)
unfolding station_complaint
review_scope user_id complaint_id = do
  officer ← active_officer_with_role user_id station_commander
  found ← gets (λ w. station_complaint complaint_id officer.station_id w.cases)
  complaint ← or_raise found (http 404 (codes "Complaint not found"))
  last ←
      gets (λ w.
        top_where (λ d. d.complaint_id == complaint.id) (λ d. d.decision_sequence) w.decisions)
  decision ← or_raise last (http 409 (codes "This complaint has no current refusal to review"))
  raise_if (not (is_refusal decision complaint.status))
      (http 409 (codes "This complaint has no current refusal to review"))
  pure (complaint, decision)

-- `snapshot`
pub record ReviewOut : Type 0 where
  pub decision_id : ℕ
  pub refusal_reason : String
  pub officer_notes : Option Text
  pub complaint_status : ComplaintStatus
  pub commander_review : Option RefusalEscalation
  pub ncc_escalation : Option RefusalEscalation

-- the escalation of a decision to a target
abbrev pub is_sent_to : ℕ → Target → RefusalEscalation → Bool
is_sent_to decision_id target e =
    e.complaint_decision_id == decision_id && same_target e.target target

abbrev is_reason_of : ComplaintDecision → ℕ → Bool
is_reason_of decision id = elim decision.refusal_reason_id [ none ↦ false | some r ↦ r == id ]

unfoldable pub snapshot : ComplaintDecision → ComplaintStatus → Tx ReviewOut
snapshot decision status = do
  found ← gets (λ w. first_where (λ r. is_reason_of decision r.id) w.refusal_reasons)
  reason ← or_raise found attribute_error
  commander ←
      gets (λ w. first_where (is_sent_to decision.id Target.station_commander) w.escalations)
  ncc ← gets (λ w. first_where (is_sent_to decision.id Target.ncc) w.escalations)
  pure (record {
    decision_id = decision.id;
    refusal_reason = reason.name;
    officer_notes = decision.officer_notes;
    complaint_status = status;
    commander_review = commander;
    ncc_escalation = ncc;
  })

abbrev pub target_of : ReviewVerb → Target
target_of ReviewVerb.escalate = Target.ncc
target_of ReviewVerb.acknowledge = Target.station_commander

-- an escalation as `act_on_review` opens it
abbrev pub new_escalation : ℕ → ℕ → ComplaintDecision → Target → RefusalEscalation
new_escalation id complaint_id decision target = record {
  id = id;
  complaint_id = complaint_id;
  complaint_decision_id = decision.id;
  target = target;
  status = EscalationStatus.open_escalation;
  acknowledged_by_user_id = none;
  acknowledged_at = none;
  resolved_by_user_id = none;
  resolved_at = none;
  resolution_notes = none;
}

-- `if row is None: ...`, with `changed`
unfoldable pub ensure_row :
    ℕ → ComplaintDecision → Target → Option RefusalEscalation → Tx (RefusalEscalation × Bool)
ensure_row complaint_id decision target (some row) = pure (row, false)
ensure_row complaint_id decision target none = do
  id ← new_id
  insert_escalation (new_escalation id complaint_id decision target)
  pure (new_escalation id complaint_id decision target, true)

abbrev pub acknowledged_by : ℕ → ℕ → RefusalEscalation → RefusalEscalation
acknowledged_by user_id now e = record e {
  status = EscalationStatus.acknowledged;
  acknowledged_by_user_id = some user_id;
  acknowledged_at = some now;
}

-- `if row.status == 'OPEN': ...`
unfoldable pub acknowledge_open : ℕ → RefusalEscalation → Bool → EscalationStatus → Tx Bool
acknowledge_open user_id row changed EscalationStatus.open_escalation = do
  now ← utcnow
  update_escalation row (acknowledged_by user_id now)
  pure true
acknowledge_open user_id row changed _ = pure changed

-- `elif changed: complaint.status = 'ESCALATED'`
unfoldable pub escalate_new : ℕ → Bool → Tx Bool
escalate_new complaint_id true =
    update_complaint_status complaint_id ComplaintStatus.escalated >> pure true
escalate_new complaint_id false = pure false

-- the branch on the action, with the new `changed`
unfoldable pub act : ReviewVerb → ℕ → ℕ → RefusalEscalation → Bool → Tx Bool
unfolding acknowledge_open escalate_new
act ReviewVerb.acknowledge user_id complaint_id row changed = do
  raise_if (is_resolved row.status) (http 409 (codes "This refusal review is already resolved"))
  acknowledge_open user_id row changed row.status
act ReviewVerb.escalate user_id complaint_id row changed = escalate_new complaint_id changed

abbrev review_action : ReviewVerb → String
review_action ReviewVerb.acknowledge = "refusal.escalation.acknowledge"
review_action ReviewVerb.escalate = "refusal.escalation.forward"

abbrev metadata_of : ReviewVerb → ComplaintDecision → Option Text → Option AuditMetadata
metadata_of ReviewVerb.acknowledge decision reason = none
metadata_of ReviewVerb.escalate decision reason =
    some (AuditMetadata.review_reason decision.id reason)

-- `if changed: db.add(AuditLog(...))`
unfoldable pub audit_change :
    Bool → ℕ → Complaint → ComplaintDecision → RefusalEscalation → ReviewAction → Tx (Unit {0})
audit_change false user_id complaint decision row request = pure tt
audit_change true user_id complaint decision row request = do
  id ← new_id
  put_comms (λ w. record w.comms {
    audit_logs =
        w.audit_logs
        ++ record {
          id = id;
          actor_type = user;
          actor_user_id = some user_id;
          action = review_action request.action;
          entity_type = "refusal_escalation";
          entity_id = some row.id;
          station_id = some complaint.station_id;
          ip_address = none;
          old_values = none;
          new_values = none;
          event_metadata = metadata_of request.action decision request.reason;
          occurred_at = w.platform.database_time w.reads;
        }
          ∷ [];
  })

abbrev status_shown : ReviewVerb → Bool → ComplaintStatus → ComplaintStatus
status_shown ReviewVerb.escalate true status = ComplaintStatus.escalated
status_shown _ _ status = status

-- `act_on_review`
unfoldable pub act_on_review : ℕ → ℕ → ReviewAction → Tx ReviewOut
unfolding review_scope ensure_row act audit_change snapshot
act_on_review user_id complaint_id request = rolled_back do
  scoped ← review_scope user_id complaint_id
  raise_if (not (scoped.1.id == request.decision_id))
      (http 409 (codes "The refusal decision changed. Refresh before reviewing it."))
  found ← gets (λ w. first_where (is_sent_to scoped.1.id (target_of request.action)) w.escalations)
  row ← ensure_row scoped.0.id scoped.1 (target_of request.action) found
  changed ← act request.action user_id scoped.0.id row.0 row.1
  audit_change changed user_id scoped.0 scoped.1 row.0 request
  snapshot scoped.1 (status_shown request.action row.1 scoped.0.status)
