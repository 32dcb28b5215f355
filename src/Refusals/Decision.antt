-- ===== src/Refusals/Decision.antt =====
-- What a decision on a complaint does.
use saps_case_dockets.Prelude.{
  true_of, equal_of, ℕ, ◌+◌, ◌≡◌, refl, true, false, not, ◌&&◌, is_id, Option, none, some, List, [],
  ◌∷◌, ◌==◌, first_where, max_where,
}
use saps_case_dockets.Schema.{
  World, CaseDb, Complaint, ComplaintStatus, ComplaintDecision, Verdict, RefusalReason,
  RefusalEscalation, EscalationStatus, Target, Docket, Officer,
}
use saps_case_dockets.Schema.{charge_officer}
use saps_case_dockets.Tx.{Tx, ◌>>=◌, for_each}
use saps_case_dockets.Tx.Rules.{
  Ensures, cases_of, Ensures-transactional, Ensures-gets, Ensures-raise_if, Ensures-or_raise,
  Ensures-pure, Ensures-utcnow, Ensures-new_id, Ensures-keeps, Ensures-bind, Keeps, Ensures-assoc,
  Keeps-bind, Keeps-pure, Ensures-then, Ensures-weaken,
}
use saps_case_dockets.Access.{has_role, active_officer}
use saps_case_dockets.Access.Officers.{Ensures-active_officer_with_role}
use saps_case_dockets.Notify.Quiet.{Keeps-audit, Keeps-notify_complainant, Keeps-enqueue}
use saps_case_dockets.Store.{is_complaint}
use saps_case_dockets.Store.Effects.{
  Ensures-insert_decision, Ensures-update_complaint_status, Ensures-insert_escalation,
}
use saps_case_dockets.Store.Writes.{add_decision, add_escalation, change_complaint, set_status}
use saps_case_dockets.Dockets.Creation.{Created, create_from_acceptance-Created}
use saps_case_dockets.Refusals.{
  ComplaintDecisionRequest, ComplaintDecisionOut, is_decidable, has_notes, refusal_reason,
  refused_status, targets, escalate, carry_out, announce, decide, reason_id,
}

-- an escalation as `decide` opens it
abbrev pub opened : ℕ → ComplaintDecision → Target → RefusalEscalation
opened id decision target = record {
  id = id;
  complaint_id = decision.complaint_id;
  complaint_decision_id = decision.id;
  target = target;
  status = EscalationStatus.open_escalation;
  acknowledged_by_user_id = none;
  acknowledged_at = none;
  resolved_by_user_id = none;
  resolved_at = none;
  resolution_notes = none;
}

-- One open escalation was added for each target, in order, and nothing else.
abbrev pub Escalated : ComplaintDecision → List Target → CaseDb → CaseDb → Type 0
Escalated decision [] c c' = c' ≡ c
Escalated decision (t ∷ ts) c c' =
    (id : ℕ) × Escalated decision ts (add_escalation (opened id decision t) c) c'

Ensures-escalate_all :
    (decision : ComplaintDecision) (ts : List Target) (w : World)
    → Ensures (for_each ts (escalate decision) w) (λ _ w'. Escalated decision ts w.cases w'.cases)
unfolding for_each escalate
Ensures-escalate_all decision [] w = Ensures-pure _ _ refl
Ensures-escalate_all decision (t ∷ ts) w = Ensures-assoc _ _ _ _ (
    Ensures-new_id _ _ (
      Ensures-insert_escalation _ _ _ λ fresh refused.
        Ensures-weaken _ _ (Ensures-escalate_all decision ts _)
          λ _ w' rest. (w.platform.uuid w.drawn, rest)))

-- the tables of the decision, with the new status of its complaint
abbrev pub ruled : ℕ → ComplaintStatus → ComplaintDecision → CaseDb → CaseDb
ruled complaint_id status decision c =
    change_complaint complaint_id (set_status status) (add_decision decision c)

-- What the branch on the verdict did, from the tables with the decision in them.
abbrev pub CarriedOut :
    ℕ
    → Officer
    → Complaint
    → ComplaintDecision
    → Option RefusalReason
    → Verdict
    → CaseDb
    → ComplaintStatus
    → Option Docket
    → CaseDb
    → Type 0
CarriedOut user_id officer complaint decision reason Verdict.accepted c status docket c' =
    (status ≡ ComplaintStatus.docket_created)
    × ((new : Docket) × (docket ≡ some new)
        × Created user_id officer (record complaint { status = ComplaintStatus.accepted }) decision
            (change_complaint complaint.id (set_status ComplaintStatus.accepted) c) new c')
CarriedOut user_id officer complaint decision reason Verdict.refused c status docket c' =
    (given : RefusalReason) × (reason ≡ some given)
    × (status ≡ refused_status given)
    × (docket ≡ none)
    × Escalated decision (targets given)
        (change_complaint complaint.id (set_status (refused_status given)) c) c'

Ensures-carry_out :
    (user_id : ℕ) (officer : Officer) (complaint : Complaint) (decision : ComplaintDecision)
    (reason : Option RefusalReason) (verdict : Verdict) (w : World)
    → Ensures (carry_out user_id officer complaint decision reason verdict w) (λ r w'.
      CarriedOut user_id officer complaint decision reason verdict w.cases r.0 r.1 w'.cases)
unfolding carry_out
Ensures-carry_out user_id officer complaint decision reason Verdict.accepted w =
    Ensures-update_complaint_status _ _ _ _ λ fits.
      Ensures-bind _ _ _ _ (create_from_acceptance-Created _ _ _ _ _)
        λ docket w' created. Ensures-pure _ _ (refl, (docket, refl, created))
Ensures-carry_out user_id officer complaint decision reason Verdict.refused w =
    Ensures-or_raise _ _ _ _ λ given found. Ensures-update_complaint_status _ _ _ _ λ fits.
      Ensures-bind _ _ _ _ (Ensures-escalate_all decision _ _)
        λ _ w' escalated. Ensures-pure _ _ (given, found, refl, refl, escalated)

-- What the reading of the reason gave: none for an acceptance; for a refusal an active reason of
-- the request's id, with notes where it asks for them.
abbrev pub Reasoned : ComplaintDecisionRequest → Verdict → World → Option RefusalReason → Type 0
Reasoned request Verdict.accepted w reason = reason ≡ none
Reasoned request Verdict.refused w reason =
    (given : RefusalReason) × (reason ≡ some given)
    × (first_where (λ r. is_id request.refusal_reason_id r.id && r.is_active) w.refusal_reasons
        ≡ some given)
    × ((given.requires_officer_notes && not (has_notes w.platform.strip request.officer_notes))
        ≡ false)

module _ {ℓ κ} {B : Type ℓ} {Q : B → World → Type κ} where
  Ensures-refusal_reason :
      (request : ComplaintDecisionRequest) (verdict : Verdict) (w : World)
      (k : Option RefusalReason → Tx B)
      → ((reason : Option RefusalReason)
          → Reasoned request verdict w reason
          → Ensures (k reason w) Q)
      → Ensures ((refusal_reason request verdict >>= k) w) Q
  unfolding refusal_reason
  Ensures-refusal_reason request Verdict.accepted w k next = Ensures-then _ _ _ (next none refl)
  Ensures-refusal_reason request Verdict.refused w k next = Ensures-assoc _ _ _ _ (
      Ensures-gets _ _ _ (
        Ensures-assoc _ _ _ _ (
          Ensures-or_raise _ _ _ _ λ reason found. Ensures-assoc _ _ _ _ (
            Ensures-gets _ _ _ (
              Ensures-assoc _ _ _ _ (
                Ensures-raise_if _ _ _ _ λ noted.
                  Ensures-then _ _ _ (next (some reason) (reason, refl, found, noted))))))))

Keeps-announce :
    (user_id : ℕ) (officer : Officer) (complaint : Complaint) (decision : ComplaintDecision)
    (verdict : Verdict)
    → Keeps cases_of (announce user_id officer complaint decision verdict)
unfolding announce
Keeps-announce user_id officer complaint decision Verdict.accepted =
    Keeps-bind _ _ _ (Keeps-audit cases_of (λ _ _. refl) _ _ _ _ _)
      λ _. Keeps-notify_complainant cases_of (λ _ _. refl) _ _ _ _
Keeps-announce user_id officer complaint decision Verdict.refused =
    Keeps-bind _ _ _ (Keeps-audit cases_of (λ _ _. refl) _ _ _ _ _) λ _.
      Keeps-bind _ _ _ (Keeps-notify_complainant cases_of (λ _ _. refl) _ _ _ _)
        λ _. Keeps-bind _ _ _ (Keeps-enqueue cases_of (λ _ _. refl) _ _ _ _) λ _. Keeps-pure _ _

-- the decision that a request writes, as the next one of its complaint
abbrev row_at :
    ℕ → ComplaintDecisionRequest → Officer → Option RefusalReason → World → ComplaintDecision
row_at complaint_id request officer reason w = record {
  id = w.platform.uuid w.drawn;
  complaint_id = complaint_id;
  decision = request.decision;
  decided_by_officer_id = officer.id;
  refusal_reason_id = reason_id reason;
  officer_notes = request.officer_notes;
  decision_sequence =
      max_where (λ d. d.complaint_id == complaint_id) (λ d. d.decision_sequence) w.decisions + 1;
  decided_at = w.platform.clock w.reads;
}

-- What an answered decision says of its request: who decided, on which complaint, for which reason,
-- what was written and what was answered.
pub record Decided (user_id complaint_id : ℕ) (request : ComplaintDecisionRequest) (w : World)
    (out : ComplaintDecisionOut) (w' : World) : Type 0 where
  pub officer : Officer
  pub complaint : Complaint
  pub reason : Option RefusalReason
  pub is_charge_officer : has_role w.access user_id charge_officer ≡ true
  pub own_profile : active_officer w.access user_id ≡ some officer
  pub known : first_where (is_complaint complaint_id) w.complaints ≡ some complaint
  pub same_station : complaint.station_id ≡ officer.station_id
  pub was_decidable : is_decidable complaint.status ≡ true
  pub has_reason : Reasoned request request.decision w reason
  pub next_sequence :
      out.decision.decision_sequence
      ≡ max_where (λ d. d.complaint_id == complaint_id) (λ d. d.decision_sequence) w.decisions + 1
  pub done :
      CarriedOut user_id officer complaint out.decision reason request.decision
        (add_decision out.decision w.cases)
        out.complaint_status
        out.docket
        w'.cases

-- A decision that returns was made by an active charge officer of the complaint's station, met a
-- complaint that was still to be decided, is numbered next after the complaint's earlier ones, and
-- an acceptance writes a docket with it, a refusal the escalations that its reason asks for.
pub decide-Decided :
    (user_id complaint_id : ℕ) (request : ComplaintDecisionRequest) (w : World)
    → Ensures (decide user_id complaint_id request w) (Decided user_id complaint_id request w)
unfolding decide
decide-Decided user_id complaint_id request w = Ensures-transactional _ _ _ (
    Ensures-active_officer_with_role _ _ _ _ λ officer role profile. Ensures-gets _ _ _ (
      Ensures-raise_if _ _ _ _ λ granted. Ensures-gets _ _ _ (
        Ensures-or_raise _ _ _ _ λ complaint found. Ensures-raise_if _ _ _ _ λ near.
          Ensures-raise_if _ _ _ _ λ open_case.
            Ensures-refusal_reason request _ _ _ λ reason reasoned. Ensures-gets _ _ _ (
              Ensures-utcnow _ _ (
                Ensures-new_id _ _ (
                  Ensures-insert_decision _ _ _ λ fresh fits positive.
                    Ensures-bind _ _ _ _
                      (Ensures-carry_out _ officer complaint
                        (row_at complaint_id request officer reason w) _ _ _)
                      λ result w2 carried.
                        Ensures-keeps cases_of _ _ _
                          (Keeps-announce _ officer _ (row_at complaint_id request officer reason w)
                            _)
                          λ _ w3 same. Ensures-pure _ _ (record {
                            officer = officer;
                            complaint = complaint;
                            reason = reason;
                            is_charge_officer = role;
                            own_profile = profile;
                            known = found;
                            same_station = equal_of _ _ near;
                            was_decidable = true_of _ open_case;
                            has_reason = reasoned;
                            next_sequence = refl;
                            done = rw (← same) at carried;
                          })))))))
