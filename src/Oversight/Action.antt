-- ===== src/Oversight/Action.antt =====
-- What the commander's action on a refusal does.
use saps_case_dockets.Prelude.{
  true_of, equal_of, ℕ, ◌≡◌, refl, ◌∙◌, Bool, true, false, Option, none, some, ◌==◌, first_where,
  top_where,
}
use saps_case_dockets.Schema.{
  World, CaseDb, Complaint, ComplaintStatus, ComplaintDecision, RefusalEscalation, EscalationStatus,
  Target, Officer, station_commander,
}
use saps_case_dockets.Tx.{Tx, ◌>>=◌}
use saps_case_dockets.Tx.Rules.{
  Ensures, cases_of, Ensures-rolled_back, Ensures-gets, Ensures-raise_if, Ensures-or_raise,
  Ensures-pure, Ensures-bind, Ensures-utcnow, Ensures-new_id, Ensures-keeps, Ensures-assoc,
  Ensures-last, Ensures-weaken, Ensures-then, Keeps, keeps_rules, Keeps-bind, Keeps-new_id,
  Keeps-pure, Keeps-put_comms,
}
use saps_case_dockets.Access.{has_role, active_officer}
use saps_case_dockets.Access.Officers.{Ensures-active_officer_with_role}
use saps_case_dockets.Store.Effects.{
  Ensures-insert_escalation, Ensures-update_escalation, Ensures-update_complaint_status,
}
use saps_case_dockets.Store.Writes.{add_escalation, change_escalation, change_complaint, set_status}
use saps_case_dockets.Dockets.{station_complaint}
use saps_case_dockets.Refusals.{is_resolved}
use saps_case_dockets.Oversight.{
  ReviewVerb, ReviewAction, is_refusal, review_scope, is_sent_to, snapshot, target_of,
  new_escalation, ensure_row, acknowledged_by, acknowledge_open, escalate_new, act, audit_change,
  act_on_review,
}

-- What the scope of a review establishes.
pub record InReview (user_id complaint_id : ℕ) (w : World) (officer : Officer)
    (complaint : Complaint) (decision : ComplaintDecision) : Type 0 where
  pub is_commander : has_role w.access user_id station_commander ≡ true
  pub own_profile : active_officer w.access user_id ≡ some officer
  pub same_station : station_complaint complaint_id officer.station_id w.cases ≡ some complaint
  pub is_latest :
      top_where (λ d. d.complaint_id == complaint.id) (λ d. d.decision_sequence) w.decisions
      ≡ some decision
  pub refuses : is_refusal decision complaint.status ≡ true

-- The escalation that was there, or a new open one.
abbrev pub Ensured :
    ℕ
    → ComplaintDecision
    → Target
    → Option RefusalEscalation
    → CaseDb
    → RefusalEscalation × Bool
    → CaseDb
    → Type 0
Ensured complaint_id decision target (some row) c r c' = (r ≡ (row, false)) × (c' ≡ c)
Ensured complaint_id decision target none c r c' =
    (id : ℕ) × (r ≡ (new_escalation id complaint_id decision target, true))
    × (c' ≡ add_escalation (new_escalation id complaint_id decision target) c)

-- An open escalation was marked as acknowledged; one that was acknowledged before stays as it was.
abbrev pub Acknowledged : ℕ → ℕ → EscalationStatus → CaseDb → CaseDb → Type 0
Acknowledged user_id row_id EscalationStatus.open_escalation c c' =
    (now : ℕ) × (c' ≡ change_escalation row_id (acknowledged_by user_id now) c)
Acknowledged user_id row_id _ c c' = c' ≡ c

-- The complaint became escalated if its escalation is new.
abbrev pub Escalated : ℕ → Bool → CaseDb → CaseDb → Type 0
Escalated complaint_id true c c' =
    c' ≡ change_complaint complaint_id (set_status ComplaintStatus.escalated) c
Escalated complaint_id false c c' = c' ≡ c

-- What the branch on the action did.
abbrev pub Acted : ReviewVerb → ℕ → ℕ → RefusalEscalation → Bool → CaseDb → CaseDb → Type 0
Acted ReviewVerb.acknowledge user_id complaint_id row changed c c' =
    (is_resolved row.status ≡ false) × Acknowledged user_id row.id row.status c c'
Acted ReviewVerb.escalate user_id complaint_id row changed c c' =
    Escalated complaint_id changed c c'

module _ {ℓ κ} {B : Type ℓ} {Q : B → World → Type κ} where
  Ensures-review_scope :
      (user_id complaint_id : ℕ) (w : World) (k : Complaint × ComplaintDecision → Tx B)
      → ((officer : Officer) (complaint : Complaint) (decision : ComplaintDecision)
          → InReview user_id complaint_id w officer complaint decision
          → Ensures (k (complaint, decision) w) Q)
      → Ensures ((review_scope user_id complaint_id >>= k) w) Q
  unfolding review_scope
  Ensures-review_scope user_id complaint_id w k next = Ensures-assoc _ _ _ _ (
      Ensures-active_officer_with_role _ _ _ _ λ officer role profile. Ensures-assoc _ _ _ _ (
        Ensures-gets _ _ _ (
          Ensures-assoc _ _ _ _ (
            Ensures-or_raise _ _ _ _ λ complaint found. Ensures-assoc _ _ _ _ (
              Ensures-gets _ _ _ (
                Ensures-assoc _ _ _ _ (
                  Ensures-or_raise _ _ _ _ λ decision last. Ensures-assoc _ _ _ _ (
                    Ensures-raise_if _ _ _ _ λ current. Ensures-then _ _ _ (
                      next officer complaint decision (record {
                        is_commander = role;
                        own_profile = profile;
                        same_station = found;
                        is_latest = last;
                        refuses = true_of _ current;
                      }))))))))))

Ensures-ensure_row :
    (complaint_id : ℕ) (decision : ComplaintDecision) (target : Target)
    (found : Option RefusalEscalation) (w : World)
    → Ensures
        (ensure_row complaint_id decision target found w)
        (λ r w'. Ensured complaint_id decision target found w.cases r w'.cases)
unfolding ensure_row
Ensures-ensure_row complaint_id decision target (some row) w = Ensures-pure _ _ (refl, refl)
Ensures-ensure_row complaint_id decision target none w = Ensures-new_id _ _ (
    Ensures-insert_escalation _ _ _
      λ free refused. Ensures-pure _ _ (w.platform.uuid w.drawn, refl, refl))

Ensures-acknowledge_open :
    (user_id : ℕ) (row : RefusalEscalation) (changed : Bool) (status : EscalationStatus) (w : World)
    → Ensures
        (acknowledge_open user_id row changed status w)
        (λ _ w'. Acknowledged user_id row.id status w.cases w'.cases)
unfolding acknowledge_open
Ensures-acknowledge_open user_id row changed EscalationStatus.open_escalation w =
    Ensures-utcnow _ _
      (Ensures-update_escalation _ _ _ _ λ fits. Ensures-pure _ _ (w.platform.clock w.reads, refl))
Ensures-acknowledge_open user_id row changed _ w = Ensures-pure _ _ refl

Ensures-escalate_new :
    (complaint_id : ℕ) (changed : Bool) (w : World)
    → Ensures
        (escalate_new complaint_id changed w)
        (λ _ w'. Escalated complaint_id changed w.cases w'.cases)
unfolding escalate_new
Ensures-escalate_new complaint_id true w =
    Ensures-update_complaint_status _ _ _ _ λ fits. Ensures-pure _ _ refl
Ensures-escalate_new complaint_id false w = Ensures-pure _ _ refl

Ensures-act :
    (verb : ReviewVerb) (user_id complaint_id : ℕ) (row : RefusalEscalation) (changed : Bool)
    (w : World)
    → Ensures
        (act verb user_id complaint_id row changed w)
        (λ _ w'. Acted verb user_id complaint_id row changed w.cases w'.cases)
unfolding act
Ensures-act ReviewVerb.acknowledge user_id complaint_id row changed w =
    Ensures-raise_if _ _ _ _ λ unresolved.
      Ensures-weaken _ _ (Ensures-acknowledge_open user_id row changed row.status w)
        λ _ w' done. (unresolved, done)
Ensures-act ReviewVerb.escalate user_id complaint_id row changed w =
    Ensures-escalate_new complaint_id changed w

Keeps-audit_change :
    (changed : Bool) (user_id : ℕ) (complaint : Complaint) (decision : ComplaintDecision)
    (row : RefusalEscalation) (request : ReviewAction)
    → Keeps cases_of (audit_change changed user_id complaint decision row request)
unfolding audit_change
Keeps-audit_change false user_id complaint decision row request = Keeps-pure _ _
Keeps-audit_change true user_id complaint decision row request =
    Keeps-bind _ _ _ (Keeps-new_id _) λ id. Keeps-put_comms _ _ (λ _ _. refl)

Keeps-snapshot :
    (decision : ComplaintDecision) (status : ComplaintStatus)
    → Keeps cases_of (snapshot decision status)
unfolding snapshot
Keeps-snapshot decision status = search keeps_rules

-- What an answered action says of its request.
pub record Reviewed (user_id complaint_id : ℕ) (request : ReviewAction) (w w' : World)
    : Type 0 where
  pub officer : Officer
  pub complaint : Complaint
  pub decision : ComplaintDecision
  pub scoped : InReview user_id complaint_id w officer complaint decision
  pub as_expected : decision.id ≡ request.decision_id
  pub row : RefusalEscalation × Bool
  pub between : CaseDb
  pub ensured :
      Ensured complaint.id decision
        (target_of request.action)
        (first_where (is_sent_to decision.id (target_of request.action)) w.escalations)
        w.cases
        row
        between
  pub acted : Acted request.action user_id complaint.id row.0 row.1 between w'.cases

-- An action that returns was taken by an active commander of the complaint's station, on the latest
-- decision of the complaint, which refuses it and is the one that the request names. It opens the
-- escalation to the action's target unless there is one; then an acknowledgement marks it if it is
-- open, and is not made of a resolved one, and a forwarding makes the complaint escalated if the
-- escalation is new. Nothing else of the case tables changes.
pub act_on_review-Reviewed :
    (user_id complaint_id : ℕ) (request : ReviewAction) (w : World)
    → Ensures
        (act_on_review user_id complaint_id request w)
        (λ _ w'. Reviewed user_id complaint_id request w w')
unfolding act_on_review
act_on_review-Reviewed user_id complaint_id request w = Ensures-rolled_back _ _ (
    Ensures-review_scope _ _ _ _ λ officer complaint decision scoped.
      Ensures-raise_if _ _ _ _ λ expected. Ensures-gets _ _ _ (
        Ensures-bind _ _ _ _ (Ensures-ensure_row complaint.id decision _ _ _) λ row w1 ensured.
          Ensures-bind _ _ _ _ (Ensures-act request.action user_id complaint.id row.0 row.1 _)
            λ changed w2 acted.
              Ensures-keeps cases_of _ _ _ (Keeps-audit_change _ _ complaint decision row.0 request)
                λ _ w3 s3. Ensures-last _ _ (
                  Ensures-keeps cases_of _ _ _ (Keeps-snapshot decision _) λ out w4 s4.
                    Ensures-pure _ _ (record {
                      officer = officer;
                      complaint = complaint;
                      decision = decision;
                      scoped = scoped;
                      as_expected = equal_of _ _ expected;
                      row = row;
                      between = w1.cases;
                      ensured = ensured;
                      acted = rw (← (s4 ∙ s3)) at acted;
                    }))))
