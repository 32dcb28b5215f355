-- ===== src/Dockets/Review.antt =====
-- The commander's review of a docket.
use saps_case_dockets.Prelude.{
  ℕ, ◌+◌, ◌≡◌, refl, ap, subst, true, false, not, Option, some, ◌==◌, max_where, first_where, arith,
}
use saps_case_dockets.Schema.{
  World, CaseDb, Complaint, Docket, DocketStatus, DocketStatusHistory, ApprovalDecision, Officer,
}
use saps_case_dockets.Text.{Text}
use saps_case_dockets.Schema.{station_commander}
use saps_case_dockets.Tx.Rules.{
  Ensures, cases_of, Ensures-transactional, Ensures-gets, Ensures-raise_if, Ensures-or_raise,
  Ensures-pure, Ensures-last, Ensures-bind, Ensures-utcnow, Ensures-new_id, Ensures-keeps,
}
use saps_case_dockets.Access.{has_role, active_officer}
use saps_case_dockets.Access.Officers.{Ensures-active_officer_with_role}
use saps_case_dockets.Notify.Quiet.{Keeps-audit, Keeps-enqueue}
use saps_case_dockets.Store.{is_docket}
use saps_case_dockets.Store.Effects.{
  Ensures-insert_approval, Ensures-update_docket, Ensures-insert_history,
}
use saps_case_dockets.Store.Writes.{add_approval, change_docket, add_history}
use saps_case_dockets.Dockets.{
  DocketApprovalRequest, DocketApprovalOut, approve, record_approval, station_complaint,
  status_after, is_pending,
}

-- the entry that an approval adds to the history
abbrev pub approval_entry : ℕ → ℕ → ℕ → Option Text → ℕ → DocketStatusHistory
approval_entry id docket_id user_id notes now = record {
  id = id;
  docket_id = docket_id;
  from_status = some DocketStatus.pending_approval;
  to_status = DocketStatus.approved;
  changed_by_user_id = user_id;
  change_reason = notes;
  changed_at = now;
}

abbrev pub set_docket_status : DocketStatus → Docket → Docket
set_docket_status status d = record d { status = status }

-- What a review does to the case tables beside its own row: an approval moves the docket and adds
-- the entry, a return for correction does nothing.
abbrev pub Recorded : ApprovalDecision → ℕ → ℕ → Option Text → ℕ → CaseDb → CaseDb → Type 0
Recorded ApprovalDecision.approved docket_id user_id notes now c c' =
    (id : ℕ) × (c'
      ≡ add_history (approval_entry id docket_id user_id notes now)
          (change_docket docket_id (set_docket_status DocketStatus.approved) c))
Recorded ApprovalDecision.returned_for_correction docket_id user_id notes now c c' = c' ≡ c

Ensures-record_approval :
    (decision : ApprovalDecision) (user_id : ℕ) (complaint : Complaint) (docket : Docket)
    (notes : Option Text) (id now : ℕ) (w : World)
    → Ensures
        (record_approval decision user_id complaint docket notes id now w)
        (λ _ w'. Recorded decision docket.id user_id notes now w.cases w'.cases)
unfolding record_approval
Ensures-record_approval ApprovalDecision.returned_for_correction user_id c docket notes id now w =
    Ensures-pure _ _ refl
Ensures-record_approval ApprovalDecision.approved user_id c docket notes id now w =
    Ensures-update_docket _ _ _ _ λ accepted.
      Ensures-keeps cases_of _ _ _ (Keeps-enqueue cases_of (λ _ _. refl) _ _ _ _) λ _ w' same.
        Ensures-new_id _ _ (
          Ensures-last _ _ (
            Ensures-insert_history _ _ _
              λ moved free. Ensures-pure _ _ (_, ap (add_history _) same)))

-- What an answered review says of its request: who asked, which docket was reviewed, what was
-- written and what was answered.
pub record Reviewed (user_id docket_id : ℕ) (request : DocketApprovalRequest) (w : World)
    (out : DocketApprovalOut) (w' : World) : Type 0 where
  pub officer : Officer
  pub docket : Docket
  pub complaint : Complaint
  pub is_commander : has_role w.access user_id station_commander ≡ true
  pub own_profile : active_officer w.access user_id ≡ some officer
  pub known : first_where (is_docket docket_id) w.dockets ≡ some docket
  pub same_station :
      station_complaint docket.complaint_id officer.station_id w.cases ≡ some complaint
  pub was_pending : docket.status ≡ DocketStatus.pending_approval
  pub next_sequence :
      out.approval.decision_sequence
      ≡ max_where (λ a. a.docket_id == docket.id) (λ a. a.decision_sequence) w.approvals + 1
  pub answered : out.docket_status ≡ status_after request.decision docket.status
  pub written :
      Recorded request.decision docket.id user_id request.notes out.approval.decided_at
        (add_approval out.approval w.cases)
        w'.cases

one_row : {o : Option Docket} {a b : Docket} → o ≡ some a → o ≡ some b → a ≡ b
one_row p q = cc

was_pending_of : (s : DocketStatus) → not (is_pending s) ≡ false → s ≡ DocketStatus.pending_approval
was_pending_of s h = ground arith

-- A review that returns was asked by an active commander of the complaint's station, met a docket
-- that was pending, numbers its entry next after the docket's earlier ones, and changes the case
-- tables by that entry and, if it approves, by the docket's status and its history alone.
pub approve-Reviewed :
    (user_id docket_id : ℕ) (request : DocketApprovalRequest) (w : World)
    → Ensures (approve user_id docket_id request w) (Reviewed user_id docket_id request w)
unfolding approve
approve-Reviewed user_id docket_id request w = Ensures-transactional _ _ _ (
    Ensures-active_officer_with_role _ _ _ _ λ officer role profile. Ensures-gets _ _ _ (
      Ensures-or_raise _ _ _ _ λ parent has_parent. Ensures-gets _ _ _ (
        Ensures-or_raise _ _ _ _ λ complaint near. Ensures-gets _ _ _ (
          Ensures-or_raise _ _ _ _ λ docket held. Ensures-raise_if _ _ _ _ λ pending.
            Ensures-gets _ _ _ (
              Ensures-utcnow _ _ (
                Ensures-new_id _ _ (
                  Ensures-insert_approval _ _ _ λ free positive.
                    Ensures-bind _ _ _ _ (Ensures-record_approval _ _ _ _ _ _ _ _) λ _ w' done.
                      Ensures-keeps cases_of _ _ _ (Keeps-audit cases_of (λ _ _. refl) _ _ _ _ _)
                        λ _ w'' same. Ensures-pure _ _ (record {
                          officer = officer;
                          docket = docket;
                          complaint = complaint;
                          is_commander = role;
                          own_profile = profile;
                          known = held;
                          same_station =
                              subst
                                (λ (d : Docket).
                                  station_complaint d.complaint_id officer.station_id w.cases
                                  ≡ some complaint)
                                (one_row has_parent held) near;
                          was_pending = was_pending_of docket.status pending;
                          next_sequence = refl;
                          answered = refl;
                          written = rw same done;
                        }))))))))
