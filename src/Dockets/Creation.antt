-- ===== src/Dockets/Creation.antt =====
-- The creation of a docket from an accepted complaint, as `decide` and `open` make it.
use saps_case_dockets.Prelude.{ℕ, ◌+◌, ◌≡◌, refl, ap, ◌∙◌, true, false, none, some, exists_where}
use saps_case_dockets.Text.{codes}
use saps_case_dockets.Schema.{
  World, CaseDb, Complaint, ComplaintStatus, ComplaintDecision, Docket, DocketStatus,
  DocketStatusHistory, Officer,
}
use saps_case_dockets.Tx.Rules.{
  Ensures, cases_of, Ensures-gets, Ensures-or_raise, Ensures-pure, Ensures-utcnow, Ensures-new_id,
  Ensures-keeps,
}
use saps_case_dockets.Identifiers.Quiet.{Keeps-allocate_cas_number}
use saps_case_dockets.Notify.Quiet.{Keeps-audit, Keeps-notify_complainant}
use saps_case_dockets.Store.{clashes, docket_is_accepted}
use saps_case_dockets.Store.Effects.{
  Ensures-insert_docket, Ensures-update_complaint_status, Ensures-insert_history,
}
use saps_case_dockets.Store.Writes.{add_docket, add_history, change_complaint, set_status}
use saps_case_dockets.Dockets.{create_from_acceptance}

-- the first entry of a docket's history
abbrev pub initial_entry : ℕ → Docket → ℕ → DocketStatusHistory
initial_entry id docket user_id = record {
  id = id;
  docket_id = docket.id;
  from_status = none;
  to_status = DocketStatus.pending_approval;
  changed_by_user_id = user_id;
  change_reason = some (codes "Docket created from accepted complaint");
  changed_at = docket.opened_at;
}

-- the tables with a new docket, its first entry and the complaint's new status
abbrev pub with_docket : ℕ → Docket → ℕ → CaseDb → CaseDb
with_docket id docket user_id c =
    change_complaint docket.complaint_id (set_status ComplaintStatus.docket_created)
      (add_history (initial_entry id docket user_id) (add_docket docket c))

-- What a creation that returned has done.
pub record Created (user_id : ℕ) (officer : Officer) (complaint : Complaint)
    (decision : ComplaintDecision) (c : CaseDb) (docket : Docket) (c' : CaseDb) : Type 0 where
  pub of_complaint : docket.complaint_id ≡ complaint.id
  pub of_decision : docket.created_from_decision_id ≡ decision.id
  pub opened_by : docket.opened_by_officer_id ≡ officer.id
  pub is_pending : docket.status ≡ DocketStatus.pending_approval
  pub is_first : exists_where (clashes docket) c.dockets ≡ false
  pub is_accepted : docket_is_accepted c docket ≡ true
  pub entry_id : ℕ
  pub written : c' ≡ with_docket entry_id docket user_id c

pub create_from_acceptance-Created :
    (user_id : ℕ) (officer : Officer) (complaint : Complaint) (decision : ComplaintDecision)
    (w : World)
    → Ensures
        (create_from_acceptance user_id officer complaint decision w)
        (λ docket w'. Created user_id officer complaint decision w.cases docket w'.cases)
unfolding create_from_acceptance
create_from_acceptance-Created user_id officer complaint decision w = Ensures-gets _ _ _ (
    Ensures-or_raise _ _ _ _ λ station active. Ensures-utcnow _ _ (
      Ensures-keeps cases_of _ _ _ (Keeps-allocate_cas_number _ _) λ cas w1 s1. Ensures-new_id _ _ (
        Ensures-insert_docket _ _ _ λ free accepted. Ensures-new_id _ _ (
          Ensures-insert_history _ _ _ λ moved first.
            Ensures-update_complaint_status _ _ _ _ λ fits.
              Ensures-keeps cases_of _ _ _ (Keeps-audit cases_of (λ _ _. refl) _ _ _ _ _) λ _ w2 s2.
                Ensures-keeps cases_of _ _ _
                  (Keeps-notify_complainant cases_of (λ _ _. refl) _ _ _ _)
                  λ _ w3 s3. Ensures-pure _ _ (record {
                    of_complaint = refl;
                    of_decision = refl;
                    opened_by = refl;
                    is_pending = refl;
                    is_first = rw s1 at free;
                    is_accepted = rw s1 at accepted;
                    entry_id = w1.platform.uuid (w1.drawn + 1);
                    written = s3 ∙ s2 ∙ ap (with_docket _ _ _) s1;
                  })))))
