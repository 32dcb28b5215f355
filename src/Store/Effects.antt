-- ===== src/Store/Effects.antt =====
-- What a write that returned has done: one rule for each write, by which the proof of a handler
-- goes on behind it with what the schema has checked.
use saps_case_dockets.Prelude.{
  ℕ, ◌≡◌, Bool, true, false, not, ◌||◌, ◌==◌, exists_where, ltb, arith, refl, if◌then◌else◌,
}
use saps_case_dockets.Schema.{
  World, CaseDb, ComplaintStatus, ComplaintDecision, RefusalEscalation, Docket, DocketApproval,
  CaseAssignment, DocketStatusHistory, InvestigationNote, EvidenceItem, EvidenceCustodyEvent,
}
use saps_case_dockets.Tx.{Tx, ok, err, sql, continue, ◌>>=◌}
use saps_case_dockets.Tx.Rules.{Ensures, Ensures-put_cases}
use saps_case_dockets.Store.{
  check, clashes, docket_is_accepted, insert_docket, update_docket, update_complaint_status,
  is_accepted_status, insert_decision, decision_clashes, reason_fits, insert_escalation,
  escalation_clashes, escalates_refusal, update_escalation, insert_approval, approval_clashes,
  insert_assignment, assignment_clashes, insert_history, unchanged, misplaces, insert_note,
  start_complaint_review, insert_item, item_clashes, update_item, insert_custody_event,
}
use saps_case_dockets.Store.Writes.{
  with_cases, change_complaint, set_status, add_decision, add_escalation, change_escalation,
  add_docket, change_docket, add_approval, add_assignment, add_history, add_note, reviewed_at,
  add_item, change_item, add_custody_event,
}

false_of_not : {b : Bool} → not b ≡ true → b ≡ false
false_of_not h = ground arith

module _ {ℓ κ} {B : Type ℓ} {Q : B → World → Type κ} where
  Ensures-if {ι} :
      {C : Type ι} (b : Bool) (f : Unit {0} → Tx C) (w : World) (k : C → Tx B)
      → (b ≡ true → Ensures ((f tt >>= k) w) Q)
      → Ensures (let (r, w') = continue (if b then ok tt else err sql) w f in continue r w' k) Q
  unfolding ◌>>=◌
  Ensures-if true f w k next = next refl
  Ensures-if false f w k next = record { holds = tt }

  -- a check at the head of a write
  pub Ensures-check {ι} :
      {C : Type ι} (holds : CaseDb → Bool) (f : Unit {0} → Tx C) (w : World) (k : C → Tx B)
      → (holds w.cases ≡ true → Ensures ((f tt >>= k) w) Q)
      → Ensures ((check holds >>= f >>= k) w) Q
  unfolding ◌>>=◌ check
  Ensures-check holds f w k next = Ensures-if (holds w.cases) f w k next

  pub Ensures-insert_docket :
      (row : Docket) (w : World) (k : Unit {0} → Tx B)
      → (exists_where (clashes row) w.dockets ≡ false
          → docket_is_accepted w.cases row ≡ true
          → Ensures (k tt (with_cases w (add_docket row w.cases))) Q)
      → Ensures ((insert_docket row >>= k) w) Q
  unfolding insert_docket
  Ensures-insert_docket row w k next =
      Ensures-check _ _ _ _
        λ c0. Ensures-check _ _ _ _ λ c1. Ensures-put_cases _ _ _ (next (false_of_not c0) c1)

  pub Ensures-update_docket :
      (row : Docket) (f : Docket → Docket) (w : World) (k : Unit {0} → Tx B)
      → (docket_is_accepted w.cases (f row) ≡ true
          → Ensures (k tt (with_cases w (change_docket row.id f w.cases))) Q)
      → Ensures ((update_docket row f >>= k) w) Q
  unfolding update_docket
  Ensures-update_docket row f w k next =
      Ensures-check _ _ _ _ λ c0. Ensures-put_cases _ _ _ (next c0)

  pub Ensures-update_complaint_status :
      (id : ℕ) (status : ComplaintStatus) (w : World) (k : Unit {0} → Tx B)
      → ((is_accepted_status status || not (exists_where (λ d. d.complaint_id == id) w.dockets))
            ≡ true
          → Ensures (k tt (with_cases w (change_complaint id (set_status status) w.cases))) Q)
      → Ensures ((update_complaint_status id status >>= k) w) Q
  unfolding update_complaint_status
  Ensures-update_complaint_status id status w k next =
      Ensures-check _ _ _ _ λ c0. Ensures-put_cases _ _ _ (next c0)

  pub Ensures-insert_decision :
      (row : ComplaintDecision) (w : World) (k : Unit {0} → Tx B)
      → (exists_where (decision_clashes row) w.decisions ≡ false
          → reason_fits row.decision row.refusal_reason_id ≡ true
          → ltb 0 row.decision_sequence ≡ true
          → Ensures (k tt (with_cases w (add_decision row w.cases))) Q)
      → Ensures ((insert_decision row >>= k) w) Q
  unfolding insert_decision
  Ensures-insert_decision row w k next = Ensures-check _ _ _ _ λ c0.
      Ensures-check _ _ _ _
        λ c1. Ensures-check _ _ _ _ λ c2. Ensures-put_cases _ _ _ (next (false_of_not c0) c1 c2)

  pub Ensures-insert_escalation :
      (row : RefusalEscalation) (w : World) (k : Unit {0} → Tx B)
      → (exists_where (escalation_clashes row) w.escalations ≡ false
          → escalates_refusal w.cases row ≡ true
          → Ensures (k tt (with_cases w (add_escalation row w.cases))) Q)
      → Ensures ((insert_escalation row >>= k) w) Q
  unfolding insert_escalation
  Ensures-insert_escalation row w k next =
      Ensures-check _ _ _ _
        λ c0. Ensures-check _ _ _ _ λ c1. Ensures-put_cases _ _ _ (next (false_of_not c0) c1)

  pub Ensures-update_escalation :
      (row : RefusalEscalation) (f : RefusalEscalation → RefusalEscalation) (w : World)
      (k : Unit {0} → Tx B)
      → (escalates_refusal w.cases (f row) ≡ true
          → Ensures (k tt (with_cases w (change_escalation row.id f w.cases))) Q)
      → Ensures ((update_escalation row f >>= k) w) Q
  unfolding update_escalation
  Ensures-update_escalation row f w k next =
      Ensures-check _ _ _ _ λ c0. Ensures-put_cases _ _ _ (next c0)

  pub Ensures-insert_approval :
      (row : DocketApproval) (w : World) (k : Unit {0} → Tx B)
      → (exists_where (approval_clashes row) w.approvals ≡ false
          → ltb 0 row.decision_sequence ≡ true
          → Ensures (k tt (with_cases w (add_approval row w.cases))) Q)
      → Ensures ((insert_approval row >>= k) w) Q
  unfolding insert_approval
  Ensures-insert_approval row w k next =
      Ensures-check _ _ _ _
        λ c0. Ensures-check _ _ _ _ λ c1. Ensures-put_cases _ _ _ (next (false_of_not c0) c1)

  pub Ensures-insert_assignment :
      (row : CaseAssignment) (w : World) (k : Unit {0} → Tx B)
      → (exists_where (assignment_clashes row) w.assignments ≡ false
          → Ensures (k tt (with_cases w (add_assignment row w.cases))) Q)
      → Ensures ((insert_assignment row >>= k) w) Q
  unfolding insert_assignment
  Ensures-insert_assignment row w k next =
      Ensures-check _ _ _ _ λ c0. Ensures-put_cases _ _ _ (next (false_of_not c0))

  pub Ensures-insert_history :
      (row : DocketStatusHistory) (w : World) (k : Unit {0} → Tx B)
      → (unchanged row.from_status row.to_status ≡ false
          → exists_where (λ h. h.id == row.id || misplaces row h) w.history ≡ false
          → Ensures (k tt (with_cases w (add_history row w.cases))) Q)
      → Ensures ((insert_history row >>= k) w) Q
  unfolding insert_history
  Ensures-insert_history row w k next = Ensures-check _ _ _ _ λ c0.
      Ensures-check _ _ _ _ λ c1. Ensures-put_cases _ _ _ (next (false_of_not c0) (false_of_not c1))

  pub Ensures-insert_note :
      (row : InvestigationNote) (w : World) (k : Unit {0} → Tx B)
      → (exists_where (λ n. n.id == row.id) w.notes ≡ false
          → Ensures (k tt (with_cases w (add_note row w.cases))) Q)
      → Ensures ((insert_note row >>= k) w) Q
  unfolding insert_note
  Ensures-insert_note row w k next =
      Ensures-check _ _ _ _ λ c0. Ensures-put_cases _ _ _ (next (false_of_not c0))

  pub Ensures-insert_item :
      (row : EvidenceItem) (w : World) (k : Unit {0} → Tx B)
      → (exists_where (item_clashes row) w.evidence_items ≡ false
          → Ensures (k tt (with_cases w (add_item row w.cases))) Q)
      → Ensures ((insert_item row >>= k) w) Q
  unfolding insert_item
  Ensures-insert_item row w k next =
      Ensures-check _ _ _ _ λ c0. Ensures-put_cases _ _ _ (next (false_of_not c0))

  pub Ensures-update_item :
      (id : ℕ) (f : EvidenceItem → EvidenceItem) (w : World) (k : Unit {0} → Tx B)
      → Ensures (k tt (with_cases w (change_item id f w.cases))) Q
      → Ensures ((update_item id f >>= k) w) Q
  unfolding update_item
  Ensures-update_item id f w k next = Ensures-put_cases _ _ _ next

  pub Ensures-insert_custody_event :
      (row : EvidenceCustodyEvent) (w : World) (k : Unit {0} → Tx B)
      → (exists_where (λ e. e.id == row.id) w.custody_events ≡ false
          → Ensures (k tt (with_cases w (add_custody_event row w.cases))) Q)
      → Ensures ((insert_custody_event row >>= k) w) Q
  unfolding insert_custody_event
  Ensures-insert_custody_event row w k next =
      Ensures-check _ _ _ _ λ c0. Ensures-put_cases _ _ _ (next (false_of_not c0))

  pub Ensures-start_complaint_review :
      (id now : ℕ) (w : World) (k : Unit {0} → Tx B)
      → (exists_where (λ d. d.complaint_id == id) w.dockets ≡ false
          → Ensures (k tt (with_cases w (change_complaint id (reviewed_at now) w.cases))) Q)
      → Ensures ((start_complaint_review id now >>= k) w) Q
  unfolding start_complaint_review
  Ensures-start_complaint_review id now w k next =
      Ensures-check _ _ _ _ λ c0. Ensures-put_cases _ _ _ (next (false_of_not c0))
