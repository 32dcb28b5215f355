-- ===== src/Refusals/Final.antt =====
-- Decisions on a complaint that was decided before.
use saps_case_dockets.Prelude.{
  ℕ, ◌≡◌, ap, sym, ◌∙◌, true, false, Option, some, List, [], ◌∷◌, ◌==◌, first_where, update_where,
  arith,
}
use saps_case_dockets.Rows.{first_where_sound}
use saps_case_dockets.Schema.{
  World, CaseDb, Complaint, ComplaintStatus, ComplaintDecision, Verdict, RefusalReason, Target,
  Docket, Officer,
}
use saps_case_dockets.Tx.Rules.{Ensures, Ensures-weaken, is_error, is_error-Ensures}
use saps_case_dockets.Store.{is_complaint}
use saps_case_dockets.Store.Writes.{set_status, add_decision}
use saps_case_dockets.Refusals.{ComplaintDecisionRequest, is_decidable, refused_status, decide}
use saps_case_dockets.Refusals.Decision.{Escalated, CarriedOut, decide-Decided}

-- the complaint of that id is in that status
abbrev pub InStatus : ℕ → ComplaintStatus → CaseDb → Type 0
InStatus id status c =
    (row : Complaint) × (first_where (is_complaint id) c.complaints ≡ some row)
    × (row.status ≡ status)

Escalated-complaints :
    (decision : ComplaintDecision) (ts : List Target) (c c' : CaseDb)
    → Escalated decision ts c c'
    → c'.complaints ≡ c.complaints
Escalated-complaints decision [] c c' h = ap (λ (x : CaseDb). x.complaints) h
Escalated-complaints decision (t ∷ ts) c c' h = Escalated-complaints decision ts _ c' h.1

-- the row of that id after a change of status
finds_changed :
    (id key : ℕ) (status : ComplaintStatus) (rows : List Complaint) {row : Complaint}
    → key ≡ id
    → first_where (is_complaint id) rows ≡ some row
    → first_where (is_complaint id) (update_where (λ x. x.id == key) (set_status status) rows)
      ≡ some (set_status status row)
unfolding first_where update_where
finds_changed id key status [] same h = cc
finds_changed id key status (x ∷ xs) {row} same h =
    ground (arith, finds_changed id key status xs {row = row})

id_of :
    (id : ℕ) (rows : List Complaint) {row : Complaint}
    → first_where (is_complaint id) rows ≡ some row
    → row.id ≡ id
id_of id rows {row} h = ground (arith, first_where_sound (is_complaint id) rows {x = row})

refused_status-is_decidable :
    (reason : RefusalReason) → is_decidable (refused_status reason) ≡ false
refused_status-is_decidable reason = ground arith

module _ (user_id : ℕ) (officer : Officer) (complaint : Complaint) (decision : ComplaintDecision)
    (reason : Option RefusalReason) (w : World) (c : CaseDb) (id : ℕ)
    (known : first_where (is_complaint id) c.complaints ≡ some complaint) where
  CarriedOut-InStatus :
      (verdict : Verdict) (status : ComplaintStatus) (docket : Option Docket) (c' : CaseDb)
      → CarriedOut user_id officer complaint decision reason verdict c status docket c'
      → (is_decidable status ≡ false) × InStatus id status c'
  CarriedOut-InStatus Verdict.accepted status docket c' (s, (new, eq, created)) = (
    ap is_decidable s,
    (
      record complaint { status = ComplaintStatus.docket_created },
      ap (λ (x : CaseDb). first_where (is_complaint id) x.complaints) created.written
          ∙ finds_changed id new.complaint_id ComplaintStatus.docket_created _
              (created.of_complaint ∙ id_of id c.complaints known)
              (finds_changed id complaint.id ComplaintStatus.accepted c.complaints
                (id_of id c.complaints known) known),
      sym s,
    ),
  )
  CarriedOut-InStatus Verdict.refused status docket c' (given, _, s, _, escalated) = (
    ap is_decidable s ∙ refused_status-is_decidable given,
    (
      record complaint { status = refused_status given },
      ap (first_where (is_complaint id)) (Escalated-complaints decision _ _ c' escalated)
          ∙ finds_changed id complaint.id (refused_status given) c.complaints
              (id_of id c.complaints known) known,
      sym s,
    ),
  )

not_decidable :
    (id : ℕ) (status : ComplaintStatus) (c : CaseDb) (row : Complaint)
    → is_decidable status ≡ false
    → InStatus id status c
    → first_where (is_complaint id) c.complaints ≡ some row
    → is_decidable row.status ≡ true
    → false ≡ true
not_decidable id status c row closed (other, found, is) known open_case = cc

-- After a decision on a complaint has returned, no further decision on it returns.
pub decide-final :
    (user_id complaint_id : ℕ) (request : ComplaintDecisionRequest) (later_user : ℕ)
    (later : ComplaintDecisionRequest) (w : World)
    → Ensures
        (decide user_id complaint_id request w)
        (λ out w'. is_error (decide later_user complaint_id later w').0 ≡ true)
decide-final user_id complaint_id request later_user later w =
    Ensures-weaken _ _ (decide-Decided user_id complaint_id request w) λ out w' first.
      let closed =
        CarriedOut-InStatus user_id first.officer first.complaint out.decision first.reason w
          (add_decision out.decision w.cases) complaint_id first.known request.decision
          out.complaint_status out.docket w'.cases first.done in
      is_error-Ensures _ (decide-Decided later_user complaint_id later w') λ _ _ second.
        not_decidable complaint_id out.complaint_status w'.cases second.complaint closed.0 closed.1
          second.known second.was_decidable
