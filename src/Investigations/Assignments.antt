-- ===== src/Investigations/Assignments.antt =====
-- Who may investigate a docket: assignments and their end.
use saps_case_dockets.Prelude.{
  equal_of, ℕ, ◌≡◌, refl, ◌∙◌, true, false, Option, none, some, ◌==◌, first_where,
}
use saps_case_dockets.Text.{Text, codes}
use saps_case_dockets.Schema.{
  World, CaseDb, Docket, DocketStatus, DocketStatusHistory, CaseAssignment, Officer,
}
use saps_case_dockets.Schema.{investigating_officer}
use saps_case_dockets.Tx.{Tx, ◌>>=◌}
use saps_case_dockets.Tx.Rules.{
  Ensures, cases_of, Ensures-transactional, Ensures-gets, Ensures-raise_if, Ensures-or_raise,
  Ensures-pure, Ensures-bind, Ensures-utcnow, Ensures-new_id, Ensures-keeps, Ensures-then,
  Ensures-put_cases,
}
use saps_case_dockets.Access.{has_role, active_user_officer}
use saps_case_dockets.Access.Officers.{Ensures-investigation_officer}
use saps_case_dockets.Notify.Quiet.{Keeps-audit, Keeps-enqueue, Keeps-notify_complainant}
use saps_case_dockets.Store.{is_active_of}
use saps_case_dockets.Store.Effects.{Ensures-check, Ensures-insert_assignment}
use saps_case_dockets.Store.Writes.{add_assignment, change_assignment, with_cases}
use saps_case_dockets.Investigations.{
  is_busy, AssignmentRequest, is_held_by, ended, end_assignment, end_current, activate, assign,
  unassign,
}
use saps_case_dockets.Investigations.Scope.{InScope, Ensures-scope}
use saps_case_dockets.Investigations.Moves.{Moved, Ensures-transition}

-- the tables when the current assignment, if there is one, has ended
abbrev pub ended_current : Option CaseAssignment → ℕ → Text → CaseDb → CaseDb
ended_current none now reason c = c
ended_current (some current) now reason c = change_assignment current.id (ended now reason) c

-- An approved docket became active with one entry; any other stayed as it was.
abbrev pub Activated : Docket → ℕ → DocketStatus → CaseDb → CaseDb → Type 0
Activated docket user_id DocketStatus.approved c c' =
    (entry : DocketStatusHistory) × Moved docket user_id DocketStatus.active
      (codes "Investigator assigned") c entry c'
Activated docket user_id _ c c' = c' ≡ c

Ensures-activate :
    (docket : Docket) (user_id : ℕ) (status : DocketStatus) (w : World)
    → Ensures
        (activate docket user_id status w)
        (λ _ w'. Activated docket user_id status w.cases w'.cases)
unfolding activate
Ensures-activate docket user_id DocketStatus.approved w =
    Ensures-bind _ _ _ _ (Ensures-transition _ _ _ _ _)
      λ entry w' moved. Ensures-pure _ _ (entry, moved)
Ensures-activate docket user_id _ w = Ensures-pure _ _ refl

module _ {ℓ κ} {B : Type ℓ} {Q : B → World → Type κ} where
  Ensures-end_assignment :
      (id now : ℕ) (reason : Text) (w : World) (k : Unit {0} → Tx B)
      → Ensures (k tt (with_cases w (change_assignment id (ended now reason) w.cases))) Q
      → Ensures ((end_assignment id now reason >>= k) w) Q
  unfolding end_assignment
  Ensures-end_assignment id now reason w k next =
      Ensures-check _ _ _ _ λ dated. Ensures-put_cases _ _ _ next

  Ensures-end_current :
      (current : Option CaseAssignment) (now : ℕ) (reason : Text) (w : World) (k : Unit {0} → Tx B)
      → Ensures (k tt (with_cases w (ended_current current now reason w.cases))) Q
      → Ensures ((end_current current now reason >>= k) w) Q
  unfolding end_current
  Ensures-end_current none now reason w k next = Ensures-then _ _ _ next
  Ensures-end_current (some current) now reason w k next = Ensures-end_assignment _ _ _ _ _ next

-- What an answered assignment says of its request.
pub record Assigned (user_id docket_id : ℕ) (request : AssignmentRequest) (w : World)
    (row : CaseAssignment) (w' : World) : Type 0 where
  pub officer : Officer
  pub docket : Docket
  pub target : Officer
  pub current : Option CaseAssignment
  pub scoped : InScope user_id docket_id true true w officer docket
  pub is_target :
      first_where (λ o. o.id == request.investigating_officer_id) w.officers ≡ some target
  pub same_station : target.station_id ≡ officer.station_id
  pub profile : Officer
  pub is_active : active_user_officer w.access target.user_id ≡ some profile
  pub is_investigator : has_role w.access target.user_id investigating_officer ≡ true
  pub is_current : first_where (is_active_of docket.id) w.assignments ≡ current
  pub not_current : is_held_by current target.id ≡ false
  pub was_free : is_busy target.id w.cases ≡ false
  pub row_docket : row.docket_id ≡ docket.id
  pub row_officer : row.investigating_officer_id ≡ target.id
  pub row_time : row.assigned_at ≡ w.platform.clock w.reads
  pub row_open : row.unassigned_at ≡ none
  pub written :
      Activated docket user_id docket.status
        (add_assignment row (ended_current current row.assigned_at request.reason w.cases))
        w'.cases

-- An assignment that returns was made by an active commander for a writable docket of the own
-- station, to an investigator of that station who was not busy and did not hold the docket; it
-- ends the current assignment, adds the new one, and activates the docket if it was approved.
pub assign-Assigned :
    (user_id docket_id : ℕ) (request : AssignmentRequest) (w : World)
    → Ensures (assign user_id docket_id request w) (Assigned user_id docket_id request w)
unfolding assign
assign-Assigned user_id docket_id request w = Ensures-transactional _ _ _ (
    Ensures-scope _ _ _ _ _ _ λ officer docket scoped. Ensures-gets _ _ _ (
      Ensures-or_raise _ _ _ _ λ target found. Ensures-raise_if _ _ _ _ λ near.
        Ensures-investigation_officer _ _ _ _ λ profile role active. Ensures-gets _ _ _ (
          Ensures-raise_if _ _ _ _ λ other. Ensures-gets _ _ _ (
            Ensures-raise_if _ _ _ _ λ free. Ensures-utcnow _ _ (
              Ensures-end_current _ _ _ _ _ (
                Ensures-new_id _ _ (
                  Ensures-insert_assignment _ _ _ λ fits.
                    Ensures-bind _ _ _ _ (Ensures-activate docket _ _ _) λ _ w1 activated.
                      Ensures-keeps cases_of _ _ _ (Keeps-audit cases_of (λ _ _. refl) _ _ _ _ _)
                        λ _ w2 s2. Ensures-gets _ _ _ (
                          Ensures-or_raise _ _ _ _ λ complaint _.
                            Ensures-keeps cases_of _ _ _
                              (Keeps-enqueue cases_of (λ _ _. refl) _ _ _ _)
                              λ _ w3 s3.
                                Ensures-keeps cases_of _ _ _
                                  (Keeps-notify_complainant cases_of (λ _ _. refl) _ _ _ _)
                                  λ _ w4 s4. Ensures-pure _ _ (record {
                                    officer = officer;
                                    docket = docket;
                                    target = target;
                                    current = _;
                                    scoped = scoped;
                                    is_target = found;
                                    same_station = equal_of _ _ near;
                                    profile = profile;
                                    is_active = active;
                                    is_investigator = role;
                                    is_current = refl;
                                    not_current = other;
                                    was_free = free;
                                    row_docket = refl;
                                    row_officer = refl;
                                    row_time = refl;
                                    row_open = refl;
                                    written = rw (← (s4 ∙ s3 ∙ s2)) at activated;
                                  })))))))))

-- What an answered end of an assignment says of its request.
pub record Unassigned (user_id docket_id : ℕ) (reason : Text) (w : World) (row : CaseAssignment)
    (w' : World) : Type 0 where
  pub officer : Officer
  pub docket : Docket
  pub current : CaseAssignment
  pub scoped : InScope user_id docket_id true true w officer docket
  pub is_current : first_where (is_active_of docket.id) w.assignments ≡ some current
  pub answered : row ≡ ended (w.platform.clock w.reads) reason current
  pub written :
      w'.cases ≡ change_assignment current.id (ended (w.platform.clock w.reads) reason) w.cases

-- An end of an assignment that returns was made by an active commander for a writable docket of
-- the own station that had a current assignment, and ends that assignment alone.
pub unassign-Unassigned :
    (user_id docket_id : ℕ) (reason : Text) (w : World)
    → Ensures (unassign user_id docket_id reason w) (Unassigned user_id docket_id reason w)
unfolding unassign
unassign-Unassigned user_id docket_id reason w = Ensures-transactional _ _ _ (
    Ensures-scope _ _ _ _ _ _ λ officer docket scoped. Ensures-gets _ _ _ (
      Ensures-or_raise _ _ _ _ λ current found. Ensures-utcnow _ _ (
        Ensures-end_assignment _ _ _ _ _ (
          Ensures-keeps cases_of _ _ _ (Keeps-audit cases_of (λ _ _. refl) _ _ _ _ _) λ _ w1 same.
            Ensures-pure _ _ (record {
              officer = officer;
              docket = docket;
              current = current;
              scoped = scoped;
              is_current = found;
              answered = refl;
              written = same;
            })))))
