-- ===== src/Feedback/Publishing.antt =====
-- The publishing of feedback (app/modules/feedback/service.py, `publish`).
use saps_case_dockets.Prelude.{
  ℕ, ◌≡◌, refl, ◌∙◌, ap, Bool, true, false, not, ◌&&◌, Option, none, some, List, [], ◌∷◌, ◌++◌, inl,
  inr, Option-cases, ◌==◌, true_of, first_where, exists_where, arith,
}
use saps_case_dockets.Schema.{
  World, Db, User, Officer, Docket, Complaint, CaseFeedback, CaseDb, feedback_provide,
}
use saps_case_dockets.Rows.{first_where_sound, exists_where-append}
use saps_case_dockets.Tx.{Tx, ◌>>=◌}
use saps_case_dockets.Tx.Rules.{
  Ensures, Ensures-assoc, Ensures-gets, Ensures-keeps, Ensures-or_raise, Ensures-pure,
  Ensures-put_comms, Ensures-raise_if, Ensures-new_id, Ensures-then, Ensures-transactional,
  Ensures-utcnow, Ensures-weaken,
}
use saps_case_dockets.Access.{has_permission, active_officer}
use saps_case_dockets.Notify.Quiet.{Keeps-audit, Keeps-enqueue, Keeps-notify_complainant}
use saps_case_dockets.Feedback.{
  FeedbackRequest, handles, authorize_officer, authorize, is_feedback, supersedes, check_superseded,
  insert_feedback, new_feedback, publish,
}

-- the case tables and the feedback
abbrev pub told : Db → CaseDb × List CaseFeedback
told db = (db.cases, db.feedback)

-- The docket that a user may write feedback on.
pub record MayWrite (user : User) (docket_id : ℕ) (w : World) (docket : Docket)
    (complaint : Complaint) (officer : Option Officer) : Type 0 where
  pub active : user.is_active ≡ true
  pub permitted : has_permission w.access user.id feedback_provide ≡ true
  pub known : first_where (λ d. d.id == docket_id) w.dockets ≡ some docket
  pub about : first_where (λ c. c.id == docket.complaint_id) w.complaints ≡ some complaint
  pub profile : active_officer w.access user.id ≡ officer
  pub handled : handles w docket complaint officer ≡ true

-- the feedback that the new one corrects, if it corrects one
pub record IsLatest (docket_id complainant_id : ℕ) (corrected : Option ℕ) (rows : List CaseFeedback)
    : Type 0 where
  pub stands : elim corrected [ none ↦ false | some id ↦ exists_where (supersedes id) rows ] ≡ false
  pub exists :
      elim corrected [
        | none ↦ true
        | some id ↦ exists_where (is_feedback docket_id id complainant_id) rows
      ]
      ≡ true

found_exists :
    (p : CaseFeedback → Bool) (rows : List CaseFeedback) (row : CaseFeedback)
    → first_where p rows ≡ some row
    → exists_where p rows ≡ true
unfolding first_where exists_where
found_exists p [] row h = cc
found_exists p (x ∷ rows) row h = ground (arith, found_exists p rows row)

corrected_id :
    (docket_id complainant_id id : ℕ) (rows : List CaseFeedback) (row : CaseFeedback)
    → first_where (is_feedback docket_id id complainant_id) rows ≡ some row
    → row.id ≡ id
corrected_id docket_id complainant_id id rows row h =
    ground (arith, first_where_sound (is_feedback docket_id id complainant_id) rows {x = row} h)

module _ {ℓ κ} {B : Type ℓ} {Q : B → World → Type κ} where
  Ensures-authorize :
      (user : User) (docket_id : ℕ) (w : World) (k : Docket × Complaint × Option Officer → Tx B)
      → ((docket : Docket) (complaint : Complaint) (officer : Option Officer)
          → MayWrite user docket_id w docket complaint officer
          → Ensures (k (docket, complaint, officer) w) Q)
      → Ensures ((authorize user docket_id true >>= k) w) Q
  unfolding authorize authorize_officer
  Ensures-authorize user docket_id w k next = Ensures-assoc _ _ _ _ (
      Ensures-raise_if _ _ _ _ λ active. Ensures-assoc _ _ _ _ (
        Ensures-gets _ _ _ (
          Ensures-assoc _ _ _ _ (
            Ensures-raise_if _ _ _ _ λ permitted. Ensures-assoc _ _ _ _ (
              Ensures-gets _ _ _ (
                Ensures-assoc _ _ _ _ (
                  Ensures-or_raise _ _ _ _ λ docket known. Ensures-assoc _ _ _ _ (
                    Ensures-gets _ _ _ (
                      Ensures-assoc _ _ _ _ (
                        Ensures-or_raise _ _ _ _ λ complaint about. Ensures-assoc _ _ _ _ (
                          Ensures-gets _ _ _ (
                            Ensures-assoc _ _ _ _ (
                              Ensures-assoc _ _ _ _ (
                                Ensures-gets _ _ _ (
                                  Ensures-assoc _ _ _ _ (
                                    Ensures-gets _ _ _ (
                                      Ensures-assoc _ _ _ _ (
                                        Ensures-raise_if _ _ _ _ λ handled. Ensures-then _ _ _ (
                                          Ensures-then _ _ _ (
                                            next docket complaint _ (record {
                                              active = true_of _ active;
                                              permitted = true_of _ permitted;
                                              known = known;
                                              about = about;
                                              profile = refl;
                                              handled = true_of _ handled;
                                            })))))))))))))))))))))

  Ensures-check_superseded :
      (docket_id complainant_id : ℕ) (corrected : Option ℕ) (w : World) (k : Unit {0} → Tx B)
      → (IsLatest docket_id complainant_id corrected w.feedback → Ensures (k tt w) Q)
      → Ensures ((check_superseded docket_id complainant_id corrected >>= k) w) Q
  unfolding check_superseded
  Ensures-check_superseded docket_id complainant_id none w k next =
      Ensures-then _ _ _ (next (record { stands = refl; exists = refl }))
  Ensures-check_superseded docket_id complainant_id (some id) w k next = Ensures-assoc _ _ _ _ (
      Ensures-gets _ _ _ (
        Ensures-assoc _ _ _ _ (
          Ensures-or_raise _ _ _ _ λ previous found. Ensures-assoc _ _ _ _ (
            Ensures-gets _ _ _ (
              Ensures-raise_if _ _ _ _ λ gone. next (record {
                stands =
                    rw (← (corrected_id docket_id complainant_id id w.feedback previous found))
                      gone;
                exists = found_exists _ _ previous found;
              }))))))

  Ensures-insert_feedback :
      (row : CaseFeedback) (w : World) (k : Unit {0} → Tx B)
      → (exists_where (λ f. f.id == row.id) w.feedback ≡ false
          → Ensures
              (k tt (record w {
                db = record w.db { comms = record w.comms { feedback = w.feedback ++ row ∷ [] } };
              }))
              Q)
      → Ensures ((insert_feedback row >>= k) w) Q
  unfolding insert_feedback
  Ensures-insert_feedback row w k next = Ensures-assoc _ _ _ _ (
      Ensures-gets _ _ _ (
        Ensures-assoc _ _ _ _
          (Ensures-raise_if _ _ _ _ λ fresh. Ensures-put_comms _ _ _ (next fresh))))

-- What an answered publication says of its request.
pub record Published (user : User) (docket_id : ℕ) (request : FeedbackRequest) (w : World)
    (out : CaseFeedback) (w' : World) : Type 0 where
  pub docket : Docket
  pub complaint : Complaint
  pub officer : Officer
  pub id : ℕ
  pub allowed : MayWrite user docket_id w docket complaint (some officer)
  pub latest : IsLatest docket.id complaint.complainant_id request.supersedes_feedback_id w.feedback
  pub row : out ≡ new_feedback id docket complaint officer request (w.platform.clock w.reads)
  pub fresh : exists_where (λ f. f.id == id) w.feedback ≡ false
  pub written : told w'.db ≡ (w.cases, w.feedback ++ out ∷ [])

-- A publication that returns was made by an active user with the permission, as the officer of the
-- complaint's station to whom the docket is assigned; what it corrects is feedback to the same
-- complainant on the same docket that nothing has corrected. It adds one row to the feedback, and
-- changes nothing of the case tables.
pub publish-Published :
    (user : User) (docket_id : ℕ) (request : FeedbackRequest) (w : World)
    → Ensures (publish user docket_id request w) (Published user docket_id request w)
unfolding publish
publish-Published user docket_id request w = Ensures-transactional _ _ _ (
    Ensures-authorize user _ _ _ λ docket complaint profile allowed.
      Ensures-or_raise _ _ _ _ λ officer own. Ensures-check_superseded _ _ _ _ _ λ latest.
        Ensures-utcnow _ _ (
          Ensures-new_id _ _ (
            Ensures-insert_feedback _ _ _ λ fresh.
              Ensures-keeps told _ _ _ (Keeps-audit told (λ _ _. refl) _ _ _ _ _) λ _ w1 s1.
                Ensures-keeps told _ _ _ (Keeps-enqueue told (λ _ _. refl) _ _ _ _) λ _ w2 s2.
                  Ensures-keeps told _ _ _ (Keeps-notify_complainant told (λ _ _. refl) _ _ _ _)
                    λ _ w3 s3. Ensures-pure _ _ (record {
                      docket = docket;
                      complaint = complaint;
                      officer = officer;
                      id = _;
                      allowed = rw own at allowed;
                      latest = latest;
                      row = refl;
                      fresh = fresh;
                      written = s3 ∙ s2 ∙ s1;
                    }))))

-- no feedback is corrected by two
unfoldable pub is_unforked : List CaseFeedback → Bool
is_unforked [] = true
is_unforked (x ∷ rows) =
    elim x.supersedes_feedback_id [
      | none ↦ true
      | some id ↦ not (exists_where (supersedes id) rows)
    ]
    && is_unforked rows

is_unforked-append :
    (rows : List CaseFeedback) (row : CaseFeedback)
    → is_unforked rows ≡ true
    → elim row.supersedes_feedback_id [ none ↦ false | some id ↦ exists_where (supersedes id) rows ]
      ≡ false
    → is_unforked (rows ++ row ∷ []) ≡ true
unfolding is_unforked exists_where
is_unforked-append [] row h e = ground arith
is_unforked-append (x ∷ rows) row h e = elim (Option-cases x.supersedes_feedback_id) [
  | inl nothing ↦ ground (arith, nothing, is_unforked-append rows row)
  | inr (id, some_id) ↦ ground (
    arith,
    some_id,
    is_unforked-append rows row,
    exists_where-append (supersedes id) rows (row ∷ []),
  )
]

-- Publications keep the corrections in a line: if no feedback is corrected by two, none is after
-- a publication that returns.
pub publish-is_unforked :
    (user : User) (docket_id : ℕ) (request : FeedbackRequest) (w : World)
    → is_unforked w.feedback ≡ true
    → Ensures (publish user docket_id request w) λ _ w'. is_unforked w'.feedback ≡ true
publish-is_unforked user docket_id request w h =
    Ensures-weaken _ _ (publish-Published user docket_id request w) λ out w' done.
      rw (ap (λ t. t.1) done.written)
        (is_unforked-append w.feedback out h (rw done.row done.latest.stands))
