-- ===== src/Complaints/Review.antt =====
-- What the start of a review does.
use saps_case_dockets.Prelude.{
  equal_of, ℕ, ◌≡◌, refl, true, false, not, some, [], ◌∷◌, ◌==◌, first_where, exists_where, arith,
}
use saps_case_dockets.Schema.{World, Complaint, ComplaintStatus, Officer, charge_officer}
use saps_case_dockets.Tx.Rules.{
  Ensures, cases_of, Ensures-transactional, Ensures-gets, Ensures-raise_if, Ensures-or_raise,
  Ensures-pure, Ensures-utcnow, Ensures-keeps,
}
use saps_case_dockets.Access.{has_one_of, active_user_officer}
use saps_case_dockets.Access.Officers.{Ensures-station_officer}
use saps_case_dockets.Notify.Quiet.{Keeps-audit}
use saps_case_dockets.Store.{is_complaint}
use saps_case_dockets.Store.Effects.{Ensures-start_complaint_review}
use saps_case_dockets.Store.Writes.{change_complaint, reviewed_at}
use saps_case_dockets.Complaints.{is_submitted, start_review}

-- What an answered start of a review says of its request.
pub record Started (user_id complaint_id : ℕ) (w : World) (out : Complaint) (w' : World)
    : Type 0 where
  pub officer : Officer
  pub row : Complaint
  pub is_charge_officer : has_one_of w.access user_id (charge_officer ∷ []) ≡ true
  pub own_profile : active_user_officer w.access user_id ≡ some officer
  pub known : first_where (is_complaint complaint_id) w.complaints ≡ some row
  pub same_station : row.station_id ≡ officer.station_id
  pub was_submitted : row.status ≡ ComplaintStatus.submitted
  pub has_no_docket : exists_where (λ d. d.complaint_id == row.id) w.dockets ≡ false
  pub answered : out ≡ reviewed_at (w.platform.clock w.reads) row
  pub written : w'.cases ≡ change_complaint row.id (reviewed_at (w.platform.clock w.reads)) w.cases

submitted_of : (s : ComplaintStatus) → not (is_submitted s) ≡ false → s ≡ ComplaintStatus.submitted
submitted_of s h = ground arith

-- A start of a review that returns was made by an active charge officer of the complaint's station,
-- on a complaint that was submitted and has no docket; it puts that complaint under review with the
-- time that the clock read, and changes nothing else of the case tables.
pub start_review-Started :
    (user_id complaint_id : ℕ) (w : World)
    → Ensures (start_review user_id complaint_id w) (Started user_id complaint_id w)
unfolding start_review
start_review-Started user_id complaint_id w = Ensures-transactional _ _ _ (
    Ensures-station_officer _ _ _ _ λ officer role profile. Ensures-gets _ _ _ (
      Ensures-or_raise _ _ _ _ λ row found. Ensures-raise_if _ _ _ _ λ near.
        Ensures-raise_if _ _ _ _ λ submitted. Ensures-utcnow _ _ (
          Ensures-start_complaint_review _ _ _ _ λ free.
            Ensures-keeps cases_of _ _ _ (Keeps-audit cases_of (λ _ _. refl) _ _ _ _ _) λ _ w1 same.
              Ensures-pure _ _ (record {
                officer = officer;
                row = row;
                is_charge_officer = role;
                own_profile = profile;
                known = found;
                same_station = equal_of _ _ near;
                was_submitted = submitted_of _ submitted;
                has_no_docket = free;
                answered = refl;
                written = same;
              }))))
