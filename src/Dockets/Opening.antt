-- ===== src/Dockets/Opening.antt =====
-- The charge officer's request for the docket of an accepted complaint.
use saps_case_dockets.Prelude.{
  equal_of, ℕ, ◌≡◌, refl, true, false, not, Option, none, some, ◌==◌, ◌&&◌, first_where, top_where,
  arith,
}
use saps_case_dockets.Schema.{
  World, Complaint, ComplaintStatus, ComplaintDecision, Docket, Officer, charge_officer,
}
use saps_case_dockets.Tx.Rules.{
  Ensures, cases_of, Ensures-transactional, Ensures-gets, Ensures-raise_if, Ensures-or_raise,
  Ensures-pure, Ensures-keeps, Ensures-weaken,
}
use saps_case_dockets.Access.{has_role, active_officer}
use saps_case_dockets.Access.Officers.{Ensures-active_officer_with_role}
use saps_case_dockets.Notify.Quiet.{Keeps-audit}
use saps_case_dockets.Store.{is_acceptance, is_complaint}
use saps_case_dockets.Dockets.{is_accepted, open_new, open_existing, open_docket}
use saps_case_dockets.Dockets.Creation.{Created, create_from_acceptance-Created}

-- An existing docket is answered as it is; otherwise one was created from the last acceptance.
abbrev pub Opened : ℕ → Officer → Complaint → Option Docket → World → Docket → World → Type 0
Opened user_id officer complaint (some existing) w docket w' =
    (docket ≡ existing) × (w'.cases ≡ w.cases)
Opened user_id officer complaint none w docket w' =
    (decision : ComplaintDecision) × (top_where
        (λ d. d.complaint_id == complaint.id && is_acceptance d.decision) (λ d. d.decision_sequence)
        w.decisions
      ≡ some decision)
    × (complaint.status ≡ ComplaintStatus.accepted)
    × Created user_id officer complaint decision w.cases docket w'.cases

accepted_of : (s : ComplaintStatus) → not (is_accepted s) ≡ false → s ≡ ComplaintStatus.accepted
accepted_of s h = ground arith

Ensures-open_existing :
    (user_id : ℕ) (officer : Officer) (complaint : Complaint) (existing : Option Docket) (w : World)
    → Ensures
        (open_existing user_id officer complaint existing w)
        (Opened user_id officer complaint existing w)
unfolding open_existing open_new
Ensures-open_existing user_id officer complaint (some existing) w =
    Ensures-keeps cases_of _ _ _ (Keeps-audit cases_of (λ _ _. refl) _ _ _ _ _)
      λ _ w' same. Ensures-pure _ _ (refl, same)
Ensures-open_existing user_id officer complaint none w = Ensures-raise_if _ _ _ _ λ accepted.
    Ensures-gets _ _ _ (
      Ensures-or_raise _ _ _ _ λ decision found.
        Ensures-weaken _ _ (create_from_acceptance-Created user_id officer complaint decision _)
          λ docket w' created. (decision, found, accepted_of _ accepted, created))

-- What an answered request says.
pub record Answered (user_id complaint_id : ℕ) (w : World) (docket : Docket) (w' : World)
    : Type 0 where
  pub officer : Officer
  pub complaint : Complaint
  pub is_charge_officer : has_role w.access user_id charge_officer ≡ true
  pub own_profile : active_officer w.access user_id ≡ some officer
  pub known : first_where (is_complaint complaint_id) w.complaints ≡ some complaint
  pub same_station : complaint.station_id ≡ officer.station_id
  pub opened :
      Opened user_id officer complaint
        (first_where (λ d. d.complaint_id == complaint.id) w.dockets)
        w
        docket
        w'

-- A request for a docket that returns was made by an active charge officer of the complaint's
-- station; it answers the docket that the complaint has, the case tables unchanged, or else creates
-- one from the last acceptance of a complaint that is accepted.
pub open_docket-Answered :
    (user_id complaint_id : ℕ) (w : World)
    → Ensures (open_docket user_id complaint_id w) (Answered user_id complaint_id w)
unfolding open_docket
open_docket-Answered user_id complaint_id w = Ensures-transactional _ _ _ (
    Ensures-active_officer_with_role _ _ _ _ λ officer role profile. Ensures-gets _ _ _ (
      Ensures-or_raise _ _ _ _ λ complaint found. Ensures-raise_if _ _ _ _ λ near.
        Ensures-gets _ _ _ (
          Ensures-weaken _ _ (Ensures-open_existing user_id officer complaint _ _)
            λ docket w' opened. record {
              officer = officer;
              complaint = complaint;
              is_charge_officer = role;
              own_profile = profile;
              known = found;
              same_station = equal_of _ _ near;
              opened = opened;
            })))
