-- ===== src/Complaints.antt =====
-- The charge officer's start of a review (app/modules/complaints/service.py, `start_review`).
pub mod Review
use saps_case_dockets.Prelude.{
  ℕ, Bool, true, false, not, Option, none, some, List, [], ◌∷◌, ◌++◌, ◌==◌, first_where,
}
use saps_case_dockets.Text.{codes}
use saps_case_dockets.Schema.{
  Complaint, ComplaintStatus, Officer, complaint_status_text, charge_officer,
}
use saps_case_dockets.Tx.{
  Tx, http, pure, gets, or_raise, raise_if, utcnow, transactional, ◌>>=◌, ◌>>◌,
}
use saps_case_dockets.Access.{station_officer}
use saps_case_dockets.Notify.{audit}
use saps_case_dockets.Store.{is_complaint, update_complaint_status, start_complaint_review}

abbrev pub is_submitted : ComplaintStatus → Bool
is_submitted ComplaintStatus.submitted = true
is_submitted _ = false

-- `StationComplaintService.start_review`
unfoldable pub start_review : ℕ → ℕ → Tx Complaint
start_review user_id complaint_id = transactional (codes "Complaint review unavailable") do
  officer ← station_officer user_id (charge_officer ∷ [])
  found ← gets (λ w. first_where (is_complaint complaint_id) w.complaints)
  row ← or_raise found (http 404 (codes "Complaint not found"))
  raise_if (not (row.station_id == officer.station_id)) (http 404 (codes "Complaint not found"))
  raise_if (not (is_submitted row.status)) (
      http 409
        (codes "Complaint cannot enter review from status " ++ complaint_status_text row.status))
  now ← utcnow
  start_complaint_review row.id now
  audit user_id "complaint.review.start" "complaint" (some row.id) (some officer.station_id)
  pure (record row { status = ComplaintStatus.under_review; review_started_at = some now })
