-- ===== src/Feedback.antt =====
-- Official feedback on a docket: app/modules/feedback/service.py with feedback/repository.py.
pub mod Publishing
use saps_case_dockets.Prelude.{
  ℕ, String, Bool, true, false, not, ◌&&◌, ◌||◌, Option, none, some, List, [], ◌∷◌, ◌++◌, ◌==◌, ltb,
  leb, is_none, is_id, if◌then◌else◌, first_where, exists_where, rows_where,
}
use saps_case_dockets.Text.{Text, codes}
use saps_case_dockets.Schema.{
  World, User, Officer, Docket, Complaint, CaseFeedback, PermissionCode, feedback_published,
  case_track_own, docket_view_assigned, feedback_provide,
}
use saps_case_dockets.Tx.{
  Tx, sql, http, pure, raise, gets, or_raise, raise_if, put_comms, utcnow, new_id, transactional,
  ◌>>=◌, ◌>>◌,
}
use saps_case_dockets.Access.{has_permission, active_officer}
use saps_case_dockets.Notify.{audit, enqueue, notify_complainant}
use saps_case_dockets.Listings.{before, ordered, page}

abbrev pub insufficient : Text
insufficient = codes "Insufficient permission"

abbrev pub no_docket : Text
no_docket = codes "Docket not found"

-- `FeedbackRepository.owner`
unfoldable pub is_owner : World → ℕ → ℕ → Bool
is_owner w complainant_id user_id =
    exists_where (λ c. c.id == complainant_id && is_id c.user_id user_id) w.complainants

-- `FeedbackRepository.assigned`
unfoldable pub has_assignment : World → ℕ → ℕ → Bool
has_assignment w docket_id officer_id =
    exists_where
      (λ a.
        a.docket_id == docket_id
        && a.investigating_officer_id == officer_id
        && is_none a.unassigned_at)
      w.assignments

-- the officer, at the complaint's station and with the docket
abbrev pub handles : World → Docket → Complaint → Option Officer → Bool
handles w docket complaint none = false
handles w docket complaint (some officer) =
    officer.station_id == complaint.station_id && has_assignment w docket.id officer.id

-- one of the permissions that the call asks for
abbrev pub is_permitted : World → ℕ → Bool → Bool
is_permitted w user_id true = has_permission w.access user_id feedback_provide
is_permitted w user_id false =
    has_permission w.access user_id case_track_own
    || has_permission w.access user_id docket_view_assigned

abbrev pub reads_own : World → ℕ → Bool → Complaint → Bool
reads_own w user_id write complaint =
    not write
    && (has_permission w.access user_id case_track_own
        && is_owner w complaint.complainant_id user_id)

abbrev pub may_handle : World → ℕ → Bool → Bool
may_handle w user_id write = write || has_permission w.access user_id docket_view_assigned

-- the last two tests of `authorize`
unfoldable pub authorize_officer : User → Docket → Complaint → Bool → Tx (Option Officer)
authorize_officer user docket complaint write = do
  officer ← gets (λ w. active_officer w.access user.id)
  allowed ← gets (λ w. may_handle w user.id write && handles w docket complaint officer)
  raise_if (not allowed) (http 404 no_docket)
  pure officer

-- `FeedbackService.authorize`
unfoldable pub authorize : User → ℕ → Bool → Tx (Docket × Complaint × Option Officer)
unfolding authorize_officer
authorize user docket_id write = do
  raise_if (not user.is_active) (http 403 insufficient)
  permitted ← gets (λ w. is_permitted w user.id write)
  raise_if (not permitted) (http 403 insufficient)
  known ← gets (λ w. first_where (λ d. d.id == docket_id) w.dockets)
  docket ← or_raise known (http 404 no_docket)
  found ← gets (λ w. first_where (λ c. c.id == docket.complaint_id) w.complaints)
  complaint ← or_raise found (http 404 no_docket)
  own ← gets (λ w. reads_own w user.id write complaint)
  officer ← if own then pure none else authorize_officer user docket complaint write
  pure (docket, complaint, officer)

-- `FeedbackRepository.get`
abbrev pub is_feedback : ℕ → ℕ → ℕ → CaseFeedback → Bool
is_feedback docket_id feedback_id complainant_id f =
    f.id == feedback_id && (f.docket_id == docket_id && f.complainant_id == complainant_id)

-- `FeedbackRepository.superseded`
abbrev pub supersedes : ℕ → CaseFeedback → Bool
supersedes feedback_id f = is_id f.supersedes_feedback_id feedback_id

pub record FeedbackRequest : Type 0 where
  pub feedback_type : String
  pub subject : String
  pub message : Text
  pub supersedes_feedback_id : Option ℕ

-- `if data.supersedes_feedback_id is not None: ...`
unfoldable pub check_superseded : ℕ → ℕ → Option ℕ → Tx (Unit {0})
check_superseded docket_id complainant_id none = pure tt
check_superseded docket_id complainant_id (some feedback_id) = do
  found ← gets (λ w. first_where (is_feedback docket_id feedback_id complainant_id) w.feedback)
  previous ← or_raise found (http 404 (codes "Feedback not found"))
  gone ← gets (λ w. exists_where (supersedes previous.id) w.feedback)
  raise_if gone (http 409 (codes "Feedback already superseded; correct the latest record"))

-- the key
unfoldable pub insert_feedback : CaseFeedback → Tx (Unit {0})
insert_feedback row = do
  taken ← gets (λ w. exists_where (λ f. f.id == row.id) w.feedback)
  raise_if taken sql
  put_comms (λ w. record w.comms { feedback = w.feedback ++ row ∷ [] })

abbrev pub new_feedback : ℕ → Docket → Complaint → Officer → FeedbackRequest → ℕ → CaseFeedback
new_feedback id docket complaint officer request now = record {
  id = id;
  docket_id = docket.id;
  complainant_id = complaint.complainant_id;
  provided_by_officer_id = officer.id;
  feedback_type = request.feedback_type;
  subject = request.subject;
  message = request.message;
  supersedes_feedback_id = request.supersedes_feedback_id;
  published_at = now;
}

abbrev pub feedback_unavailable : Text
feedback_unavailable = codes "Feedback service unavailable"

-- `FeedbackService.publish`; a call that writes has come with an officer
unfoldable pub publish : User → ℕ → FeedbackRequest → Tx CaseFeedback
unfolding authorize check_superseded insert_feedback
publish user docket_id request = transactional feedback_unavailable do
  context ← authorize user docket_id true
  officer ← or_raise context.2 (http 404 no_docket)
  check_superseded context.0.id context.1.complainant_id request.supersedes_feedback_id
  now ← utcnow
  id ← new_id
  insert_feedback (new_feedback id context.0 context.1 officer request now)
  audit user.id "feedback.published" "case_feedback" (some id) (some context.1.station_id)
  notification_id ← enqueue context.1 (some context.0.id) feedback_published id
  notify_complainant context.1 feedback_published (some context.0.id) user.id
  pure (new_feedback id context.0 context.1 officer request now)

-- `FeedbackService.list`
unfoldable pub list_feedback : User → ℕ → ℕ → ℕ → Tx (List CaseFeedback)
unfolding authorize
list_feedback user docket_id limit offset = transactional feedback_unavailable do
  raise_if (not (leb 1 limit && leb limit 100)) (http 422 (codes "Invalid pagination"))
  context ← authorize user docket_id false
  rows ← gets (λ w. page limit offset (
      ordered (λ a b. before (λ f. (f.published_at, f.id)) b a)
        (rows_where
          (λ f. f.docket_id == context.0.id && f.complainant_id == context.1.complainant_id)
          w.feedback)))
  audit user.id "feedback.listed" "docket" (some context.0.id) (some context.1.station_id)
  pure rows

-- `FeedbackService.get`
unfoldable pub get_feedback : User → ℕ → ℕ → Tx CaseFeedback
unfolding authorize
get_feedback user docket_id feedback_id = transactional feedback_unavailable do
  context ← authorize user docket_id false
  found ←
      gets (λ w.
        first_where (is_feedback context.0.id feedback_id context.1.complainant_id) w.feedback)
  row ← or_raise found (http 404 (codes "Feedback not found"))
  audit user.id "feedback.viewed" "case_feedback" (some row.id) (some context.1.station_id)
  pure row
