-- ===== src/Investigations.antt =====
-- Scope, assignments and the investigation workflow (app/modules/investigations/service.py and
-- availability.py).
use mathlib.Core.List.{reverse}
use saps_case_dockets.Prelude.{
  ltb, ℕ, ◌+◌, String, Bool, true, false, not, ◌&&◌, ◌||◌, Option, none, some, List, [], ◌∷◌, ◌++◌,
  ◌==◌, is_none, if◌then◌else◌, first_where, exists_where, rows_where, update_where,
}
pub mod Scope
pub mod Moves
pub mod Assignments
pub mod Progress
pub mod Closing
use saps_case_dockets.Text.{Text, codes}
use saps_case_dockets.Schema.{
  CaseDb, World, Complaint, Docket, DocketStatus, DocketStatusHistory, CaseAssignment,
  InvestigationNote, Officer, CaseEvent, RoleCode, same_docket_status,
}
use saps_case_dockets.Schema.{
  station_commander, investigating_officer, case_update_status, case_close, docket_assigned,
  case_active, case_on_hold, case_closed,
}
use saps_case_dockets.Tx.{
  Tx, http, attribute_error, raise, pure, gets, or_raise, raise_if, put_cases, utcnow, new_id,
  for_each, transactional, ◌>>=◌, ◌>>◌,
}
use saps_case_dockets.Access.{investigation_officer, has_permission}
use saps_case_dockets.Notify.{audit, enqueue, notify_complainant}
use saps_case_dockets.Store.{
  check, update_docket, insert_history, insert_assignment, insert_note, is_active_of, is_docket,
  is_complaint,
}
use saps_case_dockets.Store.Writes.{change_assignment}
use saps_case_dockets.Dockets.{station_docket, returning}

abbrev pub unavailable : Text
unavailable = codes "Investigation service unavailable"

-- `docket.status in ('APPROVED', 'ACTIVE', 'ON_HOLD')`
abbrev pub is_writable : DocketStatus → Bool
is_writable DocketStatus.approved = true
is_writable DocketStatus.active = true
is_writable DocketStatus.on_hold = true
is_writable _ = false

abbrev pub scope_role : Bool → RoleCode
scope_role true = station_commander
scope_role false = investigating_officer

-- the current assignment of that docket to that officer
unfoldable pub is_assigned : ℕ → ℕ → CaseDb → Bool
is_assigned docket_id officer_id cases =
    exists_where
      (λ a.
        a.docket_id == docket_id
        && a.investigating_officer_id == officer_id
        && is_none a.unassigned_at)
      cases.assignments

-- `InvestigationService.scope`
unfoldable pub scope : ℕ → ℕ → Bool → Bool → Tx (Officer × Docket)
unfolding is_assigned
scope user_id docket_id commander writable = do
  officer ← investigation_officer user_id (scope_role commander)
  found ← gets (λ w. station_docket docket_id officer.station_id w.cases)
  docket ← or_raise found (http 404 (codes "Docket not found"))
  assigned ← gets (λ w. is_assigned docket.id officer.id w.cases)
  raise_if (not commander && not assigned) (http 404 (codes "Docket not found"))
  raise_if (writable && not (is_writable docket.status))
      (http 409 (codes "Docket is not open for investigation"))
  pure (officer, docket)

abbrev pub is_closed : DocketStatus → Bool
is_closed DocketStatus.closed = true
is_closed _ = false

-- `docket.status = status`, and the closing columns with CLOSED
abbrev pub with_status : DocketStatus → ℕ → Text → Docket → Docket
with_status DocketStatus.closed at reason d = record d {
  status = DocketStatus.closed;
  closed_at = some at;
  closure_reason = some reason;
}
with_status status at reason d = record d { status = status }

-- the second reading of the clock is made for CLOSED alone
abbrev pub closing_time : DocketStatus → Tx ℕ
closing_time DocketStatus.closed = utcnow
closing_time _ = pure 0

-- `InvestigationService.transition`
unfoldable pub transition : Docket → ℕ → DocketStatus → Text → Tx DocketStatusHistory
transition docket user_id status reason = do
  now ← utcnow
  id ← new_id
  let history : DocketStatusHistory = record {
    id = id;
    docket_id = docket.id;
    from_status = some docket.status;
    to_status = status;
    changed_by_user_id = user_id;
    change_reason = some reason;
    changed_at = now;
  }
  insert_history history
  at ← closing_time status
  update_docket docket (with_status status at reason)
  pure history

-- `status_transitions`
abbrev pub status_transitions : DocketStatus → DocketStatus → Bool
status_transitions DocketStatus.active DocketStatus.on_hold = true
status_transitions DocketStatus.active DocketStatus.closed = true
status_transitions DocketStatus.on_hold DocketStatus.active = true
status_transitions DocketStatus.on_hold DocketStatus.closed = true
status_transitions _ _ = false

-- the entries of `status_transitions`, in its order
abbrev pub next_statuses : DocketStatus → List DocketStatus
next_statuses DocketStatus.active = DocketStatus.on_hold ∷ DocketStatus.closed ∷ []
next_statuses DocketStatus.on_hold = DocketStatus.active ∷ DocketStatus.closed ∷ []
next_statuses _ = []

-- `InvestigationService.allowed_statuses`
unfoldable pub allowed_statuses : World → ℕ → DocketStatus → List DocketStatus
allowed_statuses w user_id status =
    if has_permission w.access user_id case_update_status
    then rows_where (λ s. not (is_closed s) || has_permission w.access user_id case_close)
        (next_statuses status)
    else []

-- `InvestigatorDocketOut`, with `detail`
pub record InvestigatorDocketOut : Type 0 where
  pub docket : Docket
  pub allowed_next_statuses : List DocketStatus
  pub complaint : Complaint
  pub station_name : Text
  pub assigned_at : ℕ
  pub investigating_officer_id : ℕ
  pub detail : Bool

-- `InvestigationService.docket_out`
unfoldable pub docket_out : Docket → ℕ → Bool → Tx InvestigatorDocketOut
unfolding allowed_statuses
docket_out docket user_id detail = do
  parent ← gets (λ w. first_where (is_complaint docket.complaint_id) w.complaints)
  complaint ← or_raise parent attribute_error
  place ← gets (λ w. first_where (λ s. s.id == complaint.station_id) w.stations)
  found ← gets (λ w. first_where (is_active_of docket.id) w.assignments)
  assignment ← or_raise found (http 404 (codes "Docket not found"))
  station ← or_raise place attribute_error
  allowed ← gets (λ w. allowed_statuses w user_id docket.status)
  pure (record {
    docket = docket;
    allowed_next_statuses = allowed;
    complaint = complaint;
    station_name = station.name;
    assigned_at = assignment.assigned_at;
    investigating_officer_id = assignment.investigating_officer_id;
    detail = detail;
  })

-- `docket.status not in ('CLOSED', 'ARCHIVED')`
abbrev pub is_unfinished : DocketStatus → Bool
is_unfinished DocketStatus.closed = false
is_unfinished DocketStatus.archived = false
is_unfinished _ = true

-- the docket of that id is not finished
unfoldable pub unfinished_docket : ℕ → List Docket → Bool
unfinished_docket docket_id dockets =
    exists_where (λ d. d.id == docket_id && is_unfinished d.status) dockets

-- `busy_assignment(officer_id)`: a current assignment to an unfinished docket
unfoldable pub is_busy : ℕ → CaseDb → Bool
unfolding unfinished_docket
is_busy officer_id cases =
    exists_where
      (λ a.
        a.investigating_officer_id == officer_id
        && is_none a.unassigned_at
        && unfinished_docket a.docket_id cases.dockets)
      cases.assignments

-- `AssignmentRequest`
pub record AssignmentRequest : Type 0 where
  pub investigating_officer_id : ℕ
  pub reason : Text

abbrev pub is_held_by : Option CaseAssignment → ℕ → Bool
is_held_by none officer_id = false
is_held_by (some current) officer_id = current.investigating_officer_id == officer_id

-- `current.unassigned_at, current.unassignment_reason = now, reason`
abbrev pub ended : ℕ → Text → CaseAssignment → CaseAssignment
ended now reason a = record a { unassigned_at = some now; unassignment_reason = some reason }

-- the check `assignment_dates`: an assignment does not end before it began
abbrev pub began_after : ℕ → ℕ → CaseAssignment → Bool
began_after assignment_id now a = a.id == assignment_id && ltb now a.assigned_at

unfoldable pub end_assignment : ℕ → ℕ → Text → Tx (Unit {0})
end_assignment assignment_id now reason = do
  check (λ cases. not (exists_where (began_after assignment_id now) cases.assignments))
  put_cases (λ w. change_assignment assignment_id (ended now reason) w.cases)

unfoldable pub end_current : Option CaseAssignment → ℕ → Text → Tx (Unit {0})
unfolding end_assignment
end_current none now reason = pure tt
end_current (some current) now reason = end_assignment current.id now reason

-- `if docket.status == 'APPROVED': self.transition(..., 'ACTIVE', ...)`
unfoldable pub activate : Docket → ℕ → DocketStatus → Tx (Unit {0})
unfolding transition
activate docket user_id DocketStatus.approved =
    transition docket user_id DocketStatus.active (codes "Investigator assigned") >> pure tt
activate docket user_id _ = pure tt

-- `InvestigationService.assign`
unfoldable pub assign : ℕ → ℕ → AssignmentRequest → Tx CaseAssignment
unfolding scope is_busy end_current activate
assign user_id docket_id request = transactional unavailable do
  scoped ← scope user_id docket_id true true
  found ← gets (λ w. first_where (λ o. o.id == request.investigating_officer_id) w.officers)
  target ← or_raise found (http 422 (codes "Select an active investigator at this station"))
  raise_if (not (target.station_id == scoped.0.station_id))
      (http 422 (codes "Select an active investigator at this station"))
  investigation_officer target.user_id investigating_officer
  current ← gets (λ w. first_where (is_active_of scoped.1.id) w.assignments)
  raise_if (is_held_by current target.id) (http 409 (codes "Investigator is already assigned"))
  busy ← gets (λ w. is_busy target.id w.cases)
  raise_if busy (
      http 409 (
        codes
          "This investigator is busy with another unfinished case. Select an available investigator."))
  now ← utcnow
  end_current current now request.reason
  id ← new_id
  let row : CaseAssignment = record {
    id = id;
    docket_id = scoped.1.id;
    investigating_officer_id = target.id;
    assigned_by_officer_id = scoped.0.id;
    assigned_at = now;
    unassigned_at = none;
    assignment_reason = some request.reason;
    unassignment_reason = none;
  }
  insert_assignment row
  activate scoped.1 user_id scoped.1.status
  audit user_id "docket.assign" "case_assignment" (some id) (some scoped.0.station_id)
  parent ← gets (λ w. first_where (is_complaint scoped.1.complaint_id) w.complaints)
  complaint ← or_raise parent attribute_error
  enqueue complaint (some scoped.1.id) docket_assigned id
  notify_complainant complaint docket_assigned (some scoped.1.id) user_id
  pure row

-- `InvestigationService.unassign`
unfoldable pub unassign : ℕ → ℕ → Text → Tx CaseAssignment
unfolding scope end_assignment
unassign user_id docket_id reason = transactional unavailable do
  scoped ← scope user_id docket_id true true
  found ← gets (λ w. first_where (is_active_of scoped.1.id) w.assignments)
  row ← or_raise found (http 409 (codes "No active assignment"))
  now ← utcnow
  end_assignment row.id now reason
  audit user_id "docket.unassign" "case_assignment" (some row.id) (some scoped.0.station_id)
  pure (ended now reason row)

-- `InvestigationService.get`
unfoldable pub get_docket : ℕ → ℕ → Tx InvestigatorDocketOut
unfolding scope docket_out
get_docket user_id docket_id = transactional unavailable do
  scoped ← scope user_id docket_id false false
  audit user_id "docket.view_assigned" "docket" (some scoped.1.id) (some scoped.0.station_id)
  docket_out scoped.1 user_id true

-- `NoteRequest`
pub record NoteRequest : Type 0 where
  pub note_type : String
  pub content : String
  pub is_sensitive : Bool

-- `InvestigationService.add_note`
unfoldable pub add_note : ℕ → ℕ → NoteRequest → Tx InvestigationNote
unfolding scope
add_note user_id docket_id request = transactional unavailable do
  scoped ← scope user_id docket_id false true
  now ← utcnow
  id ← new_id
  let row : InvestigationNote = record {
    id = id;
    docket_id = scoped.1.id;
    author_officer_id = scoped.0.id;
    note_type = request.note_type;
    content = request.content;
    is_sensitive = request.is_sensitive;
    created_at = now;
  }
  insert_note row
  audit user_id "case.add_note" "investigation_note" (some id) (some scoped.0.station_id)
  pure row

-- `StatusRequest`
pub record StatusRequest : Type 0 where
  pub status : DocketStatus
  pub expected_status : DocketStatus
  pub reason : Text

-- `'case.' + status.lower()`, for the statuses that a request can name
abbrev pub case_event : DocketStatus → CaseEvent
case_event DocketStatus.on_hold = case_on_hold
case_event DocketStatus.closed = case_closed
case_event _ = case_active

-- `InvestigationService.update_status`
unfoldable pub update_status : ℕ → ℕ → StatusRequest → Tx Docket
unfolding scope transition
update_status user_id docket_id request = transactional unavailable do
  scoped ← scope user_id docket_id false true
  raise_if (not (same_docket_status scoped.1.status request.expected_status))
      (http 409 (codes "Docket status changed; refresh before retrying"))
  may_close ← gets (λ w. has_permission w.access user_id case_close)
  raise_if (is_closed request.status && not may_close)
      (http 403 (codes "Case closure permission required"))
  raise_if (not (status_transitions scoped.1.status request.status))
      (http 409 (codes "Invalid investigation status transition"))
  history ← transition scoped.1 user_id request.status request.reason
  parent ← gets (λ w. first_where (is_complaint scoped.1.complaint_id) w.complaints)
  complaint ← or_raise parent attribute_error
  enqueue complaint (some scoped.1.id) (case_event request.status) history.id
  audit user_id "case.update_status" "docket" (some scoped.1.id) (some scoped.0.station_id)
  notify_complainant complaint (case_event request.status) (some scoped.1.id) user_id
  changed ← gets (λ w. first_where (is_docket scoped.1.id) w.dockets)
  or_raise changed attribute_error
