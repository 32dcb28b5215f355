-- ===== src/Alerts.antt =====
-- Operational alerts (app/modules/alerts/service.py: `list` and `transition`), and the scopes of
-- app/modules/communications/common.py.
pub mod Transition
use saps_case_dockets.Prelude.{
  ℕ, String, Bool, true, false, not, ◌&&◌, ◌||◌, Option, none, some, List, [], ◌∷◌, ◌==◌, is_none,
  is_id, if◌then◌else◌, first_where, exists_where, rows_where, update_where,
}
use saps_case_dockets.Text.{Text, codes}
use saps_case_dockets.Schema.{
  World, User, Officer, Complaint, Alert, AlertStatus, PermissionCode, same_alert_status,
  alert_view, dashboard_view_all, dashboard_view_station, docket_assign, confirmation_download,
  complaint_view_own, complaint_view_station, case_track_own, docket_view_assigned, saps_management,
  system_administrator, ncc_officer, station_commander,
}
use saps_case_dockets.Tx.{
  Tx, http, pure, raise, gets, or_raise, raise_if, put_comms, utcnow, transactional, ◌>>=◌, ◌>>◌,
}
use saps_case_dockets.Access.{has_role, has_one_of, has_permission, active_officer}
use saps_case_dockets.Notify.{audit}
use saps_case_dockets.Listings.{before, ordered, page}

abbrev pub communications_unavailable : Text
communications_unavailable = codes "Communications service unavailable"

-- `ScopedService.permissions`: what it raises
unfoldable pub require_active : User → Tx (Unit {0})
require_active user = raise_if (not user.is_active) (http 403 (codes "Inactive user"))

-- `ScopedService.require`
unfoldable pub require_granted : User → PermissionCode → Tx (Unit {0})
unfolding require_active
require_granted user permission = do
  require_active user
  granted ← gets (λ w. has_permission w.access user.id permission)
  raise_if (not granted) (http 403 (codes "Insufficient permission"))

-- every station is in the scope of the user's reads
abbrev pub sees_all : World → ℕ → Bool → Bool
sees_all w user_id write =
    not write
    && (has_permission w.access user_id dashboard_view_all
        && has_one_of w.access user_id (saps_management ∷ system_administrator ∷ ncc_officer ∷ []))

abbrev pub scope_permission : Bool → PermissionCode
scope_permission true = docket_assign
scope_permission false = dashboard_view_station

abbrev pub commander_required : Text
commander_required = codes "Station commander access required"

unfoldable pub commander_station : User → Bool → Tx (Option ℕ)
commander_station user write = do
  officer ← gets (λ w. active_officer w.access user.id)
  allowed ← gets (λ w.
      has_role w.access user.id station_commander
      && has_permission w.access user.id (scope_permission write))
  raise_if (not allowed || is_none officer) (http 403 commander_required)
  own ← or_raise officer (http 403 commander_required)
  pure (some own.station_id)

-- `ScopedService.management_scope`: the station, `none` for all
unfoldable pub management_scope : User → Bool → Tx (Option ℕ)
unfolding require_active commander_station
management_scope user write = do
  require_active user
  everywhere ← gets (λ w. sees_all w user.id write)
  if everywhere then pure none else commander_station user write

-- the user is the complainant, the station's reader, or the docket's investigator
abbrev pub owns : World → ℕ → Complaint → Bool
owns w user_id row =
    exists_where (λ c. c.id == row.complainant_id && is_id c.user_id user_id) w.complainants
    && (has_permission w.access user_id complaint_view_own
        || has_permission w.access user_id case_track_own)

abbrev pub investigates : World → Complaint → Officer → Bool
investigates w row officer =
    exists_where
      (λ a.
        a.investigating_officer_id == officer.id
        && (is_none a.unassigned_at
            && exists_where (λ d. d.id == a.docket_id && d.complaint_id == row.id) w.dockets))
      w.assignments

abbrev pub works_on : World → ℕ → Complaint → Option Officer → Bool
works_on w user_id row none = false
works_on w user_id row (some officer) =
    officer.station_id == row.station_id
    && (has_permission w.access user_id complaint_view_station
        || (has_permission w.access user_id docket_view_assigned && investigates w row officer))

-- `ScopedService.complaint_scope`
unfoldable pub complaint_scope : User → ℕ → Tx Complaint
unfolding require_granted
complaint_scope user complaint_id = do
  require_granted user confirmation_download
  found ← gets (λ w. first_where (λ c. c.id == complaint_id) w.complaints)
  row ← or_raise found (http 404 (codes "Complaint not found"))
  allowed ←
      gets (λ w. owns w user.id row || works_on w user.id row (active_officer w.access user.id))
  raise_if (not allowed) (http 404 (codes "Complaint not found"))
  pure row

abbrev pub within_scope : Option ℕ → Alert → Bool
within_scope none a = true
within_scope (some station_id) a = a.station_id == station_id

abbrev pub has_asked_status : Option AlertStatus → Alert → Bool
has_asked_status none a = true
has_asked_status (some status) a = same_alert_status a.status status

-- `AlertService.list`
unfoldable pub list_alerts : User → ℕ → ℕ → Option AlertStatus → Tx (List Alert)
unfolding require_granted management_scope
list_alerts user limit offset status = transactional communications_unavailable do
  require_granted user alert_view
  station ← management_scope user false
  rows ← gets (λ w. page limit offset (
      ordered (λ a b. before (λ r. (r.detected_at, r.id)) b a)
        (rows_where (λ a. within_scope station a && has_asked_status status a) w.alerts)))
  audit user.id "alert.list" "alert" none station
  pure rows

pub record AlertRequest : Type 0 where
  pub expected_status : AlertStatus
  pub status : AlertStatus
  pub notes : Option Text

-- the table `allowed`
unfoldable pub may_become : AlertStatus → AlertStatus → Bool
may_become AlertStatus.open_alert AlertStatus.acknowledged = true
may_become AlertStatus.open_alert AlertStatus.resolved = true
may_become AlertStatus.open_alert AlertStatus.dismissed = true
may_become AlertStatus.acknowledged AlertStatus.resolved = true
may_become AlertStatus.acknowledged AlertStatus.dismissed = true
may_become _ _ = false

abbrev pub is_acknowledgement : AlertStatus → Bool
is_acknowledgement AlertStatus.acknowledged = true
is_acknowledgement _ = false

-- the columns that `transition` sets
abbrev pub moved : ℕ → AlertRequest → ℕ → Alert → Alert
moved user_id request now a =
    if is_acknowledgement request.status
    then record a {
      status = request.status;
      resolution_notes = request.notes;
      assigned_to_user_id = some user_id;
      acknowledged_by_user_id = some user_id;
      acknowledged_at = some now;
    }
    else record a {
      status = request.status;
      resolution_notes = request.notes;
      assigned_to_user_id = some user_id;
      resolved_by_user_id = some user_id;
      resolved_at = some now;
    }

abbrev pub alert_action : AlertStatus → String
alert_action AlertStatus.open_alert = "alert.open"
alert_action AlertStatus.acknowledged = "alert.acknowledged"
alert_action AlertStatus.resolved = "alert.resolved"
alert_action AlertStatus.dismissed = "alert.dismissed"

abbrev pub is_others : Option ℕ → ℕ → Bool
is_others none user_id = false
is_others (some assigned) user_id = not (assigned == user_id)

abbrev pub is_alert_of : Option ℕ → ℕ → Alert → Bool
is_alert_of station alert_id a = a.id == alert_id && is_id station a.station_id

-- `AlertService.transition`
unfoldable pub move_alert : User → ℕ → AlertRequest → Tx Alert
unfolding require_granted management_scope may_become
move_alert user alert_id request = transactional communications_unavailable do
  require_granted user alert_view
  station ← management_scope user true
  found ← gets (λ w. first_where (is_alert_of station alert_id) w.alerts)
  row ← or_raise found (http 404 (codes "Alert not found"))
  raise_if (is_others row.assigned_to_user_id user.id)
      (http 403 (codes "Alert is assigned to another user"))
  raise_if (not (same_alert_status row.status request.expected_status))
      (http 409 (codes "Alert changed; refresh before retrying"))
  raise_if (not (may_become row.status request.status))
      (http 409 (codes "Invalid alert transition"))
  now ← utcnow
  put_comms (λ w. record w.comms {
    alerts = update_where (λ a. a.id == row.id) (moved user.id request now) w.alerts;
  })
  audit user.id (alert_action request.status) "alert" (some row.id) station
  pure (moved user.id request now row)
