-- ===== src/Alerts/Transition.antt =====
-- The transition of an alert (app/modules/alerts/service.py, `transition`).
use saps_case_dockets.Prelude.{
  ℕ, ◌≡◌, refl, ap, Bool, true, false, not, ◌&&◌, ◌||◌, Option, some, List, ◌==◌, true_of,
  first_where, update_where, arith,
}
use saps_case_dockets.Schema.{
  World, Db, User, Officer, Alert, CaseDb, AccessDb, alert_view, docket_assign, station_commander,
  same_alert_status,
}
use saps_case_dockets.Tx.{Tx, ◌>>=◌}
use saps_case_dockets.Tx.Rules.{
  Ensures, Ensures-assoc, Ensures-gets, Ensures-keeps, Ensures-or_raise, Ensures-pure,
  Ensures-put_comms, Ensures-raise_if, Ensures-then, Ensures-transactional, Ensures-utcnow,
}
use saps_case_dockets.Access.{has_role, has_permission, active_officer}
use saps_case_dockets.Notify.Quiet.{Keeps-audit}
use saps_case_dockets.Alerts.{
  AlertRequest, require_active, require_granted, management_scope, commander_station, is_others,
  is_alert_of, may_become, moved, move_alert,
}

-- the case tables and the alerts
abbrev pub watched : Db → CaseDb × List Alert
watched db = (db.cases, db.alerts)

abbrev pub watched_all : Db → (CaseDb × List Alert) × AccessDb
watched_all db = (watched db, db.access)

-- An active commander, whose station this is.
pub record Commands (user : User) (w : World) (station : Option ℕ) : Type 0 where
  pub officer : Officer
  pub active : user.is_active ≡ true
  pub role : has_role w.access user.id station_commander ≡ true
  pub permitted : has_permission w.access user.id docket_assign ≡ true
  pub profile : active_officer w.access user.id ≡ some officer
  pub own : station ≡ some officer.station_id

left_of : (b c d : Bool) → (not (b && c) || d) ≡ false → b ≡ true
left_of b c d h = ground arith

right_of : (b c d : Bool) → (not (b && c) || d) ≡ false → c ≡ true
right_of b c d h = ground arith

module _ {ℓ κ} {B : Type ℓ} {Q : B → World → Type κ} where
  Ensures-management_scope :
      (user : User) (w : World) (k : Option ℕ → Tx B)
      → ((station : Option ℕ) → Commands user w station → Ensures (k station w) Q)
      → Ensures ((management_scope user true >>= k) w) Q
  unfolding management_scope require_active commander_station
  Ensures-management_scope user w k next = Ensures-assoc _ _ _ _ (
      Ensures-raise_if _ _ _ _ λ active. Ensures-assoc _ _ _ _ (
        Ensures-gets _ _ _ (
          Ensures-assoc _ _ _ _ (
            Ensures-gets _ _ _ (
              Ensures-assoc _ _ _ _ (
                Ensures-gets _ _ _ (
                  Ensures-assoc _ _ _ _ (
                    Ensures-raise_if _ _ _ _ λ allowed. Ensures-assoc _ _ _ _ (
                      Ensures-or_raise _ _ _ _ λ officer profile. Ensures-then _ _ _ (
                        next _ (record {
                          officer = officer;
                          active = true_of _ active;
                          role = left_of _ _ _ allowed;
                          permitted = right_of _ _ _ allowed;
                          profile = profile;
                          own = refl;
                        })))))))))))

-- What an answered transition says of its request.
pub record Moved (user : User) (alert_id : ℕ) (request : AlertRequest) (w : World) (out : Alert)
    (w' : World) : Type 0 where
  pub station : Option ℕ
  pub row : Alert
  pub commands : Commands user w station
  pub viewer : has_permission w.access user.id alert_view ≡ true
  pub known : first_where (is_alert_of station alert_id) w.alerts ≡ some row
  pub free : is_others row.assigned_to_user_id user.id ≡ false
  pub expected : same_alert_status row.status request.expected_status ≡ true
  pub allowed : may_become row.status request.status ≡ true
  pub answered : out ≡ moved user.id request (w.platform.clock w.reads) row
  pub written : watched w'.db ≡ (
    w.cases,
    update_where (λ a. a.id == row.id) (moved user.id request (w.platform.clock w.reads)) w.alerts,
  )
  pub same_access : w'.access ≡ w.access

-- A transition that returns was made by an active commander with both permissions, on an alert of
-- the own station that is assigned to no other user and has the status that the request expects,
-- along the table of transitions. It moves that alert alone, and notes who moved it and the
-- reading of the clock.
pub move_alert-Moved :
    (user : User) (alert_id : ℕ) (request : AlertRequest) (w : World)
    → Ensures (move_alert user alert_id request w) (Moved user alert_id request w)
unfolding move_alert require_granted require_active
move_alert-Moved user alert_id request w = Ensures-transactional _ _ _ (
    Ensures-assoc _ _ _ _ (
      Ensures-raise_if _ _ _ _ λ active. Ensures-assoc _ _ _ _ (
        Ensures-gets _ _ _ (
          Ensures-raise_if _ _ _ _ λ viewer. Ensures-management_scope user _ _ λ station commands.
            Ensures-gets _ _ _ (
              Ensures-or_raise _ _ _ _ λ row known. Ensures-raise_if _ _ _ _ λ free.
                Ensures-raise_if _ _ _ _ λ expected. Ensures-raise_if _ _ _ _ λ allowed.
                  Ensures-utcnow _ _ (
                    Ensures-put_comms _ _ _ (
                      Ensures-keeps watched_all _ _ _
                        (Keeps-audit watched_all (λ _ _. refl) _ _ _ _ _)
                        λ _ w1 same. Ensures-pure _ _ (record {
                          station = station;
                          row = row;
                          commands = commands;
                          viewer = true_of _ viewer;
                          known = known;
                          free = free;
                          expected = true_of _ expected;
                          allowed = true_of _ allowed;
                          answered = refl;
                          written = ap (λ t. t.0) same;
                          same_access = ap (λ t. t.1) same;
                        }))))))))
