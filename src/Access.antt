-- ===== src/Access.antt =====
-- Roles, permissions and officer profiles as the services query them:
-- app/modules/authentication/repository.py, dockets/service.py (`_active_officer_with_role`),
-- complaints/service.py (`_officer`) and investigations/service.py (`officer`).
pub mod Officers
use saps_case_dockets.Prelude.{
  ℕ, Bool, false, ◌&&◌, ◌||◌, not, Option, List, [], ◌∷◌, ◌==◌, is_none, first_where, exists_where,
}
use saps_case_dockets.Text.{Text, codes}
use saps_case_dockets.Schema.{
  AccessDb, Officer, RoleCode, PermissionCode, same_role, same_permission,
}
use saps_case_dockets.Tx.{Tx, http, gets, or_raise, raise_if, ◌>>=◌, ◌>>◌}

-- `select(Role.code).join(UserRole).where(UserRole.user_id == user_id, Role.code == code)`
unfoldable pub has_role : AccessDb → ℕ → RoleCode → Bool
has_role db user_id code =
    exists_where
      (λ grant.
        grant.user_id == user_id
        && exists_where (λ role. role.id == grant.role_id && same_role role.code code) db.roles)
      db.user_roles

-- the permission codes that the user's roles grant
unfoldable pub has_permission : AccessDb → ℕ → PermissionCode → Bool
has_permission db user_id code =
    exists_where
      (λ grant.
        grant.user_id == user_id
        && exists_where
            (λ link.
              link.role_id == grant.role_id
              && exists_where
                  (λ permission.
                    permission.id == link.permission_id && same_permission permission.code code)
                  db.permissions)
            db.role_permissions)
      db.user_roles

-- the joined station, active
unfoldable pub station_is_active : AccessDb → ℕ → Bool
station_is_active db station_id =
    exists_where (λ station. station.id == station_id && station.is_active) db.stations

-- the joined user, active
unfoldable pub user_is_active : AccessDb → ℕ → Bool
user_is_active db user_id = exists_where (λ user. user.id == user_id && user.is_active) db.users

-- An active officer of that user at an active station.
unfoldable pub active_officer : AccessDb → ℕ → Option Officer
unfolding station_is_active
active_officer db user_id =
    first_where
      (λ officer.
        officer.user_id == user_id && officer.is_active && station_is_active db officer.station_id)
      db.officers

-- The same, with the user active as well.
unfoldable pub active_user_officer : AccessDb → ℕ → Option Officer
unfolding station_is_active user_is_active
active_user_officer db user_id =
    first_where
      (λ officer.
        officer.user_id == user_id
        && officer.is_active
        && user_is_active db officer.user_id
        && station_is_active db officer.station_id)
      db.officers

abbrev pub role_title : RoleCode → Text
role_title RoleCode.charge_officer = codes "Charge Officer role required"
role_title RoleCode.station_commander = codes "Station Commander role required"
role_title RoleCode.investigating_officer = codes "Investigating Officer role required"
role_title RoleCode.ncc_officer = codes "Ncc Officer role required"
role_title RoleCode.complainant_role = codes "Complainant role required"
role_title RoleCode.system_administrator = codes "System Administrator role required"
role_title RoleCode.saps_management = codes "Saps Management role required"
role_title (RoleCode.other_role _) = codes "role required"

-- `DocketService._active_officer_with_role`
unfoldable pub active_officer_with_role : ℕ → RoleCode → Tx Officer
unfolding has_role active_officer
active_officer_with_role user_id role_code = do
  granted ← gets (λ w. has_role w.access user_id role_code)
  raise_if (not granted) (http 403 (role_title role_code))
  found ← gets (λ w. active_officer w.access user_id)
  or_raise found (http 403 (codes "Active officer profile required"))

-- one of the allowed roles is granted
unfoldable pub has_one_of : AccessDb → ℕ → List RoleCode → Bool
unfolding has_role
has_one_of db user_id [] = false
has_one_of db user_id (code ∷ more) = has_role db user_id code || has_one_of db user_id more

-- `StationComplaintService._officer`
unfoldable pub station_officer : ℕ → List RoleCode → Tx Officer
station_officer user_id allowed_roles = do
  granted ← gets (λ w. has_one_of w.access user_id allowed_roles)
  raise_if (not granted) (http 403 (codes "Authorized station role required"))
  found ← gets (λ w. active_user_officer w.access user_id)
  or_raise found (http 403 (codes "Active officer profile required"))

-- `InvestigationService.officer`: both queries run before the test
unfoldable pub investigation_officer : ℕ → RoleCode → Tx Officer
unfolding has_role active_user_officer
investigation_officer user_id role_code = do
  row ← gets (λ w. active_user_officer w.access user_id)
  granted ← gets (λ w. has_role w.access user_id role_code)
  raise_if (is_none row || not granted) (http 403 (codes "Active officer and required role needed"))
  or_raise row (http 403 (codes "Active officer and required role needed"))
