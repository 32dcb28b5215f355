-- ===== src/Administration.antt =====
-- Staff accounts: `create` and `change` of app/modules/administration/service.py.
pub mod Change
use saps_case_dockets.Prelude.{
  ℕ, String, Bool, true, false, not, ◌&&◌, ◌||◌, Option, none, some, List, [], ◌∷◌, ◌++◌, ◌==◌,
  is_none, if◌then◌else◌, first_where, exists_where, rows_where, update_where,
}
use saps_case_dockets.Text.{Text, codes, text_eq}
use saps_case_dockets.Schema.{
  World, User, Officer, Role, RoleCode, UserRole, Station, ActorType, AuditLog, StaffValues,
  DocketStatus, AccessDb, same_role, charge_officer, station_commander, investigating_officer,
}
use saps_case_dockets.Tx.{
  Tx, Error, Result, ok, err, sql, http, raise, pure, gets, or_raise, raise_if, put_comms, new_id,
  utcnow, rollback, ◌>>=◌, ◌>>◌,
}
use saps_case_dockets.Tx.Commits.{put_access, put_signins}
use saps_case_dockets.Authentication.{revoke_where}

-- the wrapper `transaction`: a unique key that is taken is answered with a 409, and what raised is
-- rolled back
abbrev pub conflict : Error → Error
conflict sql = http 409 (codes "Username, email or service number is already in use")
conflict e = e

unfoldable pub admin_call {ℓ} : {A : Type ℓ} → Tx A → Tx A
admin_call m w =
    let (r, w') = m w in elim r [ ok a ↦ (ok a, w') | err e ↦ (err (conflict e), rollback w w') ]

-- `STAFF_ROLES` of administration/schemas.py
abbrev pub is_staff_role : RoleCode → Bool
is_staff_role charge_officer = true
is_staff_role station_commander = true
is_staff_role investigating_officer = true
is_staff_role _ = false

-- `AdminService.audit`
unfoldable pub admin_audit :
    ℕ → String → Option ℕ → Option StaffValues → Option StaffValues → Tx (Unit {0})
admin_audit actor action identity before after = do
  id ← new_id
  put_comms (λ w. record w.comms {
    audit_logs =
        w.audit_logs
        ++ record {
          id = id;
          actor_type = ActorType.user;
          actor_user_id = some actor;
          action = action;
          entity_type = "user";
          entity_id = identity;
          station_id = none;
          ip_address = none;
          old_values = before;
          new_values = after;
          event_metadata = none;
          occurred_at = w.platform.database_time w.reads;
        }
          ∷ [];
  })

-- `AdminService.station_role`: the role of that code, for an active station
unfoldable pub station_role : ℕ → RoleCode → Bool → Tx Role
station_role station_id code allow_inactive = do
  station ←
      gets
        (λ w. exists_where (λ s. s.id == station_id && (allow_inactive || s.is_active)) w.stations)
  role ← gets (λ w. first_where (λ r. same_role r.code code) w.roles)
  raise_if (not station) (http 422 (codes "Select an active station"))
  or_raise role (http 409 (codes "Staff role is not configured"))

pub record StaffCreate : Type 0 where
  pub username : Text
  pub email : Text
  pub password : Text
  pub phone_number : Option Text
  pub role : RoleCode
  pub station_id : ℕ
  pub service_number : Text
  pub rank : Text

-- the unique columns of `users`: the names, and their lower-case forms
abbrev pub names_clash : (Text → Text) → User → User → Bool
names_clash lower row u =
    u.id == row.id
    || (text_eq u.username row.username
        || (text_eq u.email row.email
            || (text_eq (lower u.username) (lower row.username)
                || text_eq (lower u.email) (lower row.email))))

-- the unique columns of `officers`
abbrev pub officer_clashes : Officer → Officer → Bool
officer_clashes row o =
    o.id == row.id || (o.user_id == row.user_id || text_eq o.service_number row.service_number)

abbrev pub new_staff : ℕ → StaffCreate → Text → ℕ → User
new_staff id request password_hash now = record {
  id = id;
  username = request.username;
  email = request.email;
  password_hash = password_hash;
  phone_number = request.phone_number;
  is_active = true;
  is_verified = false;
  mfa_enabled = false;
  failed_login_attempts = 0;
  locked_until = none;
  last_login_at = none;
  updated_at = now;
}

abbrev pub new_officer : ℕ → ℕ → StaffCreate → Officer
new_officer id user_id request = record {
  id = id;
  user_id = user_id;
  station_id = request.station_id;
  service_number = request.service_number;
  rank = request.rank;
  is_active = true;
}

-- the user is flushed before the officer is added
unfoldable pub insert_staff : User → Officer → UserRole → Tx (Unit {0})
insert_staff user officer grant = do
  named ← gets (λ w. exists_where (names_clash w.platform.lower user) w.users)
  raise_if named sql
  held ← gets (λ w. exists_where (officer_clashes officer) w.officers)
  raise_if held sql
  put_access (λ w. record w.access {
    users = w.users ++ user ∷ [];
    officers = w.officers ++ officer ∷ [];
    user_roles = w.user_roles ++ grant ∷ [];
  })

-- `AdminService.create`
unfoldable pub create_staff : ℕ → StaffCreate → Tx (User × Officer)
unfolding station_role insert_staff admin_audit
create_staff actor request = admin_call do
  role ← station_role request.station_id request.role false
  hashed ← gets (λ w. w.platform.crypto.hash_password w.drawn request.password)
  created ← gets (λ w. w.platform.database_time w.reads)
  id ← new_id
  officer_id ← new_id
  insert_staff (new_staff id request hashed created) (new_officer officer_id id request)
      (record { user_id = id; role_id = role.id })
  admin_audit actor "admin.staff.create" (some id) none (
      some (record {
        role = request.role;
        station_id = request.station_id;
        is_active = true;
        rank = none;
        service_number = none;
      }))
  pure (new_staff id request hashed created, new_officer officer_id id request)

pub record StaffUpdate : Type 0 where
  pub role : RoleCode
  pub station_id : ℕ
  pub service_number : Text
  pub rank : Text
  pub phone_number : Option Text
  pub expected_updated_at : ℕ
  pub is_active : Bool

-- `AuthRepository.roles(user_id)`
unfoldable pub roles_of : AccessDb → ℕ → List Role
roles_of db user_id =
    rows_where
      (λ role. exists_where (λ g. g.user_id == user_id && g.role_id == role.id) db.user_roles)
      db.roles

-- the only role, if it is one of the staff
abbrev pub single_staff_role : List Role → Option RoleCode
single_staff_role [] = none
single_staff_role (role ∷ []) = if is_staff_role role.code then some role.code else none
single_staff_role (role ∷ other ∷ more) = none

abbrev pub is_unclosed : DocketStatus → Bool
is_unclosed DocketStatus.closed = false
is_unclosed DocketStatus.archived = false
is_unclosed _ = true

-- a current assignment of the officer to a docket that is neither closed nor archived
unfoldable pub has_open_docket : World → ℕ → Bool
has_open_docket w officer_id =
    exists_where
      (λ a.
        a.investigating_officer_id == officer_id
        && (is_none a.unassigned_at
            && exists_where (λ d. d.id == a.docket_id && is_unclosed d.status) w.dockets))
      w.assignments

-- `if roles!={data.role}: ...`
abbrev pub regranted : Bool → ℕ → ℕ → List UserRole → List UserRole
regranted true identity role_id grants = grants
regranted false identity role_id grants =
    rows_where (λ g. not (g.user_id == identity)) grants
    ++ record { user_id = identity; role_id = role_id } ∷ []

abbrev pub changed_officer : StaffUpdate → Officer → Officer
changed_officer request o = record o {
  station_id = request.station_id;
  service_number = request.service_number;
  rank = request.rank;
  is_active = request.is_active;
}

abbrev pub changed_user : StaffUpdate → ℕ → User → User
changed_user request now u = record u {
  phone_number = request.phone_number;
  is_active = request.is_active;
  updated_at = now;
}

-- another officer has the service number
abbrev pub number_taken : ℕ → Text → Officer → Bool
number_taken officer_id service_number o =
    not (o.id == officer_id) && text_eq o.service_number service_number

-- `AdminService.change`
unfoldable pub change_staff : ℕ → ℕ → StaffUpdate → Tx (User × Officer)
unfolding roles_of has_open_docket station_role admin_audit
change_staff actor identity request = admin_call do
  account ← gets (λ w. first_where (λ u. u.id == identity) w.users)
  user ← or_raise account (http 404 (codes "User not found"))
  single ← gets (λ w. single_staff_role (roles_of w.access user.id))
  raise_if (identity == actor || is_none single)
      (http 403 (codes "Only single-role staff accounts can be managed here"))
  code ← or_raise single (http 403 (codes "Only single-role staff accounts can be managed here"))
  profile ← gets (λ w. first_where (λ o. o.user_id == identity) w.officers)
  officer ← or_raise profile (http 409 (codes "Staff officer profile is missing"))
  raise_if (not (user.updated_at == request.expected_updated_at))
      (http 409 (codes "Account changed; reload before saving"))
  let moving = not (officer.station_id == request.station_id) || not (same_role code request.role)
  occupied ← gets (λ w. has_open_docket w officer.id)
  raise_if (moving && occupied) (
      http 409 (
        codes
          "Reassign this officer's open dockets through the commander before changing role or station"))
  role ←
      station_role request.station_id request.role
        (not request.is_active && officer.station_id == request.station_id)
  now ← utcnow
  put_access (λ w. record w.access {
    users = update_where (λ u. u.id == identity) (changed_user request now) w.users;
    officers = update_where (λ o. o.id == officer.id) (changed_officer request) w.officers;
    user_roles = regranted (same_role code request.role) identity role.id w.user_roles;
  })
  revoked ← utcnow
  put_signins (λ w. revoke_where (λ s. s.user_id == identity) revoked w.signins)
  admin_audit actor "admin.staff.update" (some identity)
      (some (record {
        role = code;
        station_id = officer.station_id;
        is_active = user.is_active;
        rank = some officer.rank;
        service_number = some officer.service_number;
      }))
      (some (record {
        role = request.role;
        station_id = request.station_id;
        is_active = request.is_active;
        rank = some request.rank;
        service_number = some request.service_number;
      }))
  taken ← gets (λ w. exists_where (number_taken officer.id request.service_number) w.officers)
  raise_if taken sql
  pure (changed_user request now user, changed_officer request officer)
