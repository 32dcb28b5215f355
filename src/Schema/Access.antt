-- ===== src/Schema/Access.antt =====
-- Accounts, roles, stations and people: app/modules/access/models.py, stations/models.py and
-- complainants/models.py, with the tables of authentication/models.py. The columns that no modelled
-- handler reads or writes are left out.
use saps_case_dockets.Prelude.{ℕ, Bool, Option, List}
use saps_case_dockets.Text.{Text}
use saps_case_dockets.Schema.Enums.{RoleCode, PermissionCode, ChallengePurpose, DeliveryState}

pub record User : Type 0 where
  pub id : ℕ
  pub username : Text
  pub email : Text
  pub password_hash : Text
  pub phone_number : Option Text
  pub is_active : Bool
  pub is_verified : Bool
  pub mfa_enabled : Bool
  pub failed_login_attempts : ℕ
  pub locked_until : Option ℕ
  pub last_login_at : Option ℕ
  pub updated_at : ℕ

pub record Role : Type 0 where
  pub id : ℕ
  pub code : RoleCode

pub record Permission : Type 0 where
  pub id : ℕ
  pub code : PermissionCode

pub record UserRole : Type 0 where
  pub user_id : ℕ
  pub role_id : ℕ

pub record RolePermission : Type 0 where
  pub role_id : ℕ
  pub permission_id : ℕ

pub record Station : Type 0 where
  pub id : ℕ
  pub station_code : Text
  pub name : Text
  pub province : Text
  pub address_line_1 : Option Text
  pub address_line_2 : Option Text
  pub city : Option Text
  pub is_active : Bool

pub record Officer : Type 0 where
  pub id : ℕ
  pub user_id : ℕ
  pub station_id : ℕ
  pub service_number : Text
  pub rank : Text
  pub is_active : Bool

pub record Complainant : Type 0 where
  pub id : ℕ
  pub user_id : Option ℕ
  pub email : Option Text

-- `user_email_auth`: the address that was verified
pub record UserEmailAuth : Type 0 where
  pub user_id : ℕ
  pub verified_email : Text
  pub verified_at : ℕ

-- a sign-in, or the challenge that leads to one
pub record AuthSession : Type 0 where
  pub id : ℕ
  pub user_id : ℕ
  pub refresh_token_hash : Text
  pub issued_at : ℕ
  pub expires_at : ℕ
  pub last_used_at : Option ℕ
  pub revoked_at : Option ℕ
  pub replaced_by_session_id : Option ℕ
  pub created_from_ip : Option Text
  pub user_agent : Option Text

pub record EmailChallenge : Type 0 where
  pub session_id : ℕ
  pub user_id : ℕ
  pub purpose : ChallengePurpose
  pub recipient : Text
  pub code_digest : Text
  pub attempted_at : ℕ
  pub code_expires_at : ℕ
  pub delivery_state : DeliveryState

-- the only `method_type` is 'TOTP'
pub record UserMfaMethod : Type 0 where
  pub id : ℕ
  pub user_id : ℕ
  pub secret_encrypted : Text
  pub is_active : Bool
  pub verified_at : Option ℕ
  pub last_used_at : Option ℕ

pub record PasswordReset : Type 0 where
  pub id : ℕ
  pub user_id : ℕ
  pub token_hash : Text
  pub created_at : ℕ
  pub expires_at : ℕ
  pub used_at : Option ℕ

-- The tables of sign-ins and of the ways to prove who one is.
pub record SessionDb : Type 0 where
  pub sessions : List AuthSession
  pub challenges : List EmailChallenge
  pub mfa_methods : List UserMfaMethod
  pub password_resets : List PasswordReset

-- The tables that say who may do what.
pub record AccessDb : Type 0 where
  pub users : List User
  pub roles : List Role
  pub permissions : List Permission
  pub user_roles : List UserRole
  pub role_permissions : List RolePermission
  pub stations : List Station
  pub officers : List Officer
  pub complainants : List Complainant
  pub email_auths : List UserEmailAuth
