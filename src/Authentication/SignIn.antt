-- ===== src/Authentication/SignIn.antt =====
-- Registration and sign-in: `challenge`, `register`, `login`, `verify_code` and `verify_login` of
-- `AuthService` (app/modules/authentication/service.py), and `matching_totp_step` of security.py.
pub mod Effects
pub mod Lockout
use saps_case_dockets.Prelude.{
  ℕ, ◌+◌, ◌-◌, ◌*◌, ◌/◌, Bool, true, false, not, ◌&&◌, ◌||◌, Option, none, some, List, [], ◌∷◌,
  ◌++◌, ◌==◌, leb, ltb, is_none, is_some, if◌then◌else◌, length, first_where, exists_where,
  update_where,
}
use saps_case_dockets.Text.{Text, codes, text_eq}
use saps_case_dockets.Schema.{
  World, User, Complainant, AuthSession, UserMfaMethod, ChallengePurpose, TokenType, same_role,
  complainant_role,
}
use saps_case_dockets.Tx.{
  Tx, http, invalid_token, raise, pure, gets, or_raise, raise_if, new_id, utcnow, ◌>>=◌, ◌>>◌,
}
use saps_case_dockets.Tx.Commits.{commit, put_access, put_signins, check_db, service_call}
use saps_case_dockets.Authentication.{
  Client, TokenResponse, minutes, by_identifier, email_method, active_mfa, recent_mfa_failures,
  verify_password, create_token, auth_audit, deny, deny_if, require_eligible, save_user,
  change_session, open_session, issue_tokens, invalid, or_deny,
}
use saps_case_dockets.Authentication.Email.{
  LoginResponse, LoginStatus, auth_unavailable, send_challenge, validate_challenge, lock_account,
}

-- what a sign-in answers: tokens, or the challenge to go on with
pub data Answer : Type 0 where
  signed_in : TokenResponse → Answer
  challenged : LoginResponse → Answer

abbrev pub email_purpose : Bool → ChallengePurpose
email_purpose true = ChallengePurpose.login
email_purpose false = ChallengePurpose.register

-- the challenge of an account that has no authenticator: by email
unfoldable pub challenge_by_email : Client → User → Tx LoginResponse
unfolding send_challenge
challenge_by_email client user = do
  mailed ← gets (λ w. email_method w user)
  raise_if (user.mfa_enabled && is_none mailed)
      (http 403 (codes "Account verification needs administrator-assisted identity recovery."))
  send_challenge client user (email_purpose (is_some mailed))

unfoldable pub challenge_by_totp : Client → User → Tx LoginResponse
challenge_by_totp client user = do
  now ← utcnow
  settings ← gets (λ w. w.platform.settings)
  opened ← open_session client user.id now (now + minutes settings.mfa_challenge_expire_minutes)
  token ←
      create_token user.id opened.1.id TokenType.mfa_login
        (minutes settings.mfa_challenge_expire_minutes)
  pure (record {
    status = LoginStatus.totp_transition_required;
    challenge_token = token;
    expires_in = settings.mfa_challenge_expire_minutes * 60;
    masked_recipient = none;
    resend_after = none;
  })

-- `AuthService.challenge`
unfoldable pub challenge : Client → User → Tx LoginResponse
unfolding challenge_by_email challenge_by_totp
challenge client user = do
  legacy ← gets (λ w. active_mfa w user.id)
  if is_none legacy then challenge_by_email client user else challenge_by_totp client user

pub record RegistrationRequest : Type 0 where
  pub username : Text
  pub email : Text
  pub password : Text
  pub phone_number : Option Text

abbrev pub user_clashes : (Text → Text) → User → User → Bool
user_clashes lower row u =
    u.id == row.id
    || (text_eq (lower u.username) (lower row.username)
        || text_eq (lower u.email) (lower row.email))

-- the unique names of `users`; one that is taken is answered with a 409
unfoldable pub insert_user : User → Tx (Unit {0})
insert_user row = do
  taken ← gets (λ w. exists_where (user_clashes w.platform.lower row) w.users)
  raise_if taken (http 409 (codes "Username or email is unavailable"))
  put_access (λ w. record w.access { users = w.users ++ row ∷ [] })

abbrev pub new_user : ℕ → Text → Text → Text → Option Text → ℕ → User
new_user id username email password_hash phone_number now = record {
  id = id;
  username = username;
  email = email;
  password_hash = password_hash;
  phone_number = phone_number;
  is_active = true;
  is_verified = false;
  mfa_enabled = false;
  failed_login_attempts = 0;
  locked_until = none;
  last_login_at = none;
  updated_at = now;
}

abbrev pub is_name_of : (Text → Text) → Text → Text → User → Bool
is_name_of lower username email u =
    text_eq (lower u.username) username || text_eq (lower u.email) email

-- `AuthService.register`
unfoldable pub register : Client → RegistrationRequest → Tx LoginResponse
unfolding insert_user challenge
register client data_of = service_call auth_unavailable do
  p ← gets (λ w. w.platform)
  let username = p.lower (p.strip data_of.username)
  let email = p.lower (p.strip data_of.email)
  taken ← gets (λ w. exists_where (is_name_of p.lower username email) w.users)
  raise_if taken (http 409 (codes "Username or email is unavailable"))
  configured ← gets (λ w. first_where (λ r. same_role r.code complainant_role) w.roles)
  role ← or_raise configured (http 503 auth_unavailable)
  hashed ← gets (λ w. w.platform.crypto.hash_password w.drawn data_of.password)
  id ← new_id
  created ← gets (λ w. w.platform.database_time w.reads)
  let user = new_user id username email hashed data_of.phone_number created
  insert_user user
  person_id ← new_id
  put_access (λ w. record w.access {
    complainants =
        w.complainants ++ record { id = person_id; user_id = some id; email = some email } ∷ [];
    user_roles = w.user_roles ++ record { user_id = id; role_id = role.id } ∷ [];
  })
  auth_audit client "auth.registration" (some id) none
  response ← challenge client user
  commit
  pure response

-- an expired lock is lifted
abbrev pub unlocked : ℕ → User → User
unlocked now user = elim user.locked_until [
  | none ↦ user
  | some t ↦
      if leb t now then record user { locked_until = none; failed_login_attempts = 0 } else user
]

abbrev pub one_more_failure : User → User
one_more_failure user = record user { failed_login_attempts = user.failed_login_attempts + 1 }

-- the failures of an account with that one counted, and the lock that they bring
unfoldable pub fail_password : Client → ℕ → User → Tx (Unit {0})
unfolding lock_account
fail_password client now user = do
  save_user (one_more_failure user)
  lock_account client (one_more_failure user) user.failed_login_attempts now
  deny client "auth.login_failure" (some user.id) invalid

abbrev pub cleared : User → User
cleared user = record user { failed_login_attempts = 0; locked_until = none }

unfoldable pub sign_in : Client → ℕ → User → Tx Answer
sign_in client now user = do
  save_user (record user { last_login_at = some now })
  response ← issue_tokens client (record user { last_login_at = some now }) none
  auth_audit client "auth.login" (some user.id) none
  pure (signed_in response)

-- the verified address alone proves the account
abbrev pub is_email_only : World → User → Bool
is_email_only w user =
    user.is_verified && (is_some (email_method w user) && is_none (active_mfa w user.id))

unfoldable pub go_on : Bool → Client → ℕ → User → Tx Answer
unfolding sign_in challenge
go_on true client now user = sign_in client now user
go_on false client now user = do response ← challenge client user; pure (challenged response)

-- `if not security.verify_password(...): ...`
unfoldable pub require_password : Bool → Client → ℕ → User → Tx (Unit {0})
unfolding fail_password
require_password true client now user = pure tt
require_password false client now user = fail_password client now user

-- `AuthService.login`
unfoldable pub login : Client → Text → Text → Tx Answer
unfolding require_password go_on
login client username password = service_call auth_unavailable do
  found ← gets (λ w. by_identifier w (w.platform.lower (w.platform.strip username)))
  account ← require_eligible client "auth.login_failure" found
  now ← utcnow
  let user = unlocked now account
  right ← gets (λ w. verify_password w password user.password_hash)
  require_password right client now user
  save_user (cleared user)
  auth_audit client "auth.password_verified" (some user.id) none
  direct ← gets (λ w. is_email_only w (cleared user))
  response ← go_on direct client now (cleared user)
  commit
  pure response

-- `re.fullmatch(r'[0-9]{6}', code)`
abbrev is_digit : ℕ → Bool
is_digit c = leb 48 c && leb c 57

abbrev all_digits : Text → Bool
all_digits [] = true
all_digits (c ∷ s) = is_digit c && all_digits s

unfoldable pub is_totp_code : Text → Bool
is_totp_code code = length code == 6 && all_digits code

-- `security.matching_totp_step`: the step of now, the one before, the one after
unfoldable pub matching_totp_step : World → ℕ → Text → Text → Option ℕ
unfolding is_totp_code
matching_totp_step w now secret code =
    let step = now / 30000000 in
    let verify = w.platform.crypto.totp_verify secret code in
    if not (is_totp_code code)
    then none
    else if verify (step * 30)
    then some step
    else if verify ((step - 1) * 30)
    then some (step - 1)
    else if verify ((step + 1) * 30)
    then some (step + 1)
    else none

-- the step is later than that of the last use; none was used yet: -1
abbrev pub is_later_step : Option ℕ → Option ℕ → Bool
is_later_step none last_used_at = false
is_later_step (some step) none = true
is_later_step (some step) (some last_used_at) = ltb (last_used_at / 30000000) step

abbrev set_step : Option ℕ → UserMfaMethod → UserMfaMethod
set_step none m = m
set_step (some step) m = record m { last_used_at = some (step * 30000000) }

unfoldable pub accept_step : Bool → Client → User → UserMfaMethod → Option ℕ → ℕ → ℕ → Tx (Unit {0})
unfolding lock_account
accept_step true client user method step failures now = put_signins (λ w. record w.signins {
  mfa_methods = update_where (λ m. m.id == method.id) (set_step step) w.mfa_methods;
})
accept_step false client user method step failures now = do
  lock_account client user failures now
  deny client "auth.mfa_failure" (some user.id) invalid

-- `AuthService.verify_code`
unfoldable pub verify_code : Client → User → UserMfaMethod → Text → Tx (Unit {0})
unfolding accept_step matching_totp_step
verify_code client user method code = do
  now ← utcnow
  settings ← gets (λ w. w.platform.settings)
  failures ← gets (λ w. recent_mfa_failures w user.id (now - minutes settings.account_lock_minutes))
  decrypted ← gets (λ w. w.platform.crypto.decrypt method.secret_encrypted)
  secret ← or_raise decrypted invalid_token
  moment ← utcnow
  step ← gets (λ w. matching_totp_step w moment secret code)
  accept_step
      (is_later_step step method.last_used_at
        && not (leb settings.max_failed_login_attempts failures))
      client user method step failures now

-- `AuthService.verify_login`
unfoldable pub verify_login : Client → Text → Text → Tx LoginResponse
unfolding verify_code validate_challenge send_challenge
verify_login client token code = service_call auth_unavailable do
  asked ← validate_challenge client token TokenType.mfa_login
  found ← gets (λ w. active_mfa w asked.0.id)
  method ← or_deny found client "auth.mfa_failure" (some asked.0.id) invalid
  deny_if (not asked.0.mfa_enabled) client "auth.mfa_failure" (some asked.0.id) invalid
  verify_code client asked.0 method code
  response ← send_challenge client asked.0 ChallengePurpose.transition
  now ← utcnow
  change_session asked.1.id (λ s. record s { revoked_at = some now })
  auth_audit client "auth.email_transition_authorized" (some asked.0.id) (some asked.1.id)
  commit
  pure response

-- `AuthService.setup_mfa` and `verify_setup`
unfoldable pub setup_mfa : Tx LoginResponse
setup_mfa = service_call auth_unavailable (
    raise (
      http 410 (
        codes
          "Authenticator enrollment has been replaced by email verification. Return to sign-in.")))
