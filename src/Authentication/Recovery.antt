-- ===== src/Authentication/Recovery.antt =====
-- Recovery of a password: app/modules/authentication/recovery.py.
pub mod Reset
use saps_case_dockets.Prelude.{
  ℕ, ◌+◌, Bool, not, ◌&&◌, ◌||◌, Option, none, some, [], ◌∷◌, ◌++◌, ◌==◌, leb, ltb, is_none,
  is_some, if◌then◌else◌, first_where, exists_where, update_where,
}
use saps_case_dockets.Text.{Text, codes, text_eq}
use saps_case_dockets.Schema.{World, User, PasswordReset, MailState, SessionDb}
use saps_case_dockets.Tx.{
  Tx, http, attribute_error, pure, gets, or_raise, raise_if, new_id, utcnow, ◌>>=◌, ◌>>◌,
}
use saps_case_dockets.Tx.Commits.{commit, put_signins, check_db, service_call}
use saps_case_dockets.Mail.{submit}
use saps_case_dockets.Authentication.{
  Client, minutes, by_identifier, find_user, email_method, generate_refresh_token,
  hash_refresh_token, auth_audit, save_user, revoke_where,
}
use saps_case_dockets.Authentication.Email.{auth_unavailable}

unfoldable pub insert_reset : PasswordReset → Tx (Unit {0})
insert_reset row = do
  check_db (λ db. not (
      exists_where (λ r. r.id == row.id || text_eq r.token_hash row.token_hash) db.password_resets))
  put_signins (λ w. record w.signins { password_resets = w.password_resets ++ row ∷ [] })

-- `if state != 'ACCEPTED': row.used_at = now`
unfoldable pub spend_unless_sent : MailState → ℕ → ℕ → Tx (Unit {0})
spend_unless_sent MailState.accepted id now = pure tt
spend_unless_sent _ id now = put_signins (λ w. record w.signins {
  password_resets =
      update_where (λ r. r.id == id) (λ r. record r { used_at = some now }) w.password_resets;
})

-- the account may recover its password, and did not ask in the last five minutes
abbrev pub may_recover : World → User → Bool
may_recover w user = user.is_active && is_some (email_method w user)

abbrev recovery_body : Text → Text
recovery_body token =
    codes "Paste this recovery token into the Forgot password screen:\n\n"
    ++ (token
        ++ codes
            "\n\nIt expires in 15 minutes and works once. Ignore this message if you did not request it.")

-- the part that runs when nothing was asked for recently
unfoldable pub send_reset : Client → User → ℕ → Tx (Unit {0})
unfolding insert_reset spend_unless_sent generate_refresh_token hash_refresh_token
send_reset client user now = do
  token ← generate_refresh_token
  hashed ← gets (λ w. hash_refresh_token w token)
  id ← new_id
  insert_reset (record {
    id = id;
    user_id = user.id;
    token_hash = hashed;
    created_at = now;
    expires_at = now + minutes 15;
    used_at = none;
  })
  outcome ← submit user.email (codes "SAPS password recovery") (recovery_body token) (some id)
  spend_unless_sent outcome.0 id now
  auth_audit client "auth.password_reset_requested" (some user.id) none
  commit

unfoldable pub reset_for : Client → User → Tx (Unit {0})
unfolding send_reset
reset_for client user = do
  now ← utcnow
  recent ← gets (λ w.
      exists_where (λ r. r.user_id == user.id && ltb now (r.created_at + minutes 5))
        w.password_resets)
  if recent then pure tt else send_reset client user now

unfoldable pub reset_if_known : Client → Option User → Tx (Unit {0})
unfolding reset_for
reset_if_known client none = pure tt
reset_if_known client (some user) = do
  allowed ← gets (λ w. may_recover w user)
  if allowed then reset_for client user else pure tt

-- `RecoveryService.request_reset`: the answer is the same in every case
unfoldable pub request_reset : Client → Text → Tx (Unit {0})
unfolding reset_if_known
request_reset client email = service_call auth_unavailable do
  found ← gets (λ w. by_identifier w (w.platform.lower (w.platform.strip email)))
  reset_if_known client found

abbrev pub recovery_invalid : Text
recovery_invalid = codes "Recovery token is invalid or expired"

abbrev pub has_token : Text → PasswordReset → Bool
has_token token_hash r = text_eq r.token_hash token_hash

-- the account with its new password, as a fresh one
abbrev pub with_password : Text → User → User
with_password hashed user = record user {
  password_hash = hashed;
  failed_login_attempts = 0;
  locked_until = none;
}

-- every recovery token of the user is spent, and every session of the user ends
abbrev pub spend_all : ℕ → ℕ → SessionDb → SessionDb
spend_all user_id now tables = record tables {
  password_resets =
      update_where (λ r. r.user_id == user_id && is_none r.used_at)
        (λ r. record r { used_at = some now }) tables.password_resets;
}

-- `RecoveryService.reset`
unfoldable pub reset_password : Client → Text → Text → Tx (Unit {0})
unfolding hash_refresh_token
reset_password client token password = service_call auth_unavailable do
  known ← gets (λ w. first_where (has_token (hash_refresh_token w token)) w.password_resets)
  candidate ← or_raise known (http 400 recovery_invalid)
  account ← gets (λ w. find_user w candidate.user_id)
  user ← or_raise account attribute_error
  found ← gets (λ w. first_where (λ r. r.id == candidate.id) w.password_resets)
  row ← or_raise found attribute_error
  now ← utcnow
  allowed ← gets (λ w. may_recover w user)
  raise_if (not allowed || (is_some row.used_at || leb row.expires_at now))
      (http 400 recovery_invalid)
  hashed ← gets (λ w. w.platform.crypto.hash_password w.drawn password)
  save_user (with_password hashed user)
  put_signins (λ w. spend_all user.id now w.signins)
  put_signins (λ w. revoke_where (λ s. s.user_id == user.id) now w.signins)
  auth_audit client "auth.password_reset_completed" (some user.id) none
  commit
