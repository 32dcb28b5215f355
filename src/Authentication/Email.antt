-- ===== src/Authentication/Email.antt =====
-- Codes by email: app/modules/authentication/email_flow.py, with `AuthService.validate_challenge`.
pub mod Verified
use saps_case_dockets.Prelude.{
  ℕ, ◌+◌, ◌-◌, ◌*◌, Bool, true, false, not, ◌&&◌, ◌||◌, Option, none, some, List, [], ◌∷◌, ◌++◌,
  ◌==◌, leb, ltb, is_none, is_some, if◌then◌else◌, length, first_where, exists_where, rows_where,
  update_where, top_where,
}
use saps_case_dockets.Text.{Text, codes, text_eq}
use saps_case_dockets.Schema.{
  World, User, AuthSession, EmailChallenge, UserEmailAuth, ChallengePurpose, DeliveryState,
  TokenType, MailState, UserMfaMethod,
}
use saps_case_dockets.Tx.{
  Tx, http, raise, pure, gets, or_raise, raise_if, value_error, utcnow, ◌>>=◌, ◌>>◌,
}
use saps_case_dockets.Tx.Commits.{commit, put_access, put_signins, check_db, service_call}
use saps_case_dockets.Identifiers.{padded}
use saps_case_dockets.Mail.{submit}
use saps_case_dockets.Authentication.{
  Client, TokenResponse, draw, minutes, find_user, find_session, email_method, active_mfa,
  recent_mfa_failures, decode_token, create_token, auth_audit, deny, deny_if, or_deny,
  require_eligible, save_user, change_session, revoke_where, open_session, issue_tokens, invalid,
}

abbrev pub auth_unavailable : Text
auth_unavailable = codes "Authentication service unavailable"

pub data LoginStatus : Type 0 where
  totp_transition_required email_code_required : LoginStatus

pub record LoginResponse : Type 0 where
  pub status : LoginStatus
  pub challenge_token : Text
  pub expires_in : ℕ
  pub masked_recipient : Option Text
  pub resend_after : Option ℕ

abbrev pub purpose_text : ChallengePurpose → Text
purpose_text ChallengePurpose.register = codes "register"
purpose_text ChallengePurpose.login = codes "login"
purpose_text ChallengePurpose.transition = codes "transition"

-- `digest(user_id, session_id, purpose, recipient, code)`
unfoldable pub code_digest : World → ℕ → ℕ → ChallengePurpose → Text → Text → Text
code_digest w user_id session_id purpose recipient code = w.platform.crypto.hmac (
    codes "saps-email-code-v1"
    ++ 0
      ∷ (w.platform.uuid_text user_id
          ++ 0
            ∷ (w.platform.uuid_text session_id
                ++ 0 ∷ (purpose_text purpose ++ 0 ∷ (recipient ++ 0 ∷ code)))))

-- the part of a text before the last `sep`, and the part behind it
unfoldable pub last_split : ℕ → Text → Option (Text × Text)
last_split sep [] = none
last_split sep (c ∷ s) = elim (last_split sep s) [
  | some parts ↦ some (c ∷ parts.0, parts.1)
  | none ↦ if c == sep then some ([], s) else none
]

abbrev first_of : Text → Text
first_of [] = []
first_of (c ∷ s) = c ∷ []

abbrev behind_last : ℕ → Text → Text
behind_last sep s = elim (last_split sep s) [ none ↦ s | some parts ↦ parts.1 ]

-- `masked(email)`; without an @ the unpacking raises ValueError
unfoldable pub masked : Text → Tx Text
unfolding last_split
masked address = do
  parts ← or_raise (last_split 64 address) (value_error (codes "not enough values to unpack"))
  pure (
      first_of parts.0
      ++ (codes "***@" ++ (first_of parts.1 ++ (codes "***." ++ behind_last 46 parts.1))))

-- `secrets.randbelow(1_000_000)`, printed with six digits
unfoldable pub draw_code : Tx Text
unfolding draw
draw_code = draw (λ w. padded (w.platform.crypto.random_code w.drawn))

unfoldable pub insert_challenge : EmailChallenge → Tx (Unit {0})
insert_challenge row = do
  check_db (λ db. not (exists_where (λ c. c.session_id == row.session_id) db.challenges))
  put_signins (λ w. record w.signins { challenges = w.challenges ++ row ∷ [] })

unfoldable pub set_delivery : ℕ → DeliveryState → Tx (Unit {0})
set_delivery session_id state = put_signins (λ w. record w.signins {
  challenges =
      update_where (λ c. c.session_id == session_id) (λ c. record c { delivery_state = state })
        w.challenges;
})

-- an email challenge of that user stands behind the session
abbrev pub is_challenge_of : World → ℕ → AuthSession → Bool
is_challenge_of w user_id s =
    exists_where (λ c. c.session_id == s.id && c.user_id == user_id) w.challenges

-- `latest` was sent less than the resend interval ago
abbrev pub too_soon : Option EmailChallenge → ℕ → ℕ → Bool
too_soon none now resend = false
too_soon (some latest) now resend = ltb now (latest.attempted_at + resend)

abbrev mail_body : Text → Text
mail_body code =
    codes "Your verification code is "
    ++ (code
        ++ codes
            ".\n\nIt expires in five minutes and can be used once. Do not share it.\nIf you did not request this code, you can ignore this email.")

-- the two ends of `send`, by what the mail server said
unfoldable pub after_submission : Client → User → AuthSession → MailState → Tx LoginResponse
unfolding set_delivery masked
after_submission client user row MailState.accepted = do
  set_delivery row.id DeliveryState.accepted
  auth_audit client "auth.email_submitted" (some user.id) (some row.id)
  token ← create_token user.id row.id TokenType.email_code (minutes 30)
  hidden ← masked user.email
  settings ← gets (λ w. w.platform.settings)
  pure (record {
    status = LoginStatus.email_code_required;
    challenge_token = token;
    expires_in = 300;
    masked_recipient = some hidden;
    resend_after = some settings.email_resend_seconds;
  })
after_submission client user row _ = do
  set_delivery row.id DeliveryState.failed
  now ← utcnow
  change_session row.id (λ s. record s { revoked_at = some now })
  auth_audit client "auth.email_submission_failed" (some user.id) (some row.id)
  commit
  raise (http 503 (codes "Email submission could not be confirmed."))

-- `EmailFlow.send`
unfoldable pub send_challenge : Client → User → ChallengePurpose → Tx LoginResponse
unfolding code_digest insert_challenge after_submission
send_challenge client user purpose = do
  now ← utcnow
  settings ← gets (λ w. w.platform.settings)
  latest ← gets (λ w. top_where (λ c. c.user_id == user.id) (λ c. c.attempted_at) w.challenges)
  count ← gets (λ w. length (
      rows_where (λ c. c.user_id == user.id && ltb now (c.attempted_at + minutes 60)) w.challenges))
  raise_if
      (too_soon latest now (settings.email_resend_seconds * 1000000)
        || leb settings.email_max_sends_per_hour count)
      (http 429 (codes "Please wait before requesting another email code."))
  put_signins (λ w. revoke_where (is_challenge_of w user.id) now w.signins)
  opened ← open_session client user.id now (now + minutes 30)
  code ← draw_code
  digest ← gets (λ w. code_digest w user.id opened.1.id purpose user.email code)
  insert_challenge (record {
    session_id = opened.1.id;
    user_id = user.id;
    purpose = purpose;
    recipient = user.email;
    code_digest = digest;
    attempted_at = now;
    code_expires_at = now + minutes 5;
    delivery_state = DeliveryState.pending;
  })
  auth_audit client "auth.email_requested" (some user.id) (some opened.1.id)
  outcome ← submit user.email (codes "SAPS Case-Docket sign-in verification") (mail_body code) none
  after_submission client user opened.1 outcome.0

-- the tests of `validate_challenge` on the session; the clock is read for the last one only
unfoldable pub require_open : Client → ℕ → Option AuthSession → Tx AuthSession
require_open client user_id found = do
  row ← or_deny found client "auth.mfa_failure" (some user_id) invalid
  deny_if (not (row.user_id == user_id) || is_some row.revoked_at) client "auth.mfa_failure"
      (some user_id) invalid
  now ← utcnow
  deny_if (leb row.expires_at now) client "auth.mfa_failure" (some user_id) invalid
  pure row

-- `AuthService.validate_challenge`
unfoldable pub validate_challenge : Client → Text → TokenType → Tx (User × AuthSession)
unfolding require_open
validate_challenge client token purpose = do
  decoded ← gets (λ w. decode_token w token purpose)
  claims ← or_deny decoded client "auth.mfa_failure" none invalid
  account ← gets (λ w. find_user w claims.sub)
  user ← require_eligible client "auth.mfa_failure" account
  found ← gets (λ w. find_session w claims.sid)
  row ← require_open client user.id found
  pure (user, row)

abbrev pub session_gone : Text
session_gone = codes "Verification session is no longer valid. Return to sign-in."

-- `EmailFlow.challenge`
unfoldable pub email_challenge : Client → Text → Tx (User × AuthSession × EmailChallenge)
unfolding validate_challenge
email_challenge client token = do
  valid ← validate_challenge client token TokenType.email_code
  found ← gets (λ w. first_where (λ c. c.session_id == valid.1.id) w.challenges)
  record_of ← or_deny found client "auth.mfa_failure" (some valid.0.id) session_gone
  deny_if (not (record_of.user_id == valid.0.id) || not (text_eq record_of.recipient valid.0.email))
      client "auth.mfa_failure" (some valid.0.id) session_gone
  pure (valid.0, valid.1, record_of)

-- `AuthService.resend_email`
unfoldable pub resend_email : Client → Text → Tx LoginResponse
unfolding email_challenge send_challenge
resend_email client token = service_call auth_unavailable do
  asked ← email_challenge client token
  result ← send_challenge client asked.0 asked.2.purpose
  commit
  pure result

-- a lockout, by the failures so far, before the denial
unfoldable pub lock_account : Client → User → ℕ → ℕ → Tx (Unit {0})
lock_account client user failures now = do
  settings ← gets (λ w. w.platform.settings)
  if leb settings.max_failed_login_attempts (failures + 1)
      then (save_user
            (record user { locked_until = some (now + minutes settings.account_lock_minutes) })
          >> auth_audit client "auth.account_lockout" (some user.id) none)
      else pure tt

-- `if wrong: ...; self.auth.deny('auth.mfa_failure', user, ...)`
unfoldable pub refuse_if : Bool → Client → User → ℕ → ℕ → Text → Tx (Unit {0})
unfolding lock_account
refuse_if true client user failures now detail = do
  lock_account client user failures now
  deny client "auth.mfa_failure" (some user.id) detail
refuse_if false client user failures now detail = pure tt

abbrev pub is_pending_delivery : DeliveryState → Bool
is_pending_delivery DeliveryState.accepted = false
is_pending_delivery _ = true

abbrev pub is_transition : ChallengePurpose → Bool
is_transition ChallengePurpose.transition = true
is_transition _ = false

-- the code does not match its challenge, or comes too late
abbrev pub is_wrong_code : World → User → AuthSession → EmailChallenge → Text → ℕ → Bool
is_wrong_code w user row challenge code now =
    is_pending_delivery challenge.delivery_state
    || (leb challenge.code_expires_at now
        || not (
            text_eq challenge.code_digest
              (code_digest w user.id row.id challenge.purpose challenge.recipient code)))

-- the address of the account becomes its method: the row is changed, or added
abbrev pub verified_at : User → ℕ → List UserEmailAuth → List UserEmailAuth
verified_at user now auths =
    if exists_where (λ a. a.user_id == user.id) auths
    then update_where (λ a. a.user_id == user.id)
        (λ a. record a { verified_email = user.email; verified_at = now }) auths
    else auths ++ record { user_id = user.id; verified_email = user.email; verified_at = now } ∷ []

abbrev pub verified_user : ℕ → User → User
verified_user now user = record user {
  is_verified = true;
  mfa_enabled = true;
  last_login_at = some now;
}

-- `if legacy: ...`: the authenticator is switched off, and every earlier session ends
unfoldable pub leave_authenticator : Client → User → Option UserMfaMethod → ℕ → Tx (Unit {0})
leave_authenticator client user none now = pure tt
leave_authenticator client user (some legacy) now = do
  put_signins (λ w. record w.signins {
    mfa_methods =
        update_where (λ m. m.user_id == user.id) (λ m. record m { is_active = false })
          w.mfa_methods;
  })
  put_signins (λ w. revoke_where (λ s. s.user_id == user.id) now w.signins)
  auth_audit client "auth.email_transition_completed" (some user.id) none

-- `AuthService.verify_email`
unfoldable pub verify_email : Client → Text → Text → Tx TokenResponse
unfolding email_challenge code_digest refuse_if leave_authenticator
verify_email client token code = service_call auth_unavailable do
  asked ← email_challenge client token
  now ← utcnow
  settings ← gets (λ w. w.platform.settings)
  failures ←
      gets (λ w. recent_mfa_failures w asked.0.id (now - minutes settings.account_lock_minutes))
  wrong ← gets (λ w.
      is_wrong_code w asked.0 asked.1 asked.2 code now
      || leb settings.max_failed_login_attempts failures)
  refuse_if wrong client asked.0 failures now
      (codes "Code is incorrect or expired. Try again or request a new code.")
  legacy ← gets (λ w. active_mfa w asked.0.id)
  mailed ← gets (λ w. email_method w asked.0)
  deny_if (asked.0.mfa_enabled && (is_none legacy && is_none mailed)) client "auth.mfa_failure"
      (some asked.0.id)
      (codes "Account verification needs administrator-assisted identity recovery.")
  deny_if (is_some legacy && not (is_transition asked.2.purpose)) client "auth.mfa_failure"
      (some asked.0.id) (codes "Existing account verification is required.")
  put_access (λ w. record w.access { email_auths = verified_at asked.0 now w.email_auths })
  save_user (verified_user now asked.0)
  leave_authenticator client asked.0 legacy now
  response ← issue_tokens client (verified_user now asked.0) (some asked.1)
  auth_audit client "auth.email_verified" (some asked.0.id) (some asked.1.id)
  commit
  pure response
