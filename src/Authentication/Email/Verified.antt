-- ===== src/Authentication/Email/Verified.antt =====
-- The verification of a code that was sent by email (app/modules/authentication/email_flow.py,
-- `verify`).
use saps_case_dockets.Prelude.{
  ℕ, ◌-◌, ◌≡◌, ◌+◌, Bool, false, not, ◌&&◌, ◌||◌, Option, none, some, List, ◌==◌, is_none, is_some,
  update_where, leb, equal_of, first_where, arith,
}
use saps_case_dockets.Text.{Text, text_eq}
use saps_case_dockets.Schema.{
  World, User, AuthSession, EmailChallenge, UserMfaMethod, Claims, TokenType,
}
use saps_case_dockets.Tx.{Tx, ◌>>=◌}
use saps_case_dockets.Tx.Rules.{Ensures, Ensures-assoc, Ensures-gets, Ensures-then, Ensures-utcnow}
use saps_case_dockets.Authentication.{
  Client, TokenResponse, decode_token, find_user, find_session, active_mfa, email_method,
  recent_mfa_failures, minutes,
}
use saps_case_dockets.Authentication.Steps.{
  IsEligible, Issued, with_sessions, Ensures-deny_if, Ensures-or_deny, Ensures-require_eligible,
}
use saps_case_dockets.Authentication.Email.{
  require_open, validate_challenge, is_wrong_code, is_transition,
}

first_or : (b c : Bool) → (b || c) ≡ false → b ≡ false
first_or b c h = ground arith

second_or : (b c : Bool) → (b || c) ≡ false → c ≡ false
second_or b c h = ground arith

-- The open challenge that a token names, of an account that may sign in.
pub record Asked (token : Text) (purpose : TokenType) (w : World) (user : User) (row : AuthSession)
    (later : ℕ) : Type 0 where
  pub claims : Claims
  pub signed : decode_token w token purpose ≡ some claims
  pub account : find_user w claims.sub ≡ some user
  pub eligible : IsEligible user w.platform.clock w.reads later
  pub found : find_session w claims.sid ≡ some row
  pub own : row.user_id ≡ user.id
  pub was_open : is_some row.revoked_at ≡ false
  pub unexpired : leb row.expires_at (w.platform.clock later) ≡ false

-- the sessions after the authenticator was left behind: those of the user end with it
abbrev pub left_open : User → ℕ → Option UserMfaMethod → List AuthSession → List AuthSession
left_open user now none rows = rows
left_open user now (some legacy) rows =
    update_where (λ s. s.user_id == user.id && is_none s.revoked_at)
      (λ s. record s { revoked_at = some now }) rows

record Left (user : User) (now : ℕ) (legacy : Option UserMfaMethod) (w w' : World) : Type 0 where
  pub same_access : w'.access ≡ w.access
  pub same_platform : w'.platform ≡ w.platform
  pub same_reads : w'.reads ≡ w.reads
  pub sessions_left : w'.sessions ≡ left_open user now legacy w.sessions

module _ {ℓ κ} {B : Type ℓ} {Q : B → World → Type κ} where
  pub Ensures-validate_challenge :
      (client : Client) (token : Text) (purpose : TokenType) (w : World)
      (k : User × AuthSession → Tx B)
      → ((user : User) (row : AuthSession) (n : ℕ)
          → Asked token purpose w user row n
          → Ensures (k (user, row) (record w { reads = n + 1 })) Q)
      → Ensures ((validate_challenge client token purpose >>= k) w) Q
  unfolding validate_challenge require_open find_session find_user
  Ensures-validate_challenge client token purpose w k next = Ensures-assoc _ _ _ _ (
      Ensures-gets _ _ _ (
        Ensures-assoc _ _ _ _ (
          Ensures-or_deny _ client _ _ _ _ _ λ claims signed. Ensures-assoc _ _ _ _ (
            Ensures-gets _ _ _ (
              Ensures-assoc _ _ _ _ (
                Ensures-require_eligible client _ _ _ _ λ user n account eligible.
                  Ensures-assoc _ _ _ _ (
                    Ensures-gets _ _ _ (
                      Ensures-assoc _ _ _ _ (
                        Ensures-assoc _ _ _ _ (
                          Ensures-or_deny _ client _ _ _ _ _ λ row found. Ensures-assoc _ _ _ _ (
                            Ensures-deny_if _ client _ _ _ _ _ λ h. Ensures-assoc _ _ _ _ (
                              Ensures-utcnow _ _ (
                                Ensures-assoc _ _ _ _ (
                                  Ensures-deny_if _ client _ _ _ _ _ λ unexpired.
                                    Ensures-then _ _ _ (
                                      Ensures-then _ _ _ (
                                        next user row _ (record {
                                          claims = claims;
                                          signed = signed;
                                          account = account;
                                          eligible = eligible;
                                          found = found;
                                          own = equal_of _ _ (first_or _ _ h);
                                          was_open = second_or _ _ h;
                                          unexpired = unexpired;
                                        })))))))))))))))))

-- What an answered verification says of its request.
pub record Verified (client : Client) (token code : Text) (w : World) (out : TokenResponse)
    (w' : World) : Type 0 where
  pub user : User
  pub row : AuthSession
  pub challenge : EmailChallenge
  pub later : ℕ
  pub asked : Asked token TokenType.email_code w user row later
  pub found : first_where (λ c. c.session_id == row.id) w.challenges ≡ some challenge
  pub bound :
      (not (challenge.user_id == user.id) || not (text_eq challenge.recipient user.email)) ≡ false
  pub right : is_wrong_code w user row challenge code (w.platform.clock (later + 1)) ≡ false
  pub few_failures :
      leb w.platform.settings.max_failed_login_attempts (
        recent_mfa_failures w user.id
          (w.platform.clock (later + 1) - minutes w.platform.settings.account_lock_minutes))
      ≡ false
  pub stands :
      (user.mfa_enabled && (is_none (active_mfa w user.id) && is_none (email_method w user)))
      ≡ false
  pub switched : (is_some (active_mfa w user.id) && not (is_transition challenge.purpose)) ≡ false
  pub issued :
      Issued client user.id
        (some row)
        (w.platform.clock (later + 1 + 1))
        (with_sessions w
          (left_open user (w.platform.clock (later + 1)) (active_mfa w user.id) w.sessions))
        out
        w'.sessions
  pub same_platform : w'.platform ≡ w.platform
