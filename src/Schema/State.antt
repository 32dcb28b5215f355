-- ===== src/Schema/State.antt =====
-- The database, and what the handlers take from outside it.
use saps_case_dockets.Prelude.{ℕ, Bool, Option, List}
use saps_case_dockets.Text.{Text}
use saps_case_dockets.Schema.Access.{AccessDb, SessionDb}
use saps_case_dockets.Schema.Enums.{TokenType}
use saps_case_dockets.Schema.Cases.{CaseDb, IdentifierCounter}
use saps_case_dockets.Schema.Comms.{CommsDb}

-- The parts of a URL, as `urllib.parse.urlsplit` gives them.
pub record SplitUrl : Type 0 where
  pub scheme : Text
  pub hostname : Option Text
  pub username : Option Text
  pub password : Option Text
  pub path : Text
  pub query : Text
  pub fragment : Text

-- The claims of a signed token, with the identifiers and times read from their texts.
pub record Claims : Type 0 where
  pub sub : ℕ
  pub sid : ℕ
  pub token_type : TokenType
  pub iat : ℕ
  pub exp : ℕ
  pub jti : ℕ

-- The exceptions that the SMTP dialogue can raise, most special class first.
pub data SmtpError : Type 0 where
  smtp_authentication_error permission_error smtp_recipients_refused smtp_sender_refused
        smtp_data_error smtp_exception os_error value_error :
      SmtpError

-- One dialogue with the mail server: whether it came to `sending = True`, whether the server
-- refused some recipients on return (`smtp.send_message(message)` is not empty), whether it came to
-- `accepted = True`, and the exception that ended it.
pub record SmtpRun : Type 0 where
  pub sending : Bool
  pub refused_some : Bool
  pub accepted : Bool
  pub raised : Option SmtpError

-- `app.core.config.settings`, as far as the services read it.
pub record Settings : Type 0 where
  pub max_failed_login_attempts : ℕ
  pub account_lock_minutes : ℕ
  pub mfa_challenge_expire_minutes : ℕ
  pub access_token_expire_minutes : ℕ
  pub refresh_token_expire_days : ℕ
  pub email_resend_seconds : ℕ
  pub email_max_sends_per_hour : ℕ
  pub case_mail_configured : Bool  -- the conjunction of the five mail settings

-- Passwords, tokens, codes and mail: pwdlib, `secrets`, hashlib, hmac, PyJWT, Fernet, pyotp,
-- ipaddress and smtplib. The drawn values are those at the number of identifiers drawn so far.
-- `jwt_decode` is given the time and answers `none` where PyJWT or the reading of an identifier
-- raises; `decrypt` answers `none` on InvalidToken, `verify_password` where the hash is unusable.
pub record Crypto : Type 0 where
  pub hash_password : ℕ → Text → Text
  pub verify_password : Text → Text → Option Bool
  pub random_token : ℕ → Text
  pub random_code : ℕ → ℕ
  pub sha256 : Text → Text
  pub hmac : Text → Text
  pub jwt_encode : Claims → Text
  pub jwt_decode : ℕ → Text → Option Claims
  pub decrypt : Text → Option Text
  pub totp_verify : Text → Text → ℕ → Bool
  pub ip_text : Text → Option Text
  pub smtp : ℕ → SmtpRun

-- What other packages compute, and the settings: the clock, `uuid.uuid4`, the calendar of
-- Johannesburg, Python's `str.strip` and `str.casefold`, the text of an identifier, the keyed
-- digest, the cipher, `urlsplit` (`none` where it raises ValueError), the portal's address and the
-- name of the environment. The nth reading of the clock and the nth identifier drawn are those at n;
-- `database_time` is the server's `now()` after that many readings. Times are in
-- microseconds, and `sast_text` prints one as the invitations do.
pub record Platform : Type 0 where
  pub clock : ℕ → ℕ
  pub uuid : ℕ → ℕ
  pub calendar_year : ℕ → ℕ
  pub strip : Text → Text
  pub casefold : Text → Text
  pub uuid_text : ℕ → Text
  pub digest : Text → Text
  pub encrypt : Text → Text
  pub urlsplit : Text → Option SplitUrl
  pub case_portal_url : Text
  pub environment : Text
  pub lower : Text → Text
  pub database_time : ℕ → ℕ
  pub sast_text : ℕ → Text
  pub crypto : Crypto
  pub settings : Settings

pub record Db : Type 0 where
  pub access : AccessDb
  pub open access use *
  pub cases : CaseDb
  pub open cases use *
  pub comms : CommsDb
  pub open comms use *
  pub signins : SessionDb
  pub open signins use *
  pub counters : List IdentifierCounter

-- A message that was given to the SMTP transport, and what was committed at that time.
pub record Posted : Type 0 where
  pub recipient : Text
  pub subject : Text
  pub body : Text
  pub identity : Option ℕ
  pub saved : Db

pub record World : Type 0 where
  pub db : Db
  pub open db use *
  pub platform : Platform
  pub committed : Db  -- the last state that was committed
  pub posted : List Posted  -- handed to the mail server
  pub reads : ℕ  -- readings of the clock so far
  pub drawn : ℕ  -- identifiers drawn so far
