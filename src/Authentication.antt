-- ===== src/Authentication.antt =====
-- Accounts and sign-ins: the repository (app/modules/authentication/repository.py), the primitives
-- of authentication/security.py, and what the handlers of `AuthService` and `EmailFlow` share.
pub mod Email
pub mod SignIn
pub mod Rotation
pub mod Recovery
pub mod Guard
pub mod Settles
pub mod Steps
use saps_case_dockets.Prelude.{
  ℕ, zero, suc, ◌+◌, ◌-◌, ◌*◌, ◌/◌, String, Bool, true, false, not, ◌&&◌, ◌||◌, Option, none, some,
  List, [], ◌∷◌, ◌++◌, ◌==◌, leb, ltb, is_none, is_some, if◌then◌else◌, length, first_where,
  exists_where, rows_where, update_where,
}
use saps_case_dockets.Text.{Text, codes, text_eq}
use saps_case_dockets.Schema.{
  World, User, UserEmailAuth, AuthSession, UserMfaMethod, SessionDb, Claims, TokenType, ActorType,
  AuditLog, same_token_type,
}
use saps_case_dockets.Tx.{Tx, http, raise, pure, gets, put_comms, new_id, utcnow, ok, ◌>>=◌, ◌>>◌}
use saps_case_dockets.Tx.Commits.{commit, put_access, put_signins, check_db}

abbrev pub minutes : ℕ → ℕ
minutes n = n * 60000000

abbrev pub days : ℕ → ℕ
days n = n * 86400000000

-- the client of an `AuthService`, as the constructor keeps it
pub record Client : Type 0 where
  pub ip : Option Text
  pub user_agent : Option Text

-- `AuthService.__init__`: an address that `ipaddress` does not read is dropped, the agent is cut
abbrev pub first : ℕ → Text → Text
first zero s = []
first (suc n) [] = []
first (suc n) (c ∷ s) = c ∷ first n s

abbrev kept_ip : (Text → Option Text) → Option Text → Option Text
kept_ip ip_text none = none
kept_ip ip_text (some []) = none
kept_ip ip_text (some (c ∷ s)) = ip_text (c ∷ s)

abbrev kept_agent : Option Text → Option Text
kept_agent none = none
kept_agent (some []) = none
kept_agent (some (c ∷ s)) = some (first 512 (c ∷ s))

unfoldable pub client_of : World → Option Text → Option Text → Client
client_of w ip user_agent = record {
  ip = kept_ip w.platform.crypto.ip_text ip;
  user_agent = kept_agent user_agent;
}

-- `AuthRepository.user`, `.session` and `.by_refresh_hash`
unfoldable pub find_user : World → ℕ → Option User
find_user w user_id = first_where (λ u. u.id == user_id) w.users

abbrev pub is_session : ℕ → AuthSession → Bool
is_session id s = s.id == id

unfoldable pub find_session : World → ℕ → Option AuthSession
find_session w session_id = first_where (is_session session_id) w.sessions

abbrev pub has_hash : Text → AuthSession → Bool
has_hash token_hash s = text_eq s.refresh_token_hash token_hash

unfoldable pub by_refresh_hash : World → Text → Option AuthSession
by_refresh_hash w token_hash = first_where (has_hash token_hash) w.sessions

abbrev pub has_at : Text → Bool
has_at [] = false
has_at (c ∷ s) = c == 64 || has_at s

-- `AuthRepository.by_identifier`: a name with an @ is an address
unfoldable pub by_identifier : World → Text → Option User
by_identifier w identifier =
    first_where
      (λ u.
        text_eq (w.platform.lower (if has_at identifier then u.email else u.username)) identifier)
      w.users

-- `AuthRepository.active_mfa`
unfoldable pub active_mfa : World → ℕ → Option UserMfaMethod
active_mfa w user_id =
    first_where (λ m. m.user_id == user_id && (m.is_active && is_some m.verified_at)) w.mfa_methods

-- `AuthRepository.email_method`
unfoldable pub email_method : World → User → Option UserEmailAuth
email_method w user =
    if user.is_verified
    then first_where (λ a. a.user_id == user.id && text_eq a.verified_email user.email)
        w.email_auths
    else none

-- `AuthRepository.authenticated_method(user)`, as it is tested
unfoldable pub is_authenticated : World → User → Bool
unfolding email_method active_mfa
is_authenticated w user = is_some (email_method w user) || is_some (active_mfa w user.id)

-- `AuthRepository.recent_mfa_failures`
unfoldable pub recent_mfa_failures : World → ℕ → ℕ → ℕ
recent_mfa_failures w user_id since = length (
    rows_where
      (λ row.
        (elim row.actor_user_id [ none ↦ false | some actor ↦ actor == user_id ])
        && (text_eq (codes row.action) (codes "auth.mfa_failure") && leb since row.occurred_at))
      w.audit_logs)

-- `security.verify_password`: a hash that cannot be used does not authenticate
unfoldable pub verify_password : World → Text → Text → Bool
verify_password w password password_hash =
    elim (w.platform.crypto.verify_password password password_hash) [
      | none ↦ false
      | some same ↦ same
    ]

unfoldable pub hash_refresh_token : World → Text → Text
hash_refresh_token w token = w.platform.crypto.sha256 token

-- a random value, the one at the number of values drawn so far
unfoldable pub draw : (World → Text) → Tx Text
draw value w = (ok (value w), record w { drawn = w.drawn + 1 })

-- `secrets.token_urlsafe(48)`
unfoldable pub generate_refresh_token : Tx Text
unfolding draw
generate_refresh_token = draw (λ w. w.platform.crypto.random_token w.drawn)

-- `security.create_token`
unfoldable pub create_token : ℕ → ℕ → TokenType → ℕ → Tx Text
create_token user_id session_id purpose lifetime = do
  now ← utcnow
  jti ← new_id
  gets (λ w. w.platform.crypto.jwt_encode (record {
    sub = user_id;
    sid = session_id;
    token_type = purpose;
    iat = now;
    exp = now + lifetime;
    jti = jti;
  }))

-- `security.decode_token`; `none` where it raises InvalidTokenError
unfoldable pub decode_token : World → Text → TokenType → Option Claims
decode_token w token purpose =
    elim (w.platform.crypto.jwt_decode (w.platform.clock w.reads) token) [
      | none ↦ none
      | some claims ↦
          if same_token_type claims.token_type purpose && ltb claims.iat claims.exp
          then some claims
          else none
    ]

-- `AuthService.audit`
unfoldable pub auth_audit : Client → String → Option ℕ → Option ℕ → Tx (Unit {0})
auth_audit client action user_id session_id = do
  id ← new_id
  put_comms (λ w. record w.comms {
    audit_logs =
        w.audit_logs
        ++ record {
          id = id;
          actor_type = elim user_id [ none ↦ ActorType.system | some u ↦ ActorType.user ];
          actor_user_id = user_id;
          action = action;
          entity_type = elim session_id [ none ↦ "user" | some s ↦ "auth_session" ];
          entity_id = elim session_id [ none ↦ user_id | some s ↦ some s ];
          station_id = none;
          ip_address = client.ip;
          old_values = none;
          new_values = none;
          event_metadata = none;
          occurred_at = w.platform.database_time w.reads;
        }
          ∷ [];
  })

abbrev pub invalid : Text
invalid = codes "Invalid credentials"

-- `AuthService.deny`: the entry is committed, with what was written before it
unfoldable pub deny {ℓ} : {A : Type ℓ} → Client → String → Option ℕ → Text → Tx A
unfolding auth_audit
deny client action user_id detail = do
  auth_audit client action user_id none
  commit
  raise (http 401 detail)

-- `if test: self.deny(...)`
unfoldable pub deny_if : Bool → Client → String → Option ℕ → Text → Tx (Unit {0})
unfolding deny
deny_if true client action user_id detail = deny client action user_id detail
deny_if false client action user_id detail = pure tt

-- `if row is None: self.deny(...)`
unfoldable pub or_deny {ℓ} : {A : Type ℓ} → Option A → Client → String → Option ℕ → Text → Tx A
unfolding deny
or_deny none client action user_id detail = deny client action user_id detail
or_deny (some a) client action user_id detail = pure a

abbrev pub lock_is_over : Option ℕ → Tx Bool
lock_is_over none = pure true
lock_is_over (some locked_until) = do now ← utcnow; pure (leb locked_until now)

-- `AuthService.eligible`
unfoldable pub eligible : User → Tx Bool
eligible user = if user.is_active then lock_is_over user.locked_until else pure false

-- `if not self.eligible(user): self.deny(action, user)`
unfoldable pub require_eligible : Client → String → Option User → Tx User
unfolding eligible deny deny_if
require_eligible client action none = deny client action none invalid
require_eligible client action (some user) = do
  admitted ← eligible user
  deny_if (not admitted) client action (some user.id) invalid
  pure user

-- the columns of an account that a handler has set
unfoldable pub save_user : User → Tx (Unit {0})
save_user user =
    put_access
      (λ w. record w.access { users = update_where (λ u. u.id == user.id) (λ _. user) w.users })

unfoldable pub change_session : ℕ → (AuthSession → AuthSession) → Tx (Unit {0})
change_session id f =
    put_signins (λ w. record w.signins { sessions = update_where (is_session id) f w.sessions })

-- `update(AuthSession).where(..., revoked_at IS NULL).values(revoked_at=now)`
abbrev pub revoke_where : (AuthSession → Bool) → ℕ → SessionDb → SessionDb
revoke_where p now tables = record tables {
  sessions =
      update_where (λ s. p s && is_none s.revoked_at) (λ s. record s { revoked_at = some now })
        tables.sessions;
}

-- the keys of `auth_sessions`
abbrev pub session_clashes : AuthSession → AuthSession → Bool
session_clashes row s = s.id == row.id || text_eq s.refresh_token_hash row.refresh_token_hash

-- the keys and the check `expires_at > issued_at`
unfoldable pub insert_session : AuthSession → Tx (Unit {0})
insert_session row = do
  check_db (λ db. not (exists_where (session_clashes row) db.sessions))
  check_db (λ _. ltb row.issued_at row.expires_at)
  put_signins (λ w. record w.signins { sessions = w.sessions ++ row ∷ [] })

abbrev pub new_session : Client → ℕ → ℕ → Text → ℕ → ℕ → AuthSession
new_session client id user_id token_hash now expires_at = record {
  id = id;
  user_id = user_id;
  refresh_token_hash = token_hash;
  issued_at = now;
  expires_at = expires_at;
  last_used_at = none;
  revoked_at = none;
  replaced_by_session_id = none;
  created_from_ip = client.ip;
  user_agent = client.user_agent;
}

-- a session of this client with a fresh token, whose hash is kept
unfoldable pub open_session : Client → ℕ → ℕ → ℕ → Tx (Text × AuthSession)
unfolding generate_refresh_token insert_session hash_refresh_token
open_session client user_id now expires_at = do
  raw ← generate_refresh_token
  hashed ← gets (λ w. hash_refresh_token w raw)
  id ← new_id
  insert_session (new_session client id user_id hashed now expires_at)
  pure (raw, new_session client id user_id hashed now expires_at)

pub record TokenResponse : Type 0 where
  pub access_token : Text
  pub refresh_token : Text
  pub expires_in : ℕ

abbrev pub replaced_at : ℕ → ℕ → AuthSession → AuthSession
replaced_at now id row = record row {
  revoked_at = some now;
  last_used_at = some now;
  replaced_by_session_id = some id;
}

-- `if previous is not None: ...`
unfoldable pub retire : Option AuthSession → ℕ → ℕ → Tx (Unit {0})
unfolding change_session
retire none now id = pure tt
retire (some previous) now id = change_session previous.id (replaced_at now id)

-- `AuthService.issue_tokens`
unfoldable pub issue_tokens : Client → User → Option AuthSession → Tx TokenResponse
unfolding open_session retire create_token
issue_tokens client user previous = do
  now ← utcnow
  settings ← gets (λ w. w.platform.settings)
  opened ← open_session client user.id now (now + days settings.refresh_token_expire_days)
  retire previous now opened.1.id
  access_token ←
      create_token user.id opened.1.id TokenType.access
        (minutes settings.access_token_expire_minutes)
  pure (record {
    access_token = access_token;
    refresh_token = opened.0;
    expires_in = settings.access_token_expire_minutes * 60;
  })
