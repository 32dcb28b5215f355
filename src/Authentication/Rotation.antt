-- ===== src/Authentication/Rotation.antt =====
-- Refresh tokens: `refresh_session`, `revoke_session_chain`, `refresh` and `logout` of `AuthService`
-- (app/modules/authentication/service.py).
pub mod Chain
pub mod Once
pub mod Reuse
use saps_case_dockets.Prelude.{
  ℕ, zero, suc, Bool, true, false, not, ◌&&◌, ◌||◌, Option, none, some, List, [], ◌∷◌, ◌==◌, leb,
  is_none, is_some, if◌then◌else◌, first_where, exists_where, rows_where, length,
}
use saps_case_dockets.Text.{Text}
use saps_case_dockets.Schema.{World, User, AuthSession}
use saps_case_dockets.Tx.{Tx, pure, gets, or_raise, attribute_error, utcnow, ◌>>=◌, ◌>>◌}
use saps_case_dockets.Tx.Commits.{commit, put_signins, service_call}
use saps_case_dockets.Authentication.{
  Client, TokenResponse, by_refresh_hash, hash_refresh_token, find_user, find_session,
  is_authenticated, auth_audit, deny_if, or_deny, require_eligible, revoke_where, issue_tokens,
  invalid,
}
use saps_case_dockets.Authentication.Email.{auth_unavailable}

abbrev pub is_of : ℕ → ℕ → AuthSession → Bool
is_of user_id id s = s.id == id && s.user_id == user_id

-- The recursive query `session_chain`: from a session to the one that replaced it, within the
-- user's sessions. UNION meets no row twice, so a row that was met is left out from there on. The
-- fuel is the number of sessions.
unfoldable pub chain : ℕ → ℕ → ℕ → List AuthSession → List AuthSession
chain zero user_id id rows = []
chain (suc fuel) user_id id rows = elim (first_where (is_of user_id id) rows) [
  | none ↦ []
  | some s ↦ s ∷ elim s.replaced_by_session_id [
    | none ↦ []
    | some next ↦ chain fuel user_id next (rows_where (λ x. not (is_of user_id id x)) rows)
  ]
]

unfoldable pub session_chain : World → ℕ → ℕ → List AuthSession
unfolding chain
session_chain w user_id id = chain (length w.sessions) user_id id w.sessions

abbrev pub is_in : List AuthSession → AuthSession → Bool
is_in rows s = exists_where (λ x. x.id == s.id) rows

-- `AuthService.revoke_session_chain`
unfoldable pub revoke_session_chain : User → AuthSession → Tx (Unit {0})
unfolding session_chain
revoke_session_chain user row = do
  rows ← gets (λ w. session_chain w user.id row.id)
  now ← utcnow
  put_signins (λ w. revoke_where (is_in rows) now w.signins)

-- `AuthService.refresh_session`: the account, which the foreign key keeps, and the session
unfoldable pub refresh_session : Client → Text → Tx (User × AuthSession)
refresh_session client token = do
  known ← gets (λ w. by_refresh_hash w (hash_refresh_token w token))
  candidate ← or_deny known client "auth.session_rejected" none invalid
  account ← gets (λ w. find_user w candidate.user_id)
  user ← or_raise account attribute_error
  found ← gets (λ w. find_session w candidate.id)
  row ← or_raise found attribute_error
  pure (user, row)

-- `if row.replaced_by_session_id is not None: ...`
unfoldable pub report_reuse : Client → User → AuthSession → Option ℕ → Tx (Unit {0})
unfolding revoke_session_chain
report_reuse client user row none = pure tt
report_reuse client user row (some next) = do
  revoke_session_chain user row
  auth_audit client "auth.refresh_reuse" (some user.id) none

-- `if row.revoked_at is not None: ...`
unfoldable pub reject_revoked : Client → User → AuthSession → Option ℕ → Tx (Unit {0})
unfolding report_reuse
reject_revoked client user row none = pure tt
reject_revoked client user row (some revoked_at) = do
  report_reuse client user row row.replaced_by_session_id
  deny_if true client "auth.session_rejected" (some user.id) invalid

-- `AuthService.refresh`
unfoldable pub refresh : Client → Text → Tx TokenResponse
unfolding refresh_session reject_revoked
refresh client token = service_call auth_unavailable do
  known ← refresh_session client token
  now ← utcnow
  deny_if (leb known.1.expires_at now) client "auth.session_rejected" (some known.0.id) invalid
  reject_revoked client known.0 known.1 known.1.revoked_at
  user ← require_eligible client "auth.session_rejected" (some known.0)
  proved ← gets (λ w. is_authenticated w user)
  deny_if (not user.mfa_enabled || not proved) client "auth.session_rejected" (some user.id) invalid
  response ← issue_tokens client user (some known.1)
  auth_audit client "auth.token_refresh" (some user.id) (some known.1.id)
  commit
  pure response

-- `AuthService.logout`
unfoldable pub logout : Client → Text → Tx (Unit {0})
unfolding refresh_session revoke_session_chain
logout client token = service_call auth_unavailable do
  known ← refresh_session client token
  now ← utcnow
  deny_if (leb known.1.expires_at now) client "auth.session_rejected" (some known.0.id) invalid
  revoke_session_chain known.0 known.1
  auth_audit client "auth.logout" (some known.0.id) (some known.1.id)
  commit
