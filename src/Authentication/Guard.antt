-- ===== src/Authentication/Guard.antt =====
-- The guards of the endpoints: app/modules/authentication/dependencies.py.
pub mod Access
use saps_case_dockets.Prelude.{
  ℕ, Bool, true, false, not, ◌&&◌, ◌||◌, Option, none, some, List, [], ◌∷◌, ◌==◌, leb, ltb, is_some,
  if◌then◌else◌, length,
}
use saps_case_dockets.Text.{Text, codes, text_eq}
use saps_case_dockets.Schema.{World, User, AuthSession, TokenType, RoleCode, PermissionCode}
use saps_case_dockets.Tx.{Tx, Error, http, pure, gets, or_raise, raise_if, utcnow, ◌>>=◌, ◌>>◌}
use saps_case_dockets.Access.{has_role, has_permission}
use saps_case_dockets.Authentication.{decode_token, find_session, find_user, is_authenticated}

-- the header of a request
pub record Credentials : Type 0 where
  pub scheme : Text
  pub credentials : Text

abbrev pub unauthenticated : Error
unauthenticated = http 401 (codes "Invalid or missing authentication")

-- `if user is None or not user.is_active or ...: raise unauthenticated()`
unfoldable pub live_user : ℕ → Tx User
unfolding is_authenticated
live_user user_id = do
  found ← gets (λ w. find_user w user_id)
  user ← or_raise found unauthenticated
  proved ← gets (λ w. is_authenticated w user)
  raise_if (not user.is_active || (not user.mfa_enabled || not proved)) unauthenticated
  pure user

-- `get_current_session`; the clock is read for a session that is open only
unfoldable pub current_session : Option Credentials → Tx AuthSession
unfolding live_user
current_session given = do
  header ← or_raise given unauthenticated
  p ← gets (λ w. w.platform)
  raise_if
      (not (text_eq (p.lower header.scheme) (codes "bearer"))
        || ltb 4096 (length header.credentials))
      unauthenticated
  decoded ← gets (λ w. decode_token w header.credentials TokenType.access)
  claims ← or_raise decoded unauthenticated
  found ← gets (λ w. find_session w claims.sid)
  row ← or_raise found unauthenticated
  raise_if (not (row.user_id == claims.sub) || is_some row.revoked_at) unauthenticated
  now ← utcnow
  raise_if (leb row.expires_at now) unauthenticated
  user ← live_user row.user_id
  pure row

-- `get_current_user` and `get_current_active_user`
unfoldable pub current_user : Option Credentials → Tx User
unfolding current_session live_user
current_user given = do
  session ← current_session given
  user ← live_user session.user_id
  raise_if (not user.is_active) unauthenticated
  pure user

-- `require_role(code)` and `require_permission(code)`
unfoldable pub require_role : RoleCode → Option Credentials → Tx User
unfolding current_user has_role
require_role code given = do
  user ← current_user given
  granted ← gets (λ w. has_role w.access user.id code)
  raise_if (not granted) (http 403 (codes "Insufficient permission"))
  pure user

unfoldable pub require_permission : PermissionCode → Option Credentials → Tx User
unfolding current_user has_permission
require_permission code given = do
  user ← current_user given
  granted ← gets (λ w. has_permission w.access user.id code)
  raise_if (not granted) (http 403 (codes "Insufficient permission"))
  pure user
