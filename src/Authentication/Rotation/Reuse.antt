-- ===== src/Authentication/Rotation/Reuse.antt =====
-- The refresh with a token that was replaced (app/modules/authentication/service.py, `refresh`).
use saps_case_dockets.Prelude.{ℕ, ◌≡◌, refl, Bool, true, false, some, leb, exists_where}
use saps_case_dockets.Text.{Text}
use saps_case_dockets.Schema.{World, User, AuthSession}
use saps_case_dockets.Tx.{
  Result, ok, err, http, pure, raise, gets, utcnow, new_id, or_raise, put_comms, ◌>>=◌,
}
use saps_case_dockets.Tx.Rules.{is_error}
use saps_case_dockets.Tx.Commits.{opened, commit, put_signins}
use saps_case_dockets.Authentication.{
  Client, find_user, find_session, by_refresh_hash, hash_refresh_token, auth_audit, deny, deny_if,
  or_deny, invalid,
}
use saps_case_dockets.Tx.Settles.{
  Settles, Settles-service_call, Settles-utcnow, Settles-ok, Settles-err,
}
use saps_case_dockets.Authentication.Rotation.{
  session_chain, revoke_session_chain, refresh_session, report_reuse, reject_revoked, refresh,
}
use saps_case_dockets.Authentication.Rotation.Once.{Named}
use saps_case_dockets.Authentication.Rotation.Chain.{
  Descends, Descends-in, is_live, revoke_all, revoke_all-dead,
}

refresh_session-Named :
    (client : Client) (token : Text) (w : World) (user : User) (row : AuthSession)
    → Named token w user row
    → refresh_session client token (opened w) ≡ (ok (user, row), opened w)
unfolding refresh_session by_refresh_hash hash_refresh_token find_user find_session ◌>>=◌ gets
    or_deny or_raise pure
refresh_session-Named client token w user row named =
    rw named.known (rw named.account (rw named.found refl))

-- what is committed when a replaced session was met
reject_revoked-revoke_all :
    (client : Client) (user : User) (row : AuthSession) (revoked_at next : ℕ) (w : World)
    → row.revoked_at ≡ some revoked_at
    → row.replaced_by_session_id ≡ some next
    → let (r, w') = reject_revoked client user row row.revoked_at w in
      (r ≡ err (http 401 invalid))
      × (w'.committed.signins.sessions
          ≡ revoke_all (session_chain w user.id row.id) (w.platform.clock w.reads) w.sessions)
unfolding reject_revoked report_reuse revoke_session_chain session_chain auth_audit deny_if deny
    commit ◌>>=◌ gets utcnow new_id put_comms put_signins raise
reject_revoked-revoke_all client user row revoked_at next w e h = rw e (rw h (refl, refl))

deny_if-passed :
    (b : Bool) (client : Client) (user : User) (w : World)
    → b ≡ false
    → deny_if b client "auth.session_rejected" (some user.id) invalid w ≡ (ok tt, w)
unfolding deny_if pure
deny_if-passed b client user w h = rw h refl

-- A refresh that is refused, after which a session is no longer open.
pub record Reused {ℓ} {A : Type ℓ} (j : ℕ) (r : Result A) (w' : World) : Type 0 where
  pub refused : is_error r ≡ true
  pub ended : exists_where (is_live j) w'.sessions ≡ false

refresh-Settles :
    (client : Client) (token : Text) (w : World) (user : User) (row : AuthSession)
    (revoked_at next j : ℕ)
    → Named token w user row
    → leb row.expires_at (w.platform.clock w.reads) ≡ false
    → row.revoked_at ≡ some revoked_at
    → row.replaced_by_session_id ≡ some next
    → Descends w.sessions user.id row.id j
    → Settles (refresh client token w) (Reused j)
unfolding refresh
refresh-Settles client token w user row revoked_at next j named unexpired revoked replaced d =
    Settles-service_call _ _ _ (
      Settles-ok _ _ (user, row) _ (opened w) (refresh_session-Named client token w user row named)
        (Settles-utcnow _ _ (
          Settles-ok _ _ tt _ _ (deny_if-passed _ client user _ unexpired) (
            let reuse =
              reject_revoked-revoke_all client user row revoked_at next _ revoked replaced in
            Settles-err _ _ _ (http 401 invalid) reuse.0 (record {
              refused = refl;
              ended =
                  rw reuse.1 (revoke_all-dead _ _ j _ (Descends-in w.sessions user.id row.id d));
            })))))

-- A refresh with the token of an unexpired session that was replaced raises; what it commits leaves
-- revoked that session and every session that replaced it, one after the other, so also the one that
-- is in use.
pub refresh-Reused :
    (client : Client) (token : Text) (w : World) (user : User) (row : AuthSession)
    (revoked_at next j : ℕ)
    → Named token w user row
    → leb row.expires_at (w.platform.clock w.reads) ≡ false
    → row.revoked_at ≡ some revoked_at
    → row.replaced_by_session_id ≡ some next
    → Descends w.sessions user.id row.id j
    → let (r, w') = refresh client token w in Reused j r w'
refresh-Reused client token w user row revoked_at next j named unexpired revoked replaced d =
    (refresh-Settles client token w user row revoked_at next j named unexpired revoked replaced
      d).holds
