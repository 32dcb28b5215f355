-- ===== src/Authentication/Rotation/Once.antt =====
-- The refresh of a session (app/modules/authentication/service.py, `refresh`).
use saps_case_dockets.Prelude.{
  ℕ, ◌+◌, ◌≡◌, refl, ◌∙◌, Bool, true, false, not, ◌||◌, Option, none, some, List, [], ◌∷◌, ◌++◌,
  ◌==◌, ==_refl, leb, if◌then◌else◌, first_where, update_where, arith,
}
use saps_case_dockets.Text.{Text}
use saps_case_dockets.Schema.{World, User, AuthSession}
use saps_case_dockets.Rows.{first_where_sound, first_where-append_some, first_where-update}
use saps_case_dockets.Tx.{Tx, ◌>>=◌}
use saps_case_dockets.Tx.Rules.{
  Ensures, is_error, is_error-Ensures, Ensures-assoc, Ensures-gets, Ensures-keeps, Ensures-or_raise,
  Ensures-pure, Ensures-then, Ensures-utcnow, Ensures-weaken,
}
use saps_case_dockets.Tx.Commits.Rules.{Ensures-service_call, Ensures-commit}
use saps_case_dockets.Authentication.{
  Client, TokenResponse, has_hash, is_session, by_refresh_hash, hash_refresh_token, find_user,
  find_session, is_authenticated, replaced_at, email_method, active_mfa,
}
use saps_case_dockets.Authentication.Steps.{
  IsEligible, Issued, Ensures-auth_audit, Ensures-deny_if, Ensures-or_deny, Ensures-require_account,
  Ensures-issue_tokens,
}
use saps_case_dockets.Authentication.Rotation.{refresh_session, reject_revoked, refresh}

-- The session that a refresh token names.
pub record Named (token : Text) (w : World) (user : User) (row : AuthSession) : Type 0 where
  pub candidate : AuthSession
  pub known : by_refresh_hash w (hash_refresh_token w token) ≡ some candidate
  pub account : find_user w candidate.user_id ≡ some user
  pub found : find_session w candidate.id ≡ some row

-- What an answered refresh says of its request.
pub record Rotated (client : Client) (token : Text) (w : World) (out : TokenResponse) (w' : World)
    : Type 0 where
  pub user : User
  pub row : AuthSession
  pub later : ℕ
  pub named : Named token w user row
  pub unexpired : leb row.expires_at (w.platform.clock w.reads) ≡ false
  pub was_open : row.revoked_at ≡ none
  pub eligible : IsEligible user w.platform.clock (w.reads + 1) later
  pub proved : (not user.mfa_enabled || not (is_authenticated w user)) ≡ false
  pub issued : Issued client user.id (some row) (w.platform.clock later) w out w'.sessions
  pub same_accounts : w'.access ≡ w.access
  pub same_platform : w'.platform ≡ w.platform

module _ {ℓ κ} {B : Type ℓ} {Q : B → World → Type κ} where
  pub Ensures-refresh_session :
      (client : Client) (token : Text) (w : World) (k : User × AuthSession → Tx B)
      → ((user : User) (row : AuthSession) → Named token w user row → Ensures (k (user, row) w) Q)
      → Ensures ((refresh_session client token >>= k) w) Q
  unfolding refresh_session
  Ensures-refresh_session client token w k next = Ensures-assoc _ _ _ _ (
      Ensures-gets _ _ _ (
        Ensures-assoc _ _ _ _ (
          Ensures-or_deny _ client _ _ _ _ _ λ candidate known. Ensures-assoc _ _ _ _ (
            Ensures-gets _ _ _ (
              Ensures-assoc _ _ _ _ (
                Ensures-or_raise _ _ _ _ λ user account. Ensures-assoc _ _ _ _ (
                  Ensures-gets _ _ _ (
                    Ensures-assoc _ _ _ _ (
                      Ensures-or_raise _ _ _ _ λ row found. Ensures-then _ _ _ (
                        next user row (record {
                          candidate = candidate;
                          known = known;
                          account = account;
                          found = found;
                        })))))))))))

  Ensures-reject_revoked :
      (client : Client) (user : User) (row : AuthSession) (revoked_at : Option ℕ) (w : World)
      (k : Unit {0} → Tx B)
      → (revoked_at ≡ none → Ensures (k tt w) Q)
      → Ensures ((reject_revoked client user row revoked_at >>= k) w) Q
  unfolding reject_revoked
  Ensures-reject_revoked client user row none w k next = Ensures-then _ _ _ (next refl)
  Ensures-reject_revoked client user row (some t) w k next = Ensures-assoc _ _ _ _ (
      Ensures-keeps (λ _. tt {0}) _ _ _ (record { at = λ _. refl })
        λ _ w' _. Ensures-deny_if true client _ _ _ _ _ λ h. record { holds = ground arith })

-- A refresh that returns was asked with the token of a session that is not revoked and not expired
-- at the first reading of the clock, for an account that is active, not locked at the second, and has
-- proved itself by a second factor that still stands. It adds one session with a fresh token, makes the old one revoked and replaced by it, and
-- changes no other session and no account.
pub refresh-Rotated :
    (client : Client) (token : Text) (w : World)
    → Ensures (refresh client token w) (Rotated client token w)
unfolding refresh by_refresh_hash hash_refresh_token find_user find_session is_authenticated
    email_method active_mfa
refresh-Rotated client token w = Ensures-service_call _ _ _ (
    Ensures-refresh_session client token _ _ λ user row named. Ensures-utcnow _ _ (
      Ensures-deny_if _ client _ _ _ _ _ λ unexpired.
        Ensures-reject_revoked client user row _ _ _ λ was_open.
          Ensures-require_account client _ user _ _ λ n eligible. Ensures-gets _ _ _ (
            Ensures-deny_if _ client _ _ _ _ _ λ proved.
              Ensures-issue_tokens client user (some row) _ _ λ out rows _ _ issued.
                Ensures-auth_audit client _ _ _ _ _ λ comms. Ensures-commit _ _ (
                  Ensures-pure _ _ (record {
                    user = user;
                    row = row;
                    later = n;
                    named = record {
                      candidate = named.candidate;
                      known = named.known;
                      account = named.account;
                      found = named.found;
                    };
                    unexpired = unexpired;
                    was_open = was_open;
                    eligible = record {
                      active = eligible.active;
                      lock = eligible.lock;
                      readings = eligible.readings;
                    };
                    proved = proved;
                    issued = record {
                      row = issued.row;
                      id = issued.id;
                      new = issued.new;
                      fresh = issued.fresh;
                      written = issued.written;
                    };
                    same_accounts = refl;
                    same_platform = refl;
                  })))))

changed_row :
    (q : AuthSession → Bool) (f : AuthSession → AuthSession) (row : AuthSession)
    (o : Option AuthSession)
    → o ≡ some row
    → q row ≡ true
    → elim o [ none ↦ none | some x ↦ some (if q x then f x else x) ] ≡ some (f row)
changed_row q f row o e h = rw e (rw h refl)

-- the row that an update has changed is found under any test that the update does not touch
found_changed :
    (p : AuthSession → Bool) (id : ℕ) (f : AuthSession → AuthSession) (rows : List AuthSession)
    (row new : AuthSession)
    → ((s : AuthSession) → p (f s) ≡ p s)
    → first_where p rows ≡ some row
    → (row.id == id) ≡ true
    → first_where p (update_where (is_session id) f (rows ++ new ∷ [])) ≡ some (f row)
found_changed p id f rows row new same found hit =
    first_where-update p (is_session id) f same (rows ++ new ∷ [])
    ∙ changed_row (is_session id) f row _ (first_where-append_some p rows (new ∷ []) found) hit

module _ (client : Client) (token : Text) (w w' : World) (out : TokenResponse)
    (done : Rotated client token w out w') where
  replace : AuthSession → AuthSession
  replace = replaced_at (w.platform.clock done.later) done.issued.row.id

  same_row : (done.named.candidate.id == done.row.id) ≡ true
  unfolding find_session
  same_row = ground (
    arith,
    first_where_sound (is_session done.named.candidate.id) w.sessions {x = done.row}
        done.named.found,
  )

  known_after :
      by_refresh_hash w' (hash_refresh_token w' token) ≡ some (replace done.named.candidate)
  unfolding by_refresh_hash hash_refresh_token replace
  known_after = rw done.same_platform (
      rw done.issued.written (
        found_changed (has_hash (w.platform.crypto.sha256 token)) done.row.id replace w.sessions
          done.named.candidate done.issued.row (λ s. refl) done.named.known same_row))

  found_after : find_session w' done.named.candidate.id ≡ some (replace done.row)
  unfolding find_session replace
  found_after = rw done.issued.written (
      found_changed (is_session done.named.candidate.id) done.row.id replace w.sessions done.row
        done.issued.row (λ s. refl) done.named.found (==_refl done.row.id))

  -- the token names the session that was replaced
  renamed :
      (user : User) (row : AuthSession)
      → Named token w' user row
      → row.revoked_at ≡ none
      → false ≡ true
  unfolding replace
  renamed user row named open_still =
      ground (arith, known_after, found_after, named.known, named.found)

-- After a refresh has returned, its token does not refresh again, whoever presents it.
pub refresh-once :
    (client client' : Client) (token : Text) (w : World)
    → Ensures (refresh client token w) λ _ w'. is_error (refresh client' token w').0 ≡ true
refresh-once client client' token w =
    Ensures-weaken _ _ (refresh-Rotated client token w) λ out w' done.
      is_error-Ensures _ (refresh-Rotated client' token w') λ _ _ again.
        renamed client token w w' out done again.user again.row again.named again.was_open
