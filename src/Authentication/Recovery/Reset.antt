-- ===== src/Authentication/Recovery/Reset.antt =====
-- The reset of a password (app/modules/authentication/recovery.py, `reset`).
use saps_case_dockets.Prelude.{
  ℕ, ◌≡◌, refl, Bool, true, false, not, ◌&&◌, ◌||◌, some, List, [], ◌∷◌, ◌==◌, is_none, is_some,
  leb, first_where, exists_where, update_where, arith,
}
use saps_case_dockets.Text.{Text}
use saps_case_dockets.Schema.{World, User, PasswordReset, AuthSession}
use saps_case_dockets.Tx.Rules.{
  Ensures, Ensures-gets, Ensures-last, Ensures-or_raise, Ensures-pure, Ensures-raise_if,
  Ensures-utcnow,
}
use saps_case_dockets.Tx.Commits.Rules.{Ensures-service_call, Ensures-commit, Ensures-put_signins}
use saps_case_dockets.Authentication.{Client, find_user, hash_refresh_token, email_method}
use saps_case_dockets.Authentication.Steps.{Ensures-auth_audit, Ensures-save_user}
use saps_case_dockets.Authentication.Recovery.{
  has_token, may_recover, with_password, reset_password,
}

-- a session of that user that is not revoked, and a recovery token of that user that is not used
abbrev is_open_of : ℕ → AuthSession → Bool
is_open_of user_id s = s.user_id == user_id && is_none s.revoked_at

abbrev is_unused_of : ℕ → PasswordReset → Bool
is_unused_of user_id r = r.user_id == user_id && is_none r.used_at

revoked-closed :
    (user_id now : ℕ) (rows : List AuthSession)
    → exists_where
        (is_open_of user_id)
        (update_where (is_open_of user_id) (λ s. record s { revoked_at = some now }) rows)
      ≡ false
unfolding exists_where update_where
revoked-closed user_id now [] = refl
revoked-closed user_id now (s ∷ rows) = ground (arith, revoked-closed user_id now rows)

spent-used :
    (user_id now : ℕ) (rows : List PasswordReset)
    → exists_where
        (is_unused_of user_id)
        (update_where (is_unused_of user_id) (λ r. record r { used_at = some now }) rows)
      ≡ false
unfolding exists_where update_where
spent-used user_id now [] = refl
spent-used user_id now (r ∷ rows) = ground (arith, spent-used user_id now rows)

first_or : (b c d : Bool) → (not b || (c || d)) ≡ false → b ≡ true
first_or b c d h = ground arith

second_or : (b c d : Bool) → (not b || (c || d)) ≡ false → c ≡ false
second_or b c d h = ground arith

third_or : (b c d : Bool) → (not b || (c || d)) ≡ false → d ≡ false
third_or b c d h = ground arith

-- What an answered reset says of its request.
pub record Reset (token password : Text) (w : World) (out : Unit {0}) (w' : World) : Type 0 where
  pub candidate : PasswordReset
  pub row : PasswordReset
  pub user : User
  pub known :
      first_where (has_token (hash_refresh_token w token)) w.password_resets ≡ some candidate
  pub account : find_user w candidate.user_id ≡ some user
  pub found : first_where (λ r. r.id == candidate.id) w.password_resets ≡ some row
  pub allowed : may_recover w user ≡ true
  pub unused : is_some row.used_at ≡ false
  pub unexpired : leb row.expires_at (w.platform.clock w.reads) ≡ false
  pub changed :
      w'.users
      ≡ update_where
          (λ u. u.id == user.id)
          (λ _. with_password (w.platform.crypto.hash_password w.drawn password) user)
          w.users
  pub signed_out : exists_where (is_open_of user.id) w'.sessions ≡ false
  pub spent : exists_where (is_unused_of user.id) w'.password_resets ≡ false

-- A reset that returns was asked with a recovery token that is neither used nor, at the reading of the
-- clock, expired, of an
-- active account with a verified address. It sets the password and lifts the lock; afterwards the
-- account has no open session and no recovery token that could be used.
pub reset_password-Reset :
    (client : Client) (token password : Text) (w : World)
    → Ensures (reset_password client token password w) (Reset token password w)
unfolding reset_password find_user hash_refresh_token email_method
reset_password-Reset client token password w = Ensures-service_call _ _ _ (
    Ensures-gets _ _ _ (
      Ensures-or_raise _ _ _ _ λ candidate known. Ensures-gets _ _ _ (
        Ensures-or_raise _ _ _ _ λ user account. Ensures-gets _ _ _ (
          Ensures-or_raise _ _ _ _ λ row found. Ensures-utcnow _ _ (
            Ensures-gets _ _ _ (
              Ensures-raise_if _ _ _ _ λ h. Ensures-gets _ _ _ (
                Ensures-save_user _ _ _ (
                  Ensures-put_signins _ _ _ (
                    Ensures-put_signins _ _ _ (
                      Ensures-auth_audit client _ _ _ _ _ λ comms. Ensures-last _ _ (
                        Ensures-commit _ _ (
                          Ensures-pure _ _ (record {
                            candidate = candidate;
                            row = row;
                            user = user;
                            known = known;
                            account = account;
                            found = found;
                            allowed =
                                first_or _ (is_some row.used_at)
                                  (leb row.expires_at (w.platform.clock w.reads)) h;
                            unused = second_or _ _ _ h;
                            unexpired = third_or _ _ _ h;
                            changed = refl;
                            signed_out = revoked-closed user.id _ w.sessions;
                            spent = spent-used user.id _ w.password_resets;
                          })))))))))))))
