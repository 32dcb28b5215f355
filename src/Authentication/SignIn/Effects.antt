-- ===== src/Authentication/SignIn/Effects.antt =====
-- The sign-in with a password (app/modules/authentication/service.py, `login`).
use saps_case_dockets.Prelude.{ℕ, ◌≡◌, refl, Bool, true, false, some, arith}
use saps_case_dockets.Text.{Text}
use saps_case_dockets.Schema.{World, User}
use saps_case_dockets.Tx.{Tx, Result, ok, err, ◌>>=◌}
use saps_case_dockets.Tx.Rules.{
  Ensures, Holds, Ensures-assoc, Ensures-bind, Ensures-gets, Ensures-pure, Ensures-then,
  Ensures-utcnow,
}
use saps_case_dockets.Tx.Commits.Rules.{Ensures-service_call, Ensures-commit}
use saps_case_dockets.Authentication.{
  Client, by_identifier, verify_password, email_method, active_mfa,
}
use saps_case_dockets.Authentication.Steps.{
  IsEligible, Ensures-auth_audit, Ensures-require_eligible, Ensures-save_user, Ensures-deny,
}
use saps_case_dockets.Authentication.SignIn.{
  Answer, signed_in, challenged, unlocked, cleared, is_email_only, sign_in, go_on, fail_password,
  require_password, login,
}

Holds-any {ℓ} : {A : Type ℓ} (r : Result A) (w : World) → Holds r w (λ _ _. Unit {0})
Holds-any (ok a) w = tt
Holds-any (err e) w = tt

-- tokens are answered to an account whose verified address is its only proof, a challenge otherwise
abbrev pub is_direct : Answer → Bool
is_direct (signed_in tokens) = true
is_direct (challenged response) = false

-- What an answered sign-in says of its request.
pub record SignedIn (username password : Text) (w : World) (out : Answer) (w' : World)
    : Type 0 where
  pub account : User
  pub later : ℕ
  pub known : by_identifier w (w.platform.lower (w.platform.strip username)) ≡ some account
  pub eligible : IsEligible account w.platform.clock w.reads later
  pub right : verify_password w password account.password_hash ≡ true
  pub direct : is_direct out ≡ is_email_only w (cleared (unlocked (w.platform.clock later) account))

module _ {ℓ κ} {B : Type ℓ} {Q : B → World → Type κ} where
  Ensures-require_password :
      (right : Bool) (client : Client) (now : ℕ) (user : User) (w : World) (k : Unit {0} → Tx B)
      → (right ≡ true → Ensures (k tt w) Q)
      → Ensures ((require_password right client now user >>= k) w) Q
  unfolding require_password fail_password
  Ensures-require_password true client now user w k next = Ensures-then _ _ _ (next refl)
  Ensures-require_password false client now user w k next = Ensures-assoc _ _ _ _ (
      Ensures-save_user _ _ _ (
        Ensures-assoc _ _ _ _ (
          Ensures-bind (λ _ _. Unit {0}) _ _ _ (record { holds = Holds-any _ _ })
            λ _ w' _. Ensures-deny client _ _ _ _ _)))

  Ensures-go_on :
      (direct : Bool) (client : Client) (now : ℕ) (user : User) (w : World) (k : Answer → Tx B)
      → ((out : Answer) (w' : World) → is_direct out ≡ direct → Ensures (k out w') Q)
      → Ensures ((go_on direct client now user >>= k) w) Q
  unfolding go_on sign_in
  Ensures-go_on true client now user w k next = Ensures-assoc _ _ _ _ (
      Ensures-save_user _ _ _ (
        Ensures-assoc _ _ _ _ (
          Ensures-bind (λ _ _. Unit {0}) _ _ _ (record { holds = Holds-any _ _ })
            λ tokens w' _.
              Ensures-assoc _ _ _ _
                (Ensures-auth_audit client _ _ _ _ _ λ comms. Ensures-then _ _ _ (next _ _ refl)))))
  Ensures-go_on false client now user w k next = Ensures-assoc _ _ _ _ (
      Ensures-bind (λ _ _. Unit {0}) _ _ _ (record { holds = Holds-any _ _ })
        λ response w' _. Ensures-then _ _ _ (next _ _ refl))

same_hash : (now : ℕ) (user : User) → (unlocked now user).password_hash ≡ user.password_hash
same_hash now user = ground arith

-- A sign-in that returns named an account that is active, and not locked at the first reading of the
-- clock, with its password. It
-- answers tokens only if the address of the account is verified and it has no authenticator; else
-- the answer is a challenge.
pub login-SignedIn :
    (client : Client) (username password : Text) (w : World)
    → Ensures (login client username password w) (SignedIn username password w)
unfolding login by_identifier verify_password email_method active_mfa
login-SignedIn client username password w = Ensures-service_call _ _ _ (
    Ensures-gets _ _ _ (
      Ensures-require_eligible client _ _ _ _ λ account n known eligible. Ensures-utcnow _ _ (
        Ensures-gets _ _ _ (
          Ensures-require_password _ client _ _ _ _ λ right. Ensures-save_user _ _ _ (
            Ensures-auth_audit client _ _ _ _ _ λ comms. Ensures-gets _ _ _ (
              Ensures-go_on _ client _ _ _ _ λ out w' direct. Ensures-commit _ _ (
                Ensures-pure _ _ (record {
                  account = account;
                  later = n;
                  known = known;
                  eligible = record {
                    active = eligible.active;
                    lock = eligible.lock;
                    readings = eligible.readings;
                  };
                  right = rw (← (same_hash (w.platform.clock n) account)) right;
                  direct = direct;
                }))))))))
