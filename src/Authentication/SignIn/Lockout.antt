-- ===== src/Authentication/SignIn/Lockout.antt =====
-- The failed sign-in (app/modules/authentication/service.py, `login` with `deny`).
use saps_case_dockets.Rows.{false-true}
use saps_case_dockets.Prelude.{
  ℕ, ◌+◌, ◌≡◌, refl, sym, ap, ◌∙◌, true, false, none, some, List, [], ◌∷◌, ◌==◌, ==_refl, leb,
  update_where, if◌then◌else◌, arith,
}
use saps_case_dockets.Text.{Text}
use saps_case_dockets.Schema.{World, User}
use saps_case_dockets.Tx.{Tx, Result, ok, err, continue, raise, put_comms, ◌>>=◌}
use saps_case_dockets.Tx.{new_id}
use saps_case_dockets.Tx.Rules.{is_error}
use saps_case_dockets.Tx.Commits.{opened, closed, answered, commit}
use saps_case_dockets.Tx.Settles.{
  Settles, Settles-service_call, Settles-gets, Settles-utcnow, Settles-assoc, Settles-if,
  Settles-then,
}
use saps_case_dockets.Authentication.Settles.{
  Settles-require_eligible, Settles-save_user, Settles-audit,
}
use saps_case_dockets.Authentication.{
  Client, by_identifier, verify_password, auth_audit, minutes, deny, invalid,
}
use saps_case_dockets.Authentication.Email.{lock_account, auth_unavailable}
use saps_case_dockets.Authentication.SignIn.{
  unlocked, one_more_failure, fail_password, require_password, login,
}

-- the account after one more failure: locked, if that reaches the limit
abbrev pub after_failure : World → ℕ → User → User
after_failure w now user =
    if leb w.platform.settings.max_failed_login_attempts (user.failed_login_attempts + 1)
    then record (one_more_failure user) {
      locked_until = some (now + minutes w.platform.settings.account_lock_minutes);
    }
    else one_more_failure user

update_twice :
    (id : ℕ) (a b : User) (rows : List User)
    → a.id ≡ id
    → update_where (λ u. u.id == id) (λ _. b) (update_where (λ u. u.id == id) (λ _. a) rows)
      ≡ update_where (λ u. u.id == id) (λ _. b) rows
unfolding update_where
update_twice id a b [] e = refl
update_twice id a b (u ∷ rows) e = ground (arith, update_twice id a b rows e, ==_refl id)

-- What is committed when a sign-in was refused for its password.
pub record Counted (user : User) (w w' : World) : Type 0 where
  pub users :
      w'.users
      ≡ update_where
          (λ u. u.id == user.id)
          (λ _. after_failure w (w.platform.clock w.reads) user)
          w.users
  pub sessions : w'.sessions ≡ w.sessions

abbrev locked_user : World → ℕ → User → User
locked_user w now user = record (one_more_failure user) {
  locked_until = some (now + minutes w.platform.settings.account_lock_minutes);
}

-- the users with that one put in its place
abbrev put_user : User → World → User → List User
put_user user w changed = update_where (λ u. u.id == user.id) (λ _. changed) w.users

after_true :
    (w : World) (now : ℕ) (user : User)
    → leb w.platform.settings.max_failed_login_attempts (user.failed_login_attempts + 1) ≡ true
    → after_failure w now user ≡ locked_user w now user
after_true w now user h = rw h refl

after_false :
    (w : World) (now : ℕ) (user : User)
    → leb w.platform.settings.max_failed_login_attempts (user.failed_login_attempts + 1) ≡ false
    → after_failure w now user ≡ one_more_failure user
after_false w now user h = rw h refl

abbrev Refused {ℓ} : {A : Type ℓ} → User → World → Result A → World → Type 0
Refused user w r w' = (is_error r ≡ true) × Counted user w w'

deny-Refused :
    (client : Client) (user : User) (w0 w : World)
    → w.users
      ≡ update_where
          (λ u. u.id == user.id)
          (λ _. after_failure w0 (w0.platform.clock w0.reads) user)
          w0.users
    → w.sessions ≡ w0.sessions
    → Settles {A = Unit {0}}
        (deny client "auth.login_failure" (some user.id) invalid w)
        (λ r w'. Refused user w0 r (closed w'))
unfolding deny auth_audit commit ◌>>=◌ new_id raise put_comms
deny-Refused client user w0 w u s = record { holds = (refl, record { users = u; sessions = s }) }

fail-Settles :
    (client : Client) (user : User) (w : World) (n : ℕ)
    → Settles
        (fail_password client (w.platform.clock w.reads) user (record (opened w) { reads = n }))
        λ r w'. Refused user w r (closed w')
unfolding fail_password lock_account
fail-Settles client user w n = Settles-save_user _ _ _ (
    Settles-assoc _ _ _ _ (
      Settles-gets _ _ _ _ refl (
        Settles-if _ _ _ _ _
          (λ locks. Settles-assoc _ _ _ _ (
            Settles-save_user _ _ _ (
              Settles-audit client _ _ _ _ _ λ comms.
                deny-Refused client user w _
                  (update_twice user.id (one_more_failure user)
                      (locked_user w (w.platform.clock w.reads) user) w.users refl
                    ∙ sym
                        (ap (put_user user w) (after_true w (w.platform.clock w.reads) user locks)))
                  refl)))
          (λ stays. Settles-then _ _ _ (
            deny-Refused client user w _
              (sym (ap (put_user user w) (after_false w (w.platform.clock w.reads) user stays)))
              refl)))))

Settles-stopped {ℓ} :
    {B : Type ℓ} (user : User) (w : World) (unavailable : Text) (r : Result (Unit {0})) (w' : World)
    (k : Unit {0} → Tx B)
    → Refused user w r (closed w')
    → Settles (continue r w' k) (λ s v. Refused user w (answered unavailable s) (closed v))
Settles-stopped user w unavailable (ok a) w' k h = absurd (false-true h.0)
Settles-stopped user w unavailable (err e) w' k h = record { holds = (refl, h.1) }

-- what follows a call that raised is not done
Settles-failed {ℓ} :
    {B : Type ℓ} (user : User) (w : World) (unavailable : Text) (m : Tx (Unit {0})) (v : World)
    (k : Unit {0} → Tx B)
    → Settles (m v) (λ r w'. Refused user w r (closed w'))
    → Settles ((m >>= k) v) (λ s x. Refused user w (answered unavailable s) (closed x))
unfolding ◌>>=◌
Settles-failed user w unavailable m v k h =
    Settles-stopped user w unavailable (m v).0 (m v).1 k h.holds

unlocked-none : (now : ℕ) (user : User) → user.locked_until ≡ none → unlocked now user ≡ user
unlocked-none now user h = rw h refl

login-Settles :
    (client : Client) (username password : Text) (w : World) (user : User)
    → by_identifier w (w.platform.lower (w.platform.strip username)) ≡ some user
    → user.is_active ≡ true
    → user.locked_until ≡ none
    → verify_password w password user.password_hash ≡ false
    → Settles (login client username password w) (Refused user w)
unfolding login require_password by_identifier verify_password
login-Settles client username password w user known active open_still wrong =
    Settles-service_call _ _ _ (
      Settles-gets _ (some user) _ _ known (
        Settles-require_eligible client _ user _ _ active open_still (
          Settles-utcnow _ _ (
            rw (unlocked-none (w.platform.clock w.reads) user open_still) (
              Settles-gets (λ v. verify_password v password user.password_hash) false
                (record (opened w) { reads = w.reads + 1 }) _ wrong
                (Settles-failed user w auth_unavailable _ _ _ (fail-Settles client user w _)))))))

-- A sign-in to an active account without a lock, with a wrong password, raises; what it commits is
-- one more failure on that account, with a lock for the set minutes from the reading of the clock if
-- that reaches the limit, and no session.
pub login-Counted :
    (client : Client) (username password : Text) (w : World) (user : User)
    → by_identifier w (w.platform.lower (w.platform.strip username)) ≡ some user
    → user.is_active ≡ true
    → user.locked_until ≡ none
    → verify_password w password user.password_hash ≡ false
    → let (r, w') = login client username password w in (is_error r ≡ true) × Counted user w w'
login-Counted client username password w user known active open_still wrong =
    (login-Settles client username password w user known active open_still wrong).holds
