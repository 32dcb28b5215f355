-- ===== src/Authentication/Settles.antt =====
-- What the calls that the sign-in services share come to, also when they raise
-- (app/modules/authentication/service.py).
use saps_case_dockets.Rows.{false-true}
use saps_case_dockets.Prelude.{
  ℕ, String, ◌≡◌, ◌≢◌, Bool, true, false, Option, none, some, ◌==◌, update_where, if◌then◌else◌,
  arith,
}
use saps_case_dockets.Text.{Text}
use saps_case_dockets.Schema.{World, User, CommsDb}
use saps_case_dockets.Tx.{Tx, Result, pure, put_comms, ◌>>=◌}
use saps_case_dockets.Tx.Settles.{Settles, Settles-assoc}
use saps_case_dockets.Tx.{new_id}
use saps_case_dockets.Tx.Commits.{put_access}
use saps_case_dockets.Authentication.Steps.{audited, with_users}
use saps_case_dockets.Authentication.{
  Client, auth_audit, save_user, deny_if, lock_is_over, eligible, require_eligible, invalid,
}

some-none : {t : ℕ} → some t ≢ none
some-none h = ground arith

module _ {ℓ κ} {B : Type ℓ} {Q : Result B → World → Type κ} where
  pub Settles-eligible :
      (active : Bool) (lock : Option ℕ) (w : World) (k : Bool → Tx B)
      → active ≡ true
      → lock ≡ none
      → Settles (k true w) Q
      → Settles (((if active then lock_is_over lock else pure false) >>= k) w) Q
  unfolding ◌>>=◌
  Settles-eligible true none w k a l h = h
  Settles-eligible true (some t) w k a l h = absurd (some-none l)
  Settles-eligible false lock w k a l h = absurd (false-true a)

  pub Settles-passed :
      (client : Client) (action : String) (user : User) (detail : Text) (w : World)
      (k : User → Tx B)
      → Settles (k user w) Q
      → Settles ((deny_if false client action (some user.id) detail >>= (λ _. pure user) >>= k) w) Q
  unfolding ◌>>=◌ deny_if
  Settles-passed client action user detail w k h = h

  pub Settles-require_eligible :
      (client : Client) (action : String) (user : User) (w : World) (k : User → Tx B)
      → user.is_active ≡ true
      → user.locked_until ≡ none
      → Settles (k user w) Q
      → Settles ((require_eligible client action (some user) >>= k) w) Q
  unfolding require_eligible eligible
  Settles-require_eligible client action user w k a l h = Settles-assoc _ _ _ _ (
      Settles-eligible user.is_active user.locked_until w _ a l
        (Settles-passed client action user invalid w k h))

  pub Settles-save_user :
      (user : User) (w : World) (k : Unit {0} → Tx B)
      → Settles (k tt (with_users w (update_where (λ u. u.id == user.id) (λ _. user) w.users))) Q
      → Settles ((save_user user >>= k) w) Q
  unfolding ◌>>=◌ save_user put_access
  Settles-save_user user w k h = h

  pub Settles-audit :
      (client : Client) (action : String) (user_id session_id : Option ℕ) (w : World)
      (k : Unit {0} → Tx B)
      → ((comms : CommsDb) → Settles (k tt (audited w comms)) Q)
      → Settles ((auth_audit client action user_id session_id >>= k) w) Q
  unfolding ◌>>=◌ auth_audit new_id put_comms
  Settles-audit client action user_id session_id w k h = h _
