-- ===== src/Access/Officers.antt =====
-- What the checks of the services establish: the role is granted, and the officer is the user's own
-- active profile.
use saps_case_dockets.Prelude.{ℕ, ◌≡◌, Bool, true, false, not, ◌||◌, some, List, arith}
use saps_case_dockets.Schema.{World, Officer, RoleCode}
use saps_case_dockets.Tx.{Tx, ◌>>=◌}
use saps_case_dockets.Tx.Rules.{
  Ensures, Ensures-assoc, Ensures-gets, Ensures-raise_if, Ensures-or_raise,
}
use saps_case_dockets.Access.{
  has_role, active_officer, active_user_officer, active_officer_with_role, investigation_officer,
  has_one_of, station_officer,
}

granted_of : {b : Bool} → not b ≡ false → b ≡ true
granted_of h = ground arith

both_false : (a : Bool) {b : Bool} → (a || not b) ≡ false → b ≡ true
both_false a h = ground arith

module _ {ℓ κ} {B : Type ℓ} {Q : B → World → Type κ} where
  pub Ensures-active_officer_with_role :
      (user_id : ℕ) (role : RoleCode) (w : World) (k : Officer → Tx B)
      → ((officer : Officer)
          → has_role w.access user_id role ≡ true
          → active_officer w.access user_id ≡ some officer
          → Ensures (k officer w) Q)
      → Ensures ((active_officer_with_role user_id role >>= k) w) Q
  unfolding active_officer_with_role
  Ensures-active_officer_with_role user_id role w k next = Ensures-assoc _ _ _ _ (
      Ensures-gets _ _ _ (
        Ensures-assoc _ _ _ _ (
          Ensures-raise_if _ _ _ _ λ granted. Ensures-assoc _ _ _ _ (
            Ensures-gets _ _ _ (
              Ensures-or_raise _ _ _ _ λ officer found. next officer (granted_of granted) found)))))

  pub Ensures-investigation_officer :
      (user_id : ℕ) (role : RoleCode) (w : World) (k : Officer → Tx B)
      → ((officer : Officer)
          → has_role w.access user_id role ≡ true
          → active_user_officer w.access user_id ≡ some officer
          → Ensures (k officer w) Q)
      → Ensures ((investigation_officer user_id role >>= k) w) Q
  unfolding investigation_officer
  Ensures-investigation_officer user_id role w k next = Ensures-assoc _ _ _ _ (
      Ensures-gets _ _ _ (
        Ensures-assoc _ _ _ _ (
          Ensures-gets _ _ _ (
            Ensures-assoc _ _ _ _ (
              Ensures-raise_if _ _ _ _ λ granted.
                Ensures-or_raise _ _ _ _
                  λ officer found. next officer (both_false _ granted) found)))))

  pub Ensures-station_officer :
      (user_id : ℕ) (roles : List RoleCode) (w : World) (k : Officer → Tx B)
      → ((officer : Officer)
          → has_one_of w.access user_id roles ≡ true
          → active_user_officer w.access user_id ≡ some officer
          → Ensures (k officer w) Q)
      → Ensures ((station_officer user_id roles >>= k) w) Q
  unfolding station_officer
  Ensures-station_officer user_id roles w k next = Ensures-assoc _ _ _ _ (
      Ensures-gets _ _ _ (
        Ensures-assoc _ _ _ _ (
          Ensures-raise_if _ _ _ _ λ granted. Ensures-assoc _ _ _ _ (
            Ensures-gets _ _ _ (
              Ensures-or_raise _ _ _ _ λ officer found. next officer (granted_of granted) found)))))
