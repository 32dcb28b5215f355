-- ===== src/Investigations/Scope.antt =====
-- What the scope check of an investigation request establishes.
use saps_case_dockets.Prelude.{ℕ, ◌≡◌, Bool, true, false, not, ◌&&◌, ◌||◌, some, arith}
use saps_case_dockets.Schema.{World, Docket, Officer}
use saps_case_dockets.Tx.{Tx, ◌>>=◌}
use saps_case_dockets.Tx.Rules.{
  Ensures, Ensures-gets, Ensures-raise_if, Ensures-or_raise, Ensures-assoc, Ensures-then,
}
use saps_case_dockets.Access.{has_role, active_user_officer}
use saps_case_dockets.Access.Officers.{Ensures-investigation_officer}
use saps_case_dockets.Dockets.{station_docket}
use saps_case_dockets.Investigations.{is_writable, scope_role, is_assigned, scope}

-- What the scope of a request establishes.
pub record InScope (user_id docket_id : ℕ) (commander writable : Bool) (w : World)
    (officer : Officer) (docket : Docket) : Type 0 where
  pub has_scope_role : has_role w.access user_id (scope_role commander) ≡ true
  pub own_profile : active_user_officer w.access user_id ≡ some officer
  pub in_station : station_docket docket_id officer.station_id w.cases ≡ some docket
  pub current_or_commander : (commander || is_assigned docket.id officer.id w.cases) ≡ true
  pub writable_status : (not writable || is_writable docket.status) ≡ true

or_of : (a b : Bool) → (not a && not b) ≡ false → (a || b) ≡ true
or_of a b h = ground arith

implied_of : (a b : Bool) → (a && not b) ≡ false → (not a || b) ≡ true
implied_of a b h = ground arith

module _ {ℓ κ} {B : Type ℓ} {Q : B → World → Type κ} where
  pub Ensures-scope :
      (user_id docket_id : ℕ) (commander writable : Bool) (w : World) (k : Officer × Docket → Tx B)
      → ((officer : Officer) (docket : Docket)
          → InScope user_id docket_id commander writable w officer docket
          → Ensures (k (officer, docket) w) Q)
      → Ensures ((scope user_id docket_id commander writable >>= k) w) Q
  unfolding scope
  Ensures-scope user_id docket_id commander writable w k next = Ensures-assoc _ _ _ _ (
      Ensures-investigation_officer _ _ _ _ λ officer role profile. Ensures-assoc _ _ _ _ (
        Ensures-gets _ _ _ (
          Ensures-assoc _ _ _ _ (
            Ensures-or_raise _ _ _ _ λ docket found. Ensures-assoc _ _ _ _ (
              Ensures-gets _ _ _ (
                Ensures-assoc _ _ _ _ (
                  Ensures-raise_if _ _ _ _ λ near. Ensures-assoc _ _ _ _ (
                    Ensures-raise_if _ _ _ _ λ writing. Ensures-then _ _ _ (
                      next officer docket (record {
                        has_scope_role = role;
                        own_profile = profile;
                        in_station = found;
                        current_or_commander = or_of commander _ near;
                        writable_status = implied_of writable _ writing;
                      }))))))))))
