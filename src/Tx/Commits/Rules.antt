-- ===== src/Tx/Commits/Rules.antt =====
-- Rules for the services that commit inside a call.
use saps_case_dockets.Prelude.{◌≡◌, refl, Bool, true, false, if◌then◌else◌}
use saps_case_dockets.Text.{Text}
use saps_case_dockets.Schema.{World, Db, AccessDb, SessionDb}
use saps_case_dockets.Tx.{Tx, Result, ok, err, sql, continue, ◌>>=◌}
use saps_case_dockets.Tx.Rules.{Ensures, Holds}
use saps_case_dockets.Tx.Commits.{
  commit, opened, closed, answered, service_call, put_access, put_signins, check_db,
}

module _ {ℓ κ} {B : Type ℓ} {Q : B → World → Type κ} where
  Ensures-answered :
      (unavailable : Text) (r : Result B) (w' : World)
      → Holds r w' (λ b w2. Q b (closed w2))
      → Ensures {A = B} (answered unavailable r, closed w') Q
  Ensures-answered unavailable (ok b) w' h = record { holds = h }
  Ensures-answered unavailable (err e) w' h = record { holds = tt }

  -- what holds of the state that is committed when the call returns
  pub Ensures-service_call :
      (unavailable : Text) (m : Tx B) (w : World)
      → Ensures (m (opened w)) (λ b w2. Q b (closed w2))
      → Ensures (service_call unavailable m w) Q
  unfolding service_call
  Ensures-service_call unavailable m w h =
      Ensures-answered unavailable (m (opened w)).0 (m (opened w)).1 h.holds

  pub Ensures-commit :
      (w : World) (k : Unit {0} → Tx B)
      → Ensures (k tt (record w { committed = w.db })) Q
      → Ensures ((commit >>= k) w) Q
  unfolding ◌>>=◌ commit
  Ensures-commit w k h = h

  pub Ensures-put_access :
      (f : World → AccessDb) (w : World) (k : Unit {0} → Tx B)
      → Ensures (k tt (record w { db = record w.db { access = f w } })) Q
      → Ensures ((put_access f >>= k) w) Q
  unfolding ◌>>=◌ put_access
  Ensures-put_access f w k h = h

  pub Ensures-put_signins :
      (f : World → SessionDb) (w : World) (k : Unit {0} → Tx B)
      → Ensures (k tt (record w { db = record w.db { signins = f w } })) Q
      → Ensures ((put_signins f >>= k) w) Q
  unfolding ◌>>=◌ put_signins
  Ensures-put_signins f w k h = h

  Ensures-check_of :
      (b : Bool) (w : World) (k : Unit {0} → Tx B)
      → (b ≡ true → Ensures (k tt w) Q)
      → Ensures (continue (if b then ok tt else err sql) w k) Q
  Ensures-check_of true w k next = next refl
  Ensures-check_of false w k next = record { holds = tt }

  pub Ensures-check_db :
      (holds : Db → Bool) (w : World) (k : Unit {0} → Tx B)
      → (holds w.db ≡ true → Ensures (k tt w) Q)
      → Ensures ((check_db holds >>= k) w) Q
  unfolding ◌>>=◌ check_db
  Ensures-check_db holds w k next = Ensures-check_of (holds w.db) w k next
