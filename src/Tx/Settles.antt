-- ===== src/Tx/Settles.antt =====
-- Rules for what a call comes to, step by step, also when it raises.
use saps_case_dockets.Prelude.{
  ℕ, ◌+◌, ◌≡◌, refl, sym, subst, Bool, true, false, Option, none, some, if◌then◌else◌,
}
use saps_case_dockets.Text.{Text}
use saps_case_dockets.Schema.{World, CommsDb}
use saps_case_dockets.Tx.{
  Tx, Result, ok, err, Error, continue, pure, gets, or_raise, put_comms, utcnow, new_id, ◌>>=◌,
}
use saps_case_dockets.Tx.Commits.{opened, closed, answered, service_call, session_call, commit}

-- `Q` holds of the outcome and the state that a call comes to, whether it returns or raises.
pub record Settles {ℓ κ} {A : Type ℓ} (r : Result A × World) (Q : Result A → World → Type κ)
    : Type κ where
  pub holds : Q r.0 r.1

module _ {ℓ κ} {B : Type ℓ} {Q : Result B → World → Type κ} where
  pub Settles-service_call :
      (unavailable : Text) (m : Tx B) (w : World)
      → Settles (m (opened w)) (λ r w'. Q (answered unavailable r) (closed w'))
      → Settles (service_call unavailable m w) Q
  unfolding service_call
  Settles-service_call unavailable m w h = record { holds = h.holds }

  pub Settles-gets {ι} :
      {A : Type ι} (f : World → A) (a : A) (w : World) (k : A → Tx B)
      → f w ≡ a
      → Settles (k a w) Q
      → Settles ((gets f >>= k) w) Q
  unfolding ◌>>=◌ gets
  Settles-gets f a w k e h = subst (λ x. Settles (k x w) Q) (sym e) h

  pub Settles-utcnow :
      (w : World) (k : ℕ → Tx B)
      → Settles (k (w.platform.clock w.reads) (record w { reads = w.reads + 1 })) Q
      → Settles ((utcnow >>= k) w) Q
  unfolding ◌>>=◌ utcnow
  Settles-utcnow w k h = h

  pub Settles-assoc_of {ι μ} :
      {A : Type ι} {C : Type μ} (r : Result A) (w : World) (f : A → Tx C) (k : C → Tx B)
      → Settles (continue r w (λ a. f a >>= k)) Q
      → Settles (let (r', w') = continue r w f in continue r' w' k) Q
  unfolding ◌>>=◌
  Settles-assoc_of (ok a) w f k h = h
  Settles-assoc_of (err e) w f k h = h

  pub Settles-assoc {ι μ} :
      {A : Type ι} {C : Type μ} (m : Tx A) (f : A → Tx C) (w : World) (k : C → Tx B)
      → Settles ((m >>= λ a. f a >>= k) w) Q
      → Settles ((m >>= f >>= k) w) Q
  unfolding ◌>>=◌
  Settles-assoc m f w k h = Settles-assoc_of (m w).0 (m w).1 f k h

  pub Settles-if :
      (b : Bool) (m n : Tx (Unit {0})) (w : World) (k : Unit {0} → Tx B)
      → (b ≡ true → Settles ((m >>= k) w) Q)
      → (b ≡ false → Settles ((n >>= k) w) Q)
      → Settles (((if b then m else n) >>= k) w) Q
  Settles-if true m n w k t f = t refl
  Settles-if false m n w k t f = f refl

  pub Settles-then {ι} :
      {A : Type ι} (a : A) (w : World) (k : A → Tx B)
      → Settles (k a w) Q
      → Settles ((pure a >>= k) w) Q
  unfolding ◌>>=◌ pure
  Settles-then a w k h = h

  pub Settles-pure : (b : B) (w : World) → Q (ok b) w → Settles (pure b w) Q
  unfolding pure
  Settles-pure b w h = record { holds = h }

  pub Settles-or_raise {ι} :
      {A : Type ι} (o : Option A) (e : Error) (w : World) (k : A → Tx B)
      → Q (err e) w
      → ((a : A) → Settles (k a w) Q)
      → Settles ((or_raise o e >>= k) w) Q
  unfolding ◌>>=◌ or_raise
  Settles-or_raise none e w k h next = record { holds = h }
  Settles-or_raise (some a) e w k h next = next a

  pub Settles-new_id :
      (w : World) (k : ℕ → Tx B)
      → Settles (k (w.platform.uuid w.drawn) (record w { drawn = w.drawn + 1 })) Q
      → Settles ((new_id >>= k) w) Q
  unfolding ◌>>=◌ new_id
  Settles-new_id w k h = h

  pub Settles-put_comms :
      (f : World → CommsDb) (w : World) (k : Unit {0} → Tx B)
      → Settles (k tt (record w { db = record w.db { comms = f w } })) Q
      → Settles ((put_comms f >>= k) w) Q
  unfolding ◌>>=◌ put_comms
  Settles-put_comms f w k h = h

  pub Settles-commit :
      (w : World) (k : Unit {0} → Tx B)
      → Settles (k tt (record w { committed = w.db })) Q
      → Settles ((commit >>= k) w) Q
  unfolding ◌>>=◌ commit
  Settles-commit w k h = h

  pub Settles-session_call :
      (m : Tx B) (w : World)
      → Settles (m (opened w)) (λ r w'. Q r (closed w'))
      → Settles (session_call m w) Q
  unfolding session_call
  Settles-session_call m w h = record { holds = h.holds }

  -- a call that is known to return, and one that is known to raise
  pub Settles-ok {ι} :
      {A : Type ι} (m : Tx A) (k : A → Tx B) (a : A) (v w : World)
      → m v ≡ (ok a, w)
      → Settles (k a w) Q
      → Settles ((m >>= k) v) Q
  unfolding ◌>>=◌
  Settles-ok m k a v w e h = rw e h

  pub Settles-err {ι} :
      {A : Type ι} (m : Tx A) (k : A → Tx B) (v : World) (x : Error)
      → (m v).0 ≡ err x
      → Q (err x) (m v).1
      → Settles ((m >>= k) v) Q
  unfolding ◌>>=◌
  Settles-err m k v x e h = rw e (record { holds = h })
