-- ===== src/Tx/Rules.antt =====
-- Rules to prove what a block does, statement by statement: what it leaves alone, and what holds
-- when it returns.
use saps_case_dockets.Prelude.{
  ℕ, ◌+◌, ◌≡◌, refl, ◌∙◌, Bool, true, false, Option, none, some, List, [], ◌∷◌,
}
use saps_case_dockets.Text.{Text}
use saps_case_dockets.Schema.{World, Db, CommsDb, CaseDb}
use saps_case_dockets.Tx.{
  Result, ok, err, Tx, Error, pure, raise, gets, or_raise, continue, ◌>>=◌, raise_if, put_cases,
  put_comms, modify, utcnow, new_id, for_each, transactional, translate, rollback, rolled_back,
}

-- `m` leaves the part `g` of the database as it was, whether it returns or raises.
pub record Keeps {ℓ κ} {X : Type ℓ} {A : Type κ} (g : Db → X) (m : Tx A) : Type (ℓ ⊔ κ) where
  pub at : (w : World) → g (m w).1.db ≡ g w.db

-- `g` does not look at the tables of communications.
abbrev pub IgnoresComms {ℓ} : {X : Type ℓ} → (Db → X) → Type ℓ
IgnoresComms g = (db : Db) (c : CommsDb) → g (record db { comms = c }) ≡ g db

module _ {ℓ κ} {X : Type ℓ} {A : Type κ} (g : Db → X) where
  pub Keeps-pure : (a : A) → Keeps g (pure a)
  unfolding pure
  Keeps-pure a = record { at = λ w. refl }

  pub Keeps-raise : (e : Error) → Keeps {A = A} g (raise e)
  unfolding raise
  Keeps-raise e = record { at = λ w. refl }

  pub Keeps-gets : (f : World → A) → Keeps g (gets f)
  unfolding gets
  Keeps-gets f = record { at = λ w. refl }

  pub Keeps-or_raise : (o : Option A) (e : Error) → Keeps g (or_raise o e)
  unfolding or_raise raise pure
  Keeps-or_raise none e = record { at = λ w. refl }
  Keeps-or_raise (some a) e = record { at = λ w. refl }

module _ {ℓ κ ι} {X : Type ℓ} {A : Type κ} {B : Type ι} (g : Db → X) where
  Keeps-continue :
      (r : Result A) (w : World) (f : A → Tx B)
      → ((a : A) → Keeps g (f a))
      → g (continue r w f).1.db ≡ g w.db
  Keeps-continue (ok a) w f kf = (kf a).at w
  Keeps-continue (err e) w f kf = refl

  pub Keeps-bind :
      (m : Tx A) (f : A → Tx B) → Keeps g m → ((a : A) → Keeps g (f a)) → Keeps g (m >>= f)
  unfolding ◌>>=◌
  Keeps-bind m f km kf = record { at = λ w. Keeps-continue (m w).0 (m w).1 f kf ∙ km.at w }

module _ {ℓ} {X : Type ℓ} (g : Db → X) where
  pub Keeps-raise_if : (b : Bool) (e : Error) → Keeps g (raise_if b e)
  unfolding raise_if
  Keeps-raise_if b e = record { at = λ w. refl }

  pub Keeps-utcnow : Keeps g utcnow
  unfolding utcnow
  Keeps-utcnow = record { at = λ w. refl }

  pub Keeps-new_id : Keeps g new_id
  unfolding new_id
  Keeps-new_id = record { at = λ w. refl }

  pub Keeps-put_comms : (f : World → CommsDb) → IgnoresComms g → Keeps g (put_comms f)
  unfolding put_comms
  Keeps-put_comms f h = record { at = λ w. h w.db (f w) }

  pub Keeps-for_each {κ} :
      {A : Type κ} (xs : List A) (body : A → Tx (Unit {0}))
      → ((a : A) → Keeps g (body a))
      → Keeps g (for_each xs body)
  unfolding for_each
  Keeps-for_each [] body k = Keeps-pure g tt
  Keeps-for_each (x ∷ xs) body k =
      Keeps-bind g (body x) (λ _. for_each xs body) (k x) (λ _. Keeps-for_each xs body k)

pub ruleset keeps_rules = (
  Keeps-pure, Keeps-raise, Keeps-gets, Keeps-or_raise, Keeps-bind, Keeps-raise_if, Keeps-utcnow,
  Keeps-new_id,
)

module _ {ℓ κ} {X : Type ℓ} {A : Type κ} (g : Db → X) where
  Keeps-wrapped :
      (r : Result A) (w w' : World) (unavailable : Text)
      → g w'.db ≡ g w.db
      → let wrapped : Result A × World = elim r [
        | ok a ↦ (ok a, w')
        | err e ↦ (err (translate unavailable e), rollback w w')
      ] in
        g wrapped.1.db ≡ g w.db
  Keeps-wrapped (ok a) w w' unavailable h = h
  Keeps-wrapped (err e) w w' unavailable h = refl

  pub Keeps-transactional :
      (unavailable : Text) (m : Tx A) → Keeps g m → Keeps g (transactional unavailable m)
  unfolding transactional
  Keeps-transactional unavailable m k = record {
    at = λ w. Keeps-wrapped (m w).0 w (m w).1 unavailable (k.at w);
  }

-- The case tables, the part that the workflows are about.
abbrev pub cases_of : Db → CaseDb
cases_of db = db.cases

-- `Q` holds of the value and the state if the call returned.
abbrev pub Holds {ℓ κ} : {A : Type ℓ} → Result A → World → (A → World → Type κ) → Type κ
Holds (ok a) w Q = Q a w
Holds (err e) w Q = Unit

-- the call raised
abbrev pub is_error {ℓ} : {A : Type ℓ} → Result A → Bool
is_error (ok a) = false
is_error (err e) = true

pub record Ensures {ℓ κ} {A : Type ℓ} (r : Result A × World) (Q : A → World → Type κ) : Type κ where
  pub holds : Holds r.0 r.1 Q

module _ {ℓ κ} {B : Type ℓ} {Q : B → World → Type κ} where
  -- a guard that was passed
  pub Ensures-raise_if :
      (b : Bool) (e : Error) (w : World) (k : Unit {0} → Tx B)
      → (b ≡ false → Ensures (k tt w) Q)
      → Ensures ((raise_if b e >>= k) w) Q
  unfolding ◌>>=◌
  Ensures-raise_if true e w k next = record { holds = tt }
  Ensures-raise_if false e w k next = next refl

  pub Ensures-pure : (b : B) (w : World) → Q b w → Ensures (pure b w) Q
  unfolding pure
  Ensures-pure b w h = record { holds = h }

  -- a value returned inside a block
  pub Ensures-then {ι} :
      {A : Type ι} (a : A) (w : World) (k : A → Tx B)
      → Ensures (k a w) Q
      → Ensures ((pure a >>= k) w) Q
  unfolding ◌>>=◌ pure
  Ensures-then a w k h = h

  pub Ensures-gets {ι} :
      {A : Type ι} (f : World → A) (w : World) (k : A → Tx B)
      → Ensures (k (f w) w) Q
      → Ensures ((gets f >>= k) w) Q
  unfolding ◌>>=◌
  Ensures-gets f w k h = h

  pub Ensures-put_cases :
      (f : World → CaseDb) (w : World) (k : Unit {0} → Tx B)
      → Ensures (k tt (record w { db = record w.db { cases = f w } })) Q
      → Ensures ((put_cases f >>= k) w) Q
  unfolding ◌>>=◌
  Ensures-put_cases f w k h = h

  pub Ensures-put_comms :
      (f : World → CommsDb) (w : World) (k : Unit {0} → Tx B)
      → Ensures (k tt (record w { db = record w.db { comms = f w } })) Q
      → Ensures ((put_comms f >>= k) w) Q
  unfolding ◌>>=◌
  Ensures-put_comms f w k h = h

  pub Ensures-modify :
      (f : World → Db) (w : World) (k : Unit {0} → Tx B)
      → Ensures (k tt (record w { db = f w })) Q
      → Ensures ((modify f >>= k) w) Q
  unfolding ◌>>=◌
  Ensures-modify f w k h = h

  pub Ensures-utcnow :
      (w : World) (k : ℕ → Tx B)
      → Ensures (k (w.platform.clock w.reads) (record w { reads = w.reads + 1 })) Q
      → Ensures ((utcnow >>= k) w) Q
  unfolding ◌>>=◌ utcnow
  Ensures-utcnow w k h = h

  pub Ensures-new_id :
      (w : World) (k : ℕ → Tx B)
      → Ensures (k (w.platform.uuid w.drawn) (record w { drawn = w.drawn + 1 })) Q
      → Ensures ((new_id >>= k) w) Q
  unfolding ◌>>=◌ new_id
  Ensures-new_id w k h = h

  -- a row that was found
  pub Ensures-or_raise {ι} :
      {A : Type ι} (o : Option A) (e : Error) (w : World) (k : A → Tx B)
      → ((a : A) → o ≡ some a → Ensures (k a w) Q)
      → Ensures ((or_raise o e >>= k) w) Q
  unfolding ◌>>=◌
  Ensures-or_raise none e w k next = record { holds = tt }
  Ensures-or_raise (some a) e w k next = next a refl

  Ensures-continue {ι} :
      {A : Type ι} (r : Result A) (w : World) (k : A → Tx B)
      → ((a : A) → Ensures (k a w) Q)
      → Ensures (continue r w k) Q
  Ensures-continue (ok a) w k next = next a
  Ensures-continue (err e) w k next = record { holds = tt }

  -- a call that leaves `g` alone
  pub Ensures-keeps {ι μ} :
      {X : Type μ} {A : Type ι} (g : Db → X) (m : Tx A) (w : World) (k : A → Tx B)
      → Keeps g m
      → ((a : A) (w' : World) → g w'.db ≡ g w.db → Ensures (k a w') Q)
      → Ensures ((m >>= k) w) Q
  unfolding ◌>>=◌
  Ensures-keeps g m w k keeps next =
      Ensures-continue (m w).0 (m w).1 k (λ a. next a (m w).1 (keeps.at w))

  Ensures-continue_assoc {ι μ} :
      {A : Type ι} {C : Type μ} (r : Result A) (w : World) (f : A → Tx C) (k : C → Tx B)
      → Ensures (continue r w (λ a. f a >>= k)) Q
      → Ensures (let (r', w') = continue r w f in continue r' w' k) Q
  unfolding ◌>>=◌
  Ensures-continue_assoc (ok a) w f k h = h
  Ensures-continue_assoc (err e) w f k h = record { holds = tt }

  -- a block at the head of a block
  pub Ensures-assoc {ι μ} :
      {A : Type ι} {C : Type μ} (m : Tx A) (f : A → Tx C) (w : World) (k : C → Tx B)
      → Ensures ((m >>= λ a. f a >>= k) w) Q
      → Ensures ((m >>= f >>= k) w) Q
  unfolding ◌>>=◌
  Ensures-assoc m f w k h = Ensures-continue_assoc (m w).0 (m w).1 f k h

  Ensures-after {ι μ} :
      {A : Type ι} (P : A → World → Type μ) (r : Result A) (w : World) (k : A → Tx B)
      → Holds r w P
      → ((a : A) (w' : World) → P a w' → Ensures (k a w') Q)
      → Ensures (continue r w k) Q
  Ensures-after P (ok a) w k h next = next a w h
  Ensures-after P (err e) w k h next = record { holds = tt }

  -- a call with a specification of its own
  pub Ensures-bind {ι μ} :
      {A : Type ι} (P : A → World → Type μ) (m : Tx A) (w : World) (k : A → Tx B)
      → Ensures (m w) P
      → ((a : A) (w' : World) → P a w' → Ensures (k a w') Q)
      → Ensures ((m >>= k) w) Q
  unfolding ◌>>=◌
  Ensures-bind P m w k h next = Ensures-after P (m w).0 (m w).1 k h.holds next

  Ensures-last_of : (r : Result B) (w : World) → Ensures (continue r w pure) Q → Ensures (r, w) Q
  unfolding pure
  Ensures-last_of (ok b) w h = h
  Ensures-last_of (err e) w h = record { holds = tt }

  -- the last step of a block
  pub Ensures-last : (m : Tx B) (w : World) → Ensures ((m >>= pure) w) Q → Ensures (m w) Q
  unfolding ◌>>=◌
  Ensures-last m w h = Ensures-last_of (m w).0 (m w).1 h

  Ensures-wrapped :
      (r : Result B) (w w' : World) (unavailable : Text)
      → Holds r w' Q
      → Ensures {A = B}
          (elim r [ ok a ↦ (ok a, w') | err e ↦ (err (translate unavailable e), rollback w w') ])
          Q
  Ensures-wrapped (ok a) w w' unavailable h = record { holds = h }
  Ensures-wrapped (err e) w w' unavailable h = record { holds = tt }

  Holds-weaken {ι} :
      (P : B → World → Type ι) (r : Result B) (w : World)
      → Holds r w P
      → ((b : B) (w' : World) → P b w' → Q b w')
      → Holds r w Q
  Holds-weaken P (ok b) w h f = f b w h
  Holds-weaken P (err e) w h f = tt

  -- a weaker specification
  pub Ensures-weaken {ι} :
      (P : B → World → Type ι) (r : Result B × World)
      → Ensures r P
      → ((b : B) (w' : World) → P b w' → Q b w')
      → Ensures r Q
  Ensures-weaken P r h f = record { holds = Holds-weaken P r.0 r.1 h.holds f }

  is_error-unless :
      (r : Result B) (w : World)
      → Holds r w Q
      → ((b : B) (w' : World) → Q b w' → false ≡ true)
      → is_error r ≡ true
  is_error-unless (ok b) w h f = f b w h
  is_error-unless (err e) w h f = refl

  -- a specification that cannot hold
  pub is_error-Ensures :
      (r : Result B × World)
      → Ensures r Q
      → ((b : B) (w' : World) → Q b w' → false ≡ true)
      → is_error r.0 ≡ true
  is_error-Ensures r h f = is_error-unless r.0 r.1 h.holds f

  pub Ensures-transactional :
      (unavailable : Text) (m : Tx B) (w : World)
      → Ensures (m w) Q
      → Ensures (transactional unavailable m w) Q
  unfolding transactional
  Ensures-transactional unavailable m w h = Ensures-wrapped (m w).0 w (m w).1 unavailable h.holds

  Ensures-kept :
      (r : Result B) (w w' : World)
      → Holds r w' Q
      → Ensures {A = B} (elim r [ ok a ↦ (ok a, w') | err e ↦ (err e, rollback w w') ]) Q
  Ensures-kept (ok a) w w' h = record { holds = h }
  Ensures-kept (err e) w w' h = record { holds = tt }

  pub Ensures-rolled_back : (m : Tx B) (w : World) → Ensures (m w) Q → Ensures (rolled_back m w) Q
  unfolding rolled_back
  Ensures-rolled_back m w h = Ensures-kept (m w).0 w (m w).1 h.holds
