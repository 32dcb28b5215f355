-- ===== src/Tx.antt =====
-- A service call inside its database transaction: it reads and changes the world, and returns or
-- raises. What was written before a raise stays until the wrapper rolls it back.
pub mod Rules
pub mod Commits
pub mod Settles
use saps_case_dockets.Prelude.{
  ℕ, ◌+◌, Bool, true, false, Option, none, some, List, [], ◌∷◌, if◌then◌else◌,
}
use saps_case_dockets.Text.{Text}
use saps_case_dockets.Schema.{World, Db, CaseDb, CommsDb, ActorType, AuditLog}

-- `HTTPException(status, detail)`, any `SQLAlchemyError`, `ValueError`, the `AttributeError` of a
-- column read from a missing row, and the cipher's `InvalidToken`
pub data Error : Type 0 where
  http : ℕ → Text → Error
  sql : Error
  value_error : Text → Error
  attribute_error : Error
  invalid_token : Error

pub data Result {ℓ} (A : Type ℓ) : Type ℓ where
  ok : A → Result A
  err : Error → Result A

abbrev pub Tx {ℓ} : Type ℓ → Type ℓ
Tx A = World → Result A × World

module _ {ℓ} {A : Type ℓ} where
  unfoldable pub pure : A → Tx A
  pure a w = (ok a, w)

  unfoldable pub raise : Error → Tx A
  raise e w = (err e, w)

  unfoldable pub gets : (World → A) → Tx A
  gets f w = (ok (f w), w)

  -- the `if row is None: raise` of a query
  unfoldable pub or_raise : Option A → Error → Tx A
  or_raise none e = raise e
  or_raise (some a) e = pure a

  abbrev pub continue {κ} : {B : Type κ} → Result A → World → (A → Tx B) → Result B × World
  continue (ok a) w f = f a w
  continue (err e) w f = (err e, w)

-- `if test: raise error`
unfoldable pub raise_if : Bool → Error → Tx (Unit {0})
raise_if b e w = (if b then err e else ok tt, w)

unfoldable pub modify : (World → Db) → Tx (Unit {0})
modify f w = (ok tt, record w { db = f w })

-- writes to the case tables, and to the tables of communications
unfoldable pub put_cases : (World → CaseDb) → Tx (Unit {0})
put_cases f w = (ok tt, record w { db = record w.db { cases = f w } })

unfoldable pub put_comms : (World → CommsDb) → Tx (Unit {0})
put_comms f w = (ok tt, record w { db = record w.db { comms = f w } })

-- Opening this opens the ways to build a step, too.
infixl 5 ◌>>=◌ ◌>>◌
unfoldable pub ◌>>=◌ {ℓ κ} : {A : Type ℓ} {B : Type κ} → Tx A → (A → Tx B) → Tx B
unfolding pure raise gets or_raise raise_if modify put_cases put_comms
◌>>=◌ m f w = let (r, w') = m w in continue r w' f

abbrev pub ◌>>◌ {ℓ κ} : {A : Type ℓ} {B : Type κ} → Tx A → Tx B → Tx B
m >> k = m >>= λ _. k

-- `utcnow()`
unfoldable pub utcnow : Tx ℕ
utcnow w = (ok (w.platform.clock w.reads), record w { reads = w.reads + 1 })

-- `uuid.uuid4()`, the default of every primary key
unfoldable pub new_id : Tx ℕ
new_id w = (ok (w.platform.uuid w.drawn), record w { drawn = w.drawn + 1 })

-- `for x in xs: body(x)`
unfoldable pub for_each {ℓ} : {A : Type ℓ} → List A → (A → Tx (Unit {0})) → Tx (Unit {0})
for_each [] body = pure tt
for_each (x ∷ xs) body = let rest = for_each xs body in body x >> rest

-- `db.rollback()`: what was written is lost, the clock and the drawn identifiers have moved on
abbrev pub rollback : World → World → World
rollback before after = record after { db = before.db }

abbrev pub translate : Text → Error → Error
translate unavailable sql = http 503 unavailable
translate unavailable (http n d) = http n d
translate unavailable (value_error d) = value_error d
translate unavailable attribute_error = attribute_error
translate unavailable invalid_token = invalid_token

-- `except Exception: db.rollback(); raise`, the error unchanged
unfoldable pub rolled_back {ℓ} : {A : Type ℓ} → Tx A → Tx A
rolled_back m w = let (r, w') = m w in elim r [ ok a ↦ (ok a, w') | err e ↦ (err e, rollback w w') ]

-- The wrapper of the services: commit on return; on any exception roll back and raise it again,
-- a database error as a 503 with the service's own detail.
unfoldable pub transactional {ℓ} : {A : Type ℓ} → Text → Tx A → Tx A
transactional unavailable m w =
    let (r, w') = m w in
    elim r [ ok a ↦ (ok a, w') | err e ↦ (err (translate unavailable e), rollback w w') ]
