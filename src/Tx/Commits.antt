-- ===== src/Tx/Commits.antt =====
-- Services that commit inside a call: the wrapper of app/modules/authentication/service.py, and
-- `db.commit()` where the source calls it.
pub mod Rules
use saps_case_dockets.Prelude.{Bool, if◌then◌else◌}
use saps_case_dockets.Text.{Text}
use saps_case_dockets.Schema.{World, Db, AccessDb, SessionDb}
use saps_case_dockets.Tx.{
  Tx, Error, Result, ok, err, http, sql, value_error, attribute_error, invalid_token,
}

-- `db.commit()`
unfoldable pub commit : Tx (Unit {0})
commit w = (ok tt, record w { committed = w.db })

-- a new database session begins at what is committed
abbrev pub opened : World → World
opened w = record w { committed = w.db }

-- the session that is closed loses what was not committed
abbrev pub closed : World → World
closed w = record w { db = w.committed }

-- `except (SQLAlchemyError, InvalidToken)`
abbrev pub denied : Text → Error → Error
denied unavailable sql = http 503 unavailable
denied unavailable invalid_token = http 503 unavailable
denied unavailable (http n d) = http n d
denied unavailable (value_error d) = value_error d
denied unavailable attribute_error = attribute_error

abbrev pub answered {ℓ} : {A : Type ℓ} → Text → Result A → Result A
answered unavailable (ok a) = ok a
answered unavailable (err e) = err (denied unavailable e)

-- A function that commits by itself, and the end of its database session.
unfoldable pub session_call {ℓ} : {A : Type ℓ} → Tx A → Tx A
session_call m w = let (r, w') = m (opened w) in (r, closed w')

-- One call of a service that commits by itself, and the end of its database session.
unfoldable pub service_call {ℓ} : {A : Type ℓ} → Text → Tx A → Tx A
service_call unavailable m w = let (r, w') = m (opened w) in (answered unavailable r, closed w')

-- writes to the tables of accounts, and to those of sign-ins
unfoldable pub put_access : (World → AccessDb) → Tx (Unit {0})
put_access f w = (ok tt, record w { db = record w.db { access = f w } })

unfoldable pub put_signins : (World → SessionDb) → Tx (Unit {0})
put_signins f w = (ok tt, record w { db = record w.db { signins = f w } })

-- a key or a check on those tables
unfoldable pub check_db : (Db → Bool) → Tx (Unit {0})
check_db holds w = (if holds w.db then ok tt else err sql, w)
