-- ===== src/Schema.antt =====
-- The database of the application: its tables (app/modules/*/models.py) and what the handlers
-- take from outside it.
mod Enums
mod Access
mod Cases
mod Comms
mod State
unfoldable pub use Enums.*
pub use Access.*
pub use Cases.*
pub use Comms.*
pub use State.*
