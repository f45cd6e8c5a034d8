-- ===== src/Database.antt =====
-- database.py: `Database`, which owns the engine (through the collection manager here) and the
-- registry of functions. Making the directory, `repr` and the no-op `close` are left out.
mod Queryable
mod State
pub mod Access
pub mod Compaction
pub mod Queries
pub mod TextQueries
unfoldable pub use Queryable.*
unfoldable pub use State.*
