-- ===== src/Storage/Engine.antt =====
-- storage/engine.py: `StorageEngine`, its transactions and its start-up.
mod State
mod Collections
mod Transactions
mod Startup
pub mod Documents
pub mod Entries
pub mod Commit
pub mod Recovery
pub mod Lifecycle
pub mod Failures
pub mod Indexed
pub mod Declared
pub mod Created
pub mod Registry
pub mod Reopening
pub mod Restart
pub mod OneLog
mod SavedFiles
pub mod NextStart
pub mod Interrupted
pub mod Compacted
pub mod Lookups
pub mod Statistics
pub mod EntryWrites
pub mod CommitIndexed
pub mod Shared
unfoldable pub use State.*
unfoldable pub use Collections.*
unfoldable pub use Transactions.*
unfoldable pub use Startup.*
