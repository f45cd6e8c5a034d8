-- ===== src/Storage/IndexManager.antt =====
-- storage/index_manager.py: `IndexManager`, the forward and reverse indexes of one collection.
mod Keys
mod Index
mod Manager
pub mod Contents
pub mod Queries
pub mod Files
pub mod Rebuild
unfoldable pub use Keys.*
unfoldable pub use Index.*
unfoldable pub use Manager.*
