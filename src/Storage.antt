-- ===== src/Storage.antt =====
-- jsonpysql/storage: documents, indexes, the write-ahead log and the engine over them.
pub mod SortedDict
pub mod DocumentStore
pub mod IndexManager
pub mod AtomicWrite
pub mod Serialization
pub mod Wal
pub mod Engine
pub mod LockManager
