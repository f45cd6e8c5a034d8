-- ===== src/Tests.antt =====
-- Concrete engines, files and queries, and the theorems applied to them.
mod Instances
mod Collections
mod Files
mod Engines
mod Indexes
mod IndexedQueries
mod RangeQueries
mod Aggregations
mod Restarts
mod Starts
mod Interruptions
mod Processes
mod Logs
mod Queries
mod Registries
mod Models
mod Schemas
mod Serializations
mod References
mod Managers
mod Databases
mod DatabaseQueries
mod Locks
mod Outcomes
mod Sources
mod Statistics
mod AtomicWrites
