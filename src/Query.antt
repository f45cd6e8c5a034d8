-- ===== src/Query.antt =====
-- The query layer: plans, the planner, the executor and the builder.
pub mod Models
pub mod Planner
pub mod Rows
pub mod Aggregates
pub mod Executor
pub mod Builder
pub mod IndexScan
pub mod FoundRows
pub mod IndexedQuery
pub mod RangeQuery
