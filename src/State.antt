-- ===== src/State.antt =====
-- sassessment/state: the SQLite tables and the operations of the repository on them.
pub mod Status
pub mod Tables
pub mod Nodes
pub mod Records
pub mod Knowledge
pub mod Ledger
pub mod Requests
pub mod Snapshot
pub mod Batches
pub mod Checkpoints
pub mod Migrations
