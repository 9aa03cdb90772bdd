-- ===== src/Store.antt =====
-- internal/store/postgres.go: the runs and their locks, as tables.
pub mod Tables
pub mod Expand
pub mod Locks
pub mod Lifecycle
pub mod Queue
pub mod Pending
