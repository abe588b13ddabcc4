-- ===== src/Storage.antt =====
-- backend/internal/storage: the tables of the SQLite database and the operations of `Store`.
pub mod Db
pub mod Slack
pub mod Sql
pub mod Tables
pub mod Runs
pub mod Lifecycle
pub mod Calls
pub mod Transitions
pub mod Cancelled
