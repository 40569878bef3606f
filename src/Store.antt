-- ===== src/Store.antt =====
-- internal/store: the PostgreSQL store. The tables that a scan reads and writes are a value of
-- type Db; a method is a function of it.
pub mod Db
pub mod Diff
pub mod Resolve
pub mod Upsert
pub mod Runs
pub mod Settled
pub mod Stored
pub mod Rows
pub mod Rescan
pub mod Found
pub mod Shallow
pub mod Relations
pub mod Samples
pub mod Targets
pub mod Accounts
pub mod Migrate
pub mod Queries
mod Tests
