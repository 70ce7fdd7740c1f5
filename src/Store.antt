-- ===== src/Store.antt =====
-- The Postgres tables (internal/db/migrations) and the statements on them (internal/db/queries,
-- compiled to internal/db/gen).
pub mod Rows
pub mod Exec
pub mod Runs
pub mod Schedules
pub mod Logs
pub mod Users
