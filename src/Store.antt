-- ===== src/Store.antt =====
-- internal/store: the interface `Store`, and its implementation over SQLite. `Api` is the interface
-- with which the other components are written, `Rows` the table rows, `Nodes`, `Jobs` and `Events`
-- the statements of sqlite.go, sqlite_jobs.go and sqlite_events.go, `Sqlite` puts them together;
-- the other modules prove what they name.
pub mod Api
pub mod Rows
pub mod Nodes
pub mod Jobs
pub mod Events
pub mod Sqlite
pub mod Lifecycle
pub mod Keys
pub mod Operations
pub mod Registry
mod Tests
pub mod RoundTrip
pub mod Finished
pub mod Answers
