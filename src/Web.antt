-- ===== src/Web.antt =====
-- internal/server/webserver.go: the JSON interface of the web console, over the store, the snapshots and
-- the logs that the gRPC services use. `Json` holds the answers, `Sizes` the texts of sizes and times,
-- `Handlers` the handlers, `Logs` the stream of a log; the other modules prove what they name.
pub mod Json
pub mod Sizes
pub mod Handlers
pub mod Logs
pub mod Agree
pub mod Submit
mod Tests
