-- ===== src/Skctl.antt =====
-- cmd/skctl/main.go: the command line of a user. `Text` holds the small texts of its tables, `Tables` the
-- rows that the commands print of the answers of the server, `Commands` how its
-- arguments become requests, `Stream` the printing of a log;
-- `Scale` proves the printing of sizes.
pub mod Text
pub mod Tables
pub mod Commands
pub mod Stream
pub mod Scale
mod Tests
