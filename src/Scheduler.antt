-- ===== src/Scheduler.antt =====
-- internal/scheduler: the planning function and the scheduling pass. `Free`, `Reservation` and
-- `Plan` follow plan.go, `Pass` follows scheduler.go; the other modules prove what they name.
pub mod Free
pub mod Reservation
pub mod Plan
pub mod Steps
pub mod Resource
pub mod Account
pub mod Capacity
mod Mirror
pub mod Sound
pub mod Backfill
pub mod Fitting
pub mod Leftover
pub mod Maximal
pub mod Once
pub mod Pass
mod Assigned
pub mod Invariant
mod Statements
pub mod History
mod Tests
mod Released
pub mod Earliest
