-- ===== src/Agent.antt =====
-- internal/agent: the jobs that run on a node, and the registration of the node. `Executor` and `Run`
-- follow executor.go, `Register` the loop of register in agent.go, `Loop` the rounds of Run and pollLoop;
-- `Pump` pumpLogs, `Rejoin` puts a round and the server together; the other modules prove what they name.
pub mod Executor
pub mod Run
pub mod Register
pub mod Exclusive
pub mod Outcome
pub mod Backoff
pub mod Loop
pub mod Pump
pub mod Pumped
pub mod Rejoin
mod Tests
