-- ===== src/Server.antt =====
-- internal/server: the two services, the sweep for lost nodes, and the diagnosis of a lost node.
-- `State` holds what the services share, `Convert` follows convert.go and convert_jobs.go, `Agent`
-- agentsvc.go and agentjobs.go with `Messages`, `Cluster` clustersvc.go, clusterevents.go and
-- clusterjobs.go, `Reaper` the loop of server.go, `Diagnose` and `Recovery` diagnose.go and
-- internal/transport/diagnose.go; the other modules prove what they name.
pub mod State
pub mod Convert
pub mod Messages
pub mod Agent
pub mod Cluster
pub mod Reaper
pub mod Diagnose
pub mod Untouched
pub mod Announced
pub mod Effects
pub mod Requests
pub mod Sweep
pub mod Finish
pub mod Probe
pub mod Tunnels
pub mod Recovery
pub mod Recovered
pub mod Delivery
pub mod Logs
pub mod Prometheus
pub mod Samples
mod Tests
