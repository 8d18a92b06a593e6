-- ===== src/Transport.antt =====
-- internal/transport: the tunnels to the nodes, and how an agent is brought to a node.
pub mod Shell
pub mod Reader
pub mod Quoting
pub mod Launch
pub mod Scp
pub mod Transfer
pub mod Tunnel
pub mod Waits
pub mod Provision
pub mod Dial
pub mod HostKeys
pub mod Alive
pub mod Gone
mod Tests
