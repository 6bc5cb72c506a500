-- ===== src/Control.antt =====
-- The relay's control plane: crates/localup-control.
pub mod Agents
pub mod Tasks
pub mod Endpoints
pub mod Admission
pub mod Handler
pub mod Connections
pub mod Pending
pub mod Domains
pub mod Clients
pub mod Reverse
pub mod Dispatch
pub mod Heartbeat
mod Tests
