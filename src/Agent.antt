-- ===== src/Agent.antt =====
-- The programs behind a reverse tunnel: crates/localup-agent and crates/localup-agent-server.
pub mod Access
pub mod Stream
mod Tests
