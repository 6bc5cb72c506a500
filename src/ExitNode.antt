-- ===== src/ExitNode.antt =====
-- The exit node's binary: crates/localup-exit-node.
pub mod Ports
mod Tests
