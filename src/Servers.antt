-- ===== src/Servers.antt =====
-- The servers that take requests from the Internet: crates/localup-server-https and
-- crates/localup-server-tcp.
pub mod Requests
pub mod Https
pub mod Http
mod Tests
