-- ===== src/Client.antt =====
-- The client behind a tunnel: crates/localup-client.
pub mod Chunks
pub mod Heads
pub mod Requests
pub mod Responses
mod Tests
