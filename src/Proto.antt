-- ===== src/Proto.antt =====
-- The protocol crate, crates/localup-proto.
pub mod IpFilter
pub mod Mux
pub mod Codec
mod Tests
