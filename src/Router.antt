-- ===== src/Router.antt =====
-- The relay's routing crate, crates/localup-router.
pub mod Wildcard
pub mod Registry
pub mod Http
pub mod Tcp
pub mod Sni
mod Tests
