-- ===== src/Auth.antt =====
-- Authentication of clients: crates/localup-auth.
pub mod Claims
mod Tests
