-- ===== src/Keyverse.antt =====
-- The Keyverse boundary, packages/keyverse-adapter.
pub mod Validation
pub mod Authorization
