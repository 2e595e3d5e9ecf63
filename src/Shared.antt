-- ===== src/Shared.antt =====
-- vektra-shared: the domain types, the provider registry and authentication.
pub mod Types
pub mod Registry
pub mod Errors
pub mod Auth
pub mod Namespace
