-- ===== src/Admin.antt =====
-- vektra-admin: rate limiting, API keys and quotas.
pub mod RateLimit
pub mod Keys
pub mod KeyStore
pub mod Access
pub mod Quotas
