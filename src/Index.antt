-- ===== src/Index.antt =====
-- vektra-index
pub mod Reindex
pub mod Pgvector
