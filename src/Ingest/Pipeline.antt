-- ===== src/Ingest/Pipeline.antt =====
-- vektra_ingest/pipeline.py
pub mod Documents
pub mod Embeddings
pub mod Parents
pub mod Links
pub mod World
pub mod Content
pub mod Run
pub mod Names
pub mod Steps
pub mod Writes
pub mod Indexes
pub mod Isolation
pub mod Held
pub mod Lookup
pub mod Rollback
pub mod Answers
pub mod Success
pub mod Repeat
pub mod Tests
