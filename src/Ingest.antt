-- ===== src/Ingest.antt =====
-- vektra-ingest: chunking, the pipeline with its jobs, and the cleanup of deleted documents.
pub mod Chunking
pub mod Cleanup
pub mod Detection
pub mod Pipeline
pub mod Jobs
