-- ===== src/Core.antt =====
-- vektra-core: the token budget, conversations and what is done with search results.
pub mod Budget
pub mod Conversation
pub mod Retrieval
