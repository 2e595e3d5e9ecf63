-- ===== src/Lib.antt =====
-- A verification library for the service's core: who may call it (vektra-admin, vektra-shared), how
-- documents become chunks (vektra-ingest), how these are kept and written again (vektra-index), and how
-- search results are filtered, a prompt is filled and a conversation kept (vektra-core). Paths are from the repository's root.
--
-- Parts, and how they interact:
-- - Admin.RateLimit: the sliding-window limiter, vektra-admin/src/vektra_admin/rate_limit.py. `check` and
--   `cleanup` are the methods; a state is the dict of windows, and the clocks are arguments.
-- - Admin.Keys and Admin.KeyStore: vektra-admin/src/vektra_admin/keys.py (`verify_key` and its cache) and
--   keystore.py (`InMemoryKeyStore`: add, revoke, load, look up). argon2 and cachetools' TTLCache are
--   parameters; what is assumed of the cache is that it returns only what was put into it.
-- - Shared.Registry, Shared.Errors, Shared.Auth: vektra-shared/src/vektra_shared/registry.py, the statuses of
--   errors.py, and the dependency of `require_scope` in auth.py, over any key store (the Protocol
--   `KeyStoreProvider`, a record) and any rate limiter.
-- - Admin.Access puts the key store and the limiter of vektra-admin into those two interfaces.
-- - Shared.Types: the element types and chunks of vektra-shared/src/vektra_shared/types.py.
-- - Ingest.Chunking: vektra-ingest/src/vektra_ingest/chunking.py; Fixed is `FixedSizeChunking`, Dual is
--   `DualStrategyChunking`. The overlap of Fixed is an integer; the sizes of both, the overlap of Dual and
--   that of a pipeline's configuration are natural numbers. tiktoken is a parameter (`Tokenizer`), and so are
--   the ids of `uuid4()`.
-- - Ingest.Detection: vektra-ingest/src/vektra_ingest/detection.py, and the table of the extractors of pipeline.py.
-- - Ingest.Pipeline: `run_ingest` of vektra-ingest/src/vektra_ingest/pipeline.py and the table of models.py.
--   Documents has the rows, the statements and the two partial unique indexes of the migrations, Embeddings
--   the chunks as they are stored, World what a run calls and meets, Content the steps from the extraction to
--   the store, over Ingest.Chunking, and Run the whole run, with its two `except` blocks. The detection of the
--   content type, the extractors, the embedding providers, `uuid5` and the vector store are a record of
--   functions (`Services`); a `Moment` says what other sessions do to the table before the new row is written
--   and between its commit and the end, and which statements fail. The first lookup does not
--   raise, and other sessions come no earlier than the insert of the new row.
-- - Admin.Quotas: `check_namespace_quota` of vektra-admin/src/vektra_admin/quotas.py. Shared.Namespace: the
--   three resolvers of vektra-shared/src/vektra_shared/namespace.py.
-- - Ingest.Jobs: the job records and `ingest_document_task` of vektra-ingest/src/vektra_ingest/jobs.py, over
--   Ingest.Pipeline. Each statement on the job table goes through or not (`Updates`).
-- - Ingest.Cleanup: `cleanup_soft_deleted_task` of vektra-ingest/src/vektra_ingest/jobs.py, over a vector store
--   of which `delete` is used: what it deletes is gone, and it brings nothing back.
-- - Index.Reindex: vektra-index/src/vektra_index/reindex.py; the background job over any providers, and in Routes
--   the three routes. Each statement in the database goes through or raises (`Statements`). Rewrite is about
--   the links of the chunks, Ends about the job.
-- - Index.Pgvector: the rows of vektra-index/src/vektra_index/models.py, and the methods of providers/pgvector.py
--   that store, list and delete them. Removal puts its deletion under the route of Index.Reindex.
-- - Core.Budget: vektra-core/src/vektra_core/budget.py, over the operations on floats that it uses.
-- - Core.Retrieval: `_apply_retrieval_filter` of vektra-core/src/vektra_core/pipeline.py (Filter) and
--   `_expand_parents` of advanced_pipeline.py (Parents), over the order of scores.
-- - Core.Conversation: vektra-core/src/vektra_core/conversation.py; Memory is the in-memory store,
--   Persistent the store on the tables of models.py (Tables), with pgcrypto as a parameter.
-- - Prelude holds the helpers: tests, lists and membership, equality as an interface, integers, and Python's
--   dict (Prelude.Dict).
--
-- Stateful code passes its state explicitly; a method gives the new state beside its answer, and errors
-- are values. A run is a list of calls. Asynchronous methods run one after another: interleavings at an
-- `await` are left out, except in Ingest.Pipeline as said above. Identifiers and times are natural numbers.
--
-- Fuel: the `while` loops over tokens recurse on fuel, one more than the number of tokens. Each round
-- moves the start by a step of at least one token (`chunk_overlap < chunk_size` in the constructors), so
-- the loop ends before the fuel does.
--
-- Not modelled: the other HTTP routes and the pages, the other steps of the query pipelines, the searches,
-- Qdrant, the extractors, the providers and the configuration, which are mostly calls of other libraries;
-- analytics has no model here either. Log lines are left out everywhere.
pub mod Prelude
pub mod Shared
pub mod Admin
pub mod Core
pub mod Ingest
pub mod Index
