-- ===== src/Ingest/Pipeline/World.antt =====
-- vektra_ingest/pipeline.py: what `run_ingest` works on. The parts that it calls are a record of functions. Of
-- the callback `on_phase` its calls are recorded, and an exception of it is left out.
use vektra_stack.Prelude.{ℕ, Bool, true, false, Option, List, [], ◌∷◌, ◌++◌, String}
use vektra_stack.Prelude.Eq.{nat_eq, string_eq}
use vektra_stack.Shared.Types.{DocumentChunk, Metadata}
use vektra_stack.Ingest.Chunking.{Tokenizer}
use vektra_stack.Ingest.Pipeline.Documents.{Documents}
use vektra_stack.Ingest.Pipeline.Embeddings.{ChunkEmbedding}

-- How a call of another part ends: with a value, an `IngestError` with its code, or another exception.
pub data Outcome (A : Type 0) : Type 0 where
  value : A → Outcome A
  ingest_error : String → Outcome A
  exception : Outcome A

-- The parts that the pipeline calls: the hash, the detection of content types, the extractors, and the
-- providers of the registry, each `none` where it is not registered (then `get` raises).
pub record Services (Box : Type 0) : Type 1 where
  pub sha256 : List ℕ → String
  pub detect_content_type : List ℕ → String → String
  pub get_extractor : String → Option (List ℕ → Outcome (List (DocumentChunk Box)))
  pub tokenizer : Tokenizer
  pub fresh : ℕ → String
  pub id_text : ℕ → String
  pub uuid5 : ℕ → ℕ → String
  pub Dense : Type 0
  pub Sparse : Type 0
  pub Store : Type 0
  pub embedding : Option (List String → Option (List Dense))
  pub sparse_embedding : Option (List String → Option (List (Option Sparse)))
  pub has_vector_store : Bool
  pub store : Store → String → List (ChunkEmbedding Dense Sparse) → Store × Option (List String)
  pub delete : Store → String → ℕ → Store
  pub has_events : Bool

-- The settings as natural numbers: an overlap below 0 is not among them.
pub record IngestConfig : Type 0 where
  pub chunking_strategy : String
  pub chunk_size : ℕ
  pub chunk_overlap : ℕ

pub record Request : Type 0 where
  pub file_content : List ℕ
  pub filename : String
  pub namespace : String
  pub extra_metadata : Metadata

-- How the commit of the new row ends, where the flush before it went through: `lost` is an error that is no
-- integrity error.
pub data Commit : Type 0 where
  done name_taken integrity lost : Commit

-- What a run meets: the id that the database draws, the time, what other sessions do before the row is
-- written and between its commit and the end, and which statements fail.
pub record Moment : Type 0 where
  pub document_id : ℕ
  pub now : ℕ
  pub before_insert : Documents → Documents
  pub before_end : Documents → Documents
  pub flush_ok : Bool
  pub name_reported : Bool
  pub commit : Commit
  pub cleanup_session : Bool
  pub restore_session : Bool
  pub count_session : Bool
  -- The lookup by name, the soft delete of what is superseded, and the update of the aliases
  pub name_lookup : Bool
  pub supersede_session : Bool
  pub alias_session : Bool

pub data Status : Type 0 where
  new exists alias : Status

-- Its `metadata` is never written, and left out.
pub record IngestResult : Type 0 where
  pub status : Status
  pub document_id : ℕ
  pub chunk_count : Option ℕ
  pub alias_count : Option ℕ
  pub version : ℕ
  pub supersedes_id : Option ℕ

-- The end of a run; `raised` is an exception that leaves before any row of this run is written.
pub data Ingest : Type 0 where
  ingested : IngestResult → Ingest
  conflict_error : Ingest
  failed : String → Ingest
  raised : Ingest

pub data Event : Type 0 where
  superseded : ℕ → ℕ → ℕ → Event
  indexed : ℕ → ℕ → Event
  document_failed : Option ℕ → Event

-- The tables, the vector store, the events sent and the phases reported.
pub record World (Store : Type 0) : Type 0 where
  pub documents : Documents
  pub store : Store
  pub events : List Event
  pub phases : List (String × Option ℕ)

-- The version that a run writes, and what it supersedes.
pub record Plan : Type 0 where
  pub version : ℕ
  pub supersedes_id : Option ℕ

module _ {Store : Type 0} where
  abbrev pub emit : Bool → Event → World Store → World Store
  emit true event w = record w { events = w.events ++ event ∷ [] }
  emit false event w = w

  abbrev pub on_phase : String → Option ℕ → World Store → World Store
  on_phase phase percentage w = record w { phases = w.phases ++ (phase, percentage) ∷ [] }

  abbrev pub with_documents : Documents → World Store → World Store
  with_documents m w = record w { documents = m }
