-- ===== src/Index/Reindex.antt =====
-- vektra_index/reindex.py: the reindex job and its routes. Each statement of the job in the database may raise;
-- an exception of a provider is `none`. Of a job the current document, the message and the times are left out.
pub mod Rewrite
pub mod Ends
pub mod Routes
mod Tests
use vektra_stack.Prelude.{
  ℕ, zero, suc, ◌+◌, ◌≡◌, Bool, true, false, not, ◌&&◌, ◌||◌, Option, none, some, List, [], ◌∷◌,
  String, map,
}
use vektra_stack.Prelude.Tests.{if◌then◌else◌, ltb}
use vektra_stack.Prelude.Lists.{length, select}
use vektra_stack.Prelude.Eq.{nat_eq, string_eq, ◌==◌}
use vektra_stack.Prelude.Dict
use vektra_stack.Prelude.Dict.{Dict}
use vektra_stack.Shared.Types.{Metadata, Value}
use vektra_stack.Ingest.Pipeline.Documents.{Documents, is_active}
use vektra_stack.Ingest.Pipeline.Embeddings.{ChunkEmbedding}

pub record StoredChunk (Sparse : Type 0) : Type 0 where
  pub chunk_id : String
  pub text : String
  pub metadata : Metadata
  pub position : ℕ
  pub parent_id : Option String
  pub sparse : Option Sparse

pub data JobStatus : Type 0 where
  pending running completed failed : JobStatus

pub record ReindexJob : Type 0 where
  pub namespace_id : String
  pub source_index_version : ℕ
  pub target_index_version : ℕ
  pub status : JobStatus
  pub total_documents : ℕ
  pub processed_documents : ℕ
  pub chunks_reindexed : ℕ

-- The providers of the registry, and the ids of `uuid5`. `store` is given the index version.
pub record Providers : Type 1 where
  pub Dense : Type 0
  pub Sparse : Type 0
  pub Store : Type 0
  pub id_text : ℕ → String
  pub target_chunk_id : ℕ → ℕ → ℕ → String
  pub embedding : Option (List String → Option (List Dense))
  pub has_vector_store : Bool
  pub list_chunks : Store → String → ℕ → Option (List (StoredChunk Sparse))
  pub store : Store → String → ℕ → List (ChunkEmbedding Dense Sparse) → Store × Option (List String)

pub record World (Store : Type 0) : Type 0 where
  pub documents : Documents
  pub jobs : Dict ℕ ReindexJob
  pub store : Store

-- Which statements go through: the count and the list of the documents, and the updates of the row to running,
-- of the total, of the progress by the place of the document, to completed and to failed.
pub record Statements : Type 0 where
  pub counted : Bool
  pub listed : Bool
  pub running : Bool
  pub total : Bool
  pub progress : ℕ → Bool
  pub completed : Bool
  pub failed : Bool

abbrev pub change :
    Option ReindexJob → Dict ℕ ReindexJob → ℕ → (ReindexJob → ReindexJob) → Dict ℕ ReindexJob
change none jobs job_id f = jobs
change (some job) jobs job_id f = Dict.put jobs job_id (f job)

-- `UPDATE reindex_jobs … WHERE id = :job_id`
unfoldable pub update_job :
    {Store : Type 0} → World Store → ℕ → (ReindexJob → ReindexJob) → World Store
update_job w job_id f = record w { jobs = change (Dict.get w.jobs job_id) w.jobs job_id f }

-- `if chunk.parent_id`
abbrev pub linked : Dict String String → Option String → Option String
linked id_map none = none
linked id_map (some p) = if p == "" then none else Dict.get id_map p

module _ (v : Providers) (job_id : ℕ) (namespace : String) (source_version target_version : ℕ) where
  -- The dict comprehension over the chunks of a document
  unfoldable pub id_map : ℕ → Dict String String → List (StoredChunk v.Sparse) → Dict String String
  id_map doc_id ids [] = ids
  id_map doc_id ids (c ∷ cs) =
      id_map doc_id (Dict.put ids c.chunk_id (v.target_chunk_id doc_id c.position target_version))
        cs

  abbrev pub or_empty : Option String → String
  or_empty none = ""
  or_empty (some t) = t

  abbrev pub rewrite_chunk :
      ℕ → Dict String String → StoredChunk v.Sparse → v.Dense → ChunkEmbedding v.Dense v.Sparse
  rewrite_chunk doc_id ids c dense = record {
    chunk_id = or_empty (Dict.get ids c.chunk_id);
    text = c.text;
    dense = dense;
    sparse = c.sparse;
    metadata =
        Dict.put (Dict.put c.metadata "document_id" (Value.str (v.id_text doc_id))) "position"
          (Value.int c.position);
    parent_id = linked ids c.parent_id;
  }

  -- The loop over `zip(existing_chunks, embeddings)`
  unfoldable pub rewrite :
      ℕ
      → Dict String String
      → List (StoredChunk v.Sparse)
      → List v.Dense
      → List (ChunkEmbedding v.Dense v.Sparse)
  rewrite doc_id ids (c ∷ cs) (d ∷ ds) = rewrite_chunk doc_id ids c d ∷ rewrite doc_id ids cs ds
  rewrite doc_id ids (c ∷ cs) [] = []
  rewrite doc_id ids [] ds = []

  abbrev pub stored : World v.Store → ℕ → v.Store × Option (List String) → World v.Store × Option ℕ
  stored w n (s, none) = (record w { store = s }, none)
  stored w n (s, some ids) =
      (record w { store = s }, if length ids == n then some (length ids) else none)

  abbrev pub embedded :
      World v.Store
      → ℕ
      → List (StoredChunk v.Sparse)
      → Option (List v.Dense)
      → World v.Store × Option ℕ
  embedded w doc_id cs none = (w, none)
  embedded w doc_id cs (some dense) =
      let chunks = rewrite doc_id (id_map doc_id [] cs) cs dense in
      if length dense == length cs
      then stored w (length chunks) (v.store w.store namespace target_version chunks)
      else (w, none)

  -- One document, and the number of chunks that were stored for it
  abbrev pub reindex_chunks :
      World v.Store
      → (List String → Option (List v.Dense))
      → ℕ
      → Option (List (StoredChunk v.Sparse))
      → World v.Store × Option ℕ
  reindex_chunks w embed doc_id none = (w, none)
  reindex_chunks w embed doc_id (some []) = (w, some 0)
  reindex_chunks w embed doc_id (some (c ∷ cs)) =
      embedded w doc_id (c ∷ cs) (embed (map (λ x. x.text) (c ∷ cs)))

  abbrev pub reindex_document :
      World v.Store → (List String → Option (List v.Dense)) → ℕ → World v.Store × Option ℕ
  reindex_document w embed doc_id =
      reindex_chunks w embed doc_id (v.list_chunks w.store namespace doc_id)

  abbrev pub progress : ℕ → ℕ → ReindexJob → ReindexJob
  progress processed chunks job = record job {
    processed_documents = processed;
    chunks_reindexed = chunks;
  }

  abbrev pub document_ids : Documents → List ℕ
  document_ids documents =
      Dict.keys (select (λ e. is_active e.1 && e.1.namespace_id == namespace) documents)

  abbrev pub mark_running : ReindexJob → ReindexJob
  mark_running job = record job { status = JobStatus.running }

  abbrev pub mark_completed : ℕ → ReindexJob → ReindexJob
  mark_completed n job = record job { status = JobStatus.completed; chunks_reindexed = n }

  abbrev pub mark_failed : ReindexJob → ReindexJob
  mark_failed job = record job { status = JobStatus.failed }

  module _ (u : Statements) where
    -- The loop, from the document at place `i` on, with the chunks stored so far
    unfoldable pub reindex_documents :
        World v.Store
        → (List String → Option (List v.Dense))
        → ℕ
        → ℕ
        → List ℕ
        → World v.Store × Option ℕ
    reindex_documents w embed i chunks_reindexed [] = (w, some chunks_reindexed)
    reindex_documents w embed i chunks_reindexed (doc_id ∷ doc_ids) =
        let here = reindex_document w embed doc_id in
        elim here.1 [
          | none ↦ (here.0, none)
          | some n ↦
              let rest =
                reindex_documents
                  (update_job here.0 job_id (progress (i + 1) (chunks_reindexed + n))) embed (i + 1)
                  (chunks_reindexed + n) doc_ids in
              if u.progress i then rest else (here.0, none)
        ]

    -- The handler of an exception, whose own update is only logged where it raises.
    abbrev pub fail : World v.Store → World v.Store
    fail w = if u.failed then update_job w job_id mark_failed else w

    abbrev pub complete : World v.Store → ℕ → World v.Store
    complete w n = if u.completed then update_job w job_id (mark_completed n) else fail w

    abbrev pub conclude : ℕ → World v.Store × Option ℕ → World v.Store
    conclude total (w, none) = fail w
    conclude total (w, some n) = if ltb 0 total && n == 0 then fail w else complete w n

    abbrev pub with_embedding :
        World v.Store → ℕ → List ℕ → Option (List String → Option (List v.Dense)) → World v.Store
    with_embedding w active_version doc_ids none = fail w
    with_embedding w active_version doc_ids (some embed) =
        if v.has_vector_store && source_version == active_version
        then conclude (length doc_ids) (reindex_documents w embed 0 0 doc_ids)
        else fail w

    -- The ids of the documents
    abbrev pub with_documents : ℕ → List ℕ → World v.Store → World v.Store
    with_documents active_version doc_ids w =
        if u.listed then with_embedding w active_version doc_ids v.embedding else fail w

    -- The count of the documents
    abbrev pub with_total : ℕ → List ℕ → World v.Store → World v.Store
    with_total active_version doc_ids w =
        if u.counted && u.total
        then with_documents active_version doc_ids
            (update_job w job_id (λ job. record job { total_documents = length doc_ids }))
        else fail w

    unfoldable pub run_reindex : ℕ → World v.Store → World v.Store
    run_reindex active_version w =
        if u.running
        then with_total active_version (document_ids w.documents) (update_job w job_id mark_running)
        else fail w
