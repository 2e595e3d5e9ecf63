-- ===== src/Ingest/Pipeline/Content.antt =====
-- vektra_ingest/pipeline.py, steps 5 to 7 of `run_ingest`: extract, chunk, embed and store the content of a
-- document whose row is committed. The stream of an extractor is read whole before the chunker runs.
use vektra_stack.Prelude.{ℕ, zero, suc, ◌*◌, Option, none, some, List, [], ◌∷◌, String, map}
use vektra_stack.Prelude.Tests.{if◌then◌else◌}
use vektra_stack.Prelude.Lists.{length}
use vektra_stack.Prelude.Eq.{nat_eq, string_eq, ◌==◌}
use vektra_stack.Prelude.Int.{pos}
use vektra_stack.Shared.Types.{DocumentChunk}
use vektra_stack.Ingest.Chunking
use vektra_stack.Ingest.Chunking.Fixed
use vektra_stack.Ingest.Chunking.Dual
use vektra_stack.Ingest.Pipeline.Embeddings.{ChunkEmbedding, chunk_embeddings, parent_stored_ids}
use vektra_stack.Ingest.Pipeline.World.{
  Outcome, value, ingest_error, exception, Services, IngestConfig, Request, World, on_phase,
}

abbrev pub replicate {ℓ} : {A : Type ℓ} → ℕ → A → List A
replicate zero a = []
replicate (suc n) a = a ∷ replicate n a

module _ {Box : Type 0} (v : Services Box) where
  abbrev pub chunk_fixed :
      Chunking.Outcome Fixed.FixedSizeChunking
      → List (DocumentChunk Box)
      → Outcome (List (DocumentChunk Box))
  chunk_fixed (Chunking.ok s) elements = value (Fixed.chunk v.tokenizer s elements)
  chunk_fixed Chunking.value_error elements = exception

  abbrev pub chunk_dual :
      Chunking.Outcome Dual.DualStrategyChunking
      → List (DocumentChunk Box)
      → Outcome (List (DocumentChunk Box))
  chunk_dual (Chunking.ok s) elements = value (Dual.chunk v.tokenizer v.fresh s elements)
  chunk_dual Chunking.value_error elements = exception

  -- The chunker that is configured
  unfoldable pub chunk_elements :
      IngestConfig → List (DocumentChunk Box) → Outcome (List (DocumentChunk Box))
  chunk_elements config elements =
      if config.chunking_strategy == "dual"
      then chunk_dual (Dual.init config.chunk_size config.chunk_overlap (config.chunk_size * 3))
          elements
      else chunk_fixed (Fixed.init config.chunk_size (pos config.chunk_overlap)) elements

  module _ (r : Request) (content_type : String) (doc_id : ℕ) where
    -- The embeddings as they are stored.
    abbrev pub stored_chunks :
        List (DocumentChunk Box)
        → List v.Dense
        → List (Option v.Sparse)
        → List (ChunkEmbedding v.Dense v.Sparse)
    stored_chunks chunks dense sparse =
        chunk_embeddings (v.uuid5 doc_id) (v.id_text doc_id) content_type r.extra_metadata
          (parent_stored_ids (v.uuid5 doc_id) [] 0 chunks) 0 chunks dense sparse

    abbrev pub store_result :
        World v.Store → v.Store × Option (List String) → World v.Store × Outcome (List String)
    store_result w (s, none) = (record w { store = s }, exception)
    store_result w (s, some chunk_ids) = (record w { store = s }, value chunk_ids)

    abbrev pub store_chunks :
        World v.Store
        → List (DocumentChunk Box)
        → List v.Dense
        → List (Option v.Sparse)
        → World v.Store × Outcome (List String)
    store_chunks w chunks dense sparse =
        if v.has_vector_store
        then store_result w (v.store w.store r.namespace (stored_chunks chunks dense sparse))
        else (w, exception)

    abbrev pub sparse_result :
        World v.Store
        → List (DocumentChunk Box)
        → List v.Dense
        → Option (List (Option v.Sparse))
        → World v.Store × Outcome (List String)
    sparse_result w chunks dense none = (w, exception)
    sparse_result w chunks dense (some sparse) =
        if length sparse == length chunks
        then store_chunks w chunks dense sparse
        else (w, ingest_error "ERR-INGEST-004")

    abbrev pub embed_sparse :
        World v.Store
        → List (DocumentChunk Box)
        → List v.Dense
        → Option (List String → Option (List (Option v.Sparse)))
        → World v.Store × Outcome (List String)
    embed_sparse w chunks dense none = store_chunks w chunks dense (replicate (length chunks) none)
    embed_sparse w chunks dense (some embed_documents) =
        sparse_result w chunks dense (embed_documents (map (λ c. c.text) chunks))

    abbrev pub dense_result :
        World v.Store
        → List (DocumentChunk Box)
        → Option (List v.Dense)
        → World v.Store × Outcome (List String)
    dense_result w chunks none = (w, exception)
    dense_result w chunks (some dense) =
        if length dense == length chunks
        then embed_sparse w chunks dense v.sparse_embedding
        else (w, ingest_error "ERR-INGEST-004")

    abbrev pub embed :
        World v.Store
        → List (DocumentChunk Box)
        → Option (List String → Option (List v.Dense))
        → World v.Store × Outcome (List String)
    embed w chunks none = (w, exception)
    embed w chunks (some embed_documents) =
        dense_result w chunks (embed_documents (map (λ c. c.text) chunks))

    abbrev pub chunked :
        World v.Store → Outcome (List (DocumentChunk Box)) → World v.Store × Outcome (List String)
    chunked w exception = (w, exception)
    chunked w (ingest_error code) = (w, ingest_error code)
    chunked w (value []) = (w, ingest_error "ERR-INGEST-001")
    chunked w (value (c ∷ cs)) = embed (on_phase "embedding" (some 50) w) (c ∷ cs) v.embedding

    abbrev pub extracted :
        IngestConfig
        → World v.Store
        → Outcome (List (DocumentChunk Box))
        → World v.Store × Outcome (List String)
    extracted config w exception = (w, exception)
    extracted config w (ingest_error code) = (w, ingest_error code)
    extracted config w (value elements) =
        chunked (on_phase "chunking" none w) (chunk_elements config elements)

    -- From the commit of the row to the ids of the stored chunks.
    unfoldable pub process :
        IngestConfig
        → World v.Store
        → (List ℕ → Outcome (List (DocumentChunk Box)))
        → World v.Store × Outcome (List String)
    process config w extract =
        extracted config (on_phase "extracting" none w) (extract r.file_content)
