-- ===== src/Ingest/Pipeline/Steps.antt =====
-- What extracting, chunking, embedding and storing leave alone.
use vektra_stack.Prelude.{
  ℕ, ◌≡◌, refl, Bool, true, false, Option, none, some, List, [], ◌∷◌, String, map,
}
use vektra_stack.Prelude.Tests.{if◌then◌else◌}
use vektra_stack.Prelude.Lists.{length}
use vektra_stack.Prelude.Eq.{nat_eq, ◌==◌}
use vektra_stack.Shared.Types.{DocumentChunk}
use vektra_stack.Ingest.Pipeline.Documents.{Documents}
use vektra_stack.Ingest.Pipeline.World.{
  Outcome, value, ingest_error, exception, Services, IngestConfig, Request, World, on_phase,
}
use vektra_stack.Ingest.Pipeline.Content.{
  chunk_elements, stored_chunks, replicate, store_result, store_chunks, sparse_result, embed_sparse,
  dense_result, embed, chunked, extracted, process,
}

-- A result whose tables are `docs`
abbrev Keeps : {Store A : Type 0} → Documents → World Store × A → Type 0
Keeps docs p = p.0.documents ≡ docs

if-Keeps :
    {Store A : Type 0} (docs : Documents) (b : Bool) (p q : World Store × A)
    → Keeps docs p
    → Keeps docs q
    → Keeps docs (if b then p else q)
if-Keeps docs true p q kp kq = kp
if-Keeps docs false p q kp kq = kq

module _ {Box : Type 0} (v : Services Box) (r : Request) (content_type : String) (id : ℕ) where
  store_result-Keeps :
      (w : World v.Store) (p : v.Store × Option (List String))
      → Keeps w.documents (store_result v r content_type id w p)
  store_result-Keeps w (s, none) = refl
  store_result-Keeps w (s, some ids) = refl

  store_chunks-Keeps :
      (w : World v.Store) (chunks : List (DocumentChunk Box)) (dense : List v.Dense)
      (sparse : List (Option v.Sparse))
      → Keeps w.documents (store_chunks v r content_type id w chunks dense sparse)
  store_chunks-Keeps w chunks dense sparse =
      if-Keeps w.documents v.has_vector_store
        (store_result v r content_type id w
          (v.store w.store r.namespace (stored_chunks v r content_type id chunks dense sparse)))
        (w, exception)
        (store_result-Keeps w
          (v.store w.store r.namespace (stored_chunks v r content_type id chunks dense sparse)))
        refl

  sparse_result-Keeps :
      (w : World v.Store) (chunks : List (DocumentChunk Box)) (dense : List v.Dense)
      (o : Option (List (Option v.Sparse)))
      → Keeps w.documents (sparse_result v r content_type id w chunks dense o)
  sparse_result-Keeps w chunks dense none = refl
  sparse_result-Keeps w chunks dense (some sparse) =
      if-Keeps w.documents (length sparse == length chunks)
        (store_chunks v r content_type id w chunks dense sparse) (w, ingest_error "ERR-INGEST-004")
        (store_chunks-Keeps w chunks dense sparse) refl

  embed_sparse-Keeps :
      (w : World v.Store) (chunks : List (DocumentChunk Box)) (dense : List v.Dense)
      (o : Option (List String → Option (List (Option v.Sparse))))
      → Keeps w.documents (embed_sparse v r content_type id w chunks dense o)
  embed_sparse-Keeps w chunks dense none =
      store_chunks-Keeps w chunks dense (replicate (length chunks) none)
  embed_sparse-Keeps w chunks dense (some f) =
      sparse_result-Keeps w chunks dense (f (map (λ c. c.text) chunks))

  dense_result-Keeps :
      (w : World v.Store) (chunks : List (DocumentChunk Box)) (o : Option (List v.Dense))
      → Keeps w.documents (dense_result v r content_type id w chunks o)
  dense_result-Keeps w chunks none = refl
  dense_result-Keeps w chunks (some dense) =
      if-Keeps w.documents (length dense == length chunks)
        (embed_sparse v r content_type id w chunks dense v.sparse_embedding)
        (w, ingest_error "ERR-INGEST-004") (embed_sparse-Keeps w chunks dense v.sparse_embedding)
        refl

  embed-Keeps :
      (w : World v.Store) (chunks : List (DocumentChunk Box))
      (o : Option (List String → Option (List v.Dense)))
      → Keeps w.documents (embed v r content_type id w chunks o)
  embed-Keeps w chunks none = refl
  embed-Keeps w chunks (some f) = dense_result-Keeps w chunks (f (map (λ c. c.text) chunks))

  chunked-Keeps :
      (w : World v.Store) (o : Outcome (List (DocumentChunk Box)))
      → Keeps w.documents (chunked v r content_type id w o)
  chunked-Keeps w exception = refl
  chunked-Keeps w (ingest_error code) = refl
  chunked-Keeps w (value []) = refl
  chunked-Keeps w (value (c ∷ cs)) =
      embed-Keeps (on_phase "embedding" (some 50) w) (c ∷ cs) v.embedding

  module _ (config : IngestConfig) where
    extracted-Keeps :
        (w : World v.Store) (o : Outcome (List (DocumentChunk Box)))
        → Keeps w.documents (extracted v r content_type id config w o)
    extracted-Keeps w exception = refl
    extracted-Keeps w (ingest_error code) = refl
    extracted-Keeps w (value elements) =
        chunked-Keeps (on_phase "chunking" none w) (chunk_elements v config elements)

    -- No stage writes a row.
    pub process-documents :
        (w : World v.Store) (extract : List ℕ → Outcome (List (DocumentChunk Box)))
        → (process v r content_type id config w extract).0.documents ≡ w.documents
    unfolding process
    process-documents w extract =
        extracted-Keeps (on_phase "extracting" none w) (extract r.file_content)
