-- ===== src/Index/Reindex/Rewrite.antt =====
-- vektra_index/reindex.py: the links between the chunks of a document, rewritten.
use vektra_stack.Prelude.{
  ℕ, zero, suc, ◌≡◌, refl, ap, subst, ◌∙◌, false, some, List, [], ◌∷◌, String, map, arith,
}
use vektra_stack.Prelude.Tests.{none-some, some_injective}
use vektra_stack.Prelude.Lists.{length, get_elem?}
use vektra_stack.Prelude.Eq.{string_eq, ◌==◌, contains, beq_self}
use vektra_stack.Prelude.Dict
use vektra_stack.Prelude.Dict.{Dict, get-put}
use vektra_stack.Ingest.Pipeline.Embeddings.{ChunkEmbedding}
use vektra_stack.Index.Reindex.{Providers, StoredChunk, id_map, rewrite, rewrite_chunk}

-- No id stands twice.
abbrev pub Distinct : {Sparse : Type 0} → List (StoredChunk Sparse) → Type 0
Distinct [] = Unit {0}
Distinct (c ∷ cs) = (contains (map (λ x. x.chunk_id) cs) c.chunk_id ≡ false) × Distinct cs

module _ (v : Providers) (job_id : ℕ) (namespace : String) (source_version target_version : ℕ)
    (doc_id : ℕ) where
  abbrev ids_of : Dict String String → List (StoredChunk v.Sparse) → Dict String String
  ids_of = id_map v job_id namespace source_version target_version doc_id

  id_map-absent :
      (ids : Dict String String) (cs : List (StoredChunk v.Sparse)) (k : String)
      → contains (map (λ x. x.chunk_id) cs) k ≡ false
      → Dict.get (ids_of ids cs) k ≡ Dict.get ids k
  unfolding id_map contains
  id_map-absent ids [] k h = refl
  id_map-absent ids (c ∷ cs) k h = ground (
    arith,
    id_map-absent (Dict.put ids c.chunk_id (v.target_chunk_id doc_id c.position target_version)) cs
        k,
    get-put ids c.chunk_id k (v.target_chunk_id doc_id c.position target_version),
    string_eq.beq_iff c.chunk_id k,
    string_eq.beq_iff k c.chunk_id,
  )

  id_map-get :
      (ids : Dict String String) (cs : List (StoredChunk v.Sparse)) (j : ℕ)
      (q : StoredChunk v.Sparse)
      → Distinct cs
      → get_elem? cs j ≡ some q
      → Dict.get (ids_of ids cs) q.chunk_id
        ≡ some (v.target_chunk_id doc_id q.position target_version)
  unfolding id_map
  id_map-get ids [] j q d e = elim (none-some e) [ ]
  id_map-get ids (c ∷ cs) zero q d e =
      subst
        (λ x.
          Dict.get (ids_of ids (c ∷ cs)) x.chunk_id
          ≡ some (v.target_chunk_id doc_id x.position target_version))
        (some_injective e)
        (id_map-absent
            (Dict.put ids c.chunk_id (v.target_chunk_id doc_id c.position target_version)) cs
            c.chunk_id d.0
          ∙ rw (get-put, beq_self c.chunk_id) refl)
  id_map-get ids (c ∷ cs) (suc j) q d e =
      id_map-get (Dict.put ids c.chunk_id (v.target_chunk_id doc_id c.position target_version)) cs j
        q d.1 e

  rewritten_at :
      (ids : Dict String String) (cs : List (StoredChunk v.Sparse)) (ds : List v.Dense) (k : ℕ)
      (c : StoredChunk v.Sparse)
      → length ds ≡ length cs
      → get_elem? cs k ≡ some c
      → (d : v.Dense) × (get_elem?
            (rewrite v job_id namespace source_version target_version doc_id ids cs ds)
            k
          ≡ some (rewrite_chunk v job_id namespace source_version target_version doc_id ids c d))
  unfolding rewrite
  rewritten_at ids [] ds k c l e = elim (none-some e) [ ]
  rewritten_at ids (x ∷ cs) [] k c l e = absurd (omega arith)
  rewritten_at ids (x ∷ cs) (d ∷ ds) zero c l e = (
    d,
    ap (λ y. some (rewrite_chunk v job_id namespace source_version target_version doc_id ids y d))
        (some_injective e),
  )
  rewritten_at ids (x ∷ cs) (d ∷ ds) (suc k) c l e = rewritten_at ids cs ds k c (omega arith) e

  -- The chunks of a document, rewritten for the target version
  abbrev pub rewritten :
      List (StoredChunk v.Sparse) → List v.Dense → List (ChunkEmbedding v.Dense v.Sparse)
  rewritten cs ds =
      rewrite v job_id namespace source_version target_version doc_id
        (id_map v job_id namespace source_version target_version doc_id [] cs) cs ds

  -- A chunk whose `parent_id` is the id of a chunk of the same document is written for the target version
  -- with the id that this other chunk gets there. No chunk id of the document stands twice, none that is
  -- linked is empty, and there is a vector for each chunk.
  pub rewritten_link :
      (cs : List (StoredChunk v.Sparse)) (ds : List v.Dense) (k j : ℕ) (c q : StoredChunk v.Sparse)
      → Distinct cs
      → length ds ≡ length cs
      → get_elem? cs k ≡ some c
      → get_elem? cs j ≡ some q
      → c.parent_id ≡ some q.chunk_id
      → (q.chunk_id == "") ≡ false
      → (x y : ChunkEmbedding v.Dense v.Sparse) × (get_elem? (rewritten cs ds) k ≡ some x)
        × (get_elem? (rewritten cs ds) j ≡ some y)
        × (x.parent_id ≡ some y.chunk_id)
        × (y.chunk_id ≡ v.target_chunk_id doc_id q.position target_version)
  rewritten_link cs ds k j c q dist l at_k at_j link full =
      let ids = id_map v job_id namespace source_version target_version doc_id [] cs in
      let (d, there) = rewritten_at ids cs ds k c l at_k in
      let (d', there') = rewritten_at ids cs ds j q l at_j in
      let found = id_map-get [] cs j q dist at_j in
      (
        rewrite_chunk v job_id namespace source_version target_version doc_id ids c d,
        rewrite_chunk v job_id namespace source_version target_version doc_id ids q d',
        there,
        there',
        rw (link, full, found) refl,
        rw found refl,
      )
