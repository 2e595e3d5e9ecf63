-- ===== src/Ingest/Pipeline/Embeddings.antt =====
-- vektra_ingest/pipeline.py: the chunks that go to the vector store, with ids that `uuid5` gives them, and
-- the links to their parents.
use vektra_stack.Prelude.{ℕ, suc, Bool, true, false, Option, none, some, List, [], ◌∷◌, String}
use vektra_stack.Prelude.Tests.{if◌then◌else◌}
use vektra_stack.Prelude.Eq.{string_eq, ◌==◌}
use vektra_stack.Prelude.Dict
use vektra_stack.Prelude.Dict.{Dict}
use vektra_stack.Shared.Types
use vektra_stack.Shared.Types.{DocumentChunk, Metadata, Value}

pub record ChunkEmbedding (Dense Sparse : Type 0) : Type 0 where
  pub chunk_id : String
  pub text : String
  pub dense : Dense
  pub sparse : Option Sparse
  pub metadata : Metadata
  pub parent_id : Option String

-- `metadata.get("chunk_level") == level`
abbrev pub is_level_value : String → Option Value → Bool
is_level_value level (some (Value.str l)) = l == level
is_level_value level _ = false

abbrev pub is_level : {Box : Type 0} → String → DocumentChunk Box → Bool
is_level level c = is_level_value level (Dict.get c.metadata "chunk_level")

-- `{**a, **b}`
abbrev pub merge : Metadata → Metadata → Metadata
merge a [] = a
merge a ((k, v) ∷ b) = merge (Dict.put a k v) b

-- A parent id that is there and not empty
abbrev pub link_of : Option String → Option String
link_of none = none
link_of (some p) = if p == "" then none else some p

abbrev pub stored_parent : Dict String String → Option String → Bool → Option String
stored_parent ids (some p) true = Dict.get ids p
stored_parent ids _ _ = none

-- `stored_id i` is `str(uuid5(doc_id, str(i)))`.
module _ (stored_id : ℕ → String) where
  abbrev pub add_parent : Option String → Bool → ℕ → Dict String String → Dict String String
  add_parent (some p) true i ids = Dict.put ids p (stored_id i)
  add_parent _ _ i ids = ids

  -- `parent_stored_ids`, from the chunk at place `i` on
  unfoldable pub parent_stored_ids :
      {Box : Type 0} → Dict String String → ℕ → List (DocumentChunk Box) → Dict String String
  parent_stored_ids ids i [] = ids
  parent_stored_ids ids i (c ∷ cs) =
      parent_stored_ids (add_parent (link_of c.parent_id) (is_level "parent" c) i ids) (suc i) cs

module _ {Box Dense Sparse : Type 0} (stored_id : ℕ → String) (document_id content_type : String)
    (extra : Metadata) (ids : Dict String String) where
  abbrev pub embed_chunk :
      ℕ → DocumentChunk Box → Dense → Option Sparse → ChunkEmbedding Dense Sparse
  embed_chunk i c dense sparse = record {
    chunk_id = stored_id i;
    text = c.text;
    dense = dense;
    sparse = sparse;
    metadata =
        Dict.put
          (Dict.put
            (Dict.put (Dict.put (merge c.metadata extra) "document_id" (Value.str document_id))
              "content_type" (Value.str content_type))
            "element_type" (Value.str (Types.value c.element_type)))
          "position" (Value.int i);
    parent_id = stored_parent ids (link_of c.parent_id) (is_level "child" c);
  }

  -- The comprehension over `enumerate(zip(all_chunks, embeddings, sparse_vectors))`
  unfoldable pub chunk_embeddings :
      ℕ
      → List (DocumentChunk Box)
      → List Dense
      → List (Option Sparse)
      → List (ChunkEmbedding Dense Sparse)
  chunk_embeddings i (c ∷ cs) (d ∷ ds) (s ∷ ss) =
      embed_chunk i c d s ∷ chunk_embeddings (suc i) cs ds ss
  chunk_embeddings i (c ∷ cs) (d ∷ ds) [] = []
  chunk_embeddings i (c ∷ cs) [] ss = []
  chunk_embeddings i [] ds ss = []
