-- ===== src/Index/Pgvector/Tests.antt =====
-- Rows of two index versions, and the theorems at these rows.
use vektra_stack.Prelude.{ℕ, ◌≡◌, refl, Option, none, some, List, [], ◌∷◌, String}
use vektra_stack.Prelude.Eq.{nat_eq, string_eq}
use vektra_stack.Prelude.Dict
use vektra_stack.Shared.Types.{Value}
use vektra_stack.Ingest.Pipeline.Embeddings.{ChunkEmbedding}
use vektra_stack.Index.Pgvector.{
  DocumentChunk, store, list_chunks, by_position, insert_all, new_rows, delete_index_version,
}
use vektra_stack.Index.Reindex.Routes.{removed, active}
use vektra_stack.Index.Pgvector.Removal.{
  Kept, route, delete_index_version-Kept, delete_index_version_again,
}
use vektra_stack.Index.Pgvector.Listing.{as_stored, Placed, list_chunks-store}

abbrev row : String → ℕ → DocumentChunk ℕ
row id version = record {
  id = id;
  document_id = 3;
  namespace_id = "law";
  content = "one";
  sparse_vector = none;
  chunk_metadata = [];
  position = 0;
  index_version = version;
  parent_id = none;
}

abbrev rows : List (DocumentChunk ℕ)
rows = row "a" 1 ∷ row "b" 2 ∷ []

abbrev chunk : String → ℕ → Option String → ChunkEmbedding ℕ ℕ
chunk id position parent = record {
  chunk_id = id;
  text = "words";
  dense = 5;
  sparse = some 4;
  metadata = ("position", Value.int position) ∷ [];
  parent_id = parent;
}

abbrev chunks : List (ChunkEmbedding ℕ ℕ)
chunks = chunk "p" 0 none ∷ chunk "q" 1 (some "p") ∷ []

-- Every text but the empty one is an id.
abbrev parse_uuid : String → Option String
parse_uuid t = some t

old_removed : delete_index_version 2 rows "law" 1 ≡ (row "b" 2 ∷ [], removed 1)
unfolding delete_index_version
old_removed = refl

live_refused : delete_index_version 2 rows "law" 2 ≡ (rows, active)
unfolding delete_index_version
live_refused = refl

delete_index_version-Kept_example : Kept 2 (some "law") rows (route 2 (some "law") none 1 rows).0
delete_index_version-Kept_example = delete_index_version-Kept 2 (some "law") none 1 rows

delete_index_version_again_example :
    delete_index_version 2 (delete_index_version 2 rows "law" 1).0 "law" 1
    ≡ ((delete_index_version 2 rows "law" 1).0, removed 0)
delete_index_version_again_example = delete_index_version_again 2 rows "law" 1

abbrev stored_rows : List (DocumentChunk ℕ)
stored_rows =
    row "a" 1
    ∷ row "b" 2
    ∷ record {
      id = "p";
      document_id = 8;
      namespace_id = "law";
      content = "words";
      sparse_vector = some 4;
      chunk_metadata = ("position", Value.int 0) ∷ [];
      position = 0;
      index_version = 1;
      parent_id = none;
    }
    ∷ record {
      id = "q";
      document_id = 8;
      namespace_id = "law";
      content = "words";
      sparse_vector = some 4;
      chunk_metadata = ("position", Value.int 1) ∷ [];
      position = 1;
      index_version = 1;
      parent_id = some "p";
    }
    ∷ []

stored : store parse_uuid (λ n. "drawn") 1 rows "law" chunks 8 none ≡ some stored_rows
unfolding store insert_all new_rows Dict.get
stored = refl

chunks-Placed : Placed parse_uuid (λ n. "drawn") 0 chunks
unfolding Dict.get
chunks-Placed = (refl, refl, refl, (refl, refl, refl, tt))

nothing_there : list_chunks 1 rows "law" 8 ≡ []
unfolding list_chunks by_position
nothing_there = refl

list_chunks-store_example : list_chunks 1 stored_rows "law" 8 ≡ as_stored 0 chunks
list_chunks-store_example =
    list_chunks-store parse_uuid (λ n. "drawn") 1 rows stored_rows "law" 8 chunks chunks-Placed
      nothing_there stored
