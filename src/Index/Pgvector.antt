-- ===== src/Index/Pgvector.antt =====
-- vektra_index/providers/pgvector.py: the rows of `document_chunks` and the methods that write, delete and list
-- them. `parse_uuid` is `UUID(…)` on a text, with `none` for its ValueError. The search methods, the vectors
-- and the columns that `store` leaves at their defaults are left out, and so are the rows that other
-- sessions write.
pub mod Removal
pub mod Listing
mod Tests
use vektra_stack.Prelude.{
  ℕ, zero, suc, ◌+◌, ◌≡◌, Bool, true, false, not, ◌&&◌, Option, none, some, List, [], ◌∷◌, ◌++◌,
  String, map,
}
use vektra_stack.Prelude.Tests.{if◌then◌else◌, leb}
use vektra_stack.Prelude.Lists.{length, select, any}
use vektra_stack.Prelude.Eq.{nat_eq, string_eq, ◌==◌}
use vektra_stack.Prelude.Dict
use vektra_stack.Shared.Types
use vektra_stack.Shared.Types.{Metadata, Value}
use vektra_stack.Ingest.Pipeline.Documents.{SourceDocument, Documents, is_active}
use vektra_stack.Ingest.Pipeline.Embeddings.{ChunkEmbedding}
use vektra_stack.Index.Reindex.{StoredChunk}
use vektra_stack.Index.Reindex.Routes.{Deletion, removed, active}

pub record DocumentChunk (Sparse : Type 0) : Type 0 where
  pub id : String
  pub document_id : ℕ
  pub namespace_id : String
  pub content : String
  pub sparse_vector : Option Sparse
  pub chunk_metadata : Metadata
  pub position : ℕ
  pub index_version : ℕ
  pub parent_id : Option String

-- `metadata.get("position", position)`, for a position that is a number
abbrev pub position_of : Option Value → ℕ → ℕ
position_of (some (Value.int n)) position = n
position_of _ position = position

abbrev pub version_of : ℕ → Option ℕ → ℕ
version_of active_version none = active_version
version_of active_version (some version) = version

module _ {Sparse : Type 0} where
  abbrev pub at_version : String → ℕ → DocumentChunk Sparse → Bool
  at_version namespace version row = row.namespace_id == namespace && row.index_version == version

  abbrev pub of_document : String → ℕ → DocumentChunk Sparse → Bool
  of_document namespace document_id row =
      row.document_id == document_id && row.namespace_id == namespace

  -- The flush: `none` where a primary key stands twice
  unfoldable pub insert_all :
      List (DocumentChunk Sparse)
      → List (DocumentChunk Sparse)
      → Option (List (DocumentChunk Sparse))
  insert_all rows [] = some rows
  insert_all rows (row ∷ more) =
      let rest = insert_all (rows ++ row ∷ []) more in
      if any (λ x. x.id == row.id) rows then none else rest

module _ (parse_uuid : String → Option String) (draw : ℕ → String) where
  -- The id that a caller gives, or the next that `uuid4` draws
  abbrev pub or_drawn : Option String → ℕ → String
  or_drawn none n = draw n
  or_drawn (some id) n = id

  abbrev pub parsed : String → Option String
  parsed t = if t == "" then none else parse_uuid t

  abbrev pub parsed_parent : Option String → Option String
  parsed_parent none = none
  parsed_parent (some p) = parsed p

  module _ {Dense Sparse : Type 0} where
    abbrev pub new_row : String → ℕ → ℕ → ℕ → ChunkEmbedding Dense Sparse → DocumentChunk Sparse
    new_row namespace document_id version place chunk = record {
      id = or_drawn (parsed chunk.chunk_id) place;
      document_id = document_id;
      namespace_id = namespace;
      content = chunk.text;
      sparse_vector = chunk.sparse;
      chunk_metadata = chunk.metadata;
      position = position_of (Dict.get chunk.metadata "position") place;
      index_version = version;
      parent_id = parsed_parent chunk.parent_id;
    }

    -- The rows of the loop over `enumerate(chunks)`
    unfoldable pub new_rows :
        String → ℕ → ℕ → ℕ → List (ChunkEmbedding Dense Sparse) → List (DocumentChunk Sparse)
    new_rows namespace document_id version place [] = []
    new_rows namespace document_id version place (chunk ∷ chunks) =
        new_row namespace document_id version place chunk
        ∷ new_rows namespace document_id version (place + 1) chunks

    unfoldable pub store :
        ℕ
        → List (DocumentChunk Sparse)
        → String
        → List (ChunkEmbedding Dense Sparse)
        → ℕ
        → Option ℕ
        → Option (List (DocumentChunk Sparse))
    store active_version rows namespace chunks document_id index_version =
        insert_all rows
          (new_rows namespace document_id (version_of active_version index_version) 0 chunks)

module _ {Sparse : Type 0} where
  unfoldable pub delete : List (DocumentChunk Sparse) → String → ℕ → List (DocumentChunk Sparse) × ℕ
  delete rows namespace document_id = (
    select (λ row. not (of_document namespace document_id row)) rows,
    length (select (of_document namespace document_id) rows),
  )

  unfoldable pub delete_index_version :
      ℕ → List (DocumentChunk Sparse) → String → ℕ → List (DocumentChunk Sparse) × Deletion
  delete_index_version active_version rows namespace index_version =
      if index_version == active_version then (rows, active) else (
        select (λ row. not (at_version namespace index_version row)) rows,
        removed (length (select (at_version namespace index_version) rows)),
      )

  -- `ORDER BY position`; rows of one position stay in their order.
  unfoldable pub insert_row :
      DocumentChunk Sparse → List (DocumentChunk Sparse) → List (DocumentChunk Sparse)
  insert_row row [] = row ∷ []
  insert_row row (x ∷ xs) =
      let rest = insert_row row xs in if leb row.position x.position then row ∷ x ∷ xs else x ∷ rest

  unfoldable pub by_position : List (DocumentChunk Sparse) → List (DocumentChunk Sparse)
  by_position [] = []
  by_position (row ∷ rows) = insert_row row (by_position rows)

  abbrev pub stored_chunk : DocumentChunk Sparse → StoredChunk Sparse
  stored_chunk row = record {
    chunk_id = row.id;
    text = row.content;
    metadata = row.chunk_metadata;
    position = row.position;
    parent_id = row.parent_id;
    sparse = row.sparse_vector;
  }

  unfoldable pub list_chunks :
      ℕ → List (DocumentChunk Sparse) → String → ℕ → List (StoredChunk Sparse)
  list_chunks active_version rows namespace document_id = map stored_chunk (
      by_position (
        select (λ row. of_document namespace document_id row && row.index_version == active_version)
          rows))
