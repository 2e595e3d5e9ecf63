-- ===== src/Index/Pgvector/Listing.antt =====
-- vektra_index/providers/pgvector.py: what is stored is listed.
use vektra_stack.Prelude.{
  ℕ, ◌+◌, ◌≡◌, refl, sym, ap, ◌∙◌, inl, inr, Bool, true, ◌&&◌, Option, none, some, List, [], ◌∷◌,
  ◌++◌, append_assoc, append-nil, String, map, arith,
}
use vektra_stack.Prelude.Tests.{leb, none-some, some_injective, Bool-cases}
use vektra_stack.Prelude.Lists.{select, select-append, any}
use vektra_stack.Prelude.Eq.{nat_eq, string_eq, ◌==◌, beq_self}
use vektra_stack.Prelude.Dict
use vektra_stack.Ingest.Pipeline.Embeddings.{ChunkEmbedding}
use vektra_stack.Index.Reindex.{StoredChunk}
use vektra_stack.Index.Pgvector.{
  DocumentChunk, of_document, list_chunks, by_position, insert_row, stored_chunk, store, insert_all,
  new_rows, new_row, parsed, parsed_parent, position_of,
}

inserted_some :
    {Sparse : Type 0} (row : DocumentChunk Sparse) (xs : List (DocumentChunk Sparse))
    → map stored_chunk (insert_row row xs) ≡ []
    → ⊥
unfolding insert_row
inserted_some row [] e = ground (arith, e)
inserted_some row (x ∷ xs) e = ground (arith, e)

nothing_listed :
    {Sparse : Type 0} (xs : List (DocumentChunk Sparse))
    → map stored_chunk (by_position xs) ≡ []
    → xs ≡ []
unfolding by_position
nothing_listed [] e = refl
nothing_listed (x ∷ xs) e = elim (inserted_some x (by_position xs) e) [ ]

-- A chunk as a caller of `list_chunks` sees it, at a place
abbrev pub as_stored :
    {Dense Sparse : Type 0} → ℕ → List (ChunkEmbedding Dense Sparse) → List (StoredChunk Sparse)
as_stored i [] = []
as_stored i (c ∷ cs) =
    record {
      chunk_id = c.chunk_id;
      text = c.text;
      metadata = c.metadata;
      position = i;
      parent_id = c.parent_id;
      sparse = c.sparse;
    }
    ∷ as_stored (i + 1) cs

inserted_all :
    {Sparse : Type 0} (rows more rows' : List (DocumentChunk Sparse))
    → insert_all rows more ≡ some rows'
    → rows' ≡ rows ++ more
unfolding insert_all
inserted_all rows [] rows' e = sym (some_injective e) ∙ sym (append-nil rows)
inserted_all rows (row ∷ more) rows' e = elim (Bool-cases (any (λ x. x.id == row.id) rows)) [
  | inl y ↦ elim (none-some (rw y at e)) [ ]
  | inr n ↦
      inserted_all (rows ++ row ∷ []) more rows' (rw n at e) ∙ append_assoc rows (row ∷ []) more
]

inserted_first :
    {Sparse : Type 0} (row x : DocumentChunk Sparse) (xs : List (DocumentChunk Sparse))
    → leb row.position x.position ≡ true
    → insert_row row (x ∷ xs) ≡ row ∷ x ∷ xs
unfolding insert_row
inserted_first row x xs e = rw e refl

module _ (parse_uuid : String → Option String) (draw : ℕ → String) {Dense Sparse : Type 0} where
  -- The ids of the chunks are ids for the database, and the metadata tells the place of each.
  abbrev pub Placed : ℕ → List (ChunkEmbedding Dense Sparse) → Type 0
  Placed i [] = Unit {0}
  Placed i (c ∷ cs) =
      (parsed parse_uuid draw c.chunk_id ≡ some c.chunk_id)
      × (parsed_parent parse_uuid draw c.parent_id ≡ c.parent_id)
      × (position_of (Dict.get c.metadata "position") i ≡ i)
      × Placed (i + 1) cs

  module _ (namespace : String) (document_id version : ℕ) where
    abbrev rows_from : ℕ → List (ChunkEmbedding Dense Sparse) → List (DocumentChunk Sparse)
    rows_from = new_rows parse_uuid draw namespace document_id version

    rows_selected :
        (i : ℕ) (cs : List (ChunkEmbedding Dense Sparse))
        → select
            (λ row. of_document namespace document_id row && row.index_version == version)
            (rows_from i cs)
          ≡ rows_from i cs
    unfolding new_rows
    rows_selected i [] = refl
    rows_selected i (c ∷ cs) = ground (
      arith,
      beq_self document_id,
      beq_self namespace,
      beq_self version,
      rows_selected (i + 1) cs,
    )

    rows_sorted :
        (i : ℕ) (cs : List (ChunkEmbedding Dense Sparse))
        → Placed i cs
        → by_position (rows_from i cs) ≡ rows_from i cs
    unfolding new_rows by_position insert_row
    rows_sorted i [] p = refl
    rows_sorted i (c ∷ []) p = refl
    rows_sorted i (c ∷ c' ∷ cs) (a, b, at, rest) =
        ap (insert_row (new_row parse_uuid draw namespace document_id version i c))
          (rows_sorted (i + 1) (c' ∷ cs) rest)
        ∙ inserted_first (new_row parse_uuid draw namespace document_id version i c)
            (new_row parse_uuid draw namespace document_id version (i + 1) c')
            (rows_from (i + 1 + 1) cs) (ground (arith, at, rest.2))

    rows_as_stored :
        (i : ℕ) (cs : List (ChunkEmbedding Dense Sparse))
        → Placed i cs
        → map stored_chunk (rows_from i cs) ≡ as_stored i cs
    unfolding new_rows
    rows_as_stored i [] p = refl
    rows_as_stored i (c ∷ cs) (a, b, at, rest) = rw (a, b, at, rows_as_stored (i + 1) cs rest) refl

-- The chunks that the pgvector store is given for a document that has none at the active version are the
-- chunks that `list_chunks` gives afterwards, in their order, each with its id, text, metadata, place, parent
-- and sparse vector. The ids are ids for the database, and the metadata of a chunk tells its place.
pub list_chunks-store :
    (parse_uuid : String → Option String) (draw : ℕ → String) {Dense Sparse : Type 0}
    (active_version : ℕ) (rows rows' : List (DocumentChunk Sparse)) (namespace : String)
    (document_id : ℕ) (chunks : List (ChunkEmbedding Dense Sparse))
    → Placed parse_uuid draw 0 chunks
    → list_chunks active_version rows namespace document_id ≡ []
    → store parse_uuid draw active_version rows namespace chunks document_id none ≡ some rows'
    → list_chunks active_version rows' namespace document_id ≡ as_stored 0 chunks
unfolding store list_chunks
list_chunks-store parse_uuid draw active_version rows rows' namespace document_id chunks placed
      fresh e =
    let mine : DocumentChunk _ → Bool =
      λ row. of_document namespace document_id row && row.index_version == active_version in
    let new = new_rows parse_uuid draw namespace document_id active_version 0 chunks in
    let before : select mine rows ≡ [] = nothing_listed (select mine rows) fresh in
    let after : select mine rows' ≡ new =
      ap (select mine) (inserted_all rows new rows' e)
      ∙ select-append mine rows new
      ∙ ap (λ xs. xs ++ select mine new) before
      ∙ rows_selected parse_uuid draw namespace document_id active_version 0 chunks in
    ap (λ xs. map stored_chunk (by_position xs)) after
    ∙ ap (map stored_chunk)
        (rows_sorted parse_uuid draw namespace document_id active_version 0 chunks placed)
    ∙ rows_as_stored parse_uuid draw namespace document_id active_version 0 chunks placed
