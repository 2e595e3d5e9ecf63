-- ===== src/Index/Pgvector/Removal.antt =====
-- vektra_index: the deletion of an index version, from the route to the rows.
use vektra_stack.Prelude.{
  ℕ, ◌≡◌, refl, ap, inl, inr, Bool, true, false, not, ◌&&◌, Option, some, List, [], ◌∷◌, String,
  map, arith,
}
use vektra_stack.Prelude.Tests.{if◌then◌else◌, Bool-cases, if-cases, ltb}
use vektra_stack.Prelude.Lists.{length, select}
use vektra_stack.Prelude.Eq.{nat_eq, string_eq, ◌==◌}
use vektra_stack.Index.Reindex.Routes
use vektra_stack.Index.Reindex.Routes.{
  Response, answer, refused, Deletion, removed, active, deleted, effective_ns, or_else,
  scope_violated, invalid_index_version, namespace_scope_violation, active_index_version_refusal,
}
use vektra_stack.Index.Pgvector
use vektra_stack.Index.Pgvector.{
  DocumentChunk, at_version, of_document, list_chunks, by_position, stored_chunk,
}

-- A selection loses nothing by a wider one before it.
pub select-select :
    {A : Type 0} (p q : A → Bool) (xs : List A)
    → ((x : A) → p x ≡ true → q x ≡ true)
    → select p (select q xs) ≡ select p xs
select-select p q [] h = refl
select-select p q (x ∷ xs) h = ground (arith, select-select p q xs h, h x)

select_all :
    {A : Type 0} (p q : A → Bool) (xs : List A)
    → ((x : A) → q x ≡ true → p x ≡ true)
    → select p (select q xs) ≡ select q xs
select_all p q [] h = refl
select_all p q (x ∷ xs) h = ground (arith, select_all p q xs h, h x)

select_nothing :
    {A : Type 0} (p q : A → Bool) (xs : List A)
    → ((x : A) → q x ≡ true → p x ≡ false)
    → select p (select q xs) ≡ []
select_nothing p q [] h = refl
select_nothing p q (x ∷ xs) h = ground (arith, select_nothing p q xs h, h x)

-- What is listed for every document at the active version, and every row of a namespace that the key is not
-- bound to, is as before.
pub record Kept {Sparse : Type 0} (active_version : ℕ) (key : Option String)
    (rows rows' : List (DocumentChunk Sparse)) : Type 0 where
  pub listed :
      (namespace : String) (document_id : ℕ)
      → list_chunks active_version rows' namespace document_id
        ≡ list_chunks active_version rows namespace document_id
  pub foreign :
      (bound other : String)
      → key ≡ some bound
      → (bound == "") ≡ false
      → (other == bound) ≡ false
      → select (λ row. row.namespace_id == other) rows'
        ≡ select (λ row. row.namespace_id == other) rows

bound_ns :
    (key asked : Option String) (bound : String)
    → key ≡ some bound
    → (bound == "") ≡ false
    → effective_ns key asked ≡ bound
bound_ns key asked bound e full = rw (e, full) refl

module _ {Sparse : Type 0} (active_version : ℕ) (key asked : Option String)
    (index_version : ℕ) where
  abbrev pub route :
      List (DocumentChunk Sparse) → List (DocumentChunk Sparse) × Response (String × ℕ)
  route =
      Routes.delete_index_version (Pgvector.delete_index_version active_version) key asked
        index_version

  same-Kept : (rows : List (DocumentChunk Sparse)) → Kept active_version key rows rows
  same-Kept rows = record { listed = λ n d. refl; foreign = λ b o e f g. refl }

  abbrev left : String → List (DocumentChunk Sparse) → List (DocumentChunk Sparse)
  left namespace rows = select (λ row. not (at_version namespace index_version row)) rows

  left-Kept :
      (rows : List (DocumentChunk Sparse))
      → (index_version == active_version) ≡ false
      → Kept active_version key rows (left (effective_ns key asked) rows)
  unfolding list_chunks
  left-Kept rows other = record {
    listed = λ n d.
        ap (λ xs. map stored_chunk (by_position xs))
          (select-select (λ row. of_document n d row && row.index_version == active_version)
            (λ row. not (at_version (effective_ns key asked) index_version row)) rows
            (λ x e. ground (
              arith,
              e,
              other,
              nat_eq.beq_iff x.index_version index_version,
              nat_eq.beq_iff x.index_version active_version,
              nat_eq.beq_iff index_version active_version,
            )));
    foreign = λ b o e full diff.
        select-select (λ row. row.namespace_id == o)
          (λ row. not (at_version (effective_ns key asked) index_version row)) rows
          (λ x y.
            let bound = bound_ns key asked b e full in
            ground (
              arith,
              y,
              diff,
              bound,
              string_eq.beq_iff x.namespace_id o,
              string_eq.beq_iff o b,
              string_eq.beq_iff x.namespace_id (effective_ns key asked),
            ));
  }

  deleted-Kept :
      (rows : List (DocumentChunk Sparse))
      → Kept active_version key rows
          (deleted (Pgvector.delete_index_version active_version) (effective_ns key asked) (
            Pgvector.delete_index_version active_version rows
              (effective_ns key asked)
              index_version)).0
  unfolding Pgvector.delete_index_version
  deleted-Kept rows =
      if-cases
        (λ p.
          Kept active_version key rows
            (deleted (Pgvector.delete_index_version active_version) (effective_ns key asked) p).0)
        (index_version == active_version) (rows, active)
        (
          left (effective_ns key asked) rows,
          removed (length (select (at_version (effective_ns key asked) index_version) rows)),
        )
        (λ e. same-Kept rows) (λ e. left-Kept rows e)

-- `DELETE /index-versions/{version}` over the pgvector store, on every branch: what `list_chunks` gives for any
-- document at the version that the store reads stays the same, and under a key that is bound to a namespace the
-- rows of every other namespace stay.
pub delete_index_version-Kept :
    {Sparse : Type 0} (active_version : ℕ) (key asked : Option String) (index_version : ℕ)
    (rows : List (DocumentChunk Sparse))
    → Kept active_version key rows (route active_version key asked index_version rows).0
unfolding Routes.delete_index_version
delete_index_version-Kept active_version key asked index_version rows =
    let gone = Pgvector.delete_index_version active_version in
    let ns = effective_ns key asked in
    if-cases (λ p. Kept active_version key rows p.0) (ltb index_version 1)
      (rows, refused invalid_index_version)
      (if scope_violated key asked
        then (rows, refused namespace_scope_violation)
        else deleted gone ns (gone rows ns index_version))
      (λ e. same-Kept active_version key asked index_version rows)
      (λ e.
        if-cases (λ p. Kept active_version key rows p.0) (scope_violated key asked)
          (rows, refused namespace_scope_violation) (deleted gone ns (gone rows ns index_version))
          (λ e'. same-Kept active_version key asked index_version rows)
          (λ e'. deleted-Kept active_version key asked index_version rows))

-- A second call of the pgvector store's `delete_index_version` with the same arguments removes nothing: it
-- leaves the rows, and it refuses if the first did and counts 0 otherwise.
pub delete_index_version_again :
    {Sparse : Type 0} (active_version : ℕ) (rows : List (DocumentChunk Sparse)) (namespace : String)
    (index_version : ℕ)
    → Pgvector.delete_index_version active_version
        (Pgvector.delete_index_version active_version rows namespace index_version).0
        namespace
        index_version
      ≡ (
        (Pgvector.delete_index_version active_version rows namespace index_version).0,
        if index_version == active_version then active else removed 0,
      )
unfolding Pgvector.delete_index_version
delete_index_version_again active_version rows namespace index_version =
    let out = at_version namespace index_version in
    elim (Bool-cases (index_version == active_version)) [
      | inl y ↦ rw y refl
      | inr n ↦
          rw
            (
              n,
              select_all (λ row. not (out row)) (λ row. not (out row)) rows (λ x e. e),
              select_nothing out (λ row. not (out row)) rows (λ x e. ground (arith, e)),
            )
            refl
    ]
