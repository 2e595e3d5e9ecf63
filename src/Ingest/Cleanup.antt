-- ===== src/Ingest/Cleanup.antt =====
-- vektra_ingest/jobs.py: `cleanup_soft_deleted_task`. The vector store is the interface that the task
-- uses: it may refuse a deletion, and then the chunks may be there still.
pub mod Purge
use vektra_stack.Prelude.{
  ℕ, ◌+◌, ◌*◌, ◌≡◌, Bool, true, false, not, Option, none, some, List, [], ◌∷◌, String,
}
use vektra_stack.Prelude.Tests.{ltb, if◌then◌else◌}
use vektra_stack.Prelude.Lists.{select}
use vektra_stack.Prelude.Eq.{nat_eq, contains}
use vektra_stack.Shared.Registry
use vektra_stack.Shared.Registry.{Lookup, ProviderRegistry, found, value_error}

-- `delete` of a document's chunks in a namespace: the new state, and whether it returned. What it does
-- when it returns is that the chunks are gone; it never brings chunks back.
pub record VectorStore : Type 1 where
  pub Store : Type 0
  pub delete : Store → String → ℕ → Store × Bool
  pub holds : Store → String → ℕ → Bool
  pub delete-gone :
      (s : Store) (ns : String) (d : ℕ)
      → (delete s ns d).1 ≡ true
      → holds (delete s ns d).0 ns d ≡ false
  pub delete-keeps :
      (s : Store) (ns : String) (d : ℕ) (n : String) (e : ℕ)
      → holds s n e ≡ false
      → holds (delete s ns d).0 n e ≡ false

-- A row of `source_documents`, in the columns that are read
pub record SourceDocument : Type 0 where
  pub id : ℕ
  pub namespace_id : String
  pub deleted_at : Option ℕ

-- What a run may find: whether the session factory is there, the registry, and whether each of the two
-- sessions gets through.
pub record Worker (V : VectorStore) : Type 0 where
  pub documents : List SourceDocument
  pub registry : Option (ProviderRegistry V.Store)
  pub has_session_factory : Bool
  pub first_session : Bool
  pub second_session : Bool

pub data Answer (A : Type 0) : Type 0 where
  returned : A → Answer A
  raised : Answer A

-- Seconds in a day; times are in seconds.
abbrev day : ℕ
day = 86_400

-- `deleted_at IS NOT NULL AND deleted_at < cutoff`, with `cutoff = now - retention_days`
abbrev pub is_expired : ℕ → ℕ → SourceDocument → Bool
is_expired retention_days now d = elim d.deleted_at [
  | none ↦ false
  | some t ↦ ltb (t + retention_days * day) now
]

module _ (V : VectorStore) where
  -- The loop over the expired documents: the ids whose chunks were removed.
  unfoldable pub purge_chunks : V.Store → List SourceDocument → V.Store × List ℕ
  purge_chunks s [] = (s, [])
  purge_chunks s (d ∷ ds) =
      let r = V.delete s d.namespace_id d.id in
      let rest = purge_chunks r.0 ds in if r.1 then (rest.0, d.id ∷ rest.1) else rest

  -- The second session; with no id purged it deletes nothing, like the early return.
  abbrev pub delete_rows : Bool → List ℕ → List SourceDocument → List SourceDocument
  delete_rows second_session purged documents =
      if second_session then select (λ d. not (contains purged d.id)) documents else documents

  -- The work with the vector store found; a failure of the first session ends it.
  unfoldable pub purge : Worker V → ProviderRegistry V.Store → V.Store → ℕ → ℕ → Worker V
  purge w registry store retention_days now =
      let p = purge_chunks store (select (is_expired retention_days now) w.documents) in
      if w.first_session
      then record w {
        documents = delete_rows w.second_session p.1 w.documents;
        registry = some (Registry.register registry "vector_store" "default" p.0);
      }
      else w

  unfoldable pub with_store :
      Worker V → ProviderRegistry V.Store → Lookup V.Store → ℕ → ℕ → Answer (Worker V)
  with_store w registry (value_error names) retention_days now = raised
  with_store w registry (found store) retention_days now =
      returned (purge w registry store retention_days now)

  unfoldable pub with_registry :
      Worker V → Option (ProviderRegistry V.Store) → ℕ → ℕ → Answer (Worker V)
  with_registry w none retention_days now = returned w
  with_registry w (some registry) retention_days now =
      with_store w registry (Registry.get registry "vector_store" "default") retention_days now

  unfoldable pub with_factory : Worker V → Bool → ℕ → ℕ → Answer (Worker V)
  with_factory w false retention_days now = returned w
  with_factory w true retention_days now = with_registry w w.registry retention_days now

  unfoldable pub cleanup_soft_deleted_task : Worker V → Option ℕ → ℕ → Answer (Worker V)
  cleanup_soft_deleted_task w none now = returned w
  cleanup_soft_deleted_task w (some retention_days) now =
      with_factory w w.has_session_factory retention_days now
