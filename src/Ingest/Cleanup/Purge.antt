-- ===== src/Ingest/Cleanup/Purge.antt =====
-- No row is dropped while its chunks are in the vector store.
mod Tests
use vektra_stack.Prelude.{
  ℕ, ◌≡◌, refl, sym, subst, ap, ◌∙◌, ◌⊎◌, inl, inr, Bool, true, false, not, Option, none, some,
  List, [], ◌∷◌, String, arith,
}
use vektra_stack.Prelude.Tests.{false-true, if◌then◌else◌, Bool-cases}
use vektra_stack.Prelude.Lists.{select}
use vektra_stack.Prelude.Eq.{nat_eq, ◌==◌, contains, beq_self}
use vektra_stack.Shared.Registry
use vektra_stack.Shared.Registry.{Lookup, ProviderRegistry, found, value_error}
use vektra_stack.Ingest.Cleanup.{
  VectorStore, SourceDocument, Worker, Answer, returned, raised, is_expired, purge_chunks,
  delete_rows, purge, with_store, with_registry, with_factory, cleanup_soft_deleted_task,
}

raised_returned : {A : Type 0} {a : A} → raised ≡ returned a → ⊥
raised_returned e = ground arith

returned-injective : {A : Type 0} {a b : A} → returned a ≡ returned b → a ≡ b
returned-injective {A} {a} e = ap (λ x. elim x [ returned y ↦ y | raised ↦ a ]) e

abbrev pub Member : SourceDocument → List SourceDocument → Type 0
Member d [] = ⊥
Member d (x ∷ xs) = (d ≡ x) ⊎ Member d xs

Member-select :
    (p : SourceDocument → Bool) (d : SourceDocument) (ds : List SourceDocument)
    → Member d (select p ds)
    → Member d ds × (p d ≡ true)
Member-select p d [] m = elim m [ ]
Member-select p d (x ∷ xs) m =
    let rest = Member-select p d xs in
    elim (Bool-cases (p x)) [
      | inr out ↦ let r = rest (rw (out, Member) at m) in (inr r.0, r.1)
      | inl kept ↦
          let first_or_rest : (d ≡ x) ⊎ Member d (select p xs) = rw (kept, Member) at m in
          elim first_or_rest [
            | inl e ↦ (inl e, ap p e ∙ kept)
            | inr later ↦ let r = rest later in (inr r.0, r.1)
          ]
    ]

select-Member :
    (p : SourceDocument → Bool) (d : SourceDocument) (ds : List SourceDocument)
    → Member d ds
    → p d ≡ true
    → Member d (select p ds)
select-Member p d [] m h = elim m [ ]
select-Member p d (x ∷ xs) (inl e) h =
    let kept : p x ≡ true = ap p (sym e) ∙ h in rw (kept, Member) (inl e)
select-Member p d (x ∷ xs) (inr m) h =
    let rest = select-Member p d xs m h in
    elim (Bool-cases (p x)) [
      | inl kept ↦ rw (kept, Member) (inr rest)
      | inr out ↦ rw (out, Member) rest
    ]

module _ (V : VectorStore) where
  stays_gone :
      (s : V.Store) (ds : List SourceDocument) (n : String) (e : ℕ)
      → V.holds s n e ≡ false
      → V.holds (purge_chunks V s ds).0 n e ≡ false
  unfolding purge_chunks
  stays_gone s [] n e h = h
  stays_gone s (d ∷ ds) n e h =
      let r = V.delete s d.namespace_id d.id in
      let rest = stays_gone r.0 ds n e (V.delete-keeps s d.namespace_id d.id n e h) in
      elim (Bool-cases r.1) [ inl good ↦ rw good rest | inr bad ↦ rw bad rest ]

  -- An id that the loop collects is of a document of the list whose chunks are gone.
  purged_gone :
      (s : V.Store) (ds : List SourceDocument) (i : ℕ)
      → contains (purge_chunks V s ds).1 i ≡ true
      → (d : SourceDocument) × Member d ds
        × (d.id ≡ i)
        × (V.holds (purge_chunks V s ds).0 d.namespace_id d.id ≡ false)
  unfolding purge_chunks contains
  purged_gone s [] i h = elim (false-true h) [ ]
  purged_gone s (d ∷ ds) i h =
      let r = V.delete s d.namespace_id d.id in
      elim (Bool-cases r.1) [
        | inr bad ↦ let (x, m, e, g) = purged_gone r.0 ds i (rw bad at h) in (x, inr m, e, rw bad g)
        | inl good ↦ elim (Bool-cases (i == d.id)) [
          | inl here ↦ (
            d,
            inl refl,
            sym ((nat_eq.beq_iff i d.id).0 here),
            rw good
                (stays_gone r.0 ds d.namespace_id d.id (V.delete-gone s d.namespace_id d.id good)),
          )
          | inr there ↦
              let (x, m, e, g) = purged_gone r.0 ds i (rw (good, there) at h) in
              (x, inr m, e, rw good g)
        ]
      ]

  -- What becomes of a document: its row is kept, or it was deleted longer ago than the retention and its
  -- chunks are not in the registered vector store.
  abbrev pub KeptOrGone : ℕ → ℕ → Worker V → SourceDocument → Type 0
  KeptOrGone retention_days now w d =
      Member d w.documents
      ⊎ (is_expired retention_days now d ≡ true)
        × ((registry : ProviderRegistry V.Store) × (store : V.Store) × (w.registry ≡ some registry)
            × (Registry.get registry "vector_store" "default" ≡ found store)
            × (V.holds store d.namespace_id d.id ≡ false))

  -- Ids are primary keys.
  abbrev pub UniqueIds : List SourceDocument → Type 0
  UniqueIds ds = (a b : SourceDocument) → Member a ds → Member b ds → a.id ≡ b.id → a ≡ b

  purge-KeptOrGone :
      (w : Worker V) (registry : ProviderRegistry V.Store) (store : V.Store)
      (retention_days now : ℕ)
      → UniqueIds w.documents
      → (d : SourceDocument) → Member d w.documents
      → KeptOrGone retention_days now (purge V w registry store retention_days now) d
  unfolding purge
  purge-KeptOrGone w registry store retention_days now unique d m =
      let expired = select (is_expired retention_days now) w.documents in
      let p = purge_chunks V store expired in
      elim (Bool-cases w.first_session) [
        | inr failed ↦ rw failed (inl m)
        | inl through ↦ rw through (elim (Bool-cases w.second_session) [
          | inr failed ↦ rw failed (inl m)
          | inl done ↦ rw done (elim (Bool-cases (contains p.1 d.id)) [
            | inr kept ↦
                inl (select-Member (λ x. not (contains p.1 x.id)) d w.documents m (ap not kept))
            | inl purged ↦
                let (x, mx, e, g) = purged_gone store expired d.id purged in
                let q = Member-select (is_expired retention_days now) x w.documents mx in
                let same : x ≡ d = unique x d q.0 m e in
                inr (
                  ap (is_expired retention_days now) (sym same) ∙ q.1,
                  (
                    Registry.register registry "vector_store" "default" p.0,
                    p.0,
                    refl,
                    Registry.get-register registry "vector_store" "default" "vector_store" "default"
                        p.0,
                    ap (λ y. V.holds p.0 y.namespace_id y.id) (sym same) ∙ g,
                  ),
                )
          ])
        ])
      ]

  with_store-KeptOrGone :
      (w w' : Worker V) (registry : ProviderRegistry V.Store) (l : Lookup V.Store)
      (retention_days now : ℕ)
      → UniqueIds w.documents
      → with_store V w registry l retention_days now ≡ returned w'
      → (d : SourceDocument) → Member d w.documents
      → KeptOrGone retention_days now w' d
  unfolding with_store
  with_store-KeptOrGone w w' registry (value_error names) retention_days now unique e d m =
      elim (raised_returned e) [ ]
  with_store-KeptOrGone w w' registry (found store) retention_days now unique e d m =
      subst (λ x. KeptOrGone retention_days now x d) (returned-injective e)
        (purge-KeptOrGone w registry store retention_days now unique d m)

  with_registry-KeptOrGone :
      (w w' : Worker V) (o : Option (ProviderRegistry V.Store)) (retention_days now : ℕ)
      → UniqueIds w.documents
      → with_registry V w o retention_days now ≡ returned w'
      → (d : SourceDocument) → Member d w.documents
      → KeptOrGone retention_days now w' d
  unfolding with_registry
  with_registry-KeptOrGone w w' none retention_days now unique e d m =
      subst (λ x. KeptOrGone retention_days now x d) (returned-injective e) (inl m)
  with_registry-KeptOrGone w w' (some registry) retention_days now unique e d m =
      with_store-KeptOrGone w w' registry _ retention_days now unique e d m

  with_factory-KeptOrGone :
      (w w' : Worker V) (b : Bool) (retention_days now : ℕ)
      → UniqueIds w.documents
      → with_factory V w b retention_days now ≡ returned w'
      → (d : SourceDocument) → Member d w.documents
      → KeptOrGone retention_days now w' d
  unfolding with_factory
  with_factory-KeptOrGone w w' false retention_days now unique e d m =
      subst (λ x. KeptOrGone retention_days now x d) (returned-injective e) (inl m)
  with_factory-KeptOrGone w w' true retention_days now unique e d m =
      with_registry-KeptOrGone w w' w.registry retention_days now unique e d m

  -- When ids are unique, every document of a run of the cleanup that returns has kept its row, or it was
  -- deleted longer ago than the retention and the registered vector store holds none of its chunks,
  -- whichever deletions and sessions fail.
  pub cleanup_drops_gone :
      (w w' : Worker V) (retention_days now : ℕ)
      → UniqueIds w.documents
      → cleanup_soft_deleted_task V w (some retention_days) now ≡ returned w'
      → (d : SourceDocument) → Member d w.documents
      → KeptOrGone retention_days now w' d
  unfolding cleanup_soft_deleted_task
  cleanup_drops_gone w w' retention_days now unique e d m =
      with_factory-KeptOrGone w w' w.has_session_factory retention_days now unique e d m
