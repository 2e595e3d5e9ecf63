-- ===== src/Ingest/Pipeline/Parents.antt =====
-- vektra_ingest/pipeline.py: the stored links from child chunks to parent chunks.
use vektra_stack.Prelude.{
  ℕ, zero, suc, ◌+◌, ◌≡◌, refl, sym, ap, subst, ◌∙◌, ◌⊎◌, inl, inr, Bool, true, false, Option, none,
  some, List, [], ◌∷◌, String, arith,
}
use vektra_stack.Prelude.Tests.{none-some, some_injective, Bool-cases}
use vektra_stack.Prelude.Lists.{length, get_elem?}
use vektra_stack.Prelude.Eq.{string_eq, ◌==◌, beq_self}
use vektra_stack.Prelude.Dict
use vektra_stack.Prelude.Dict.{Dict, get-put}
use vektra_stack.Shared.Types.{DocumentChunk, Metadata}
use vektra_stack.Ingest.Pipeline.Embeddings.{
  ChunkEmbedding, is_level, link_of, add_parent, parent_stored_ids, embed_chunk, chunk_embeddings,
}

-- The chunk at place `k` of a list is a parent with a link.
pub record IsParent {Box : Type 0} (cs : List (DocumentChunk Box)) (link : String) (k : ℕ)
    : Type 0 where
  pub chunk : DocumentChunk Box
  pub there : get_elem? cs k ≡ some chunk
  pub level : is_level "parent" chunk ≡ true
  pub linked : link_of chunk.parent_id ≡ some link

pub IsParent-cons :
    {Box : Type 0} (c : DocumentChunk Box) (cs : List (DocumentChunk Box)) (link : String) (k : ℕ)
    → IsParent cs link k
    → IsParent (c ∷ cs) link (suc k)
IsParent-cons c cs link k p = record {
  chunk = p.chunk;
  there = p.there;
  level = p.level;
  linked = p.linked;
}

module _ (stored_id : ℕ → String) where
  added :
      (ids : Dict String String) (i : ℕ) (o : Option String) (b : Bool) (link s : String)
      → Dict.get (add_parent stored_id o b i ids) link ≡ some s
      → (Dict.get ids link ≡ some s) ⊎ ((o ≡ some link) × (b ≡ true) × (s ≡ stored_id i))
  added ids i none b link s e = inl e
  added ids i (some p) false link s e = inl e
  added ids i (some p) true link s e = elim (Bool-cases (p == link)) [
    | inl y ↦ inr (
      ap some ((string_eq.beq_iff p link).0 y),
      refl,
      sym (some_injective (rw (get-put, y) at e)),
    )
    | inr n ↦ inl (rw (get-put, n) at e)
  ]

  still :
      (ids : Dict String String) (i : ℕ) (o : Option String) (b : Bool) (link s : String)
      → Dict.get ids link ≡ some s
      → (s' : String) × (Dict.get (add_parent stored_id o b i ids) link ≡ some s')
  still ids i none b link s e = (s, e)
  still ids i (some p) false link s e = (s, e)
  still ids i (some p) true link s e = elim (Bool-cases (p == link)) [
    | inl y ↦ (stored_id i, rw (get-put, y) refl)
    | inr n ↦ (s, rw (get-put, n) e)
  ]

module _ {Box : Type 0} (stored_id : ℕ → String) where
  shifted :
      (i : ℕ) (c : DocumentChunk Box) (cs : List (DocumentChunk Box)) (link s : String)
      → (k : ℕ) × IsParent cs link k × (s ≡ stored_id (suc i + k))
      → (k : ℕ) × IsParent (c ∷ cs) link k × (s ≡ stored_id (i + k))
  shifted i c cs link s (k, p, e) =
      (suc k, IsParent-cons c cs link k p, e ∙ ap stored_id (omega arith))

  -- Every entry stands for a parent chunk of the list.
  pub parent_stored_ids_sound :
      (ids : Dict String String) (i : ℕ) (cs : List (DocumentChunk Box)) (link s : String)
      → Dict.get (parent_stored_ids stored_id ids i cs) link ≡ some s
      → (Dict.get ids link ≡ some s) ⊎ ((k : ℕ) × IsParent cs link k × (s ≡ stored_id (i + k)))
  unfolding parent_stored_ids
  parent_stored_ids_sound ids i [] link s e = inl e
  parent_stored_ids_sound ids i (c ∷ cs) link s e =
      elim (parent_stored_ids_sound
        (add_parent stored_id (link_of c.parent_id) (is_level "parent" c) i ids) (suc i) cs link s
        e) [
          | inr later ↦ inr (shifted i c cs link s later)
          | inl now ↦
              elim (added stored_id ids i (link_of c.parent_id) (is_level "parent" c) link s now) [
                | inl before ↦ inl before
                | inr (l, y, e') ↦ inr (
                  0,
                  record { chunk = c; there = refl; level = y; linked = l },
                  e' ∙ ap stored_id (omega arith),
                )
              ]
        ]

  -- An entry is not taken away.
  parent_stored_ids_kept :
      (ids : Dict String String) (i : ℕ) (cs : List (DocumentChunk Box)) (link s : String)
      → Dict.get ids link ≡ some s
      → (s' : String) × (Dict.get (parent_stored_ids stored_id ids i cs) link ≡ some s')
  unfolding parent_stored_ids
  parent_stored_ids_kept ids i [] link s e = (s, e)
  parent_stored_ids_kept ids i (c ∷ cs) link s e =
      let (s', e') = still stored_id ids i (link_of c.parent_id) (is_level "parent" c) link s e in
      parent_stored_ids_kept
        (add_parent stored_id (link_of c.parent_id) (is_level "parent" c) i ids) (suc i) cs link s'
        e'

  pub parent_stored_ids_total :
      (ids : Dict String String) (i : ℕ) (cs : List (DocumentChunk Box)) (link : String) (k : ℕ)
      → IsParent cs link k
      → (s : String) × (Dict.get (parent_stored_ids stored_id ids i cs) link ≡ some s)
  unfolding parent_stored_ids
  parent_stored_ids_total ids i [] link k p = elim (none-some p.there) [ ]
  parent_stored_ids_total ids i (c ∷ cs) link zero p =
      let same : c ≡ p.chunk = some_injective p.there in
      let put : Dict.get (add_parent stored_id (link_of c.parent_id) (is_level "parent" c) i ids)
            link
          ≡ some (stored_id i) =
        subst
          (λ x.
            Dict.get (add_parent stored_id (link_of x.parent_id) (is_level "parent" x) i ids) link
            ≡ some (stored_id i))
          (sym same) (rw (p.linked, p.level, get-put, beq_self link) refl) in
      parent_stored_ids_kept
        (add_parent stored_id (link_of c.parent_id) (is_level "parent" c) i ids) (suc i) cs link
        (stored_id i) put
  parent_stored_ids_total ids i (c ∷ cs) link (suc k) p =
      parent_stored_ids_total
        (add_parent stored_id (link_of c.parent_id) (is_level "parent" c) i ids) (suc i) cs link k
        (record { chunk = p.chunk; there = p.there; level = p.level; linked = p.linked })

  module _ {Dense Sparse : Type 0} (document_id content_type : String) (extra : Metadata) where
    abbrev pub embedded :
        Dict String String
        → ℕ
        → DocumentChunk Box
        → Dense
        → Option Sparse
        → ChunkEmbedding Dense Sparse
    embedded ids = embed_chunk stored_id document_id content_type extra ids

    pub embedded_at :
        (ids : Dict String String) (i : ℕ) (cs : List (DocumentChunk Box)) (ds : List Dense)
        (ss : List (Option Sparse)) (k : ℕ) (c : DocumentChunk Box)
        → length ds ≡ length cs
        → length ss ≡ length cs
        → get_elem? cs k ≡ some c
        → (d : Dense) × (s : Option Sparse) × (get_elem?
              (chunk_embeddings stored_id document_id content_type extra ids i cs ds ss)
              k
            ≡ some (embedded ids (i + k) c d s))
    unfolding chunk_embeddings
    embedded_at ids i [] ds ss k c ld ls e = elim (none-some e) [ ]
    embedded_at ids i (x ∷ cs) [] ss k c ld ls e = absurd (omega arith)
    embedded_at ids i (x ∷ cs) (d ∷ ds) [] k c ld ls e = absurd (omega arith)
    embedded_at ids i (x ∷ cs) (d ∷ ds) (s ∷ ss) zero c ld ls e = (
      d,
      s,
      let n : i ≡ i + 0 = omega arith in
          ap some
            (ap (λ y. embedded ids i y d s) (some_injective e) ∙ ap (λ j. embedded ids j c d s) n),
    )
    embedded_at ids i (x ∷ cs) (d ∷ ds) (s ∷ ss) (suc k) c ld ls e =
        let (d', s', there) = embedded_at ids (suc i) cs ds ss k c (omega arith) (omega arith) e in
        let n : suc i + k ≡ i + suc k = omega arith in
        (d', s', there ∙ ap (λ j. some (embedded ids j c d' s')) n)

    pub embedded_from :
        (ids : Dict String String) (i : ℕ) (cs : List (DocumentChunk Box)) (ds : List Dense)
        (ss : List (Option Sparse)) (k : ℕ) (x : ChunkEmbedding Dense Sparse)
        → get_elem? (chunk_embeddings stored_id document_id content_type extra ids i cs ds ss) k
          ≡ some x
        → (c : DocumentChunk Box) × (d : Dense) × (s : Option Sparse) × (get_elem? cs k ≡ some c)
          × (x ≡ embedded ids (i + k) c d s)
    unfolding chunk_embeddings
    embedded_from ids i [] ds ss k x e = elim (none-some e) [ ]
    embedded_from ids i (c ∷ cs) [] ss k x e = elim (none-some e) [ ]
    embedded_from ids i (c ∷ cs) (d ∷ ds) [] k x e = elim (none-some e) [ ]
    embedded_from ids i (c ∷ cs) (d ∷ ds) (s ∷ ss) zero x e =
        let n : i ≡ i + 0 = omega arith in
        (c, d, s, refl, sym (some_injective e) ∙ ap (λ j. embedded ids j c d s) n)
    embedded_from ids i (c ∷ cs) (d ∷ ds) (s ∷ ss) (suc k) x e =
        let (c', d', s', there, same) = embedded_from ids (suc i) cs ds ss k x e in
        let n : suc i + k ≡ i + suc k = omega arith in
        (c', d', s', there, same ∙ ap (λ j. embedded ids j c' d' s') n)
