-- ===== src/Ingest/Pipeline/Links.antt =====
-- vektra_ingest/pipeline.py: what `parent_id` of a stored chunk stands for.
use vektra_stack.Prelude.{
  ℕ, zero, suc, ◌+◌, ◌≡◌, refl, sym, ap, subst, ◌∙◌, ◌↔◌, ◌⊎◌, inl, inr, Bool, true, false, Option,
  none, some, List, [], ◌∷◌, String,
}
use vektra_stack.Prelude.Tests.{false-true, none-some, some_injective, Bool-cases}
use vektra_stack.Prelude.Lists.{length, get_elem?}
use vektra_stack.Prelude.Eq.{string_eq, ◌==◌}
use vektra_stack.Prelude.Dict
use vektra_stack.Shared.Types.{DocumentChunk, Metadata, Value}
use vektra_stack.Ingest.Chunking.{Tokenizer}
use vektra_stack.Ingest.Chunking.Dual
use vektra_stack.Ingest.Chunking.Dual.{DualStrategyChunking}
use vektra_stack.Ingest.Chunking.Dual.Hierarchy.{Linked, chunk_hierarchy}
use vektra_stack.Ingest.Pipeline.Embeddings.{
  ChunkEmbedding, is_level, link_of, stored_parent, parent_stored_ids, chunk_embeddings,
}
use vektra_stack.Ingest.Pipeline.Parents.{
  IsParent, IsParent-cons, parent_stored_ids_sound, parent_stored_ids_total, embedded, embedded_at,
  embedded_from,
}

module _ {Box Dense Sparse : Type 0} (stored_id : ℕ → String) (document_id content_type : String)
    (extra : Metadata) (cs : List (DocumentChunk Box)) (ds : List Dense) (ss : List (Option Sparse))
    (ld : length ds ≡ length cs) (ls : length ss ≡ length cs) where
  -- The chunks of a document as the vector store gets them.
  abbrev pub stored_all : List (ChunkEmbedding Dense Sparse)
  stored_all =
      chunk_embeddings stored_id document_id content_type extra
        (parent_stored_ids stored_id [] 0 cs) 0 cs ds ss

  -- A stored chunk at place `j` for a parent chunk with a link, under an id.
  pub record StoredParent (link id : String) : Type 0 where
    pub place : ℕ
    pub source : IsParent cs link place
    pub stored : ChunkEmbedding Dense Sparse
    pub there : get_elem? stored_all place ≡ some stored
    pub chunk_id : stored.chunk_id ≡ id

  parent_at :
      (link s : String)
      → Dict.get (parent_stored_ids stored_id [] 0 cs) link ≡ some s
      → StoredParent link s
  unfolding Dict.get
  parent_at link s e = elim (parent_stored_ids_sound stored_id [] 0 cs link s e) [
    | inl none_yet ↦ elim (none-some none_yet) [ ]
    | inr (k, p, id) ↦
        let (d, sp, there) =
          embedded_at stored_id document_id content_type extra (parent_stored_ids stored_id [] 0 cs)
            0 cs ds ss k p.chunk ld ls p.there in
        record {
          place = k;
          source = p;
          stored =
              embedded stored_id document_id content_type extra
                (parent_stored_ids stored_id [] 0 cs) (0 + k) p.chunk d sp;
          there = there;
          chunk_id = sym id;
        }
  ]

  stored_parent-get :
      (ids : Dict.Dict String String) (o : Option String) (b : Bool) (p : String)
      → stored_parent ids o b ≡ some p
      → (link : String) × (o ≡ some link) × (b ≡ true) × (Dict.get ids link ≡ some p)
  stored_parent-get ids none b p e = elim (none-some e) [ ]
  stored_parent-get ids (some l) true p e = (l, refl, refl, e)
  stored_parent-get ids (some l) false p e = elim (none-some e) [ ]

  -- The `parent_id` of every stored chunk is the id of a stored chunk. The one was made of a child chunk, the
  -- other of a parent chunk with the same id. The embedding providers return a vector for each chunk.
  pub stored_link-StoredParent :
      (k : ℕ) (x : ChunkEmbedding Dense Sparse) (p : String)
      → get_elem? stored_all k ≡ some x
      → x.parent_id ≡ some p
      → (c : DocumentChunk Box) × (link : String) × (get_elem? cs k ≡ some c)
        × (is_level "child" c ≡ true)
        × (link_of c.parent_id ≡ some link)
        × StoredParent link p
  stored_link-StoredParent k x p e has =
      let ids = parent_stored_ids stored_id [] 0 cs in
      let (c, d, s, at, same) =
        embedded_from stored_id document_id content_type extra ids 0 cs ds ss k x e in
      let (link, l, y, found) =
        stored_parent-get ids (link_of c.parent_id) (is_level "child" c) p
          (sym (ap (λ z. z.parent_id) same) ∙ has) in
      (c, link, at, y, l, parent_at link p found)

  pub child-StoredParent :
      (k j : ℕ) (c : DocumentChunk Box) (link : String)
      → get_elem? cs k ≡ some c
      → is_level "child" c ≡ true
      → link_of c.parent_id ≡ some link
      → IsParent cs link j
      → (x : ChunkEmbedding Dense Sparse) × (p : String) × (get_elem? stored_all k ≡ some x)
        × (x.parent_id ≡ some p)
        × StoredParent link p
  child-StoredParent k j c link e y l parent =
      let ids = parent_stored_ids stored_id [] 0 cs in
      let (p, found) = parent_stored_ids_total stored_id [] 0 cs link j parent in
      let (d, s, there) =
        embedded_at stored_id document_id content_type extra ids 0 cs ds ss k c ld ls e in
      (
        embedded stored_id document_id content_type extra ids (0 + k) c d s,
        p,
        there,
        rw (l, y) found,
        parent_at link p found,
      )

-- A level that stands in the metadata
level_is :
    {Box : Type 0} (c : DocumentChunk Box) (l l' : String)
    → Dict.get c.metadata "chunk_level" ≡ some (Value.str l)
    → (is_level l' c ≡ true) ↔ (l ≡ l')
level_is c l l' e = rw e (string_eq.beq_iff l l')

link_of-some : (q link : String) → link_of (some q) ≡ some link → q ≡ link
link_of-some q link e = elim (Bool-cases (q == "")) [
  | inl y ↦ elim (none-some (rw y at e)) [ ]
  | inr n ↦ some_injective (rw n at e)
]

link_of-again :
    (o : Option String) (link : String) → link_of o ≡ some link → link_of (some link) ≡ some link
link_of-again none link e = elim (none-some e) [ ]
link_of-again (some q) link e = subst (λ x. link_of (some x) ≡ some link) (link_of-some q link e) e

parent-child : ◌≡◌ {A = String} "parent" "child" → ⊥
parent-child e = false-true ((string_eq.beq_iff "parent" "child").1 e)

-- In the output of the chunker, a child with an id follows a parent with that id.
Linked-child :
    {Box : Type 0} (o : Option String) (cs : List (DocumentChunk Box)) (k : ℕ)
    (c : DocumentChunk Box) (link : String)
    → Linked o cs
    → get_elem? cs k ≡ some c
    → is_level "child" c ≡ true
    → link_of c.parent_id ≡ some link
    → (o ≡ some link) ⊎ ((j : ℕ) × IsParent cs link j)
Linked-child o [] k c link l e y p = elim (none-some e) [ ]
Linked-child o (x ∷ cs) zero c link (inl (t, lone, l)) e y p =
    elim (none-some
      (sym (ap link_of (ap (λ z. z.parent_id) (sym (some_injective e)) ∙ lone)) ∙ p)) [ ]
Linked-child o (x ∷ cs) zero c link (inr (inl (q, (t, level, own), l))) e y p =
    elim (parent-child (
      (level_is x "parent" "child" level).0
        (subst (λ z. is_level "child" z ≡ true) (sym (some_injective e)) y))) [ ]
Linked-child o (x ∷ cs) zero c link (inr (inr (q, opened, (t, level, own), l))) e y p =
    let p' : link_of x.parent_id ≡ some link =
      subst (λ z. link_of z.parent_id ≡ some link) (sym (some_injective e)) p in
    inl (opened ∙ ap some (link_of-some q link (rw own at p')))
Linked-child o (x ∷ cs) (suc k) c link (inl (t, lone, l)) e y p =
    elim (Linked-child none cs k c link l e y p) [
      | inl closed ↦ elim (none-some closed) [ ]
      | inr (j, parent) ↦ inr (suc j, IsParent-cons x cs link j parent)
    ]
Linked-child o (x ∷ cs) (suc k) c link (inr (inl (q, (t, level, own), l))) e y p =
    elim (Linked-child (some q) cs k c link l e y p) [
      | inl here ↦ inr (
        0,
        record {
          chunk = x;
          there = refl;
          level = (level_is x "parent" "parent" level).1 refl;
          linked = ap link_of (own ∙ here) ∙ link_of-again c.parent_id link p;
        },
      )
      | inr (j, parent) ↦ inr (suc j, IsParent-cons x cs link j parent)
    ]
Linked-child o (x ∷ cs) (suc k) c link (inr (inr (q, opened, h, l))) e y p =
    elim (Linked-child o cs k c link l e y p) [
      | inl here ↦ inl here
      | inr (j, parent) ↦ inr (suc j, IsParent-cons x cs link j parent)
    ]

-- Every child chunk that the dual chunker makes of a document, and whose id is not empty, is stored with the
-- id of a stored chunk that was made of a parent chunk with the same id. The embedding providers return a
-- vector for each chunk.
pub dual_chunk-StoredParent :
    {Box Dense Sparse : Type 0} (enc : Tokenizer) (fresh : ℕ → String) (s : DualStrategyChunking)
    (elements : List (DocumentChunk Box)) (stored_id : ℕ → String)
    (document_id content_type : String) (extra : Metadata) (ds : List Dense)
    (ss : List (Option Sparse)) (ld : length ds ≡ length (Dual.chunk enc fresh s elements))
    (ls : length ss ≡ length (Dual.chunk enc fresh s elements)) (k : ℕ) (c : DocumentChunk Box)
    (link : String)
    → get_elem? (Dual.chunk enc fresh s elements) k ≡ some c
    → is_level "child" c ≡ true
    → link_of c.parent_id ≡ some link
    → (x : ChunkEmbedding Dense Sparse) × (p : String) × (get_elem?
          (stored_all stored_id document_id content_type extra
            (Dual.chunk enc fresh s elements)
            ds
            ss
            ld
            ls)
          k
        ≡ some x)
      × (x.parent_id ≡ some p)
      × StoredParent stored_id document_id content_type extra
          (Dual.chunk enc fresh s elements)
          ds
          ss
          ld
          ls
          link
          p
dual_chunk-StoredParent {Box} enc fresh s elements stored_id document_id content_type extra ds ss ld
      ls k c link e y l =
    let cs = Dual.chunk enc fresh s elements in
    elim (Linked-child none cs k c link (chunk_hierarchy Box enc fresh s elements).1 e y l) [
      | inl closed ↦ elim (none-some closed) [ ]
      | inr (j, parent) ↦
          child-StoredParent stored_id document_id content_type extra cs ds ss ld ls k j c link e y
            l parent
    ]
