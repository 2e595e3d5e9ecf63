-- ===== src/Ingest/Chunking/Dual/Hierarchy.antt =====
-- The indices of the chunks, and the links from child chunks to their parents.
use vektra_stack.Prelude.{
  ℕ, suc, ◌+◌, ◌≡◌, refl, ◌⊎◌, inl, inr, Option, none, some, List, [], ◌∷◌, ◌++◌, String, arith,
}
use vektra_stack.Prelude.Lists.{length, All, length-append}
use vektra_stack.Prelude.Eq.{string_eq}
use vektra_stack.Prelude.Dict
use vektra_stack.Shared.Types.{ElementType, Value, Metadata, DocumentChunk}
use vektra_stack.Ingest.Chunking.{Tokenizer}
use vektra_stack.Ingest.Chunking.Dual.{
  DualStrategyChunking, Segment, Emitted, nothing, prepend, table_chunk, text_chunk, children,
  parents, emit_segment, emit_segments, chunk, collect,
}
use vektra_stack.Ingest.Chunking.Dual.Rounds.{
  children_induction, parents_induction, segments_induction,
}

module _ {Box : Type 0} where
  -- The chunk indices are `i`, `i + 1` and so on.
  abbrev pub Indexed : ℕ → List (DocumentChunk Box) → Type 0
  Indexed i [] = Unit
  Indexed i (c ∷ cs) = (Dict.get c.metadata "chunk_index" ≡ some (Value.int i)) × Indexed (suc i) cs

  -- A text chunk of a level, with the id that it carries.
  abbrev pub IsLevel : String → String → DocumentChunk Box → Type 0
  IsLevel level p c =
      (c.element_type ≡ ElementType.text)
      × (Dict.get c.metadata "chunk_level" ≡ some (Value.str level))
      × (c.parent_id ≡ some p)

  -- A table carries no id, a parent carries its own, and a child follows a parent or one of its
  -- children and carries that parent's id. `o` is the id of the parent that is open.
  abbrev pub Linked : Option String → List (DocumentChunk Box) → Type 0
  Linked o [] = Unit
  Linked o (c ∷ cs) =
      (c.element_type ≡ ElementType.table) × (c.parent_id ≡ none) × Linked none cs
      ⊎ ((p : String) × IsLevel "parent" p c × Linked (some p) cs)
      ⊎ ((p : String) × (o ≡ some p) × IsLevel "child" p c × Linked o cs)

  Linked-children :
      (p : String) (kids rest : List (DocumentChunk Box))
      → All (IsLevel "child" p) kids
      → Linked (some p) rest
      → Linked (some p) (kids ++ rest)
  Linked-children p [] rest a l = l
  Linked-children p (k ∷ kids) rest a l =
      inr (inr (p, refl, a.0, Linked-children p kids rest a.1 l))

  Indexed-append :
      (i j : ℕ) (xs ys : List (DocumentChunk Box))
      → Indexed i xs
      → j ≡ i + length xs
      → Indexed j ys
      → Indexed i (xs ++ ys)
  Indexed-append i j [] ys hx e hy = let e' : i ≡ j = omega arith in rw e' hy
  Indexed-append i j (x ∷ xs) ys hx e hy =
      (hx.0, Indexed-append (suc i) j xs ys hx.1 (omega arith) hy)

  -- The running index of a loop is the index of what it emits next.
  record Counts (i : ℕ) (e : Emitted Box) : Type 0 where
    indexed : Indexed i e.chunks
    advanced : e.index ≡ i + length e.chunks

  Counts-prepend :
      (i : ℕ) (c : DocumentChunk Box) (e : Emitted Box)
      → Dict.get c.metadata "chunk_index" ≡ some (Value.int i)
      → Counts (i + 1) e
      → Counts i (prepend c e)
  Counts-prepend i c e h k =
      let next : i + 1 ≡ suc i = omega arith in
      let a = k.advanced in record { indexed = (h, rw next at k.indexed); advanced = omega arith }

  Counts-append :
      (i : ℕ) (a b : Emitted Box)
      → Counts i a
      → Counts a.index b
      → Counts i (record b { chunks = a.chunks ++ b.chunks })
  Counts-append i a b h k =
      let ha = h.advanced in
      let kb = k.advanced in
      record {
        indexed = Indexed-append i a.index a.chunks b.chunks h.indexed ha k.indexed;
        advanced = omega (arith, length-append a.chunks b.chunks);
      }

module _ (Box : Type 0) where
  Counts-nothing : (i ids : ℕ) → Counts i (nothing {Box = Box} i ids)
  Counts-nothing i ids = record { indexed = tt; advanced = omega arith }

  module _ (level : String) (metadata : Metadata) (p content : String) (i count : ℕ) where
    text_chunk_index :
        Dict.get (text_chunk {Box = Box} level metadata p content i count).metadata "chunk_index"
        ≡ some (Value.int i)
    text_chunk_index = rw (Dict.get-put, Dict.get-put, Dict.get-put) refl

    text_chunk-IsLevel : IsLevel level p (text_chunk {Box = Box} level metadata p content i count)
    text_chunk-IsLevel = (refl, rw Dict.get-put refl, refl)

module _ (Box : Type 0) (enc : Tokenizer) (fresh : ℕ → String) (s : DualStrategyChunking) where
  record Kids (p : String) (i : ℕ) (e : Emitted Box) : Type 0 where
    counts : Counts i e
    children_of : All (IsLevel "child" p) e.chunks

  record Good (i : ℕ) (e : Emitted Box) : Type 0 where
    counts : Counts i e
    linked : (o : Option String) → Linked o e.chunks

  Kids-children :
      (metadata : Metadata) (p : String) (ts : List ℕ) (fuel start i ids : ℕ)
      → Kids p i (children enc fresh s metadata p ts fuel start i ids)
  Kids-children metadata p ts =
      children_induction Box enc fresh s metadata p ts (Kids p)
        (λ i ids. record { counts = Counts-nothing Box i ids; children_of = tt })
        (λ i count content e k. record {
          counts =
              Counts-prepend i _ e (text_chunk_index Box "child" metadata p content i count)
                k.counts;
          children_of = (text_chunk-IsLevel Box "child" metadata p content i count, k.children_of);
        })

  Good-parents :
      (metadata : Metadata) (ts : List ℕ) (fuel start i ids : ℕ)
      → Good i (parents enc fresh s metadata ts fuel start i ids)
  Good-parents metadata ts =
      parents_induction Box enc fresh s metadata ts Good Kids
        (λ i ids. record { counts = Counts-nothing Box i ids; linked = λ o. tt })
        (λ p kts fuel i ids. Kids-children metadata p kts fuel 0 i ids)
        (λ i count p content kids next k g. record {
          counts =
              Counts-prepend i _ _ (text_chunk_index Box "parent" metadata p content i count)
                (Counts-append (i + 1) kids next k.counts g.counts);
          linked = λ o. inr (
              inl (
                p,
                text_chunk-IsLevel Box "parent" metadata p content i count,
                Linked-children p kids.chunks next.chunks k.children_of (g.linked (some p)),
              ));
        })

  Good-segment : (g : Segment Box) (i ids : ℕ) → Good i (emit_segment enc fresh s g i ids)
  unfolding emit_segment
  Good-segment (Segment.table el) i ids = record {
    counts =
        Counts-prepend i (table_chunk el i) (nothing (i + 1) ids) (rw Dict.get-put refl)
          (Counts-nothing Box (i + 1) ids);
    linked = λ o. inl (refl, refl, tt);
  }
  Good-segment (Segment.text ts metadata) i ids = Good-parents metadata ts (suc (length ts)) 0 i ids

  Linked-append :
      (xs ys : List (DocumentChunk Box))
      → (o : Option String) → Linked o xs
      → ((o' : Option String) → Linked o' ys)
      → Linked o (xs ++ ys)
  Linked-append [] ys o l k = k o
  Linked-append (x ∷ xs) ys o (inl (t, p, l)) k = inl (t, p, Linked-append xs ys none l k)
  Linked-append (x ∷ xs) ys o (inr (inl (p, h, l))) k =
      inr (inl (p, h, Linked-append xs ys (some p) l k))
  Linked-append (x ∷ xs) ys o (inr (inr (p, e, h, l))) k =
      inr (inr (p, e, h, Linked-append xs ys o l k))

  Good-segments :
      (gs : List (Segment Box)) (i ids : ℕ) → Good i (emit_segments enc fresh s gs i ids)
  Good-segments =
      segments_induction Box enc fresh s Good
        (λ i ids. record { counts = Counts-nothing Box i ids; linked = λ o. tt }) Good-segment
        (λ i here rest h r. record {
          counts = Counts-append i here rest h.counts r.counts;
          linked = λ o. Linked-append here.chunks rest.chunks o (h.linked o) r.linked;
        })

  pub chunk_hierarchy :
      (elements : List (DocumentChunk Box))
      → Indexed 0 (chunk enc fresh s elements) × Linked none (chunk enc fresh s elements)
  unfolding chunk
  chunk_hierarchy elements =
      let g = Good-segments (collect enc fresh s [] [] elements) 0 0 in
      (g.counts.indexed, g.linked none)
