-- ===== src/Ingest/Chunking/Dual/Tables.antt =====
-- Tables are never split.
use vektra_stack.Prelude.{
  ℕ, suc, ◌+◌, ◌≡◌, refl, ap, ap₂, ◌∙◌, sym, ◌⊎◌, inl, inr, Bool, true, false, List, [], ◌∷◌, ◌++◌,
  String, Option, map, append-nil,
}
use vektra_stack.Prelude.Tests.{if◌then◌else◌}
use vektra_stack.Prelude.Lists.{length, select, select-append}
use vektra_stack.Prelude.Eq.{string_eq, ◌==◌}
use vektra_stack.Shared.Types.{ElementType, Metadata, DocumentChunk, type_eq}
use vektra_stack.Ingest.Chunking.{Tokenizer}
use vektra_stack.Ingest.Chunking.Dual.{
  DualStrategyChunking, Segment, Kind, kind, flush, table_chunk, children, parents, emit_segment,
  emit_segments, collect, chunk,
}
use vektra_stack.Ingest.Chunking.Dual.Rounds.{children_induction, parents_induction}

-- What a reader of a table sees: its text, its format and its place on the page.
abbrev pub Seen : Type 0 → Type 0
Seen Box = String × String × Option Box

module _ {Box : Type 0} where
  abbrev pub is_table : DocumentChunk Box → Bool
  is_table c = c.element_type == ElementType.table

  abbrev pub seen : DocumentChunk Box → Seen Box
  seen c = (c.text, c.content_format, c.coordinates)

  -- A table that says it is plain text is marked as HTML.
  abbrev pub as_html : DocumentChunk Box → Seen Box
  as_html c =
      (c.text, if c.content_format == "text" then "html" else c.content_format, c.coordinates)

  abbrev tables_of : List (Segment Box) → List (DocumentChunk Box)
  tables_of [] = []
  tables_of (Segment.text ts metadata ∷ gs) = tables_of gs
  tables_of (Segment.table el ∷ gs) = el ∷ tables_of gs

  tables_of-flush :
      (ts : List ℕ) (metadata : Metadata) (gs : List (Segment Box))
      → tables_of (flush ts metadata ++ gs) ≡ tables_of gs
  tables_of-flush [] metadata gs = refl
  tables_of-flush (t ∷ ts) metadata gs = refl

-- Only the type of tables is taken to be a table.
kind_table :
    (t : ElementType)
    → (kind t ≡ Kind.skipped) × ((t == ElementType.table) ≡ false)
      ⊎ (kind t ≡ Kind.table) × ((t == ElementType.table) ≡ true)
      ⊎ (kind t ≡ Kind.text) × ((t == ElementType.table) ≡ false)
      ⊎ (kind t ≡ Kind.unknown) × ((t == ElementType.table) ≡ false)
unfolding kind
kind_table ElementType.page_break = inl (refl, refl)
kind_table ElementType.image = inl (refl, refl)
kind_table ElementType.table = inr (inl (refl, refl))
kind_table t = inr (inr (inl (refl, refl)))

module _ (Box : Type 0) (enc : Tokenizer) (fresh : ℕ → String) (s : DualStrategyChunking) where
  tables_of-collect :
      (ts : List ℕ) (metadata : Metadata) (els : List (DocumentChunk Box))
      → tables_of (collect enc fresh s ts metadata els) ≡ select is_table els
  unfolding collect
  tables_of-collect ts metadata [] =
      ap tables_of (sym (append-nil (flush ts metadata))) ∙ tables_of-flush ts metadata []
  tables_of-collect ts metadata (el ∷ els) = elim (kind_table el.element_type) [
    | inl (k, n) ↦ rw (k, collect, select, n) (tables_of-collect ts metadata els)
    | inr (inl (k, y)) ↦
        rw (k, collect, select, y)
          (tables_of-flush ts metadata _ ∙ ap (◌∷◌ el) (tables_of-collect [] [] els))
    | inr (inr (inl (k, n))) ↦ rw (k, collect, select, n) (tables_of-collect _ _ els)
    | inr (inr (inr (k, n))) ↦ rw (k, collect, select, n) (tables_of-collect _ _ els)
  ]

  no_tables_in_children :
      (metadata : Metadata) (p : String) (ts : List ℕ) (fuel start i ids : ℕ)
      → select is_table (children {Box = Box} enc fresh s metadata p ts fuel start i ids).chunks
        ≡ []
  no_tables_in_children metadata p ts =
      children_induction Box enc fresh s metadata p ts (λ i e. select is_table e.chunks ≡ [])
        (λ i ids. refl) (λ i count content e h. h)

  no_tables_in_parents :
      (metadata : Metadata) (ts : List ℕ) (fuel start i ids : ℕ)
      → select is_table (parents {Box = Box} enc fresh s metadata ts fuel start i ids).chunks ≡ []
  no_tables_in_parents metadata ts =
      parents_induction Box enc fresh s metadata ts (λ i e. select is_table e.chunks ≡ [])
        (λ p i e. select is_table e.chunks ≡ []) (λ i ids. refl)
        (λ p kts fuel i ids. no_tables_in_children metadata p kts fuel 0 i ids)
        (λ i count p content kids next k n.
          select-append is_table kids.chunks next.chunks ∙ ap₂ (λ x y. x ++ y) k n)

  no_tables_in_segment :
      (ts : List ℕ) (metadata : Metadata) (i ids : ℕ)
      → select is_table
          (emit_segment {Box = Box} enc fresh s (Segment.text ts metadata) i ids).chunks
        ≡ []
  unfolding emit_segment
  no_tables_in_segment ts metadata i ids =
      no_tables_in_parents metadata ts (suc (length ts)) 0 i ids

  table_segment :
      (el : DocumentChunk Box) (i ids : ℕ)
      → emit_segment enc fresh s (Segment.table el) i ids
        ≡ record { chunks = table_chunk el i ∷ []; index = i + 1; ids = ids }
  unfolding emit_segment
  table_segment el i ids = refl

  seen-emit_segments :
      (gs : List (Segment Box)) (i ids : ℕ)
      → map seen (select is_table (emit_segments enc fresh s gs i ids).chunks)
        ≡ map as_html (tables_of gs)
  unfolding emit_segments
  seen-emit_segments [] i ids = refl
  seen-emit_segments (Segment.table el ∷ gs) i ids =
      rw (table_segment el i ids) (ap (◌∷◌ (as_html el)) (seen-emit_segments gs (i + 1) ids))
  seen-emit_segments (Segment.text ts metadata ∷ gs) i ids =
      let here = emit_segment enc fresh s (Segment.text ts metadata) i ids in
      rw
        (
          select-append is_table here.chunks
              (emit_segments enc fresh s gs here.index here.ids).chunks,
          no_tables_in_segment ts metadata i ids,
        )
        (seen-emit_segments gs here.index here.ids)

  -- Whatever the tokenizer decodes, the table chunks of a document are its tables, one chunk for each
  -- and in their order, with text and coordinates unchanged; a format of "text" becomes "html".
  pub tables_kept :
      (elements : List (DocumentChunk Box))
      → map seen (select is_table (chunk enc fresh s elements))
        ≡ map as_html (select is_table elements)
  unfolding chunk
  tables_kept elements =
      seen-emit_segments (collect enc fresh s [] [] elements) 0 0
      ∙ ap (map as_html) (tables_of-collect [] [] elements)
