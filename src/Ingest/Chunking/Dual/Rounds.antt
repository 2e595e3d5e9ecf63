-- ===== src/Ingest/Chunking/Dual/Rounds.antt =====
-- The induction over the emitting loops of `DualStrategyChunking`, once for every property of what
-- they emit.
use vektra_stack.Prelude.{ℕ, zero, suc, ◌+◌, ◌-◌, List, [], ◌∷◌, ◌++◌, String, min, inl, inr}
use vektra_stack.Prelude.Tests.{ltb, leb, Bool-cases, Option-cases}
use vektra_stack.Prelude.Lists.{length}
use vektra_stack.Shared.Types.{Metadata}
use vektra_stack.Ingest.Chunking.{Tokenizer, slice}
use vektra_stack.Ingest.Chunking.Dual.{
  DualStrategyChunking, Segment, Emitted, nothing, prepend, text_chunk, children, parents,
  emit_segment, emit_segments,
}

module _ (Box : Type 0) (enc : Tokenizer) (fresh : ℕ → String) (s : DualStrategyChunking) where
  module _ (metadata : Metadata) (p : String) (tokens : List ℕ) (P : ℕ → Emitted Box → Type 0)
      (stop : (i ids : ℕ) → P i (nothing i ids))
      (child : (i count : ℕ) (content : String) (e : Emitted Box)
        → P (i + 1) e
        → P i (prepend (text_chunk "child" metadata p content i count) e)) where
    pub children_induction :
        (fuel start index ids : ℕ)
        → P index (children enc fresh s metadata p tokens fuel start index ids)
    unfolding children
    children_induction zero start index ids = stop index ids
    children_induction (suc fuel) start index ids =
        let n = length tokens in
        let step = s.text_chunk_size - s.text_chunk_overlap in
        let end = min (start + s.text_chunk_size) n in
        let skip = children_induction fuel (start + step) index ids in
        let next = children_induction fuel (start + step) (index + 1) ids in
        elim (Bool-cases (ltb start n)) [
          | inr past ↦ rw past (stop index ids)
          | inl inside ↦ rw inside (elim (Option-cases (enc.decode (slice tokens start end))) [
            | inl bad ↦ rw bad skip
            | inr (content, good) ↦ rw good (elim (Bool-cases (leb n end)) [
              | inl last ↦ rw last (child index _ content _ (stop (index + 1) ids))
              | inr more ↦ rw more (child index _ content _ next)
            ])
          ])
        ]

  -- What one parent emits: itself, its children, and the parents after it.
  abbrev pub family : Metadata → String → String → ℕ → ℕ → Emitted Box → Emitted Box → Emitted Box
  family metadata p content i count kids next =
      prepend (text_chunk "parent" metadata p content i count)
        (record next { chunks = kids.chunks ++ next.chunks })

  module _ (metadata : Metadata) (tokens : List ℕ) (P : ℕ → Emitted Box → Type 0)
      (K : String → ℕ → Emitted Box → Type 0) (stop : (i ids : ℕ) → P i (nothing i ids))
      (kids_ok : (p : String) (ts : List ℕ) (fuel i ids : ℕ)
        → K p i (children enc fresh s metadata p ts fuel 0 i ids))
      (parent : (i count : ℕ) (p content : String) (kids next : Emitted Box)
        → K p (i + 1) kids
        → P kids.index next
        → P i (family metadata p content i count kids next)) where
    pub parents_induction :
        (fuel start index ids : ℕ)
        → P index (parents enc fresh s metadata tokens fuel start index ids)
    unfolding parents
    parents_induction zero start index ids = stop index ids
    parents_induction (suc fuel) start index ids =
        let n = length tokens in
        let end = min (start + s.parent_chunk_size) n in
        let ts = slice tokens start end in
        let kids =
          children enc fresh s metadata (fresh ids) ts (suc (length ts)) 0 (index + 1) (suc ids) in
        let skip = parents_induction fuel end index (suc ids) in
        let next = parents_induction fuel end kids.index kids.ids in
        elim (Bool-cases (ltb start n)) [
          | inr past ↦ rw past (stop index ids)
          | inl inside ↦ elim (Option-cases (enc.decode ts)) [
            | inl bad ↦ rw (inside, bad) skip
            | inr (content, good) ↦
                let done =
                  parent index (length ts) (fresh ids) content kids _
                    (kids_ok (fresh ids) ts (suc (length ts)) (index + 1) (suc ids)) next in
                rw (inside, good) done
          ]
        ]

  module _ (P : ℕ → Emitted Box → Type 0) (stop : (i ids : ℕ) → P i (nothing i ids))
      (segment : (g : Segment Box) (i ids : ℕ) → P i (emit_segment enc fresh s g i ids))
      (both : (i : ℕ) (here rest : Emitted Box)
        → P i here
        → P here.index rest
        → P i (record rest { chunks = here.chunks ++ rest.chunks })) where
    pub segments_induction :
        (gs : List (Segment Box)) (index ids : ℕ) → P index (emit_segments enc fresh s gs index ids)
    unfolding emit_segments
    segments_induction [] index ids = stop index ids
    segments_induction (g ∷ gs) index ids =
        let here = emit_segment enc fresh s g index ids in
        let rest = segments_induction gs here.index here.ids in
        both index here _ (segment g index ids) rest
