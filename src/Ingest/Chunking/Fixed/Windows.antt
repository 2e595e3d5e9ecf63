-- ===== src/Ingest/Chunking/Fixed/Windows.antt =====
-- Which windows the loop of `FixedSizeChunking` emits, one by one.
use vektra_stack.Prelude.{
  ℕ, zero, suc, ◌+◌, ◌-◌, ◌*◌, ◌≤◌, ◌<◌, ◌≡◌, ap, ap₂, none, some, List, [], ◌∷◌, String, Bool,
  true, false, min, arith, inl, inr,
}
use vektra_stack.Prelude.Tests.{ltb, leb, lt→ltb, leb→le, if◌then◌else◌, Bool-cases}
use vektra_stack.Prelude.Lists.{length, get_elem?}
use vektra_stack.Prelude.Int.{pos}
use vektra_stack.Shared.Types.{DocumentChunk}
use vektra_stack.Ingest.Chunking.{Tokenizer}
use vektra_stack.Ingest.Chunking.Fixed.{FixedSizeChunking, Gathered, window, make_chunk, emit}

-- Is there a window number `k` among those that begin at `start`, in a text of `n` tokens?
abbrev pub has_window : ℕ → ℕ → ℕ → ℕ → ℕ → Bool
has_window size overlap n start zero = true
has_window size overlap n start (suc k) = ltb (start + suc k * (size - overlap) + overlap) n

-- The chunker with an overlap that is not negative
abbrev pub chunker : ℕ → ℕ → FixedSizeChunking
chunker size overlap = record { chunk_size = size; chunk_overlap = pos overlap }

reaches_end : (a n : ℕ) → leb n (min a n) ≡ leb n a
reaches_end a n = ground arith

module _ (size overlap n : ℕ) (valid : overlap < size) where
  has_window_next :
      (k start : ℕ)
      → start + size < n
      → has_window size overlap n start (suc k)
        ≡ has_window size overlap n (start + (size - overlap)) k
  has_window_next zero start h = ground arith
  has_window_next (suc k) start h = ap (λ m. ltb m n) (omega arith)

  no_window_after :
      (k start : ℕ) → n ≤ start + size → has_window size overlap n start (suc k) ≡ false
  no_window_after k start h = ground arith

module _ {Box : Type 0} (enc : Tokenizer) (s : FixedSizeChunking) (g : Gathered)
    (text_of : List ℕ → String) where
  -- The chunk with this index over the window at `start`.
  abbrev pub chunk_at : ℕ → ℕ → DocumentChunk Box
  chunk_at index start =
      make_chunk enc s g index (window s g.all_tokens start) (text_of (window s g.all_tokens start))

module _ {Box : Type 0} (enc : Tokenizer) (size overlap : ℕ) (g : Gathered)
    (text_of : List ℕ → String) (valid : overlap < size)
    (decodes : (start : ℕ)
      → start < length g.all_tokens
      → enc.decode (window (chunker size overlap) g.all_tokens start)
        ≡ some (text_of (window (chunker size overlap) g.all_tokens start))) where
  emit_round :
      (fuel start index : ℕ)
      → start < length g.all_tokens
      → emit {Box = Box} enc (chunker size overlap) g (suc fuel) start index
        ≡ chunk_at enc (chunker size overlap) g text_of index start
          ∷ (if leb (length g.all_tokens) (start + size)
              then []
              else emit enc (chunker size overlap) g fuel (start + (size - overlap)) (index + 1))
  emit_round fuel start index h =
      let in_text = lt→ltb start (length g.all_tokens) h in
      unfold emit in
      rw (in_text, decodes start h) (rw (reaches_end (start + size) (length g.all_tokens)))

  -- The chunk at place `k` of the rounds that begin at `start`.
  pub get_elem?-emit :
      (k fuel start index : ℕ)
      → start < length g.all_tokens
      → length g.all_tokens - start < fuel
      → get_elem? (emit {Box = Box} enc (chunker size overlap) g fuel start index) k ≡ (
          if has_window size overlap (length g.all_tokens) start k
          then some (
              chunk_at enc
                (chunker size overlap)
                g
                text_of
                (index + k)
                (start + k * (size - overlap)))
          else none)
  get_elem?-emit k zero start index h f = elim f [ ]
  get_elem?-emit zero (suc fuel) start index h f = rw (emit_round fuel start index h) (
      ap₂ (λ i a. some (chunk_at enc (chunker size overlap) g text_of i a)) (omega arith)
        (omega arith))
  get_elem?-emit (suc k) (suc fuel) start index h f =
      rw (emit_round fuel start index h)
        (elim (Bool-cases (leb (length g.all_tokens) (start + size))) [
          | inl last ↦ rw (last, no_window_after size overlap _ valid k start (leb→le _ _ last))
          | inr more ↦
              let inside : start + size < length g.all_tokens = ground arith in
              rw
                (
                  more,
                  has_window_next size overlap _ valid k start inside,
                  get_elem?-emit k fuel (start + (size - overlap)) (index + 1) (omega arith)
                      (omega arith),
                )
                (ap₂
                  (λ i a.
                    if has_window size overlap (length g.all_tokens) (start + (size - overlap)) k
                    then some (chunk_at enc (chunker size overlap) g text_of i a)
                    else none)
                  (omega arith) (omega arith))
        ])
