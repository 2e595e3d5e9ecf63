-- ===== src/Ingest/Chunking/Fixed/Coverage.antt =====
-- What the chunks of `FixedSizeChunking` are, that they cover the text, and how large they are.
use vektra_stack.Prelude.{
  ℕ, zero, suc, ◌+◌, ◌-◌, ◌*◌, ◌/◌, ◌≤◌, ◌<◌, ◌≡◌, refl, ap₂, none, some, List, [], ◌∷◌, String,
  true, false, min, arith, inl, inr,
}
use vektra_stack.Prelude.Tests.{ltb, leb, lt→ltb, ltb→lt, if◌then◌else◌, Bool-cases, Option-cases}
use vektra_stack.Prelude.Lists.{length, get_elem?, All, drop, length-take}
use vektra_stack.Prelude.Eq.{string_eq}
use vektra_stack.Prelude.Dict
use vektra_stack.Shared.Types.{DocumentChunk, Value}
use vektra_stack.Ingest.Chunking.{Tokenizer}
use vektra_stack.Ingest.Chunking.Fixed.{
  FixedSizeChunking, Gathered, step, window, make_chunk, emit, chunk, gathered, is_empty,
}
use vektra_stack.Ingest.Chunking.Fixed.Windows.{has_window, chunker, chunk_at, get_elem?-emit}

div_bounds : (p t : ℕ) → 0 < t → (p / t * t ≤ p) × (p < p / t * t + t)
div_bounds p t h = grind arith

times_mono : (a b t : ℕ) → a ≤ b → a * t ≤ b * t
times_mono a b t h = grind arith

module _ (size overlap : ℕ) (valid : overlap < size) (n : ℕ) where
  -- The last window, if it is not the first.
  abbrev last_window : ℕ
  last_window = (n - overlap - 1) / (size - overlap)

  has_window_at :
      (k : ℕ) → (0 < k → k * (size - overlap) + overlap < n) → has_window size overlap n 0 k ≡ true
  has_window_at zero h = refl
  has_window_at (suc k) h = lt→ltb _ _ (omega (arith, h (omega arith)))

  -- A window around position `p`.
  pub cover :
      (p : ℕ)
      → p < n
      → (k : ℕ) × (has_window size overlap n 0 k ≡ true)
        × (k * (size - overlap) ≤ p)
        × (p < k * (size - overlap) + size)
  cover p h = elim (Bool-cases (ltb (p / (size - overlap)) last_window)) [
    | inl before ↦
        let less = ltb→lt (p / (size - overlap)) last_window before in
        let room = times_mono (suc (p / (size - overlap))) last_window ((size - overlap)) less in
        (
          p / (size - overlap),
          has_window_at (p / (size - overlap)) (λ _. omega (arith, at_p.0, at_end.0)),
          at_p.0,
          omega (arith, at_p.1),
        )
    | inr after ↦
        let le : last_window ≤ p / (size - overlap) = ground arith in
        let room = times_mono last_window (p / (size - overlap)) ((size - overlap)) le in
        (
          last_window,
          has_window_at last_window
              (λ pos. omega (arith, at_end.0, times_mono 1 last_window ((size - overlap)) pos)),
          omega (arith, at_p.0),
          omega (arith, at_end.1),
        )
  ]
    where
      at_p :
          (p / (size - overlap) * (size - overlap) ≤ p)
          × (p < p / (size - overlap) * (size - overlap) + (size - overlap))
      at_p = div_bounds p ((size - overlap)) (omega arith)

      at_end :
          (last_window * (size - overlap) ≤ n - overlap - 1)
          × (n - overlap - 1 < last_window * (size - overlap) + (size - overlap))
      at_end = div_bounds (n - overlap - 1) ((size - overlap)) (omega arith)

-- The token count that a chunk states is at most the chunk size.
abbrev pub CountFits : {Box : Type 0} → FixedSizeChunking → DocumentChunk Box → Type 0
CountFits s c =
    (m : ℕ) × (Dict.get c.metadata "token_count" ≡ some (Value.int m)) × (m ≤ s.chunk_size)

is_empty-length : (ts : List ℕ) → 0 < length ts → is_empty ts ≡ false
is_empty-length [] h = elim h [ ]
is_empty-length (t ∷ ts) h = refl

module _ (Box : Type 0) (enc : Tokenizer) (s : FixedSizeChunking) where
  chunk_lem :
      (elements : List (DocumentChunk Box))
      → chunk enc s elements ≡ (
          let g = gathered enc elements in
          if is_empty g.all_tokens then [] else emit enc s g (suc (length g.all_tokens)) 0 0)
  unfolding chunk
  chunk_lem elements = refl

  make_chunk-CountFits :
      (g : Gathered) (index start : ℕ) (text : String)
      → CountFits s (make_chunk {Box = Box} enc s g index (window s g.all_tokens start) text)
  make_chunk-CountFits g index start text = (
    length (window s g.all_tokens start),
    rw (Dict.get-put, Dict.get-put) refl,
    omega (
      arith,
      length-take (min (start + s.chunk_size) (length g.all_tokens) - start)
          (drop start g.all_tokens),
    ),
  )

  emit-CountFits :
      (g : Gathered) (fuel start index : ℕ)
      → All (CountFits s) (emit {Box = Box} enc s g fuel start index)
  unfolding emit
  emit-CountFits g zero start index = tt
  emit-CountFits g (suc fuel) start index =
      let ih = emit-CountFits g fuel (start + step s) (index + 1) in
      elim (Bool-cases (ltb start (length g.all_tokens))) [
        | inr past ↦ rw past tt
        | inl inside ↦ rw inside (elim (Option-cases (enc.decode (window s g.all_tokens start))) [
          | inl bad ↦ rw bad ih
          | inr (text, good) ↦ rw good (
            make_chunk-CountFits g index start text,
            elim (Bool-cases
                (leb (length g.all_tokens) (min (start + s.chunk_size) (length g.all_tokens)))) [
                  | inl last ↦ rw last tt
                  | inr more ↦ rw more ih
                ],
          )
        ])
      ]

  -- Whatever the tokenizer decodes, the token count that every chunk states is at most the chunk
  -- size.
  pub chunk-CountFits :
      (elements : List (DocumentChunk Box)) → All (CountFits s) (chunk enc s elements)
  chunk-CountFits elements =
      rw chunk_lem (elim (Bool-cases (is_empty (gathered enc elements).all_tokens)) [
        | inl none_left ↦ rw none_left tt
        | inr some_left ↦ rw some_left (emit-CountFits (gathered enc elements) _ 0 0)
      ])

module _ (Box : Type 0) (enc : Tokenizer) (size overlap : ℕ) (text_of : List ℕ → String)
    (valid : overlap < size) (elements : List (DocumentChunk Box))
    (decodes : (start : ℕ)
      → start < length (gathered enc elements).all_tokens
      → enc.decode (window (chunker size overlap) (gathered enc elements).all_tokens start)
        ≡ some (
            text_of (window (chunker size overlap) (gathered enc elements).all_tokens start))) where
  abbrev tokens : List ℕ
  tokens = (gathered enc elements).all_tokens

  -- With an overlap that is not negative and less than the size, if every window decodes and some element has a token, the chunk at place `k` is the window of
  -- `size` tokens that begins at `k * (size - overlap)`, with index `k`, exactly
  -- for those `k` whose window is the first or reaches more tokens than the one before it.
  pub get_elem?-chunk :
      (k : ℕ)
      → 0 < length tokens
      → get_elem? (chunk enc (chunker size overlap) elements) k ≡ (
          if has_window size overlap (length tokens) 0 k
          then some (
              chunk_at enc
                (chunker size overlap)
                (gathered enc elements)
                text_of
                k
                (k * (size - overlap)))
          else none)
  get_elem?-chunk k h =
      rw
        (
          chunk_lem Box enc (chunker size overlap) elements,
          is_empty-length tokens h,
          get_elem?-emit enc size overlap (gathered enc elements) text_of valid decodes k
              (suc (length tokens)) 0 0 h (omega arith),
        )
        (ap₂
          (λ i a.
            if has_window size overlap (length tokens) 0 k
            then some (chunk_at enc (chunker size overlap) (gathered enc elements) text_of i a)
            else none)
          (omega arith) (omega arith))

  -- With an overlap that is not negative and less than the size, if every window decodes, every token stands in a chunk: the token at place `p` lies in the window
  -- of some chunk that is emitted.
  pub chunk_covers :
      (p : ℕ)
      → p < length tokens
      → (k : ℕ) × (get_elem? (chunk enc (chunker size overlap) elements) k
          ≡ some (
              chunk_at enc
                (chunker size overlap)
                (gathered enc elements)
                text_of
                k
                (k * (size - overlap))))
        × (k * (size - overlap) ≤ p)
        × (p < k * (size - overlap) + size)
  chunk_covers p h =
      let (k, there, low, high) = cover size overlap valid (length tokens) p h in
      (k, rw (get_elem?-chunk k (omega arith), there), low, high)
