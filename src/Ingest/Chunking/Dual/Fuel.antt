-- ===== src/Ingest/Chunking/Dual/Fuel.antt =====
-- The loops of `DualStrategyChunking` end before their fuel does: more fuel changes nothing.
use vektra_stack.Prelude.{
  ℕ, zero, suc, ◌+◌, ◌-◌, ◌<◌, min, ◌≡◌, refl, ap₂, inl, inr, false, none, some, List, ◌++◌, String,
  arith,
}
use vektra_stack.Prelude.Tests.{ltb, leb, if◌then◌else◌, Bool-cases, ltb→lt}
use vektra_stack.Prelude.Lists.{length}
use vektra_stack.Shared.Types.{Metadata}
use vektra_stack.Ingest.Chunking.{Tokenizer, slice, ok}
use vektra_stack.Ingest.Chunking.Dual.{
  init, DualStrategyChunking, Emitted, children, parents, prepend, nothing, text_chunk,
}

module _ {Box : Type 0} (enc : Tokenizer) (fresh : ℕ → String) (s : DualStrategyChunking) where
  children_fuel :
      (metadata : Metadata) (p : String) (ts : List ℕ) (fuel more start i ids : ℕ)
      → s.text_chunk_overlap < s.text_chunk_size
      → length ts < start + fuel
      → length ts < start + more
      → children {Box = Box} enc fresh s metadata p ts fuel start i ids
        ≡ children enc fresh s metadata p ts more start i ids
  unfolding children
  children_fuel metadata p ts zero zero start i ids o h h' = refl
  children_fuel metadata p ts zero (suc more) start i ids o h h' =
      let past : ltb start (length ts) ≡ false = ground arith in rw past refl
  children_fuel metadata p ts (suc fuel) zero start i ids o h h' =
      let past : ltb start (length ts) ≡ false = ground arith in rw past refl
  children_fuel metadata p ts (suc fuel) (suc more) start i ids o h h' =
      let n = length ts in
      let step = s.text_chunk_size - s.text_chunk_overlap in
      let end = min (start + s.text_chunk_size) n in
      let tokens = slice ts start end in
      let round : Emitted Box → Emitted Box → Emitted Box = λ skip next.
        if ltb start n
        then elim (enc.decode tokens) [
          | none ↦ skip
          | some text ↦
              prepend (text_chunk "child" metadata p text i (length tokens))
                (if leb n end then nothing (i + 1) ids else next)
        ]
        else nothing i ids in
      ap₂ round
        (children_fuel metadata p ts fuel more (start + step) i ids o (omega arith) (omega arith))
        (children_fuel metadata p ts fuel more (start + step) (i + 1) ids o (omega arith)
          (omega arith))

  parents_fuel :
      (metadata : Metadata) (ts : List ℕ) (fuel more start i ids : ℕ)
      → 0 < s.parent_chunk_size
      → length ts < start + fuel
      → length ts < start + more
      → parents {Box = Box} enc fresh s metadata ts fuel start i ids
        ≡ parents enc fresh s metadata ts more start i ids
  unfolding parents
  parents_fuel metadata ts zero zero start i ids o h h' = refl
  parents_fuel metadata ts zero (suc more) start i ids o h h' =
      let past : ltb start (length ts) ≡ false = ground arith in rw past refl
  parents_fuel metadata ts (suc fuel) zero start i ids o h h' =
      let past : ltb start (length ts) ≡ false = ground arith in rw past refl
  parents_fuel metadata ts (suc fuel) (suc more) start i ids o h h' =
      elim (Bool-cases (ltb start (length ts))) [
        | inr past ↦ rw past refl
        | inl inside ↦
            let n = length ts in
            let end = min (start + s.parent_chunk_size) n in
            let tokens = slice ts start end in
            let kids =
              children {Box = Box} enc fresh s metadata (fresh ids) tokens (suc (length tokens)) 0
                (i + 1) (suc ids) in
            let round : Emitted Box → Emitted Box → Emitted Box = λ skip next.
              if ltb start n
              then elim (enc.decode tokens) [
                | none ↦ skip
                | some text ↦
                    prepend (text_chunk "parent" metadata (fresh ids) text i (length tokens))
                      (record next { chunks = kids.chunks ++ next.chunks })
              ]
              else nothing i ids in
            let inside' = ltb→lt start n inside in
            ap₂ round
              (parents_fuel metadata ts fuel more end i (suc ids) o (omega arith) (omega arith))
              (parents_fuel metadata ts fuel more end kids.index kids.ids o (omega arith)
                (omega arith))
      ]

init_steps :
    (size overlap parent : ℕ) (s : DualStrategyChunking)
    → init size overlap parent ≡ ok s
    → (s.text_chunk_overlap < s.text_chunk_size) × (0 < s.parent_chunk_size)
unfolding init
init_steps size overlap parent s e = ground arith

pub loops_end :
    {Box : Type 0} (enc : Tokenizer) (fresh : ℕ → String) (s : DualStrategyChunking)
    (size overlap parent : ℕ) (metadata : Metadata) (p : String) (ts : List ℕ) (more i ids : ℕ)
    → init size overlap parent ≡ ok s
    → length ts < more
    → (parents {Box = Box} enc fresh s metadata ts (suc (length ts)) 0 i ids
        ≡ parents enc fresh s metadata ts more 0 i ids)
      × (children {Box = Box} enc fresh s metadata p ts (suc (length ts)) 0 i ids
          ≡ children enc fresh s metadata p ts more 0 i ids)
loops_end enc fresh s size overlap parent metadata p ts more i ids e h =
    let (step, wide) = init_steps size overlap parent s e in
    (
      parents_fuel enc fresh s metadata ts (suc (length ts)) more 0 i ids wide (omega arith)
          (omega arith),
      children_fuel enc fresh s metadata p ts (suc (length ts)) more 0 i ids step (omega arith)
          (omega arith),
    )
