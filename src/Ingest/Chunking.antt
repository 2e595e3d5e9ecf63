-- ===== src/Ingest/Chunking.antt =====
-- vektra_ingest/chunking.py: `FixedSizeChunking`, and what both chunkers share. The chunkers are
-- generators over a stream; a stream is the list of its elements.
pub mod Fixed
pub mod Dual
mod Tests
use vektra_stack.Prelude.{ℕ, ◌+◌, ◌-◌, Option, List, String, min}
use vektra_stack.Prelude.Lists.{take, drop}

-- tiktoken's cl100k_base; `decode` raises (`none`) on what it cannot decode.
pub record Tokenizer : Type 0 where
  pub encode : String → List ℕ
  pub decode : List ℕ → Option String

pub data Outcome {ℓ} (A : Type ℓ) : Type ℓ where
  ok : A → Outcome A
  value_error : Outcome A

-- `tokens[start:end]`
abbrev pub slice : List ℕ → ℕ → ℕ → List ℕ
slice tokens start end = take (end - start) (drop start tokens)
