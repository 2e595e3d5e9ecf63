-- ===== src/Prelude/Int.antt =====
-- Python's `int`, over the native numbers and under the library's names.
use vektra_stack.Prelude.{ℕ}

-- `negsuc n` is -(n + 1).
pub data ℤ : Type 0 where
  pos negsuc : ℕ → ℤ
