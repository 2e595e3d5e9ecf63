-- ===== src/Core/Conversation.antt =====
-- vektra_core/conversation.py: what the two conversation stores share.
pub mod Memory
pub mod Tables
pub mod Persistent
pub mod Rows
pub mod Refinement
pub mod Histories
pub mod Deletion
mod Tests
use vektra_stack.Prelude.{ℕ, ◌-◌, Option, List, String}
use vektra_stack.Prelude.Lists.{length, drop}

-- `_InMemoryTurn`, and the dict that `get_history` returns for a turn.
pub record Turn : Type 0 where
  pub question : String
  pub answer : Option String

pub data Outcome {ℓ} (A : Type ℓ) : Type ℓ where
  ok : A → Outcome A
  value_error : Outcome A

-- `xs[-n:]` for a positive `n`
abbrev pub last {ℓ} : {A : Type ℓ} → ℕ → List A → List A
last n xs = drop (length xs - n) xs
