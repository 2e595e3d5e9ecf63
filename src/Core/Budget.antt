-- ===== src/Core/Budget.antt =====
-- vektra_core/budget.py: `allocate_token_budget`.
pub mod Selection
pub mod History
pub mod Limits
mod Tests
use mathlib.Core.List.{reverse}
use vektra_stack.Prelude.{
  ℕ, zero, suc, ◌+◌, ◌-◌, ◌≤◌, ◌≡◌, Bool, true, false, ◌&&◌, Option, none, some, List, [], ◌∷◌,
}
use vektra_stack.Prelude.Tests.{leb, if◌then◌else◌}
use vektra_stack.Prelude.Lists.{length, get_or}

-- Python's floats, as far as the allocator uses them: `0.0 <= r`, `r <= 1.0` and `int(n * r)`.
-- The law is what rounding gives: a product with a ratio in [0, 1] does not pass `n`.
pub record Ratios : Type 1 where
  pub Ratio : Type 0
  pub at_least_zero : Ratio → Bool
  pub at_most_one : Ratio → Bool
  pub scale : ℕ → Ratio → ℕ
  pub scale-le : (n : ℕ) (r : Ratio) → at_least_zero r ≡ true → at_most_one r ≡ true → scale n r ≤ n

pub data Outcome {ℓ} (A : Type ℓ) : Type ℓ where
  ok : A → Outcome A
  value_error : Outcome A

-- The loop over the chunks' token counts, at position `i` with `used` tokens spent.
pub select_chunks : ℕ → ℕ → ℕ → List ℕ → List ℕ
select_chunks budget i used [] = []
select_chunks budget i used (tokens ∷ rest) =
    let fits = leb (used + tokens) budget in
    let more = select_chunks budget (suc i) (if fits then used + tokens else used) rest in
    if fits then i ∷ more else more

-- The loop `for i in range(n - 1, -1, -1)`; the positions stand in the order of selection.
pub select_history : ℕ → List ℕ → ℕ → ℕ → List ℕ
select_history budget turns zero used = []
select_history budget turns (suc i) used =
    let tokens = get_or turns i 0 in
    let fits = leb (used + tokens) budget in
    let more = select_history budget turns i (if fits then used + tokens else used) in
    if fits then i ∷ more else more

pub record Request : Type 0 where
  pub context_window : ℕ
  pub system_tokens : ℕ
  pub question_tokens : ℕ
  pub chunks : List ℕ
  pub history_turns : List ℕ
  pub reserve : ℕ

abbrev pub fixed : Request → ℕ
fixed q = q.system_tokens + q.question_tokens + q.reserve

-- `max(0, context_window - fixed)`
abbrev pub remaining : Request → ℕ
remaining q = q.context_window - fixed q

-- The chunks are given by their token counts: the allocator does not read their scores.
module _ (f : Ratios) where
  unfoldable pub allocate_token_budget : Request → f.Ratio → Outcome (List ℕ × List ℕ)
  unfolding select_chunks select_history
  allocate_token_budget q chunk_ratio =
      if f.at_least_zero chunk_ratio && f.at_most_one chunk_ratio
      then (let chunk_budget = f.scale (remaining q) chunk_ratio in
          let history_budget = remaining q - chunk_budget in
          ok (
            select_chunks chunk_budget 0 0 q.chunks,
            reverse (select_history history_budget q.history_turns (length q.history_turns) 0),
          ))
      else value_error
