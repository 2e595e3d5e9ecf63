-- ===== src/Core/Budget/Tests.antt =====
-- A run of the allocator with ratios in hundredths, and the theorems at that run.
use vektra_stack.Prelude.{ℕ, ◌+◌, ◌*◌, ◌/◌, ◌≤◌, ◌<◌, ◌≡◌, refl, Bool, true, [], ◌∷◌, arith}
use vektra_stack.Prelude.Tests.{ltb, leb, leb→le}
use vektra_stack.Prelude.Lists.{get_or}
use vektra_stack.Prelude.Eq.{nat_eq, contains}
use vektra_stack.Core.Budget.{Ratios, Request, ok, value_error, allocate_token_budget, fixed}
use vektra_stack.Core.Budget.Selection.{cost, cost_if, Increasing}
use vektra_stack.Core.Budget.Limits.{allocate_fits, allocate_chunks_greedy, allocate_history_greedy}

product-le : (n r : ℕ) → r ≤ 100 → n * r ≤ n * 100
product-le n r h = grind arith

hundredth-le : (n r : ℕ) → ◌≡◌ {A = Bool} true true → leb r 100 ≡ true → n * r / 100 ≤ n
hundredth-le n r _ h = omega (arith, product-le n r (leb→le r 100 h))

abbrev hundredths : Ratios
hundredths = record {
  Ratio = ℕ;
  at_least_zero = λ r. true;
  at_most_one = λ r. leb r 100;
  scale = λ n r. n * r / 100;
  scale-le = hundredth-le;
}

-- 1000 tokens remain; the second chunk does not fit, the third does.
abbrev request : Request
request = record {
  context_window = 4000;
  system_tokens = 1500;
  question_tokens = 476;
  chunks = 300 ∷ 400 ∷ 250 ∷ [];
  history_turns = 200 ∷ 300 ∷ 150 ∷ [];
  reserve = 1024;
}

request_runs : allocate_token_budget hundredths request 60 ≡ ok (0 ∷ 2 ∷ [], 0 ∷ 2 ∷ [])
unfolding allocate_token_budget
request_runs = refl

request_rejected : allocate_token_budget hundredths request 101 ≡ value_error
unfolding allocate_token_budget
request_rejected = refl

allocate_fits_example :
    (cost request.chunks (0 ∷ 2 ∷ []) ≤ 600)
    × (fixed request + cost request.chunks (0 ∷ 2 ∷ []) + cost request.history_turns (0 ∷ 2 ∷ [])
        ≤ 4000)
allocate_fits_example =
    allocate_fits hundredths request 60 (0 ∷ 2 ∷ []) (0 ∷ 2 ∷ []) request_runs (omega arith)

allocate_chunks_greedy_example :
    Increasing 0 3 (0 ∷ 2 ∷ [])
    × ((j : ℕ)
        → j < 3
        → contains (0 ∷ 2 ∷ []) j
          ≡ leb
              (cost_if (λ k. ltb k j) request.chunks (0 ∷ 2 ∷ []) + get_or request.chunks j 0)
              600)
allocate_chunks_greedy_example =
    allocate_chunks_greedy hundredths request 60 (0 ∷ 2 ∷ []) (0 ∷ 2 ∷ []) request_runs

allocate_history_greedy_example :
    Increasing 0 3 (0 ∷ 2 ∷ [])
    × ((j : ℕ)
        → j < 3
        → contains (0 ∷ 2 ∷ []) j
          ≡ leb
              (cost_if (λ k. ltb j k) request.history_turns (0 ∷ 2 ∷ [])
                + get_or request.history_turns j 0)
              400)
allocate_history_greedy_example =
    allocate_history_greedy hundredths request 60 (0 ∷ 2 ∷ []) (0 ∷ 2 ∷ []) request_runs
