-- ===== src/Core/Budget/Limits.antt =====
-- What an allocation promises: it fits in the context window, it keeps the order of its inputs, and
-- it takes every chunk and turn that fits.
use mathlib.Core.List.{reverse}
use vektra_stack.Prelude.{ℕ, ◌+◌, ◌-◌, ◌≤◌, ◌<◌, ◌≡◌, refl, ap, ◌∙◌, true, List, arith}
use vektra_stack.Prelude.Tests.{ltb, leb}
use vektra_stack.Prelude.Lists.{length, get_or}
use vektra_stack.Prelude.Eq.{nat_eq, contains}
use vektra_stack.Core.Budget.{
  Ratios, ok, Request, fixed, remaining, select_chunks, select_history, allocate_token_budget,
}
use vektra_stack.Core.Budget.Selection.{
  cost_if, cost, Increasing, cost-select_chunks, select_chunks-Increasing, contains-select_chunks,
}
use vektra_stack.Core.Budget.History.{
  cost-select_history, contains-select_history, cost_if-reverse, contains-reverse,
  select_history-Increasing,
}

module _ (f : Ratios) (q : Request) (r : f.Ratio) where
  abbrev chunk_budget : ℕ
  chunk_budget = f.scale (remaining q) r

  abbrev history_budget : ℕ
  history_budget = remaining q - chunk_budget

  abbrev newest_first : List ℕ
  newest_first = select_history history_budget q.history_turns (length q.history_turns) 0

  -- The ratio is in range, and the two lists are the loops' results.
  allocated :
      (cs hs : List ℕ)
      → allocate_token_budget f q r ≡ ok (cs, hs)
      → (f.at_least_zero r ≡ true)
        × (f.at_most_one r ≡ true)
        × (cs ≡ select_chunks chunk_budget 0 0 q.chunks)
        × (hs ≡ reverse newest_first)
  unfolding allocate_token_budget
  allocated cs hs h = ground arith

  module _ (cs hs : List ℕ) (h : allocate_token_budget f q r ≡ ok (cs, hs)) where
    -- Whenever the allocation returns, the selected chunks cost at most the chunk budget, and fixed
    -- tokens, selected chunks and selected turns together fit in the context window, if the fixed
    -- tokens alone do.
    pub allocate_fits :
        fixed q ≤ q.context_window
        → (cost q.chunks cs ≤ f.scale (remaining q) r)
          × (fixed q + cost q.chunks cs + cost q.history_turns hs ≤ q.context_window)
    allocate_fits w =
        let (low, high, c, t) = allocated cs hs h in
        let chunks_fit = cost-select_chunks chunk_budget q.chunks 0 0 q.chunks refl (omega arith) in
        let turns_fit =
          cost-select_history history_budget q.history_turns (length q.history_turns) 0
            (omega arith) in
        let scaled = f.scale-le (remaining q) r low high in
        rw (c, t, cost_if-reverse) (omega arith, omega arith)

    -- Whenever the allocation returns, the selected chunks stand in the order of the input, and a
    -- chunk is selected exactly when it fits in the chunk budget on top of the selected chunks that
    -- precede it.
    pub allocate_chunks_greedy :
        Increasing 0 (length q.chunks) cs
        × ((j : ℕ)
            → j < length q.chunks
            → contains cs j
              ≡ leb
                  (cost_if (λ k. ltb k j) q.chunks cs + get_or q.chunks j 0)
                  (f.scale (remaining q) r))
    allocate_chunks_greedy =
        let (low, high, c, t) = allocated cs hs h in
        let all : 0 + length q.chunks ≡ length q.chunks = omega arith in
        rw c (
          rw all at (select_chunks-Increasing chunk_budget 0 0 q.chunks),
          λ j lt.
              contains-select_chunks chunk_budget q.chunks 0 0 q.chunks j refl (omega arith)
                (omega arith)
              ∙ ap (λ n. leb n chunk_budget) (omega arith),
        )

    -- Whenever the allocation returns, the selected turns stand in the order of the input, and a turn
    -- is selected exactly when it fits in what the chunk budget leaves, on top of the selected turns
    -- that are newer.
    pub allocate_history_greedy :
        Increasing 0 (length q.history_turns) hs
        × ((j : ℕ)
            → j < length q.history_turns
            → contains hs j
              ≡ leb
                  (cost_if (λ k. ltb j k) q.history_turns hs + get_or q.history_turns j 0)
                  (remaining q - f.scale (remaining q) r))
    allocate_history_greedy =
        let (low, high, c, t) = allocated cs hs h in
        rw t (
          select_history-Increasing history_budget q.history_turns (length q.history_turns) 0,
          λ j lt.
              rw (contains-reverse, cost_if-reverse)
                (contains-select_history history_budget q.history_turns (length q.history_turns) 0 j
                    lt
                  ∙ ap (λ n. leb n history_budget) (omega arith)),
        )
