-- ===== src/Core/Budget/Selection.antt =====
-- The two selection loops: what they spend, the order of the result, and which positions they take.
use vektra_stack.Prelude.{
  ℕ, suc, ◌+◌, ◌≤◌, ◌<◌, ◌≡◌, refl, inl, inr, Bool, true, false, List, [], ◌∷◌, arith,
}
use vektra_stack.Prelude.Tests.{ltb, leb, if◌then◌else◌, Bool-cases}
use vektra_stack.Prelude.Lists.{length, get_or, drop, drop-cons_get_or}
use vektra_stack.Prelude.Eq.{nat_eq, contains}
use vektra_stack.Core.Budget.{select_chunks}

-- The tokens of those listed positions that pass a test.
unfoldable pub cost_if : (ℕ → Bool) → List ℕ → List ℕ → ℕ
cost_if p tokens [] = 0
cost_if p tokens (i ∷ is) = (if p i then get_or tokens i 0 else 0) + cost_if p tokens is

abbrev pub cost : List ℕ → List ℕ → ℕ
cost = cost_if (λ i. true)

-- Strictly increasing positions from `lo` up to `hi`.
abbrev pub Increasing : ℕ → ℕ → List ℕ → Type 0
Increasing lo hi [] = Unit
Increasing lo hi (i ∷ is) = (lo ≤ i) × (i < hi) × Increasing (suc i) hi is

pub Increasing-wider : (a b hi : ℕ) (is : List ℕ) → a ≤ b → Increasing b hi is → Increasing a hi is
Increasing-wider a b hi [] h p = tt
Increasing-wider a b hi (i ∷ is) h p = (omega arith, p.1, p.2)

-- The chunk loop.
pub cost-select_chunks :
    (budget : ℕ) (tokens : List ℕ) (i used : ℕ) (rest : List ℕ)
    → drop i tokens ≡ rest
    → used ≤ budget
    → used + cost tokens (select_chunks budget i used rest) ≤ budget
unfolding cost_if select_chunks
cost-select_chunks budget tokens i used [] d h = omega arith
cost-select_chunks budget tokens i used (t ∷ rest) d h =
    let (here, next) = drop-cons_get_or i tokens 0 t rest d in
    ground (
      arith,
      cost-select_chunks budget tokens (suc i) (used + t) rest next,
      cost-select_chunks budget tokens (suc i) used rest next h,
    )

pub select_chunks-Increasing :
    (budget i used : ℕ) (rest : List ℕ)
    → Increasing i (i + length rest) (select_chunks budget i used rest)
unfolding select_chunks
select_chunks-Increasing budget i used [] = tt
select_chunks-Increasing budget i used (t ∷ rest) =
    let e : i + suc (length rest) ≡ suc i + length rest = omega arith in
    rw e (elim (Bool-cases (leb (used + t) budget)) [
      | inl y ↦
          rw y (omega arith, omega arith, select_chunks-Increasing budget (suc i) (used + t) rest)
      | inr n ↦ rw n (
          Increasing-wider i (suc i) _ _ (omega arith)
            (select_chunks-Increasing budget (suc i) used rest))
    ])

-- Positions from `lo` on hold nothing below `lo`.
pub nothing_below :
    (tokens : List ℕ) (j lo hi : ℕ) (is : List ℕ)
    → j < lo
    → Increasing lo hi is
    → (contains is j ≡ false) × (cost_if (λ i. ltb i j) tokens is ≡ 0)
unfolding contains cost_if
nothing_below tokens j lo hi [] h p = (refl, refl)
nothing_below tokens j lo hi (i ∷ is) h p = ground (arith, nothing_below tokens j (suc i) hi is)

-- One round, from what the rest of the loop takes.
take_round :
    (budget : ℕ) (tokens : List ℕ) (i used j : ℕ) (more : List ℕ) (fits : Bool) (hi : ℕ)
    → fits ≡ leb (used + get_or tokens i 0) budget
    → i ≤ j
    → Increasing (suc i) hi more
    → (suc i ≤ j
        → contains more j
          ≡ leb
              ((if fits then used + get_or tokens i 0 else used)
                + cost_if (λ k. ltb k j) tokens more
                + get_or tokens j 0)
              budget)
    → contains (if fits then i ∷ more else more) j
      ≡ leb
          (used
            + cost_if (λ k. ltb k j) tokens (if fits then i ∷ more else more)
            + get_or tokens j 0)
          budget
unfolding contains cost_if
take_round budget tokens i used j more true hi e lo inc ih =
    ground (arith, ih, nothing_below tokens j (suc i) hi more)
take_round budget tokens i used j more false hi e lo inc ih =
    ground (arith, ih, nothing_below tokens j (suc i) hi more)

-- A position is taken exactly when it fits on top of the ones that were taken before it.
pub contains-select_chunks :
    (budget : ℕ) (tokens : List ℕ) (i used : ℕ) (rest : List ℕ) (j : ℕ)
    → drop i tokens ≡ rest
    → i ≤ j
    → j < i + length rest
    → contains (select_chunks budget i used rest) j
      ≡ leb
          (used
            + cost_if (λ k. ltb k j) tokens (select_chunks budget i used rest)
            + get_or tokens j 0)
          budget
unfolding select_chunks
contains-select_chunks budget tokens i used [] j d lo hi = absurd (omega arith)
contains-select_chunks budget tokens i used (t ∷ rest) j d lo hi =
    let (here, next) = drop-cons_get_or i tokens 0 t rest d in
    rw (← here) (
      take_round budget tokens i used j _ _ (suc i + length rest) refl lo
        (select_chunks-Increasing budget (suc i) _ rest)
        (λ h. contains-select_chunks budget tokens (suc i) _ rest j next h (omega arith)))
