-- ===== src/Core/Budget/History.antt =====
-- The history loop, which runs from the newest turn to the oldest and reverses its result.
use mathlib.Core.List.{reverse, reverse-cons}
use vektra_stack.Prelude.{
  ℕ, zero, suc, ◌+◌, ◌≤◌, ◌<◌, ◌≡◌, refl, ◌∙◌, inl, inr, Bool, true, false, List, [], ◌∷◌, ◌++◌,
  arith,
}
use vektra_stack.Prelude.Tests.{ltb, leb, if◌then◌else◌, Bool-cases}
use vektra_stack.Prelude.Lists.{get_or}
use vektra_stack.Prelude.Eq.{nat_eq, contains}
use vektra_stack.Core.Budget.{select_history}
use vektra_stack.Core.Budget.Selection.{cost_if, cost, Increasing}

-- Strictly decreasing positions below `hi`.
abbrev Decreasing : ℕ → List ℕ → Type 0
Decreasing hi [] = Unit
Decreasing hi (i ∷ is) = (i < hi) × Decreasing i is

Decreasing-wider : (a b : ℕ) (is : List ℕ) → a ≤ b → Decreasing a is → Decreasing b is
Decreasing-wider a b [] h p = tt
Decreasing-wider a b (i ∷ is) h p = (omega arith, p.1)

pub cost-select_history :
    (budget : ℕ) (turns : List ℕ) (n used : ℕ)
    → used ≤ budget
    → used + cost turns (select_history budget turns n used) ≤ budget
unfolding cost_if select_history
cost-select_history budget turns zero used h = omega arith
cost-select_history budget turns (suc i) used h = ground (
  arith,
  cost-select_history budget turns i (used + get_or turns i 0),
  cost-select_history budget turns i used h,
)

select_history-Decreasing :
    (budget : ℕ) (turns : List ℕ) (n used : ℕ) → Decreasing n (select_history budget turns n used)
unfolding select_history
select_history-Decreasing budget turns zero used = tt
select_history-Decreasing budget turns (suc i) used =
    elim (Bool-cases (leb (used + get_or turns i 0) budget)) [
      | inl y ↦ rw y (omega arith, select_history-Decreasing budget turns i _)
      | inr n ↦ rw n (
          Decreasing-wider i (suc i) _ (omega arith)
            (select_history-Decreasing budget turns i used))
    ]

nothing_above :
    (turns : List ℕ) (j hi : ℕ) (is : List ℕ)
    → hi ≤ j
    → Decreasing hi is
    → (contains is j ≡ false) × (cost_if (λ i. ltb j i) turns is ≡ 0)
unfolding contains cost_if
nothing_above turns j hi [] h p = (refl, refl)
nothing_above turns j hi (i ∷ is) h p = ground (arith, nothing_above turns j i is)

take_round :
    (budget : ℕ) (turns : List ℕ) (i used j : ℕ) (more : List ℕ) (fits : Bool)
    → fits ≡ leb (used + get_or turns i 0) budget
    → j ≤ i
    → Decreasing i more
    → (j < i
        → contains more j
          ≡ leb
              ((if fits then used + get_or turns i 0 else used)
                + cost_if (λ k. ltb j k) turns more
                + get_or turns j 0)
              budget)
    → contains (if fits then i ∷ more else more) j
      ≡ leb
          (used + cost_if (λ k. ltb j k) turns (if fits then i ∷ more else more) + get_or turns j 0)
          budget
unfolding contains cost_if
take_round budget turns i used j more true e lo inc ih =
    ground (arith, ih, nothing_above turns j i more)
take_round budget turns i used j more false e lo inc ih =
    ground (arith, ih, nothing_above turns j i more)

pub contains-select_history :
    (budget : ℕ) (turns : List ℕ) (n used j : ℕ)
    → j < n
    → contains (select_history budget turns n used) j
      ≡ leb
          (used
            + cost_if (λ k. ltb j k) turns (select_history budget turns n used)
            + get_or turns j 0)
          budget
unfolding select_history
contains-select_history budget turns zero used j h = absurd (omega arith)
contains-select_history budget turns (suc i) used j h =
    take_round budget turns i used j _ _ refl (omega arith)
      (select_history-Decreasing budget turns i _)
      (λ lt. contains-select_history budget turns i _ j lt)

-- What the reversal keeps, and what it turns round.
cost_if-append :
    (p : ℕ → Bool) (turns xs ys : List ℕ)
    → cost_if p turns (xs ++ ys) ≡ cost_if p turns xs + cost_if p turns ys
unfolding cost_if
cost_if-append p turns [] ys = omega arith
cost_if-append p turns (x ∷ xs) ys = omega (arith, cost_if-append p turns xs ys)

pub cost_if-reverse :
    (p : ℕ → Bool) (turns xs : List ℕ) → cost_if p turns (reverse xs) ≡ cost_if p turns xs
unfolding cost_if
cost_if-reverse p turns [] = refl
cost_if-reverse p turns (x ∷ xs) =
    rw (reverse-cons, cost_if-append) (omega (arith, cost_if-reverse p turns xs))

contains-snoc : (xs : List ℕ) (x j : ℕ) → contains (xs ++ x ∷ []) j ≡ contains (x ∷ xs) j
unfolding contains
contains-snoc [] x j = refl
contains-snoc (y ∷ xs) x j = ground (arith, contains-snoc xs x j)

contains_cons :
    (xs ys : List ℕ) (x j : ℕ)
    → contains xs j ≡ contains ys j
    → contains (x ∷ xs) j ≡ contains (x ∷ ys) j
unfolding contains
contains_cons xs ys x j h = ground arith

pub contains-reverse : (xs : List ℕ) (j : ℕ) → contains (reverse xs) j ≡ contains xs j
contains-reverse [] j = refl
contains-reverse (x ∷ xs) j =
    rw reverse-cons (contains-snoc (reverse xs) x j ∙ contains_cons _ _ x j (contains-reverse xs j))

Increasing-snoc :
    (lo hi top i : ℕ) (xs : List ℕ)
    → Increasing lo hi xs
    → lo ≤ i
    → hi ≤ i
    → i < top
    → Increasing lo top (xs ++ i ∷ [])
Increasing-snoc lo hi top i [] p a b c = (a, c, tt)
Increasing-snoc lo hi top i (x ∷ xs) p a b c =
    (p.0, omega arith, Increasing-snoc (suc x) hi top i xs p.2 (omega arith) b c)

reverse-Increasing :
    (hi top : ℕ) (xs : List ℕ) → Decreasing hi xs → hi ≤ top → Increasing 0 top (reverse xs)
reverse-Increasing hi top [] p h = tt
reverse-Increasing hi top (x ∷ xs) p h = rw reverse-cons (
    Increasing-snoc 0 x top x (reverse xs) (reverse-Increasing x x xs p.1 (omega arith))
      (omega arith) (omega arith) (omega arith))

pub select_history-Increasing :
    (budget : ℕ) (turns : List ℕ) (n used : ℕ)
    → Increasing 0 n (reverse (select_history budget turns n used))
select_history-Increasing budget turns n used =
    reverse-Increasing n n _ (select_history-Decreasing budget turns n used) (omega arith)
