-- ===== src/Prelude/Members.antt =====
-- Membership in a list.
use Prim.Native.Nat.{ℕ, zero, suc}
use mathlib.Core.Path.{◌≡◌, refl, sym, ap, subst, ◌∙◌}
use mathlib.Core.Bool.{Bool, true, false}
use mathlib.Core.List.{List, [], ◌∷◌, ◌++◌}
use mathlib.Core.Logic.{◌⊎◌, inl, inr}
use native.Mathlib.Omega.{arith}
use vektra_stack.Prelude.Tests.{Bool-cases, false-true}
use vektra_stack.Prelude.Lists.{select, any, take}

abbrev pub Member : {A : Type 0} → A → List A → Type 0
Member a [] = ⊥
Member a (x ∷ xs) = (a ≡ x) ⊎ Member a xs

module _ {A : Type 0} where
  select_hit :
      (p : A → Bool) (x : A) (xs : List A) → p x ≡ true → select p (x ∷ xs) ≡ x ∷ select p xs
  select_hit p x xs y = ground (arith, y)

  select_miss : (p : A → Bool) (x : A) (xs : List A) → p x ≡ false → select p (x ∷ xs) ≡ select p xs
  select_miss p x xs n = ground (arith, n)

  any_miss : (p : A → Bool) (x : A) (xs : List A) → p x ≡ false → any p (x ∷ xs) ≡ any p xs
  any_miss p x xs n = ground (arith, n)

  pub Member-select :
      (p : A → Bool) (a : A) (xs : List A) → Member a (select p xs) → Member a xs × (p a ≡ true)
  Member-select p a [] m = elim m [ ]
  Member-select p a (x ∷ xs) m = elim (Bool-cases (p x)) [
    | inl y ↦ elim (subst (Member a) (select_hit p x xs y) m) [
      | inl here ↦ (inl here, ap p here ∙ y)
      | inr later ↦ let (there, holds) = Member-select p a xs later in (inr there, holds)
    ]
    | inr n ↦
        let (there, holds) = Member-select p a xs (subst (Member a) (select_miss p x xs n) m) in
        (inr there, holds)
  ]

  pub select-Member :
      (p : A → Bool) (a : A) (xs : List A) → Member a xs → p a ≡ true → Member a (select p xs)
  select-Member p a [] m h = m
  select-Member p a (x ∷ xs) (inl e) h =
      let y : p x ≡ true = ap p (sym e) ∙ h in subst (Member a) (sym (select_hit p x xs y)) (inl e)
  select-Member p a (x ∷ xs) (inr m) h = elim (Bool-cases (p x)) [
    | inl y ↦ subst (Member a) (sym (select_hit p x xs y)) (inr (select-Member p a xs m h))
    | inr n ↦ subst (Member a) (sym (select_miss p x xs n)) (select-Member p a xs m h)
  ]

  pub Member-take : (n : ℕ) (a : A) (xs : List A) → Member a (take n xs) → Member a xs
  Member-take zero a xs m = elim m [ ]
  Member-take (suc n) a [] m = m
  Member-take (suc n) a (x ∷ xs) (inl e) = inl e
  Member-take (suc n) a (x ∷ xs) (inr m) = inr (Member-take n a xs m)

  pub Member-append : (a : A) (xs ys : List A) → Member a (xs ++ ys) → Member a xs ⊎ Member a ys
  Member-append a [] ys m = inr m
  Member-append a (x ∷ xs) ys (inl e) = inl (inl e)
  Member-append a (x ∷ xs) ys (inr m) = elim (Member-append a xs ys m) [
    | inl l ↦ inl (inr l)
    | inr r ↦ inr r
  ]

  pub Member-left : (a : A) (xs ys : List A) → Member a xs → Member a (xs ++ ys)
  Member-left a [] ys m = elim m [ ]
  Member-left a (x ∷ xs) ys (inl e) = inl e
  Member-left a (x ∷ xs) ys (inr m) = inr (Member-left a xs ys m)

  pub Member-right : (a : A) (xs ys : List A) → Member a ys → Member a (xs ++ ys)
  Member-right a [] ys m = m
  Member-right a (x ∷ xs) ys m = inr (Member-right a xs ys m)

  pub any-Member :
      (p : A → Bool) (xs : List A) → any p xs ≡ true → (a : A) × Member a xs × (p a ≡ true)
  any-Member p [] e = elim (false-true e) [ ]
  any-Member p (x ∷ xs) e = elim (Bool-cases (p x)) [
    | inl y ↦ (x, inl refl, y)
    | inr n ↦ let (a, m, h) = any-Member p xs (sym (any_miss p x xs n) ∙ e) in (a, inr m, h)
  ]
