-- ===== src/Shared/Registry.antt =====
-- vektra_shared/registry.py: `ProviderRegistry`.
mod Tests
use vektra_stack.Prelude.{
  ◌≡◌, refl, ap, ◌∙◌, Bool, true, false, Option, none, some, List, [], ◌∷◌, String, arith, inl, inr,
}
use vektra_stack.Prelude.Tests.{if◌then◌else◌, Bool-cases, Option-cases}
use vektra_stack.Prelude.Eq.{string_eq, ◌==◌, contains}
use vektra_stack.Prelude.Dict
use vektra_stack.Prelude.Dict.{Dict, keys, get-put}

-- What `get` returns or raises; the error names what is registered.
pub data Lookup (A : Type 0) : Type 0 where
  found : A → Lookup A
  value_error : List String → Lookup A

abbrev pub ProviderRegistry : Type 0 → Type 0
ProviderRegistry A = Dict String (Dict String A)

module _ {A : Type 0} where
  abbrev or_empty : Option (Dict String A) → Dict String A
  or_empty none = []
  or_empty (some m) = m

  -- `self._store.get(category, {})`
  abbrev category_map : ProviderRegistry A → String → Dict String A
  category_map s category = or_empty (Dict.get s category)

  unfoldable pub register : ProviderRegistry A → String → String → A → ProviderRegistry A
  register s category name instance' =
      Dict.put s category (Dict.put (category_map s category) name instance')

  lookup_in : Dict String A → String → Lookup A
  lookup_in m name = elim (Dict.get m name) [
    | none ↦ value_error (keys m)
    | some instance' ↦ found instance'
  ]

  unfoldable pub get : ProviderRegistry A → String → String → Lookup A
  unfolding lookup_in
  get s category name = lookup_in (category_map s category) name

  abbrev pub list : ProviderRegistry A → String → List String
  list s category = keys (category_map s category)

  unfoldable pub has : ProviderRegistry A → String → String → Bool
  has s category name = contains (keys (category_map s category)) name

  category_map-register :
      (s : ProviderRegistry A) (c n d : String) (x : A)
      → category_map (register s c n x) d
        ≡ (if c == d then Dict.put (category_map s d) n x else category_map s d)
  unfolding register
  category_map-register s c n d x = elim (Bool-cases (c == d)) [
    | inl same ↦
        let e : c ≡ d = (string_eq.beq_iff c d).0 same in
        rw same (
          ap or_empty {y = some (Dict.put (category_map s c) n x)} (get-put s c d _ ∙ rw same refl)
          ∙ ap (λ k. Dict.put (category_map s k) n x) e)
    | inr other ↦ rw other (ap or_empty {y = Dict.get s d} (get-put s c d _ ∙ rw other refl))
  ]

  lookup_in-put :
      (g : Dict String A) (n m : String) (x : A)
      → lookup_in (Dict.put g n x) m ≡ (
          if n == m then found x else elim (Dict.get g m) [
            | none ↦ value_error (keys (Dict.put g n x))
            | some y ↦ found y
          ])
  unfolding lookup_in
  lookup_in-put g n m x = elim (Bool-cases (n == m)) [
    | inl same ↦ rw (lookup_in, get-put, same) refl
    | inr other ↦ rw (lookup_in, get-put, other) refl
  ]

  contains-keys :
      (m : Dict String A) (k : String)
      → contains (keys m) k ≡ elim (Dict.get m k) [ none ↦ false | some v ↦ true ]
  unfolding Dict.get contains
  contains-keys [] k = refl
  contains-keys ((j, v) ∷ m) k =
      ground (arith, contains-keys m k, string_eq.beq_iff j k, string_eq.beq_iff k j)

  -- After a registration `get` gives the instance under its category and name, and under every other
  -- pair what it gave before, but that the error for a name in the category also lists the new name.
  pub get-register :
      (s : ProviderRegistry A) (c n d m : String) (x : A)
      → get (register s c n x) d m ≡ (
          if c == d
          then (if n == m then found x else elim (Dict.get (category_map s d) m) [
            | none ↦ value_error (keys (Dict.put (category_map s d) n x))
            | some y ↦ found y
          ])
          else get s d m)
  unfolding get lookup_in
  get-register s c n d m x = elim (Bool-cases (c == d)) [
    | inr other ↦ rw other (
        ap (λ z. lookup_in z m) {y = category_map s d}
          (category_map-register s c n d x ∙ rw other refl))
    | inl same ↦ rw same (
        ap (λ z. lookup_in z m) {y = Dict.put (category_map s d) n x}
          (category_map-register s c n d x ∙ rw same refl)
        ∙ lookup_in-put (category_map s d) n m x)
  ]

  -- A pair is in the registry exactly when `get` gives an instance for it.
  has-get :
      (s : ProviderRegistry A) (c n : String)
      → has s c n ≡ elim (get s c n) [ found x ↦ true | value_error available ↦ false ]
  unfolding get lookup_in has
  has-get s c n = elim (Option-cases (Dict.get (category_map s c) n)) [
    | inl absent ↦ rw (contains-keys, absent) refl
    | inr (x, there) ↦ rw (contains-keys, there) refl
  ]
