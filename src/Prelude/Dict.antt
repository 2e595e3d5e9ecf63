-- ===== src/Prelude/Dict.antt =====
-- Python's dict as an association list: a write to a key that is there keeps its place, a write to
-- a new key goes to the end.
use mathlib.Core.Path.{◌≡◌, refl}
use mathlib.Core.Bool.{Bool, false}
use mathlib.Core.Option.{Option, none, some}
use mathlib.Core.List.{List, [], ◌∷◌, map}
use native.Mathlib.Omega.{arith}
use vektra_stack.Prelude.Tests.{if◌then◌else◌}
use vektra_stack.Prelude.Eq.{Eq, ◌==◌, contains}

abbrev pub Dict {ℓ κ} : Type ℓ → Type κ → Type (ℓ ⊔ κ)
Dict K V = List (K × V)

module _ {ℓ κ} {K : Type ℓ} {V : Type κ} where
  abbrev pub keys : Dict K V → List K
  keys = map (λ e. e.0)

  abbrev pub values : Dict K V → List V
  values = map (λ e. e.1)

module _ {ℓ κ} {K : Type ℓ} {V : Type κ} ⦃e : Eq K⦄ where
  unfoldable pub get : Dict K V → K → Option V
  get [] k = none
  get ((j, v) ∷ m) k = if j == k then some v else get m k

  unfoldable pub put : Dict K V → K → V → Dict K V
  put [] k v = (k, v) ∷ []
  put ((j, w) ∷ m) k v = if j == k then (j, v) ∷ m else (j, w) ∷ put m k v

  unfoldable pub remove : Dict K V → K → Dict K V
  remove [] k = []
  remove ((j, w) ∷ m) k = let rest = remove m k in if j == k then rest else (j, w) ∷ rest

  pub get-put :
      (m : Dict K V) (k j : K) (v : V) → get (put m k v) j ≡ (if k == j then some v else get m j)
  unfolding get put
  get-put [] k j v = refl
  get-put ((i, w) ∷ m) k j v =
      ground (arith, e.beq_iff i k, e.beq_iff i j, e.beq_iff k j, get-put m k j v)

  pub put-put : (m : Dict K V) (k : K) (v w : V) → put (put m k v) k w ≡ put m k w
  unfolding put
  put-put [] k v w = ground (arith, e.beq_iff k k)
  put-put ((i, x) ∷ m) k v w = ground (arith, put-put m k v w)

  pub get-remove :
      (m : Dict K V) (k j : K) → get (remove m k) j ≡ (if k == j then none else get m j)
  unfolding get remove
  get-remove [] k j = ground arith
  get-remove ((i, w) ∷ m) k j =
      ground (arith, e.beq_iff i k, e.beq_iff i j, e.beq_iff k j, get-remove m k j)

  -- No key stands twice, as in every dict that starts empty.
  abbrev pub Distinct : Dict K V → Type κ
  Distinct [] = Unit
  Distinct ((j, v) ∷ m) = (get m j ≡ none) × Distinct m

  pub put-Distinct : (m : Dict K V) (k : K) (v : V) → Distinct m → Distinct (put m k v)
  unfolding put
  put-Distinct [] k v d = (unfold get in refl, tt)
  put-Distinct ((i, w) ∷ m) k v d =
      ground (arith, e.beq_iff i k, e.beq_iff k i, get-put m k i v, put-Distinct m k v d.1)

  pub remove-Distinct : (m : Dict K V) (k : K) → Distinct m → Distinct (remove m k)
  unfolding remove
  remove-Distinct [] k d = d
  remove-Distinct ((i, w) ∷ m) k d = ground (arith, get-remove m k i, remove-Distinct m k d.1)

  -- `for k in ks: del m[k]`
  unfoldable pub delete_all : Dict K V → List K → Dict K V
  delete_all m [] = m
  delete_all m (k ∷ ks) = delete_all (remove m k) ks

  pub get-delete_all :
      (m : Dict K V) (ks : List K) (j : K)
      → get (delete_all m ks) j ≡ (if contains ks j then none else get m j)
  unfolding delete_all contains
  get-delete_all m [] j = refl
  get-delete_all m (k ∷ ks) j =
      ground
        (arith, get-delete_all (remove m k) ks j, get-remove m k j, e.beq_iff j k, e.beq_iff k j)

  pub delete_all-Distinct : (m : Dict K V) (ks : List K) → Distinct m → Distinct (delete_all m ks)
  unfolding delete_all
  delete_all-Distinct m [] d = d
  delete_all-Distinct m (k ∷ ks) d = delete_all-Distinct (remove m k) ks (remove-Distinct m k d)

  -- The keys that hold a value with a property.
  unfoldable pub keys_where : (V → Bool) → Dict K V → List K
  keys_where p [] = []
  keys_where p ((j, v) ∷ m) = let rest = keys_where p m in if p v then j ∷ rest else rest

  pub contains-keys_where :
      (p : V → Bool) (m : Dict K V) (k : K)
      → Distinct m
      → contains (keys_where p m) k ≡ elim (get m k) [ none ↦ false | some v ↦ p v ]
  unfolding keys_where get contains
  contains-keys_where p [] k d = refl
  contains-keys_where p ((j, v) ∷ m) k d =
      ground (arith, contains-keys_where p m k d.1, e.beq_iff j k, e.beq_iff k j)
