-- ===== src/Ingest/Pipeline/Lookup.antt =====
-- vektra_ingest/pipeline.py: what the two lookups of a run find.
use vektra_stack.Prelude.{
  ℕ, ◌≡◌, refl, sym, ap, inl, inr, Bool, true, false, ◌&&◌, some, List, [], ◌∷◌, String, arith,
}
use vektra_stack.Prelude.Tests.{Bool-cases}
use vektra_stack.Prelude.Lists.{select}
use vektra_stack.Prelude.Eq.{nat_eq, string_eq, ◌==◌}
use vektra_stack.Prelude.Dict
use vektra_stack.Ingest.Pipeline.Documents.{
  SourceDocument, Documents, Found, looked_up, is_active, same_hash, one_row, find_by_hash,
  find_by_name, scalar_one_or_none,
}
use vektra_stack.Ingest.Pipeline.Names.{Unique}

pub looked_up-one_row :
    (b : Bool) (f : Found) (id : ℕ) (d : SourceDocument)
    → looked_up b f ≡ one_row id d
    → f ≡ one_row id d
looked_up-one_row true f id d e = e
looked_up-one_row false f id d e = ground arith

one_row_lem :
    (xs : List (ℕ × SourceDocument)) (id : ℕ) (d : SourceDocument)
    → scalar_one_or_none xs ≡ one_row id d
    → xs ≡ (id, d) ∷ []
one_row_lem [] id d e = ground arith
one_row_lem ((j, b) ∷ []) id d e = ground arith
one_row_lem (x ∷ y ∷ xs) id d e = ground arith

selected :
    (m : Documents) (p : ℕ × SourceDocument → Bool) (id : ℕ) (d : SourceDocument)
    (rest : List (ℕ × SourceDocument))
    → Dict.Distinct m
    → select p m ≡ (id, d) ∷ rest
    → (Dict.get m id ≡ some d) × (p (id, d) ≡ true)
unfolding Dict.get
selected [] p id d rest dist e = ground arith
selected ((k, a) ∷ m) p id d rest dist e =
    ground (arith, selected m p id d rest dist.1, nat_eq.beq_iff k id, nat_eq.beq_iff id id)

module _ (m : Documents) (dist : Dict.Distinct m) (namespace text : String) (id : ℕ)
    (d : SourceDocument) where
  pub find_by_name-one_row :
      find_by_name m namespace text ≡ one_row id d
      → (Dict.get m id ≡ some d)
        × (is_active d ≡ true)
        × (d.namespace_id ≡ namespace)
        × (d.filename ≡ text)
  unfolding find_by_name
  find_by_name-one_row e =
      let p : ℕ × SourceDocument → Bool =
        λ e. is_active e.1 && (e.1.namespace_id == namespace && e.1.filename == text) in
      let found = selected m p id d [] dist (one_row_lem (select p m) id d e) in
      ground (
        arith,
        found,
        string_eq.beq_iff d.namespace_id namespace,
        string_eq.beq_iff d.filename text,
      )

  pub find_by_hash-one_row :
      find_by_hash m namespace text ≡ one_row id d
      → (Dict.get m id ≡ some d)
        × (is_active d ≡ true)
        × (d.namespace_id ≡ namespace)
        × (d.content_hash ≡ text)
  unfolding find_by_hash
  find_by_hash-one_row e =
      let p : ℕ × SourceDocument → Bool =
        λ e. is_active e.1 && (e.1.namespace_id == namespace && e.1.content_hash == text) in
      let found = selected m p id d [] dist (one_row_lem (select p m) id d e) in
      ground (
        arith,
        found,
        string_eq.beq_iff d.namespace_id namespace,
        string_eq.beq_iff d.content_hash text,
      )

selected_none :
    (m : Documents) (p : ℕ × SourceDocument → Bool)
    → Dict.Distinct m
    → ((j : ℕ) (b : SourceDocument) → Dict.get m j ≡ some b → p (j, b) ≡ false)
    → select p m ≡ []
unfolding Dict.get
selected_none [] p dist h = refl
selected_none ((k, a) ∷ m) p dist h = ground (
  arith,
  h k a,
  nat_eq.beq_iff k k,
  selected_none m p dist.1 (λ j b e. h j b (ground (arith, nat_eq.beq_iff k j))),
)

selected_one :
    (m : Documents) (p : ℕ × SourceDocument → Bool) (id : ℕ) (d : SourceDocument)
    → Dict.Distinct m
    → Dict.get m id ≡ some d
    → p (id, d) ≡ true
    → ((j : ℕ) (b : SourceDocument) → Dict.get m j ≡ some b → p (j, b) ≡ true → j ≡ id)
    → select p m ≡ (id, d) ∷ []
unfolding Dict.get
selected_one [] p id d dist e y h = ground arith
selected_one ((k, a) ∷ m) p id d dist e y h = elim (Bool-cases (k == id)) [
  | inl same ↦ ground (
    arith,
    same,
    y,
    nat_eq.beq_iff k id,
    selected_none m p dist.1
        (λ j b e'. ground (arith, same, h j b, nat_eq.beq_iff k j, nat_eq.beq_iff k id, dist)),
  )
  | inr other ↦ ground (
    arith,
    other,
    h k a,
    nat_eq.beq_iff k k,
    nat_eq.beq_iff k id,
    selected_one m p id d dist.1 (ground (arith, other)) y
        (λ j b e'. h j b (ground (arith, nat_eq.beq_iff k j))),
  )
]

pub find_by_hash-there :
    (m : Documents) (namespace text : String) (id : ℕ) (d : SourceDocument)
    → Dict.Distinct m
    → Unique same_hash m
    → Dict.get m id ≡ some d
    → is_active d ≡ true
    → d.namespace_id ≡ namespace
    → d.content_hash ≡ text
    → find_by_hash m namespace text ≡ one_row id d
unfolding find_by_hash
find_by_hash-there m namespace text id d dist u e a n c =
    let p : ℕ × SourceDocument → Bool =
      λ e. is_active e.1 && (e.1.namespace_id == namespace && e.1.content_hash == text) in
    ap scalar_one_or_none (
      selected_one m p id d dist e
        (ground (
          arith,
          a,
          string_eq.beq_iff d.namespace_id namespace,
          string_eq.beq_iff d.content_hash text,
        ))
        (λ j b e' y. sym (
          u id j d b e e' a (ground arith) (
            ground (
              arith,
              a,
              n,
              c,
              string_eq.beq_iff d.namespace_id b.namespace_id,
              string_eq.beq_iff d.content_hash b.content_hash,
              string_eq.beq_iff b.namespace_id namespace,
              string_eq.beq_iff b.content_hash text,
            )))))
