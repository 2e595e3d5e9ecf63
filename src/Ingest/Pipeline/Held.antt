-- ===== src/Ingest/Pipeline/Held.antt =====
-- vektra_ingest/pipeline.py: the tables while a run is on its way, against those that it found.
use vektra_stack.Prelude.{
  ℕ, ◌≡◌, ◌↔◌, refl, sym, subst, ◌∙◌, inl, inr, Bool, true, false, not, ◌&&◌, Option, none, some,
  [], ◌∷◌, String, arith,
}
use vektra_stack.Prelude.Tests.{false-true, none-some, some_injective, Bool-cases}
use vektra_stack.Prelude.Lists.{any}
use vektra_stack.Prelude.Eq.{beq_self, nat_eq, string_eq, ◌==◌}
use vektra_stack.Prelude.Dict
use vektra_stack.Prelude.Dict.{get-put, put-Distinct}
use vektra_stack.Ingest.Pipeline.Documents.{
  SourceDocument, Documents, is_active, same_name, same_hash, clashes, write, update, committed,
  soft_deleted, restored,
}
use vektra_stack.Ingest.Pipeline.Names.{Unique, Indexed}

-- A row that is deleted stands in nobody's way.
pub write_inactive :
    (m : Documents) (id : ℕ) (d : SourceDocument)
    → is_active d ≡ false
    → write m id d ≡ some (Dict.put m id d)
unfolding write clashes
write_inactive m id d h = ground arith

-- A write that goes through puts the row in its place.
pub written_put :
    (m m' : Documents) (id : ℕ) (d : SourceDocument) → write m id d ≡ some m' → m' ≡ Dict.put m id d
unfolding write
written_put m m' id d e = ground (arith, e)

any_none :
    (m : Documents) (p : ℕ × SourceDocument → Bool)
    → Dict.Distinct m
    → ((j : ℕ) (b : SourceDocument) → Dict.get m j ≡ some b → p (j, b) ≡ false)
    → any p m ≡ false
unfolding Dict.get
any_none [] p d h = refl
any_none ((k, a) ∷ m) p d h = ground (
  arith,
  any_none m p d.1 (λ j b e. h j b (ground (arith, nat_eq.beq_iff k j))),
  h k a,
  nat_eq.beq_iff k k,
)

-- Where no other active row has its name or its content, a row is written.
pub write_alone :
    (m : Documents) (id : ℕ) (d : SourceDocument)
    → Dict.Distinct m
    → ((j : ℕ) (b : SourceDocument)
        → Dict.get m j ≡ some b
        → is_active b ≡ true
        → same_name d b ≡ true
        → j ≡ id)
    → ((j : ℕ) (b : SourceDocument)
        → Dict.get m j ≡ some b
        → is_active b ≡ true
        → same_hash d b ≡ true
        → j ≡ id)
    → write m id d ≡ some (Dict.put m id d)
unfolding write clashes
write_alone m id d dist n h = ground (
  arith,
  any_none m (λ e. not (e.0 == id) && (is_active e.1 && same_name d e.1)) dist
      (λ j b e. ground (arith, n j b, nat_eq.beq_iff j id)),
  any_none m (λ e. not (e.0 == id) && (is_active e.1 && same_hash d e.1)) dist
      (λ j b e. ground (arith, h j b, nat_eq.beq_iff j id)),
)

-- The active rows are those of `base`.
abbrev pub SameActive : Documents → Documents → Type 0
SameActive base docs =
    (j : ℕ) (b : SourceDocument)
    → is_active b ≡ true
    → (Dict.get docs j ≡ some b) ↔ (Dict.get base j ≡ some b)

-- An active row carries no reason for a deletion.
abbrev pub Unmarked : Documents → Type 0
Unmarked base =
    (j : ℕ) (b : SourceDocument)
    → Dict.get base j ≡ some b
    → is_active b ≡ true
    → b.deletion_reason ≡ none

-- The active rows are those of `base` but for the row `o`, which is superseded.
pub record Held (base : Documents) (now : ℕ) (o : Option ℕ) (docs : Documents) : Type 0 where
  pub distinct : Dict.Distinct docs
  pub others :
      (j : ℕ) (b : SourceDocument)
      → is_active b ≡ true
      → (o ≡ some j → ⊥)
      → (Dict.get docs j ≡ some b) ↔ (Dict.get base j ≡ some b)
  pub waiting :
      (j : ℕ)
      → o ≡ some j
      → (d : SourceDocument) × (Dict.get base j ≡ some d)
        × (is_active d ≡ true)
        × (Dict.get docs j ≡ some (soft_deleted now "superseded" d))

pub delete_active :
    (m : Documents) (id : ℕ) (d : SourceDocument) (f : SourceDocument → SourceDocument)
    → Dict.get m id ≡ some d
    → is_active (f d) ≡ false
    → committed m true (update m id f) ≡ Dict.put m id (f d)
delete_active m id d f e a = rw (e, write_inactive m id (f d) a) refl

module _ (base : Documents) (now : ℕ) where
  pub start-Held : Dict.Distinct base → Held base now none base
  start-Held d = record {
    distinct = d;
    others = λ j b a n. (λ e. e, λ e. e);
    waiting = λ j e. elim (none-some e) [ ];
  }

  pub supersede-Held :
      (id : ℕ) (d : SourceDocument)
      → Dict.Distinct base
      → Dict.get base id ≡ some d
      → is_active d ≡ true
      → Held base now
          (some id)
          (committed base true (update base id (soft_deleted now "superseded")))
  supersede-Held id d dist e a =
      subst (Held base now (some id))
        (sym (delete_active base id d (soft_deleted now "superseded") e refl))
        (record {
          distinct = put-Distinct base id (soft_deleted now "superseded" d) dist;
          others = λ j b active other. ground (
            arith,
            get-put base id j (soft_deleted now "superseded" d),
            nat_eq.beq_iff id j,
            other,
          );
          waiting = λ j e'.
              let same : id ≡ j = some_injective e' in
              (
                d,
                subst (λ k. Dict.get base k ≡ some d) same e,
                a,
                subst
                    (λ k.
                      Dict.get (Dict.put base id (soft_deleted now "superseded" d)) k
                      ≡ some (soft_deleted now "superseded" d))
                    same (rw (get-put, beq_self id) refl),
              );
        })

  pub deleted-Held :
      (o : Option ℕ) (docs : Documents) (id : ℕ) (row : SourceDocument)
      → Held base now o docs
      → Dict.get docs id ≡ none
      → is_active row ≡ false
      → Held base now o (Dict.put docs id row)
  deleted-Held o docs id row h e a = record {
    distinct = put-Distinct docs id row h.distinct;
    others = λ j b active other. ground (
      arith,
      h.others j b active other,
      get-put docs id j row,
      nat_eq.beq_iff id j,
      h.others id b active,
    );
    waiting = λ j e'.
        let (d, at_base, active, at_docs) = h.waiting j e' in
        (d, at_base, active, ground (arith, get-put docs id j row, nat_eq.beq_iff id j, at_docs));
  }

restored-soft_deleted :
    (now : ℕ) (reason : String) (d : SourceDocument)
    → is_active d ≡ true
    → d.deletion_reason ≡ none
    → restored (soft_deleted now reason d) ≡ d
restored-soft_deleted now reason d active unmarked =
    let e : d.deleted_at ≡ none = ground arith in ground (arith, e, unmarked)

module _ (base : Documents) (now : ℕ) where
  alone :
      (docs : Documents) (id : ℕ) (d : SourceDocument)
      (same : SourceDocument → SourceDocument → Bool)
      → Held base now (some id) docs
      → Unique same base
      → Dict.get base id ≡ some d
      → is_active d ≡ true
      → (j : ℕ) (b : SourceDocument) → Dict.get docs j ≡ some b
      → is_active b ≡ true
      → same d b ≡ true
      → j ≡ id
  alone docs id d same h u e a j b e' a' s = elim (Bool-cases (id == j)) [
    | inl y ↦ sym ((nat_eq.beq_iff id j).0 y)
    | inr n ↦ sym (
        u id j d b e
          ((h.others j b a'
              (λ x. false-true (sym n ∙ (nat_eq.beq_iff id j).1 (some_injective x)))).0
            e')
          a a' s)
  ]

  pub restored-SameActive :
      (docs : Documents) (id : ℕ)
      → Held base now (some id) docs
      → Indexed base
      → Unmarked base
      → SameActive base (committed docs true (update docs id restored))
  restored-SameActive docs id h (names, hashes) clean =
      let (d, e, a, waits) = h.waiting id refl in
      let back = restored-soft_deleted now "superseded" d a (clean id d e a) in
      let written =
        write_alone docs id d h.distinct (alone docs id d same_name h names e a)
          (alone docs id d same_hash h hashes e a) in
      let all : committed docs true (update docs id restored) ≡ Dict.put docs id d =
        rw (waits, back, written) refl in
      subst (SameActive base) (sym all) (λ j b active.
        ground (arith, get-put docs id j d, nat_eq.beq_iff id j, h.others j b active, e))

  pub kept-SameActive : (docs : Documents) → Held base now none docs → SameActive base docs
  kept-SameActive docs h j b active = h.others j b active (λ e. none-some e)
