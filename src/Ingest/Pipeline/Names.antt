-- ===== src/Ingest/Pipeline/Names.antt =====
-- At most one active document for a name, and one for a content, in a namespace.
use vektra_stack.Prelude.{ℕ, ◌≡◌, Bool, true, false, not, ◌&&◌, some, [], ◌∷◌, arith}
use vektra_stack.Prelude.Lists.{any}
use vektra_stack.Prelude.Eq.{nat_eq, string_eq, ◌==◌}
use vektra_stack.Prelude.Dict
use vektra_stack.Prelude.Dict.{get-put}
use vektra_stack.Ingest.Pipeline.Documents.{
  SourceDocument, Documents, is_active, same_name, same_hash, clashes, write,
}

-- A symmetric test of two rows
module _ (same : SourceDocument → SourceDocument → Bool) where
  abbrev pub Unique : Documents → Type 0
  Unique m =
      (i j : ℕ) (a b : SourceDocument)
      → Dict.get m i ≡ some a
      → Dict.get m j ≡ some b
      → is_active a ≡ true
      → is_active b ≡ true
      → same a b ≡ true
      → i ≡ j

  any-get :
      (m : Documents) (p : ℕ × SourceDocument → Bool) (j : ℕ) (b : SourceDocument)
      → any p m ≡ false
      → Dict.get m j ≡ some b
      → p (j, b) ≡ false
  unfolding Dict.get
  any-get [] p j b h e = ground arith
  any-get ((k, d) ∷ m) p j b h e = ground (arith, any-get m p j b, nat_eq.beq_iff k j)

  no_clash :
      (m : Documents) (i j : ℕ) (a b : SourceDocument)
      → clashes same m i a ≡ false
      → Dict.get m j ≡ some b
      → is_active a ≡ true
      → is_active b ≡ true
      → same a b ≡ true
      → i ≡ j
  unfolding clashes
  no_clash m i j a b h e active_a active_b s = ground (
    arith,
    any-get m (λ e. not (e.0 == i) && (is_active e.1 && same a e.1)) j b,
    nat_eq.beq_iff j i,
  )

  module _ (symmetric : (a b : SourceDocument) → same a b ≡ true → same b a ≡ true) where
    pub put-Unique :
        (m : Documents) (id : ℕ) (d : SourceDocument)
        → clashes same m id d ≡ false
        → Unique m
        → Unique (Dict.put m id d)
    put-Unique m id d h u i j a b at_i at_j active_a active_b s = ground (
      arith,
      get-put m id i d,
      get-put m id j d,
      nat_eq.beq_iff id i,
      nat_eq.beq_iff id j,
      no_clash m i j a b,
      no_clash m j i b a,
      symmetric a b,
      u i j a b,
    )

same_name_symmetric : (a b : SourceDocument) → same_name a b ≡ true → same_name b a ≡ true
same_name_symmetric a b h = ground (
  arith,
  string_eq.beq_iff a.namespace_id b.namespace_id,
  string_eq.beq_iff b.namespace_id a.namespace_id,
  string_eq.beq_iff a.filename b.filename,
  string_eq.beq_iff b.filename a.filename,
)

same_hash_symmetric : (a b : SourceDocument) → same_hash a b ≡ true → same_hash b a ≡ true
same_hash_symmetric a b h = ground (
  arith,
  string_eq.beq_iff a.namespace_id b.namespace_id,
  string_eq.beq_iff b.namespace_id a.namespace_id,
  string_eq.beq_iff a.content_hash b.content_hash,
  string_eq.beq_iff b.content_hash a.content_hash,
)

-- Both indexes hold.
abbrev pub Indexed : Documents → Type 0
Indexed m = Unique same_name m × Unique same_hash m

pub write-Indexed :
    (m m' : Documents) (id : ℕ) (d : SourceDocument)
    → Indexed m
    → write m id d ≡ some m'
    → Indexed m'
unfolding write
write-Indexed m m' id d (n, h) e = ground (
  arith,
  put-Unique same_name same_name_symmetric m id d,
  put-Unique same_hash same_hash_symmetric m id d,
)
