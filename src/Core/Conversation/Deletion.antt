-- ===== src/Core/Conversation/Deletion.antt =====
-- What a soft deletion hides, and what it keeps.
use vektra_stack.Prelude.{
  ℕ, ◌≡◌, refl, ap, ◌∙◌, Option, none, some, [], String, true, false, arith, inl, inr,
}
use vektra_stack.Prelude.Tests.{Bool-cases, Option-cases}
use vektra_stack.Prelude.Eq.{nat_eq, beq_self}
use vektra_stack.Prelude.Dict
use vektra_stack.Core.Conversation.Tables.{Crypto, Conversation, Tables, done, live}
use vektra_stack.Core.Conversation.Persistent
use vektra_stack.Core.Conversation.Persistent.{Settings, in_namespace}

module _ (c : Crypto) (s : Settings) (t t' : Tables c.Cipher) (i : ℕ) where
  same_namespace :
      (namespace : Option String) (found : Conversation) (now : ℕ)
      → in_namespace c s namespace (record found { deleted_at = some now })
        ≡ in_namespace c s namespace found
  same_namespace none found now = refl
  same_namespace (some n) found now = refl

  deleted_row :
      (namespace : Option String) (now : ℕ)
      → Persistent.soft_delete c s t i namespace now ≡ (t', true)
      → (row : Conversation) × (Dict.get t'.conversations i ≡ some row)
        × (row.deleted_at ≡ some now)
        × (in_namespace c s namespace row ≡ true)
        × (t'.turns ≡ t.turns)
  unfolding Persistent.soft_delete
  deleted_row namespace now h = elim (Option-cases (live (Dict.get t.conversations i))) [
    | inl gone ↦ absurd (ground arith)
    | inr (found, e) ↦ elim (Bool-cases (in_namespace c s namespace found)) [
      | inr outside ↦ absurd (ground arith)
      | inl inside ↦
          let put : t' ≡ record t {
            conversations = Dict.put t.conversations i (record found { deleted_at = some now });
          } =
            ground arith in
          (
            record found { deleted_at = some now },
            rw put (rw (Dict.get-put, beq_self i) refl),
            refl,
            same_namespace namespace found now ∙ inside,
            ap (λ (x : Tables c.Cipher). x.turns) put,
          )
    ]
  ]

  -- A soft deletion that finds its conversation hides the history, makes later turns vanish without an
  -- error and is not found a second time; the encrypted rows stay, and so does the metadata, with the
  -- time of the deletion.
  pub soft_delete_hides :
      (namespace : Option String) (now : ℕ)
      → Persistent.soft_delete c s t i namespace now ≡ (t', true)
      → (Persistent.get_history c s t' i ≡ some [])
        × ((question : String) (answer : Option String) (response : Option ℕ) (later salt : ℕ)
            → Persistent.add_turn c s t' i question answer response later salt ≡ done t')
        × ((again : Option String) (later : ℕ)
            → Persistent.soft_delete c s t' i again later ≡ (t', false))
        × (t'.turns ≡ t.turns)
        × ((row : Conversation) × (Persistent.get_metadata c s t' i namespace ≡ some row)
            × (row.deleted_at ≡ some now))
  soft_delete_hides namespace now h =
      let (row, there, deleted, inside, same) = deleted_row namespace now h in
      let dead : live (Dict.get t'.conversations i) ≡ none = ground arith in
      (
        unfold Persistent.get_history in rw (dead, Persistent.get_history),
        λ question answer response later salt.
            unfold Persistent.add_turn in rw (dead, Persistent.add_turn),
        λ again later. unfold Persistent.soft_delete in rw (dead, Persistent.soft_delete),
        same,
        (
          row,
          unfold Persistent.get_metadata in rw (there, Persistent.get_metadata) (rw inside),
          deleted,
        ),
      )
