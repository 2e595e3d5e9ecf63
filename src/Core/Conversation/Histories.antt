-- ===== src/Core/Conversation/Histories.antt =====
-- Runs of `add_turn` on the two stores side by side, and what deletion does.
use vektra_stack.Prelude.{
  ℕ, ◌+◌, ◌≤◌, ◌≡◌, ◌≢◌, refl, ap, ◌∙◌, Option, none, some, List, [], ◌∷◌, ◌++◌, String, ◌&&◌,
  arith, inl, inr, append-nil,
}
use vektra_stack.Prelude.Tests.{ltb, Bool-cases, Option-cases}
use vektra_stack.Prelude.Lists.{any, select-append}
use vektra_stack.Prelude.Eq.{nat_eq, ◌==◌, beq_self, beq_ne}
use vektra_stack.Prelude.Dict
use vektra_stack.Core.Conversation.{Turn}
use vektra_stack.Core.Conversation.Memory
use vektra_stack.Core.Conversation.Memory.{MemoryStore}
use vektra_stack.Core.Conversation.Tables.{
  Crypto, Conversation, TurnRow, Tables, done, live, belongs, rows_of,
}
use vektra_stack.Core.Conversation.Persistent
use vektra_stack.Core.Conversation.Persistent.{Settings, new_row, prune}
use vektra_stack.Core.Conversation.Rows.{rows_of-prune_ne}
use vektra_stack.Core.Conversation.Refinement.{
  Call, run_memory, run_persistent, settle, Holds, get_history-Holds, add_turn_done, add_turn-Holds,
}

module _ (c : Crypto) (s : Settings) (i : ℕ) where
  -- The tables agree on conversation `i`.
  record Same (t t' : Tables c.Cipher) : Type 0 where
    conversation : Dict.get t'.conversations i ≡ Dict.get t.conversations i
    rows : rows_of i t'.turns ≡ rows_of i t.turns

  Same-Holds :
      {t t' : Tables c.Cipher} {turns : List Turn}
      → Same t t'
      → Holds c s i t turns
      → Holds c s i t' turns
  Same-Holds e h = record {
    row = h.row;
    found = rw e.conversation h.found;
    numbered = rw e.rows h.numbered;
    counted = rw e.rows h.counted;
    bounded = rw e.rows h.bounded;
    decrypted = rw e.rows h.decrypted;
  }

  module _ (x : Call) (other : x.conversation_id ≢ i) where
    abbrev added : ℕ → TurnRow c.Cipher
    added n = new_row c s x.conversation_id n x.question x.answer x.response_id x.now x.salt

    rows_of_other :
        (t : Tables c.Cipher) (n : ℕ)
        → rows_of i (prune c s x.conversation_id n (t.turns ++ added n ∷ [])) ≡ rows_of i t.turns
    rows_of_other t n = elim (Bool-cases (ltb s.max_turns n)) [
      | inl over ↦ rw over (rows_of-prune_ne x.conversation_id i _ _ other ∙ appended)
      | inr fits ↦ rw fits appended
    ]
      where
        appended : rows_of i (t.turns ++ added n ∷ []) ≡ rows_of i t.turns
        appended =
            select-append (belongs i) t.turns (added n ∷ [])
            ∙ ap (λ rows. rows_of i t.turns ++ rows) (ground arith)
            ∙ append-nil (rows_of i t.turns)

    Same-insert :
        (t : Tables c.Cipher) (found : Conversation) (n : ℕ)
        → Same t
            (settle c s t (Persistent.insert_turn c s t x.conversation_id found (added n) x.now))
    unfolding Persistent.insert_turn
    Same-insert t found n =
        elim (Bool-cases (any (λ r. belongs x.conversation_id r && r.turn_number == n) t.turns)) [
          | inl taken ↦ rw taken (record { conversation = refl; rows = refl })
          | inr free ↦ rw free (record {
            conversation = rw (Dict.get-put, beq_ne x.conversation_id i other) refl;
            rows = rows_of_other t n;
          })
        ]

    Same-add_turn :
        (t : Tables c.Cipher)
        → Same t (
            settle c s t (
              Persistent.add_turn c s t x.conversation_id x.question x.answer x.response_id x.now
                x.salt))
    Same-add_turn t = elim (Option-cases (live (Dict.get t.conversations x.conversation_id))) [
      | inl gone ↦
          unfold Persistent.add_turn in
          rw (gone, Persistent.add_turn) (record { conversation = refl; rows = refl })
      | inr (found, e) ↦ rw (add_turn_found t found e) (Same-insert t found (found.turn_count + 1))
    ]
      where
        add_turn_found :
            (t : Tables c.Cipher) (found : Conversation)
            → live (Dict.get t.conversations x.conversation_id) ≡ some found
            → Persistent.add_turn c s t x.conversation_id x.question x.answer x.response_id x.now
                x.salt
              ≡ Persistent.insert_turn c s t x.conversation_id found
                  (added (found.turn_count + 1))
                  x.now
        add_turn_found t found e = unfold Persistent.add_turn in rw (e, Persistent.add_turn) refl

  -- One call on both stores.
  add_turn_both :
      (t : Tables c.Cipher) (m : MemoryStore) (x : Call)
      → m.max_turns ≡ s.max_turns
      → Holds c s i t (Memory.get_history m i)
      → Holds c s i
          (settle c s t (
            Persistent.add_turn c s t x.conversation_id x.question x.answer x.response_id x.now
              x.salt))
          (Memory.get_history (Memory.add_turn m x.conversation_id x.question x.answer) i)
  unfolding Memory.get_history
  add_turn_both t m x e h = elim (Bool-cases (x.conversation_id == i)) [
    | inl same ↦
        (let here : x.conversation_id ≡ i = ground arith in
          rw (Memory.get_history-add_turn, same, e, here)
            (rw (add_turn_done c s i t _ h x) (add_turn-Holds c s i t _ h x)))
    | inr other ↦
        (let there : x.conversation_id ≢ i = ground arith in
          rw (Memory.get_history-add_turn, other) (Same-Holds (Same-add_turn x there t) h))
  ]

  -- On a conversation that both stores hold with one history, every run of `add_turn` calls, on this
  -- and on other conversations, leaves both stores with one history again: what the persistent store
  -- decrypts from its pruned rows is what the in-memory store keeps.
  pub histories_agree :
      (xs : List Call) (t : Tables c.Cipher) (m : MemoryStore)
      → m.max_turns ≡ s.max_turns
      → Holds c s i t (Memory.get_history m i)
      → Persistent.get_history c s (run_persistent c s t xs) i
        ≡ some (Memory.get_history (run_memory m xs) i)
  unfolding run_persistent run_memory
  histories_agree [] t m e h = get_history-Holds c s i t _ h
  histories_agree (x ∷ xs) t m e h =
      histories_agree xs _ _ (unfold Memory.add_turn in e) (add_turn_both t m x e h)

  -- A conversation that was just created, under an id that no row of a turn carries, holds the empty
  -- history, whatever the other conversations are.
  pub create_conversation-Holds :
      (t t' : Tables c.Cipher) (namespace : String) (key : ℕ) (title : Option String)
      (fresh now : ℕ)
      → rows_of i t.turns ≡ []
      → 1 ≤ s.max_turns
      → Persistent.create_conversation c s t namespace key title (some i) fresh now ≡ done (t', i)
      → Holds c s i t' []
  unfolding Persistent.create_conversation
  create_conversation-Holds t t' namespace key title fresh now unused positive created =
      elim (Option-cases (Dict.get t.conversations i)) [
        | inr (old, there) ↦ absurd (ground arith)
        | inl absent ↦
            let row : Conversation = record {
              namespace_id = namespace;
              key_id = key;
              title = title;
              turn_count = 0;
              created_at = now;
              updated_at = now;
              deleted_at = none;
            } in
            let e : t' ≡ record t { conversations = Dict.put t.conversations i row } =
              ground arith in
            rw e (record {
              row = row;
              found = rw (Dict.get-put, beq_self i) refl;
              numbered = rw unused tt;
              counted = rw unused (omega arith);
              bounded = rw unused (omega arith);
              decrypted = rw unused (unfold Persistent.decrypt_rows in refl);
            })
      ]
