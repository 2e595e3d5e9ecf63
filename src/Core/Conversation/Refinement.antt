-- ===== src/Core/Conversation/Refinement.antt =====
-- The persistent store keeps the history that the in-memory store keeps.
use vektra_stack.Prelude.{
  ℕ, suc, ◌+◌, ◌-◌, ◌≤◌, ◌≡◌, refl, ap, ◌∙◌, Option, none, some, List, [], ◌∷◌, ◌++◌, String, true,
  not, arith, inl, inr,
}
use vektra_stack.Prelude.Tests.{ltb, leb, Bool-cases, ltb→lt}
use vektra_stack.Prelude.Lists.{length, select, drop, select-append, length-append, length-drop}
use vektra_stack.Prelude.Eq.{nat_eq, beq_self}
use vektra_stack.Prelude.Dict
use vektra_stack.Core.Conversation.{Turn}
use vektra_stack.Core.Conversation.Memory
use vektra_stack.Core.Conversation.Memory.{MemoryStore}
use vektra_stack.Core.Conversation.Tables.{
  Crypto, Conversation, TurnRow, Tables, Write, done, integrity_error, live, is_live, belongs,
  rows_of, order_rows,
}
use vektra_stack.Core.Conversation.Persistent
use vektra_stack.Core.Conversation.Persistent.{
  Settings, encrypted_answer, decrypt_row, decrypt_rows, new_row, prune,
}
use vektra_stack.Core.Conversation.Rows.{
  Numbered, order-Numbered, Numbered-snoc, Numbered-drop, select-Numbered, next_number_free,
  rows_of-prune_self, decrypt_rows-append, decrypt_rows-drop,
}

live_witness :
    (o : Option Conversation) {row : Conversation}
    → live o ≡ some row
    → (o ≡ some row) × (is_live row ≡ true)
live_witness none h = cc
live_witness (some r) h = ground arith

-- A call of `add_turn`, with the clock and the salt that the persistent store draws.
pub record Call : Type 0 where
  pub conversation_id : ℕ
  pub question : String
  pub answer : Option String
  pub response_id : Option ℕ
  pub now : ℕ
  pub salt : ℕ

abbrev pub turn_of : Call → Turn
turn_of x = record { question = x.question; answer = x.answer }

unfoldable pub run_memory : MemoryStore → List Call → MemoryStore
run_memory m [] = m
run_memory m (x ∷ xs) = run_memory (Memory.add_turn m x.conversation_id x.question x.answer) xs

module _ (c : Crypto) (s : Settings) where
  abbrev pub settle : Tables c.Cipher → Write (Tables c.Cipher) → Tables c.Cipher
  settle t (done t') = t'
  settle t integrity_error = t

  -- The caller goes on after a call that raises; what it leaves are the tables as they were.
  unfoldable pub run_persistent : Tables c.Cipher → List Call → Tables c.Cipher
  run_persistent t [] = t
  run_persistent t (x ∷ xs) =
      run_persistent
        (settle t (
          Persistent.add_turn c s t x.conversation_id x.question x.answer x.response_id x.now
            x.salt))
        xs

  -- Conversation `i` is live, and its rows hold `turns` under consecutive numbers that end at its
  -- turn count.
  pub record Holds (i : ℕ) (t : Tables c.Cipher) (turns : List Turn) : Type 0 where
    pub row : Conversation
    pub found : live (Dict.get t.conversations i) ≡ some row
    pub numbered : Numbered (suc row.turn_count - length (rows_of i t.turns)) (rows_of i t.turns)
    pub counted : length (rows_of i t.turns) ≤ row.turn_count
    pub bounded : length (rows_of i t.turns) ≤ s.max_turns
    pub decrypted : decrypt_rows c s (rows_of i t.turns) ≡ some turns

  get_history_found :
      (i : ℕ) (t : Tables c.Cipher) {row : Conversation}
      → live (Dict.get t.conversations i) ≡ some row
      → Persistent.get_history c s t i ≡ decrypt_rows c s (order_rows (rows_of i t.turns))
  unfolding Persistent.get_history
  get_history_found i t found = rw (found, Persistent.get_history)

  pub get_history-Holds :
      (i : ℕ) (t : Tables c.Cipher) (turns : List Turn)
      → Holds i t turns
      → Persistent.get_history c s t i ≡ some turns
  get_history-Holds i t turns h =
      get_history_found i t h.found
      ∙ ap (decrypt_rows c s) (order-Numbered _ _ h.numbered)
      ∙ h.decrypted

  -- what the in-memory store makes of one more turn
  abbrev pub kept : List Turn → Turn → List Turn
  kept turns x = Memory.trim s.max_turns (turns ++ x ∷ [])

  decrypt-new_answer :
      (a : Option String) (salt : ℕ)
      → Persistent.decrypt_answer c s (encrypted_answer c s a salt) ≡ some a
  unfolding Persistent.decrypt_answer
  decrypt-new_answer none salt = refl
  decrypt-new_answer (some a) salt = ground (arith, c.decrypt-encrypt a s.key (salt + 1))

  decrypt-new_row :
      (i n : ℕ) (x : Call)
      → decrypt_rows c s (new_row c s i n x.question x.answer x.response_id x.now x.salt ∷ [])
        ≡ some (turn_of x ∷ [])
  unfolding decrypt_rows decrypt_row
  decrypt-new_row i n x =
      ground (arith, c.decrypt-encrypt x.question s.key x.salt, decrypt-new_answer x.answer x.salt)

  module _ (i : ℕ) (t : Tables c.Cipher) (turns : List Turn) (h : Holds i t turns) (x : Call) where
    abbrev pub n' : ℕ
    n' = h.row.turn_count + 1

    abbrev pub row' : TurnRow c.Cipher
    row' = new_row c s i n' x.question x.answer x.response_id x.now x.salt

    abbrev pub old : List (TurnRow c.Cipher)
    old = rows_of i t.turns

    own_row : rows_of i (row' ∷ []) ≡ row' ∷ []
    own_row = ground arith

    rows_of-new : rows_of i (t.turns ++ row' ∷ []) ≡ old ++ row' ∷ []
    rows_of-new = select-append (belongs i) t.turns (row' ∷ []) ∙ ap (λ rows. old ++ rows) own_row

    Numbered-new : Numbered (suc h.row.turn_count - length old) (old ++ row' ∷ [])
    Numbered-new = Numbered-snoc _ old row' h.numbered (omega (arith, h.counted))

    -- The prune leaves the last `max_turns` rows.
    rows_of-prune :
        rows_of i (prune c s i n' (t.turns ++ row' ∷ []))
        ≡ drop (suc (length old) - s.max_turns) (old ++ row' ∷ [])
    rows_of-prune = elim (Bool-cases (ltb s.max_turns n')) [
      | inl over ↦
          let lt = ltb→lt s.max_turns n' over in
          rw over (
            rows_of-prune_self i (n' - s.max_turns) (t.turns ++ row' ∷ [])
            ∙ ap (select (λ r. not (leb r.turn_number (n' - s.max_turns)))) rows_of-new
            ∙ select-Numbered _ (n' - s.max_turns) _ Numbered-new
            ∙ ap (λ m. drop m (old ++ row' ∷ [])) (omega (arith, h.counted)))
      | inr fits ↦
          let le : n' ≤ s.max_turns = ground arith in
          let none_dropped : suc (length old) - s.max_turns ≡ 0 = omega (arith, h.counted) in
          rw (fits, none_dropped) rows_of-new
    ]

    suffix_kept :
        kept turns (turn_of x) ≡ drop (suc (length old) - s.max_turns) (turns ++ turn_of x ∷ [])
    suffix_kept = elim (Bool-cases (ltb s.max_turns (length (turns ++ turn_of x ∷ [])))) [
      | inl over ↦
          rw over
            (ap (λ m. drop m (turns ++ turn_of x ∷ [])) (omega (arith, same_length, snoc_length)))
      | inr fits ↦
          let le : length (turns ++ turn_of x ∷ []) ≤ s.max_turns = ground arith in
          let none_dropped : suc (length old) - s.max_turns ≡ 0 =
            omega (arith, same_length, snoc_length) in
          rw (fits, none_dropped)
    ]
      where
        same_length : length old ≡ length turns
        same_length = (decrypt_rows-drop c s 0 old turns h.decrypted).1

        snoc_length : length (turns ++ turn_of x ∷ []) ≡ length turns + 1
        snoc_length = length-append turns (turn_of x ∷ [])

    abbrev pub t' : Tables c.Cipher
    t' = record {
      conversations =
          Dict.put t.conversations i (record (h.row) { turn_count = n'; updated_at = x.now });
      turns = prune c s i n' (t.turns ++ row' ∷ []);
    }

    length_new : length (rows_of i t'.turns) ≡ suc (length old) - (suc (length old) - s.max_turns)
    length_new = rw (rows_of-prune, length-drop) (omega (arith, length-append old (row' ∷ [])))

    pub add_turn_done :
        Persistent.add_turn c s t i x.question x.answer x.response_id x.now x.salt ≡ done t'
    unfolding Persistent.add_turn
    add_turn_done =
        let free = next_number_free i _ n' t.turns h.numbered (omega (arith, h.counted)) in
        rw (h.found, Persistent.add_turn) (rw free refl)

    pub add_turn-Holds : Holds i t' (kept turns (turn_of x))
    add_turn-Holds = record {
      row = record (h.row) { turn_count = n'; updated_at = x.now };
      found = rw (Dict.get-put, beq_self i) (rw (live_witness _ h.found).1 refl);
      numbered = rw rows_of-prune (
          Numbered-drop _ _ (suc (length old) - s.max_turns) _ Numbered-new (
            omega (
              arith,
              length-drop (suc (length old) - s.max_turns) (old ++ row' ∷ []),
              length-append old (row' ∷ []),
              h.counted,
            )));
      counted = omega (arith, length_new, h.counted);
      bounded = omega (arith, length_new);
      decrypted =
          rw (rows_of-prune, suffix_kept)
            (decrypt_rows-drop c s _ _ _ (
              decrypt_rows-append c s old (row' ∷ []) turns (turn_of x ∷ []) h.decrypted
                (decrypt-new_row i n' x))).0;
    }
