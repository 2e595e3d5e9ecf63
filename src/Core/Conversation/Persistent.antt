-- ===== src/Core/Conversation/Persistent.antt =====
-- `PersistentConversationStore`. A statement that PostgreSQL refuses raises and leaves the tables as
-- they were: the session is not committed.
use vektra_stack.Prelude.{
  ℕ, ◌+◌, ◌-◌, Option, none, some, List, [], ◌∷◌, ◌++◌, String, Bool, true, false, not, ◌&&◌,
}
use mathlib.Core.Option
use vektra_stack.Prelude.Tests.{ltb, leb, if◌then◌else◌}
use vektra_stack.Prelude.Lists.{any, select}
use vektra_stack.Prelude.Eq.{nat_eq, string_eq, ◌==◌}
use vektra_stack.Prelude.Dict
use vektra_stack.Prelude.Dict.{Dict}
use vektra_stack.Core.Conversation.{Turn, Outcome, ok, value_error}
use vektra_stack.Core.Conversation.Tables.{
  Crypto, Conversation, TurnRow, Tables, Write, done, integrity_error, live, belongs, rows_of,
  order_rows,
}

pub record Settings : Type 0 where
  pub key : String
  pub max_turns : ℕ

unfoldable pub init : String → ℕ → Outcome Settings
init encryption_key max_turns =
    if encryption_key == ""
    then value_error
    else if ltb max_turns 1
    then value_error
    else ok (record { key = encryption_key; max_turns = max_turns })

module _ (c : Crypto) (s : Settings) where
  -- `fresh` is what `gen_random_uuid()` gives where the caller names no id.
  unfoldable pub create_conversation :
      Tables c.Cipher → String → ℕ → Option String → Option ℕ → ℕ → ℕ → Write (Tables c.Cipher × ℕ)
  create_conversation t namespace_id key_id title conversation_id fresh now =
      let id : ℕ = elim conversation_id [ none ↦ fresh | some i ↦ i ] in
      let row : Conversation = record {
        namespace_id = namespace_id;
        key_id = key_id;
        title = title;
        turn_count = 0;
        created_at = now;
        updated_at = now;
        deleted_at = none;
      } in
      elim (Dict.get t.conversations id) [
        | none ↦ done (record t { conversations = Dict.put t.conversations id row }, id)
        | some _ ↦ integrity_error
      ]

  -- `on_conflict_do_nothing`
  unfoldable pub ensure_conversation : Tables c.Cipher → ℕ → String → ℕ → ℕ → Tables c.Cipher
  unfolding create_conversation
  ensure_conversation t conversation_id namespace_id key_id now =
      elim (create_conversation t namespace_id key_id none (some conversation_id) conversation_id
        now) [ done (t', _) ↦ t' | integrity_error ↦ t ]

  unfoldable pub decrypt_answer : Option c.Cipher → Option (Option String)
  decrypt_answer none = some none
  decrypt_answer (some a) = elim (c.decrypt a s.key) [ none ↦ none | some a' ↦ some (some a') ]

  unfoldable pub decrypt_row : TurnRow c.Cipher → Option Turn
  unfolding decrypt_answer
  decrypt_row r = elim (c.decrypt r.question s.key) [
    | none ↦ none
    | some q ↦ elim (decrypt_answer r.answer) [
      | none ↦ none
      | some a ↦ some (record { question = q; answer = a })
    ]
  ]

  -- One row that cannot be decrypted fails the whole query.
  unfoldable pub decrypt_rows : List (TurnRow c.Cipher) → Option (List Turn)
  unfolding decrypt_row
  decrypt_rows [] = some []
  decrypt_rows (r ∷ rows) =
      let more = decrypt_rows rows in
      elim (decrypt_row r) [
        | none ↦ none
        | some t ↦ elim more [ none ↦ none | some ts ↦ some (t ∷ ts) ]
      ]

  unfoldable pub get_history : Tables c.Cipher → ℕ → Option (List Turn)
  unfolding decrypt_rows order_rows
  get_history t conversation_id = elim (live (Dict.get t.conversations conversation_id)) [
    | none ↦ some []
    | some _ ↦ decrypt_rows (order_rows (rows_of conversation_id t.turns))
  ]

  -- `prune_stmt`, if the new turn exceeds the maximum
  abbrev pub prune : ℕ → ℕ → List (TurnRow c.Cipher) → List (TurnRow c.Cipher)
  prune conversation_id turn_number rows =
      if ltb s.max_turns turn_number
      then select
          (λ r. not (belongs conversation_id r && leb r.turn_number (turn_number - s.max_turns)))
          rows
      else rows

  abbrev pub encrypted_answer : Option String → ℕ → Option c.Cipher
  encrypted_answer none salt = none
  encrypted_answer (some answer) salt = some (c.encrypt answer s.key (salt + 1))

  abbrev pub new_row : ℕ → ℕ → String → Option String → Option ℕ → ℕ → ℕ → TurnRow c.Cipher
  new_row conversation_id turn_number question answer response_id now salt = record {
    conversation_id = conversation_id;
    turn_number = turn_number;
    question = c.encrypt question s.key salt;
    answer = encrypted_answer answer salt;
    response_id = response_id;
    model = none;
    prompt_tokens = none;
    completion_tokens = none;
    created_at = now;
  }

  unfoldable pub insert_turn :
      Tables c.Cipher → ℕ → Conversation → TurnRow c.Cipher → ℕ → Write (Tables c.Cipher)
  insert_turn t conversation_id found row now =
      if any (λ r. belongs conversation_id r && r.turn_number == row.turn_number) t.turns
      then integrity_error
      else done (record {
        conversations =
            Dict.put t.conversations conversation_id
              (record found { turn_count = row.turn_number; updated_at = now });
        turns = prune conversation_id row.turn_number (t.turns ++ row ∷ []);
      })

  -- A turn of a conversation that is missing or deleted is dropped with a warning. The row lock
  -- (`with_for_update`) makes the method one step.
  unfoldable pub add_turn :
      Tables c.Cipher → ℕ → String → Option String → Option ℕ → ℕ → ℕ → Write (Tables c.Cipher)
  unfolding insert_turn
  add_turn t conversation_id question answer response_id now salt =
      elim (live (Dict.get t.conversations conversation_id)) [
        | none ↦ done t
        | some found ↦
            insert_turn t conversation_id found
              (new_row conversation_id (found.turn_count + 1) question answer response_id now salt)
              now
      ]

  -- The turns go with their conversation (`ON DELETE CASCADE`).
  unfoldable pub clear : Tables c.Cipher → ℕ → Tables c.Cipher
  clear t conversation_id = record {
    conversations = Dict.remove t.conversations conversation_id;
    turns = select (λ r. not (belongs conversation_id r)) t.turns;
  }

  abbrev pub in_namespace : Option String → Conversation → Bool
  in_namespace none found = true
  in_namespace (some namespace) found = found.namespace_id == namespace

  -- The row itself; soft-deleted conversations included.
  unfoldable pub get_metadata : Tables c.Cipher → ℕ → Option String → Option Conversation
  get_metadata t conversation_id namespace = elim (Dict.get t.conversations conversation_id) [
    | none ↦ none
    | some found ↦ if in_namespace namespace found then some found else none
  ]

  pub record TurnDetail : Type 0 where
    pub turn_number : ℕ
    pub content : Turn
    pub response_id : Option ℕ
    pub created_at : ℕ

  unfoldable pub detail_rows : List (TurnRow c.Cipher) → Option (List TurnDetail)
  unfolding decrypt_row
  detail_rows [] = some []
  detail_rows (r ∷ rows) =
      let more = detail_rows rows in
      elim (decrypt_row r) [
        | none ↦ none
        | some t ↦ elim more [
          | none ↦ none
          | some ts ↦ some (
              record {
                turn_number = r.turn_number;
                content = t;
                response_id = r.response_id;
                created_at = r.created_at;
              }
              ∷ ts)
        ]
      ]

  -- `some none` stands for the answer None, and `none` for a failed decryption. Soft-deleted
  -- conversations are included.
  unfoldable pub get_turns_detail : Tables c.Cipher → ℕ → Option (Option (List TurnDetail))
  unfolding detail_rows order_rows
  get_turns_detail t conversation_id = elim (Dict.get t.conversations conversation_id) [
    | none ↦ some none
    | some _ ↦ Option.map some (detail_rows (order_rows (rows_of conversation_id t.turns)))
  ]

  -- The new tables, and whether a live conversation was found.
  unfoldable pub soft_delete : Tables c.Cipher → ℕ → Option String → ℕ → Tables c.Cipher × Bool
  soft_delete t conversation_id namespace now =
      elim (live (Dict.get t.conversations conversation_id)) [
        | none ↦ (t, false)
        | some found ↦
            if in_namespace namespace found
            then (
              record t {
                conversations =
                    Dict.put t.conversations conversation_id
                      (record found { deleted_at = some now });
              },
              true,
            )
            else (t, false)
      ]
