-- ===== src/Core/Conversation/Tests.antt =====
-- A run of both conversation stores, and the theorems at that run. The stand-in for pgcrypto keeps
-- the text beside its key.
use vektra_stack.Prelude.{
  ℕ, ◌≡◌, refl, Option, none, some, List, [], ◌∷◌, String, true, false, arith,
}
use vektra_stack.Prelude.Tests.{if◌then◌else◌}
use vektra_stack.Prelude.Eq.{string_eq, ◌==◌, beq_self}
use vektra_stack.Prelude.Dict
use vektra_stack.Core.Conversation.Memory
use vektra_stack.Core.Conversation.Memory.{MemoryStore}
use vektra_stack.Core.Conversation.Tables.{Crypto, Conversation, Tables, done}
use vektra_stack.Core.Conversation.Persistent
use vektra_stack.Core.Conversation.Persistent.{Settings}
use vektra_stack.Core.Conversation.Refinement.{Call, run_memory, run_persistent, Holds}
use vektra_stack.Core.Conversation.Histories.{histories_agree, create_conversation-Holds}
use vektra_stack.Core.Conversation.Deletion.{soft_delete_hides}

boxed_law : (plain key : String) → (if key == key then some plain else none) ≡ some plain
boxed_law plain key = rw (beq_self key)

abbrev boxed : Crypto
boxed = record {
  Cipher = String × String;
  encrypt = λ plain key salt. (plain, key);
  decrypt = λ cipher key. if cipher.1 == key then some cipher.0 else none;
  decrypt-encrypt = λ plain key salt. boxed_law plain key;
}

abbrev settings : Settings
settings = record { key = "secret"; max_turns = 2 }

abbrev call : ℕ → String → Option String → Call
call id question answer = record {
  conversation_id = id;
  question = question;
  answer = answer;
  response_id = none;
  now = 5;
  salt = 0;
}

abbrev calls : List Call
calls =
    call 1 "q1" (some "a1") ∷ call 2 "other" none ∷ call 1 "q2" none ∷ call 1 "q3" (some "a3") ∷ []

abbrev row : Conversation
row = record {
  namespace_id = "default";
  key_id = 9;
  title = none;
  turn_count = 0;
  created_at = 1;
  updated_at = 1;
  deleted_at = none;
}

abbrev nothing : Tables boxed.Cipher
nothing = record { conversations = []; turns = [] }

abbrev created : Tables boxed.Cipher
created = record { conversations = (1, row) ∷ []; turns = [] }

abbrev memory : MemoryStore
memory = record { max_turns = 2; store = [] }

created_runs :
    Persistent.create_conversation boxed settings nothing "default" 9 none (some 1) 0 1
    ≡ done (created, 1)
unfolding Persistent.create_conversation Dict.get Dict.put
created_runs = refl

-- The third turn of conversation 1 pushes the first one out of both stores.
memory_runs :
    Memory.get_history (run_memory memory calls) 1
    ≡ record { question = "q2"; answer = none }
      ∷ record { question = "q3"; answer = some "a3" }
      ∷ []
unfolding run_memory Memory.add_turn Memory.get_history Dict.get Dict.put
memory_runs = refl

created-Holds : Holds boxed settings 1 created []
created-Holds =
    create_conversation-Holds boxed settings 1 nothing created "default" 9 none 0 1 refl
      (omega arith) created_runs

create_conversation-Holds_example : Holds boxed settings 1 created []
create_conversation-Holds_example =
    create_conversation-Holds boxed settings 1 nothing created "default" 9 none 0 1 refl
      (omega arith) created_runs

histories_agree_example :
    Persistent.get_history boxed settings (run_persistent boxed settings created calls) 1
    ≡ some (Memory.get_history (run_memory memory calls) 1)
unfolding Memory.get_history Dict.get
histories_agree_example = histories_agree boxed settings 1 calls created memory refl created-Holds

abbrev deleted : Tables boxed.Cipher
deleted = record { conversations = (1, record row { deleted_at = some 7 }) ∷ []; turns = [] }

deleted_runs : Persistent.soft_delete boxed settings created 1 (some "default") 7 ≡ (deleted, true)
unfolding Persistent.soft_delete Dict.get Dict.put
deleted_runs = refl

soft_delete_hides_example :
    (Persistent.get_history boxed settings deleted 1 ≡ some [])
    × ((question : String) (answer : Option String) (response : Option ℕ) (later salt : ℕ)
        → Persistent.add_turn boxed settings deleted 1 question answer response later salt
          ≡ done deleted)
    × ((again : Option String) (later : ℕ)
        → Persistent.soft_delete boxed settings deleted 1 again later ≡ (deleted, false))
    × (deleted.turns ≡ created.turns)
    × ((row : Conversation) × (Persistent.get_metadata boxed settings deleted 1 (some "default")
          ≡ some row)
        × (row.deleted_at ≡ some 7))
soft_delete_hides_example =
    soft_delete_hides boxed settings created deleted 1 (some "default") 7 deleted_runs
