-- ===== src/Core/Conversation/Tables.antt =====
-- The tables behind `PersistentConversationStore` (vektra_core/models.py), and the encryption that
-- PostgreSQL does, `pgp_sym_encrypt` and `pgp_sym_decrypt`, as a parameter.
use vektra_stack.Prelude.{ℕ, ◌≡◌, Option, none, some, List, [], ◌∷◌, String, Bool, true, false}
use vektra_stack.Prelude.Tests.{ltb, if◌then◌else◌}
use vektra_stack.Prelude.Lists.{select}
use vektra_stack.Prelude.Eq.{nat_eq, string_eq, ◌==◌}
use vektra_stack.Prelude.Dict.{Dict}

-- pgcrypto: encryption is salted, and decryption raises (`none`) where the key does not fit.
pub record Crypto : Type 1 where
  pub Cipher : Type 0
  pub encrypt : String → String → ℕ → Cipher
  pub decrypt : Cipher → String → Option String
  pub decrypt-encrypt :
      (plain key : String) (salt : ℕ) → decrypt (encrypt plain key salt) key ≡ some plain

-- A row of `conversations`; the table is keyed by `id`.
pub record Conversation : Type 0 where
  pub namespace_id : String
  pub key_id : ℕ
  pub title : Option String
  pub turn_count : ℕ
  pub created_at : ℕ
  pub updated_at : ℕ
  pub deleted_at : Option ℕ

-- A row of `conversation_turns`.
pub record TurnRow (Cipher : Type 0) : Type 0 where
  pub conversation_id : ℕ
  pub turn_number : ℕ
  pub question : Cipher
  pub answer : Option Cipher
  pub response_id : Option ℕ
  pub model : Option String
  pub prompt_tokens : Option ℕ
  pub completion_tokens : Option ℕ
  pub created_at : ℕ

pub record Tables (Cipher : Type 0) : Type 0 where
  pub conversations : Dict ℕ Conversation
  pub turns : List (TurnRow Cipher)

-- What a method that writes comes to.
pub data Write {ℓ} (A : Type ℓ) : Type ℓ where
  done : A → Write A
  integrity_error : Write A

abbrev pub is_live : Conversation → Bool
is_live c = elim c.deleted_at [ none ↦ true | some _ ↦ false ]

-- `select ... where(id == conversation_id, deleted_at IS NULL)`
abbrev pub live : Option Conversation → Option Conversation
live none = none
live (some c) = if is_live c then some c else none

module _ {Cipher : Type 0} where
  abbrev pub belongs : ℕ → TurnRow Cipher → Bool
  belongs conversation_id r = r.conversation_id == conversation_id

  abbrev pub rows_of : ℕ → List (TurnRow Cipher) → List (TurnRow Cipher)
  rows_of conversation_id = select (belongs conversation_id)

  -- `order_by(turn_number)`
  unfoldable pub insert_row : TurnRow Cipher → List (TurnRow Cipher) → List (TurnRow Cipher)
  insert_row r [] = r ∷ []
  insert_row r (x ∷ rows) =
      let rest = insert_row r rows in
      if ltb x.turn_number r.turn_number then x ∷ rest else r ∷ x ∷ rows

  unfoldable pub order_rows : List (TurnRow Cipher) → List (TurnRow Cipher)
  unfolding insert_row
  order_rows [] = []
  order_rows (r ∷ rows) = insert_row r (order_rows rows)
