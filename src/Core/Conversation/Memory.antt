-- ===== src/Core/Conversation/Memory.antt =====
-- `InMemoryConversationStore`. Its lock makes each method one step.
use vektra_stack.Prelude.{ℕ, ◌≡◌, inl, inr, arith, Option, none, some, List, [], ◌∷◌, ◌++◌, String}
use vektra_stack.Prelude.Tests.{ltb, if◌then◌else◌, Bool-cases}
use vektra_stack.Prelude.Lists.{length}
use vektra_stack.Prelude.Eq.{nat_eq, ◌==◌}
use vektra_stack.Prelude.Dict
use vektra_stack.Prelude.Dict.{Dict}
use vektra_stack.Core.Conversation.{Turn, Outcome, ok, value_error, last}

pub record MemoryStore : Type 0 where
  pub max_turns : ℕ
  pub store : Dict ℕ (List Turn)

unfoldable pub init : ℕ → Outcome MemoryStore
init max_turns =
    if ltb max_turns 1 then value_error else ok (record { max_turns = max_turns; store = [] })

abbrev pub or_empty : Option (List Turn) → List Turn
or_empty none = []
or_empty (some turns) = turns

unfoldable pub get_history : MemoryStore → ℕ → List Turn
get_history s conversation_id = or_empty (Dict.get s.store conversation_id)

-- `if len(turns) > max_turns: turns = turns[-max_turns:]`
abbrev pub trim : ℕ → List Turn → List Turn
trim max_turns turns = if ltb max_turns (length turns) then last max_turns turns else turns

unfoldable pub add_turn : MemoryStore → ℕ → String → Option String → MemoryStore
add_turn s conversation_id question answer =
    let turns =
      or_empty (Dict.get s.store conversation_id)
      ++ record { question = question; answer = answer } ∷ [] in
    record s { store = Dict.put s.store conversation_id (trim s.max_turns turns) }

unfoldable pub clear : MemoryStore → ℕ → MemoryStore
clear s conversation_id = record s { store = Dict.remove s.store conversation_id }

pub get_history-add_turn :
    (s : MemoryStore) (c i : ℕ) (question : String) (answer : Option String)
    → get_history (add_turn s c question answer) i ≡ (
        if c == i
        then trim s.max_turns
            (get_history s i ++ record { question = question; answer = answer } ∷ [])
        else get_history s i)
unfolding get_history add_turn
get_history-add_turn s c i question answer = rw Dict.get-put (elim (Bool-cases (c == i)) [
  | inl same ↦ let e : c ≡ i = ground arith in rw (same, e)
  | inr other ↦ rw other
])
