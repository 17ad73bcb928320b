-- ===== src/Context/Tests.antt =====
-- The theorems on context/conversation_manager.py at concrete conversations.
use open_aipoject.Prelude.{
  ℕ, [], ◌∷◌, none, some, refl, arith, ◌≤◌, ◌≡◌, false, Option, List, ltb, if◌then◌else◌, length,
}
use open_aipoject.Context.Conversation.{
  user, system, assistant, Message, Conversation, trimmed, add, pop_last_user, set_session,
}
use open_aipoject.Context.Conversation.Trimming.{
  IsTrimmed, add-IsTrimmed, pop_last_user-add, set_session-IsTrimmed, trimmed-system_first,
}
use open_aipoject.Prelude.Text.{is_empty, strip}

abbrev greeting : Conversation
greeting = record {
  max_messages = 2;
  system_prompt = some "Be brief.";
  messages =
      record { role = system; content = "Be brief." } ∷ record { role = user; content = "Hi" } ∷ [];
}

add-IsTrimmed_example : IsTrimmed (add assistant "Hello" greeting)
add-IsTrimmed_example = add-IsTrimmed assistant "Hello" greeting (omega arith)

strip_again : is_empty (strip " Again ") ≡ false
unfolding strip
strip_again = refl

pop_last_user-add_example :
    pop_last_user (add user " Again " greeting)
    ≡ (some (record { role = user; content = strip " Again " }), greeting)
pop_last_user-add_example = pop_last_user-add " Again " greeting strip_again (omega arith)

abbrev brief : Message
brief = record { role = system; content = "Be brief." }

abbrev question : Message
question = record { role = user; content = "Hi" }

trimmed-system_first_example :
    (trimmed 1 (brief ∷ question ∷ question ∷ []) ≡ brief ∷ question ∷ [])
    × (length (trimmed 1 (brief ∷ question ∷ question ∷ [])) ≡ 2)
trimmed-system_first_example = trimmed-system_first 1 brief (question ∷ question ∷ []) refl

abbrev sample_history : ℕ → Option (List Message)
sample_history n = if ltb 0 n then some (record { role = user; content = "Earlier" } ∷ []) else none

sample_history-bound : (n : ℕ) (ms : List Message) → sample_history n ≡ some ms → length ms ≤ n
sample_history-bound n ms e = ground arith

set_session-IsTrimmed_example : IsTrimmed (set_session sample_history greeting)
set_session-IsTrimmed_example =
    set_session-IsTrimmed sample_history greeting sample_history-bound (omega arith)
