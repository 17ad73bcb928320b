-- ===== src/Context/Conversation.antt =====
-- context/conversation_manager.py: the messages of one conversation, oldest first. The manager's
-- `max_messages` is a natural number here. What `get_session_messages` of db/repository.py returns
-- is an argument.
pub mod Trimming
use open_aipoject.Prelude.{
  ℕ, String, Bool, true, false, Option, none, some, List, [], ◌∷◌, ◌++◌, ◌+◌, ◌-◌, ltb,
  if◌then◌else◌, length, drop,
}
use open_aipoject.Prelude.Text.{strip, is_empty}

pub data Role : Type 0 where
  system user assistant : Role

abbrev pub is_user : Role → Bool
is_user user = true
is_user _ = false

pub record Message : Type 0 where
  pub role : Role
  pub content : String

pub record Conversation : Type 0 where
  pub max_messages : ℕ
  pub system_prompt : Option String
  pub messages : List Message

-- `bool(system_prompt)`: the prompt, if it is not empty.
abbrev pub prompt_messages : Option String → List Message
prompt_messages none = []
prompt_messages (some p) = if is_empty p then [] else record { role = system; content = p } ∷ []

-- `__init__` with its limit resolved.
unfoldable pub new_conversation : ℕ → Option String → Conversation
new_conversation max_messages system_prompt = record {
  max_messages = max_messages;
  system_prompt = system_prompt;
  messages = prompt_messages system_prompt;
}

-- The last messages, when there are more than the limit.
abbrev pub last_messages : ℕ → List Message → List Message
last_messages limit ms = if ltb limit (length ms) then drop (length ms - limit) ms else ms

-- `_auto_trim`: a system message at the head stays, and is not counted.
abbrev pub trimmed : ℕ → List Message → List Message
trimmed limit [] = last_messages limit []
trimmed limit (m ∷ ms) = elim m.role [
  | system ↦ m ∷ last_messages limit ms
  | _ ↦ last_messages limit (m ∷ ms)
]

abbrev pub auto_trim : Conversation → Conversation
auto_trim c = record c { messages = trimmed c.max_messages c.messages }

-- `add_user`, `add_assistant` and `add_system` differ in the role only. An empty string strips to
-- an empty string.
unfoldable pub add : Role → String → Conversation → Conversation
add role text c =
    if is_empty (strip text)
    then c
    else auto_trim
        (record c { messages = c.messages ++ (record { role = role; content = strip text } ∷ []) })

-- `pop_last_user`: the last message of the role `user`, and the messages without it.
abbrev pub popped :
    Message → Option (Message × List Message) → List Message → Option (Message × List Message)
popped m none ms = if is_user m.role then some (m, ms) else none
popped m (some (u, rest)) ms = some (u, m ∷ rest)

abbrev pub pop_user : List Message → Option (Message × List Message)
pop_user [] = none
pop_user (m ∷ ms) = popped m (pop_user ms) ms

abbrev after_pop : Conversation → Option (Message × List Message) → Option Message × Conversation
after_pop c none = (none, c)
after_pop c (some (u, ms)) = (some u, record c { messages = ms })

unfoldable pub pop_last_user : Conversation → Option Message × Conversation
pop_last_user c = after_pop c (pop_user c.messages)

unfoldable pub reset : Bool → Conversation → Conversation
reset keep_system_prompt c = record c {
  messages = if keep_system_prompt then prompt_messages c.system_prompt else [];
}

unfoldable pub get_message_count : Conversation → ℕ
get_message_count c = length c.messages

-- The system message at the head, if there is one.
abbrev pub system_head : List Message → List Message
system_head [] = []
system_head (m ∷ ms) = elim m.role [ system ↦ m ∷ [] | _ ↦ [] ]

-- `load_history_from_db`: `loaded` is `none` without a session, or when the query raises.
abbrev pub load_history_from_db : Option (List Message) → Conversation → Conversation
load_history_from_db none c = c
load_history_from_db (some loaded) c = record c { messages = system_head c.messages ++ loaded }

-- `set_session` loads at most `max_messages` messages.
unfoldable pub set_session : (ℕ → Option (List Message)) → Conversation → Conversation
set_session get_session_messages c = load_history_from_db (get_session_messages c.max_messages) c
