-- ===== src/Context/Conversation/Trimming.antt =====
-- What the trimming keeps, and what a failed request takes back.
use open_aipoject.Prelude.{
  ℕ, String, Bool, true, false, Option, none, some, List, [], ◌∷◌, ◌++◌, ◌+◌, ◌-◌, if◌then◌else◌,
  length, ◌≡◌, refl, ◌≤◌, arith, ◌<◌, ◌∙◌, ap, length-drop, length-append, min, ltb, drop,
}
use open_aipoject.Context.Conversation.{
  Role, system, user, Message, Conversation, last_messages, trimmed, auto_trim, add, pop_user,
  pop_last_user, system_head, set_session, load_history_from_db, is_user,
}
use open_aipoject.Prelude.Text.{is_empty, strip}

last_messages-length : (n : ℕ) (ms : List Message) → length (last_messages n ms) ≤ n
last_messages-length n ms = ground (arith, length-drop (length ms - n) ms)

-- The messages that the limit counts.
abbrev pub counted : List Message → List Message
counted [] = []
counted (m ∷ ms) = elim m.role [ system ↦ ms | _ ↦ m ∷ ms ]

trimmed-length : (n : ℕ) (ms : List Message) → length (trimmed n ms) ≤ n + length (system_head ms)
trimmed-length n [] = ground (arith, last_messages-length n [])
trimmed-length n (m ∷ ms) =
    ground (arith, last_messages-length n ms, last_messages-length n (m ∷ ms))

few_messages : (n : ℕ) (ms : List Message) → length ms ≤ n → last_messages n ms ≡ ms
few_messages n ms h = ground arith

-- What does not exceed the limit stays.
trimmed-few : (n : ℕ) (ms : List Message) → length (counted ms) ≤ n → trimmed n ms ≡ ms
trimmed-few n [] h = ground arith
trimmed-few n (m ∷ ms) h = ground (arith, few_messages n ms, few_messages n (m ∷ ms))

counted-length : (ms : List Message) → length (counted ms) ≤ length ms
counted-length [] = omega arith
counted-length (m ∷ ms) = ground arith

trimmed-counted : (n : ℕ) (ms : List Message) → length (counted (trimmed n ms)) ≤ n
trimmed-counted n [] = ground (arith, few_messages n [])
trimmed-counted n (m ∷ ms) = ground (
  arith,
  last_messages-length n ms,
  last_messages-length n (m ∷ ms),
  counted-length (last_messages n (m ∷ ms)),
)

counted-append :
    (ms : List Message) (x : Message) → length (counted (ms ++ (x ∷ []))) ≤ length (counted ms) + 1
counted-append [] x = ground arith
counted-append (m ∷ ms) x = ground (arith, length-append ms (x ∷ []))

pop-append :
    (u : Message) (ms : List Message)
    → is_user u.role ≡ true
    → pop_user (ms ++ (u ∷ [])) ≡ some (u, ms)
pop-append u [] h = ground arith
pop-append u (m ∷ ms) h = rw (pop-append u ms h) refl

-- A conversation within its limit.
abbrev pub IsTrimmed : Conversation → Type 0
IsTrimmed c = length (counted c.messages) ≤ c.max_messages

-- After a message of any role is added to a conversation of at most `max_messages` messages, a
-- system message at the head not counted, it again has at most as many.
pub add-IsTrimmed :
    (role : Role) (text : String) (c : Conversation) → IsTrimmed c → IsTrimmed (add role text c)
unfolding add
add-IsTrimmed role text c h = of_text (is_empty (strip text))
  where
    of_text :
        (b : Bool)
        → IsTrimmed (
            if b
            then c
            else auto_trim (record c {
              messages = c.messages ++ (record { role = role; content = strip text } ∷ []);
            }))
    of_text true = h
    of_text false = trimmed-counted c.max_messages _

-- Taking back the user's message that was just added gives the conversation before it, if that
-- had room for one message more.
pub pop_last_user-add :
    (text : String) (c : Conversation)
    → is_empty (strip text) ≡ false
    → length (counted c.messages) < c.max_messages
    → pop_last_user (add user text c) ≡ (some (record { role = user; content = strip text }), c)
unfolding add pop_last_user
pop_last_user-add text c e room =
    let u : Message = record { role = user; content = strip text } in
    let kept : trimmed c.max_messages (c.messages ++ (u ∷ [])) ≡ c.messages ++ (u ∷ []) =
      trimmed-few c.max_messages (c.messages ++ (u ∷ []))
        (omega (arith, counted-append c.messages u, room)) in
    rw e (rw kept (rw (pop-append u c.messages refl) refl))

no_more : (n k : ℕ) → ltb n k ≡ false → 0 ≡ k - n
no_more n k e = ground arith

last_drop : (n : ℕ) (ms : List Message) → last_messages n ms ≡ drop (length ms - n) ms
last_drop n ms = of_test (ltb n (length ms)) refl
  where
    of_test :
        (b : Bool)
        → ltb n (length ms) ≡ b
        → (if b then drop (length ms - n) ms else ms) ≡ drop (length ms - n) ms
    of_test true e = refl
    of_test false e = ap (λ k. drop k ms) (no_more n (length ms) e)

length-last : (n : ℕ) (ms : List Message) → length (last_messages n ms) ≡ min n (length ms)
length-last n ms = ground (arith, length-drop (length ms - n) ms)

-- A system message at the head stays there, and as many of the messages after it are kept as the
-- limit allows, the last ones.
pub trimmed-system_first :
    (n : ℕ) (m : Message) (rest : List Message)
    → m.role ≡ system
    → (trimmed n (m ∷ rest) ≡ m ∷ drop (length rest - n) rest)
      × (length (trimmed n (m ∷ rest)) ≡ 1 + min n (length rest))
trimmed-system_first n m rest s =
    let kept : trimmed n (m ∷ rest) ≡ m ∷ last_messages n rest = ground arith in
    (kept ∙ ap (λ ms. m ∷ ms) (last_drop n rest), omega (arith, ap length kept, length-last n rest))

headed : (ms loaded : List Message) → length (counted (system_head ms ++ loaded)) ≤ length loaded
headed [] loaded = counted-length loaded
headed (m ∷ ms) loaded = ground (arith, counted-length loaded)

-- Loading a session's history keeps a conversation within its limit, if the query returns at most
-- as many messages as it is asked for.
pub set_session-IsTrimmed :
    (get_session_messages : ℕ → Option (List Message)) (c : Conversation)
    → ((n : ℕ) (ms : List Message) → get_session_messages n ≡ some ms → length ms ≤ n)
    → IsTrimmed c
    → IsTrimmed (set_session get_session_messages c)
unfolding set_session
set_session-IsTrimmed query c h t = of_query (query c.max_messages) (h c.max_messages)
  where
    of_query :
        (o : Option (List Message))
        → ((ms : List Message) → o ≡ some ms → length ms ≤ c.max_messages)
        → IsTrimmed (load_history_from_db o c)
    of_query none k = t
    of_query (some ms) k = omega (arith, headed c.messages ms, k ms refl)
