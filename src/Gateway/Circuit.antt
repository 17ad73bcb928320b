-- ===== src/Gateway/Circuit.antt =====
-- server/circuit_breaker.py: the calls of one provider's model are blocked for a while after too
-- many failures. The lock makes each method one step. `now` is `time.time()` in microseconds; the
-- environment's integers come as `none` where they are missing or no integers.
pub mod Opening
use open_aipoject.Prelude.PyInt.{ℤ, pos, negsuc}
use open_aipoject.Prelude.{
  ℕ, String, Bool, [], ◌∷◌, ◌+◌, ◌*◌, max, true, false, Option, some, List, ◌++◌, str_eq, leb,
  if◌then◌else◌, length, none,
}
use open_aipoject.Gateway.Events.{second, prune}
use open_aipoject.Prelude.Text.{strip, append, lower}

-- `_int_env`
abbrev pub int_env : Option ℤ → ℕ → ℤ
int_env none default = pos default
int_env (some v) default = v

-- `max(1, value)`
abbrev pub at_least_one : ℤ → ℕ
at_least_one (pos n) = max 1 n
at_least_one (negsuc n) = 1

pub record Environment : Type 0 where
  pub threshold : Option ℤ
  pub window : Option ℤ
  pub cooldown : Option ℤ

abbrev pub failure_threshold : Environment → ℕ
failure_threshold env = at_least_one (int_env env.threshold 5)

abbrev pub window_seconds : Environment → ℕ
window_seconds env = at_least_one (int_env env.window 60)

abbrev pub cooldown_seconds : Environment → ℕ
cooldown_seconds env = at_least_one (int_env env.cooldown 120)

-- `_key`
unfoldable pub circuit_key : String → String → String
circuit_key provider model = append (lower (strip provider)) (append ":" (strip model))

-- An entry of `_state`; `open_until` is 0 while the circuit is closed.
pub record Item : Type 0 where
  pub failures : List ℕ
  pub open_until : ℕ

abbrev pub Circuits : Type 0
Circuits = List (String × Item)

-- `self._state.get(key)`
abbrev pub get_item : String → Circuits → Option Item
get_item key [] = none
get_item key ((k, item) ∷ state) = if str_eq k key then some item else get_item key state

-- `self._state[key] = item`
abbrev pub set_item : String → Item → Circuits → Circuits
set_item key item [] = (key, item) ∷ []
set_item key item ((k, i) ∷ state) =
    let rest = set_item key item state in if str_eq k key then (k, item) ∷ state else (k, i) ∷ rest

abbrev pub new_item : Item
new_item = record { failures = []; open_until = 0 }

-- `self._state.setdefault(key, {"failures": deque(), "open_until": 0.0})`
abbrev pub item_or_new : Option Item → Item
item_or_new none = new_item
item_or_new (some item) = item

abbrev allow_item : ℕ → String → Circuits → Option Item → Bool × Circuits
allow_item now key state none = (true, state)
allow_item now key state (some item) =
    if leb item.open_until now
    then (true, set_item key (record item { open_until = 0 }) state)
    else (false, state)

unfoldable pub allow : ℕ → String → String → Circuits → Bool × Circuits
allow now provider model state =
    let key = circuit_key provider model in allow_item now key state (get_item key state)

unfoldable pub record_success : String → String → Circuits → Circuits
record_success provider model state = set_item (circuit_key provider model) new_item state

-- The item after a failure that was just appended and the old ones pruned.
abbrev pub after_failure : Environment → ℕ → List ℕ → ℕ → Item
after_failure env now failures open_until =
    if leb (failure_threshold env) (length failures)
    then record { failures = []; open_until = now + cooldown_seconds env * second }
    else record { failures = failures; open_until = open_until }

abbrev pub failed_item : Environment → ℕ → Item → Item
failed_item env now item =
    after_failure env now (prune now (window_seconds env * second) (item.failures ++ (now ∷ [])))
      item.open_until

unfoldable pub record_failure : Environment → ℕ → String → String → Circuits → Circuits
record_failure env now provider model state =
    let key = circuit_key provider model in
    set_item key (failed_item env now (item_or_new (get_item key state))) state

-- `record_response`: `is_error` of the response picks the method.
unfoldable pub record_response : Environment → ℕ → Bool → String → String → Circuits → Circuits
record_response env now is_error provider model state =
    if is_error
    then record_failure env now provider model state
    else record_success provider model state

unfoldable pub reset : Circuits → Circuits
reset state = []
