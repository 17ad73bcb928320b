-- ===== src/Gateway/RateLimit.antt =====
-- server/rate_limit.py: a sliding window of request times for each subject. The lock makes each
-- check one step; `now` is `time.time()` in microseconds.
pub mod Window
pub mod Specification
use open_aipoject.Prelude.{
  none, some, Option, length, ℕ, String, Bool, [], ◌∷◌, ◌+◌, ◌-◌, ◌*◌, ◌/◌, max, List, ◌++◌, str_eq,
  leb, if◌then◌else◌, true, false,
}
use open_aipoject.Prelude.PyInt.{ℤ, pos, negsuc}
use open_aipoject.Gateway.Events.{second, prune}

abbrev pub Events : Type 0
Events = List (String × List ℕ)

-- `self._events.setdefault(key, deque())`
abbrev pub events_of : String → Events → List ℕ
events_of key [] = []
events_of key ((k, ts) ∷ events) = if str_eq k key then ts else events_of key events

abbrev pub set_events : String → List ℕ → Events → Events
set_events key ts [] = (key, ts) ∷ []
set_events key ts ((k, us) ∷ events) =
    let rest = set_events key ts events in if str_eq k key then (k, ts) ∷ events else (k, us) ∷ rest

-- What `check_and_record` returns; `events[0]` of an empty deque raises.
pub data Verdict : Type 0 where
  allowed : Verdict
  refused : ℕ → Verdict
  index_error : Verdict

-- `max(1, int(self.window_seconds - (now - events[0])))`: `int` drops the part of a second.
abbrev pub retry_after : ℕ → ℕ → ℕ → ℕ
retry_after window now oldest = max 1 ((window * second + oldest - now) / second)

abbrev pub full : ℕ → ℕ → List ℕ → Verdict
full window now [] = index_error
full window now (t ∷ ts) = refused (retry_after window now t)

-- The two returns of `check_and_record`, by whether the window is full.
abbrev pub outcome : ℕ → ℕ → Bool → List ℕ → Verdict × List ℕ
outcome window now true kept = (full window now kept, kept)
outcome window now false kept = (allowed, kept ++ (now ∷ []))

-- `check_and_record` on the subject's own events.
abbrev pub check_events : ℕ → ℕ → ℕ → List ℕ → Verdict × List ℕ
check_events window now limit events =
    let kept = prune now (window * second) events in
    outcome window now (leb limit (length kept)) kept

unfoldable pub check_and_record : ℕ → ℕ → String → ℕ → Events → Verdict × Events
check_and_record window now key limit events =
    let checked = check_events window now limit (events_of key events) in
    (checked.0, set_events key checked.1 events)

-- `max(0, int(raw))`, or 60 where the variable is no integer.
abbrev pub default_requests_per_minute : Option ℤ → ℕ
default_requests_per_minute none = 60
default_requests_per_minute (some (pos n)) = n
default_requests_per_minute (some (negsuc n)) = 0

-- `int(requests_per_minute)`: a negative number is treated as zero is.
abbrev pub requested_rpm : Option ℤ → Option ℤ → ℕ
requested_rpm env none = default_requests_per_minute env
requested_rpm env (some (pos n)) = n
requested_rpm env (some (negsuc n)) = 0

-- `if rpm <= 0: return`, and else the check.
abbrev pub unless_unlimited : ℕ → String → ℕ → Events → Bool → Verdict × Events
unless_unlimited now key rpm events true = (allowed, events)
unless_unlimited now key rpm events false = check_and_record 60 now key rpm events

-- `enforce_rate_limit`, with the limiter's window of 60 seconds.
unfoldable pub enforce_rate_limit : Option ℤ → ℕ → String → Option ℤ → Events → Verdict × Events
enforce_rate_limit env now subject_key requests_per_minute events =
    let rpm = requested_rpm env requests_per_minute in
    unless_unlimited now subject_key rpm events (leb rpm 0)

unfoldable pub reset_rate_limit_state : Events → Events
reset_rate_limit_state events = []
