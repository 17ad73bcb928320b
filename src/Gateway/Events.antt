-- ===== src/Gateway/Events.antt =====
-- The deque of event times that server/circuit_breaker.py and server/rate_limit.py keep: the
-- oldest comes first. A time counts microseconds.
use open_aipoject.Prelude.{ℕ, ◌+◌, ◌≤◌, ◌≡◌, refl, List, [], ◌∷◌, ltb, if◌then◌else◌, arith, length}

abbrev pub second : ℕ
second = 1000000

-- `while events and events[0] < now - window: events.popleft()`
abbrev pub prune : (now window : ℕ) → List ℕ → List ℕ
prune now window [] = []
prune now window (t ∷ ts) =
    let rest = prune now window ts in if ltb (t + window) now then rest else t ∷ ts

-- No event is before an earlier one in the deque, or before `start`.
abbrev pub IsSorted : ℕ → List ℕ → Type 0
IsSorted start [] = Unit
IsSorted start (t ∷ ts) = (start ≤ t) × IsSorted t ts

-- The events that are not older than the window.
abbrev pub recent : (now window : ℕ) → List ℕ → List ℕ
recent now window [] = []
recent now window (t ∷ ts) =
    let rest = recent now window ts in if ltb (t + window) now then rest else t ∷ rest

all_recent :
    (now window start : ℕ) (ts : List ℕ)
    → now ≤ start + window
    → IsSorted start ts
    → recent now window ts ≡ ts
all_recent now window start [] h s = refl
all_recent now window start (t ∷ ts) h s = ground (arith, all_recent now window t ts)

-- In a deque in the order of time, what the loop leaves is every recent event, and no other.
pub prune-recent :
    (now window start : ℕ) (ts : List ℕ)
    → IsSorted start ts
    → prune now window ts ≡ recent now window ts
prune-recent now window start [] s = refl
prune-recent now window start (t ∷ ts) s =
    ground (arith, prune-recent now window t ts, all_recent now window t ts)

pub prune-length : (now window : ℕ) (ts : List ℕ) → length (prune now window ts) ≤ length ts
prune-length now window [] = omega arith
prune-length now window (t ∷ ts) = ground (arith, prune-length now window ts)

pub prune-IsSorted :
    (now window start : ℕ) (ts : List ℕ) → IsSorted start ts → IsSorted start (prune now window ts)
prune-IsSorted now window start [] s = tt
prune-IsSorted now window start (t ∷ ts) s =
    ground (arith, prune-IsSorted now window t ts, weaker start t (prune now window ts))
  where
    weaker : (a b : ℕ) (us : List ℕ) → a ≤ b → IsSorted b us → IsSorted a us
    weaker a b [] h s = tt
    weaker a b (u ∷ us) h s = (omega arith, s.1)
