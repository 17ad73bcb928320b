-- ===== src/Gateway/RateLimit/Specification.antt =====
-- What the limiter promises, without its deque: a request is let through exactly if fewer than the
-- limit of those let through before are in its window.
use open_aipoject.Prelude.{
  ◌+◌, ◌*◌, ◌≤◌, ◌≡◌, refl, ap, ◌∙◌, Bool, true, false, List, [], ◌∷◌, ◌++◌, arith, ltb, leb,
  if◌then◌else◌, length, All, All-append, All-map,
}
use open_aipoject.Gateway.RateLimit.{outcome, check_events, ℕ}
use open_aipoject.Gateway.Events.{second, prune, IsSorted, recent, prune-recent, prune-IsSorted}
use open_aipoject.Gateway.RateLimit.Window.{logged, admitted, Agrees, full-logged, checked-Agrees}

-- The requests let through, of those that come at `times`, by the log of all let through before.
abbrev pub promised : (window limit : ℕ) (times log : List ℕ) → List ℕ
promised window limit [] log = log
promised window limit (now ∷ times) log =
    promised window limit times
      (if ltb (length (recent now (window * second) log)) limit then log ++ (now ∷ []) else log)

prune-All : (P : ℕ → Type 0) (now w : ℕ) (ts : List ℕ) → All P ts → All P (prune now w ts)
prune-All P now w [] h = tt
prune-All P now w (t ∷ ts) h = dropped (ltb (t + w) now) (prune-All P now w ts h.1)
  where
    dropped : (b : Bool) → All P (prune now w ts) → All P (if b then prune now w ts else t ∷ ts)
    dropped true k = k
    dropped false k = h

append-IsSorted :
    (lo now : ℕ) (ts : List ℕ)
    → IsSorted lo ts
    → All (λ t. t ≤ now) ts
    → lo ≤ now
    → IsSorted lo (ts ++ (now ∷ []))
append-IsSorted lo now [] s late h = (h, tt)
append-IsSorted lo now (t ∷ ts) s late h = (s.0, append-IsSorted t now ts s.1 late.1 late.0)

-- The deque is in the order of time, and holds no later event than the last request.
record IsOrdered (start : ℕ) (events : List ℕ) : Type 0 where
  ordered : IsSorted 0 events
  not_late : All (λ t. t ≤ start) events

outcome-IsOrdered :
    (window start now : ℕ) (kept : List ℕ) (b : Bool)
    → start ≤ now
    → IsOrdered start kept
    → IsOrdered now (outcome window now b kept).1
outcome-IsOrdered window start now kept true h o = record {
  ordered = o.ordered;
  not_late = All-map (λ t. t ≤ start) (λ t. t ≤ now) (λ t k. omega (arith, h, k)) kept o.not_late;
}
outcome-IsOrdered window start now kept false h o =
    let late =
      All-map (λ t. t ≤ start) (λ t. t ≤ now) (λ t k. omega (arith, h, k)) kept o.not_late in
    record {
      ordered = append-IsSorted 0 now kept o.ordered late (omega arith);
      not_late = All-append (λ t. t ≤ now) kept (now ∷ []) late (omega arith, tt);
    }

-- The log after a check, by the test that the specification makes.
logged-promised :
    (window limit now : ℕ) (kept log : List ℕ) (n : ℕ)
    → length kept ≡ n
    → logged (outcome window now (leb limit (length kept)) kept).0 now log
      ≡ (if ltb n limit then log ++ (now ∷ []) else log)
logged-promised window limit now kept log n e =
    split (leb limit (length kept)) (ltb n limit) refl refl
  where
    split :
        (b c : Bool)
        → leb limit (length kept) ≡ b
        → ltb n limit ≡ c
        → logged (outcome window now b kept).0 now log ≡ (if c then log ++ (now ∷ []) else log)
    split true true h k = absurd (ground arith)
    split true false h k = full-logged window now now kept log
    split false true h k = refl
    split false false h k = absurd (ground arith)

refines :
    (window limit start : ℕ) (times events log : List ℕ)
    → IsSorted start times
    → Agrees window limit start events log
    → IsOrdered start events
    → admitted window limit times events log ≡ promised window limit times log
refines window limit start [] events log s a o = refl
refines window limit start (now ∷ times) events log s a o =
    let kept = prune now (window * second) events in
    let same = ap length (prune-recent now (window * second) 0 events o.ordered ∙ a.same now s.0) in
    refines window limit now times (check_events window now limit events).1
      (logged (check_events window now limit events).0 now log) s.1
      (checked-Agrees window limit start now events log s.0 a)
      (outcome-IsOrdered window start now kept (leb limit (length kept)) s.0 (record {
        ordered = prune-IsSorted now (window * second) 0 events o.ordered;
        not_late = prune-All (λ t. t ≤ start) now (window * second) events o.not_late;
      }))
    ∙ ap (promised window limit times)
        (logged-promised window limit now kept log (length (recent now (window * second) log)) same)

-- For requests of one subject that come in the order of time, under one limit, the limiter with its
-- pruned deque lets through exactly those that the specification on the whole log lets through.
pub admitted-promised :
    (window limit start : ℕ) (times : List ℕ)
    → IsSorted start times
    → admitted window limit times [] [] ≡ promised window limit times []
admitted-promised window limit start times s =
    refines window limit start times [] [] s (record { same = λ n k. refl; few = omega arith })
      (record { ordered = tt; not_late = tt })
