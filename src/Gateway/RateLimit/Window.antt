-- ===== src/Gateway/RateLimit/Window.antt =====
-- How many requests of a subject the limiter lets through in a window, and when a refused one may
-- come again.
use open_aipoject.Prelude.{
  ℕ, String, Bool, [], ◌∷◌, ◌+◌, ◌++◌, arith, ◌*◌, ◌/◌, max, sym, ap, ◌∙◌, leb, ◌≤◌, ◌≡◌, All, ◌-◌,
  ◌<◌, refl, true, false, length-append, ◌⊎◌, inl, inr, Option,
}
use open_aipoject.Gateway.RateLimit.{
  allowed, refused, Verdict, List, check_events, length, full, outcome, Events, retry_after,
  check_and_record, requested_rpm, unless_unlimited, enforce_rate_limit, ℤ,
}
use open_aipoject.Gateway.Events.{recent, IsSorted, prune, second, prune-length}

-- The requests of one subject that were let through, of those that came at `times`.
abbrev pub logged : Verdict → ℕ → List ℕ → List ℕ
logged allowed now log = log ++ (now ∷ [])
logged _ now log = log

abbrev pub admitted : (window limit : ℕ) (times events log : List ℕ) → List ℕ
admitted window limit [] events log = log
admitted window limit (now ∷ times) events log =
    let checked = check_events window now limit events in
    admitted window limit times checked.1 (logged checked.0 now log)

recent-append :
    (now w : ℕ) (xs ys : List ℕ) → recent now w (xs ++ ys) ≡ recent now w xs ++ recent now w ys
recent-append now w [] ys = refl
recent-append now w (x ∷ xs) ys = ground (arith, recent-append now w xs ys)

-- What the loop drops is not recent at any later time.
recent-prune : (t now w : ℕ) (ts : List ℕ) → t ≤ now → recent now w (prune t w ts) ≡ recent now w ts
recent-prune t now w [] h = refl
recent-prune t now w (x ∷ xs) h = ground (arith, recent-prune t now w xs h)

recent-length : (now w : ℕ) (ts : List ℕ) → length (recent now w ts) ≤ length ts
recent-length now w [] = omega arith
recent-length now w (t ∷ ts) = ground (arith, recent-length now w ts)

-- The deque holds what the log holds of the window, and no more than the limit.
pub record Agrees (window limit t : ℕ) (events log : List ℕ) : Type 0 where
  pub same :
      (now : ℕ) → t ≤ now → recent now (window * second) events ≡ recent now (window * second) log
  pub few : length events ≤ limit

pub full-logged : (window t now : ℕ) (kept log : List ℕ) → logged (full window t kept) now log ≡ log
full-logged window t now [] log = refl
full-logged window t now (e ∷ kept) log = refl

-- The two outcomes of a check, for the deque `kept` that the loop leaves.
decided :
    (window limit t : ℕ) (kept log : List ℕ) (b : Bool)
    → leb limit (length kept) ≡ b
    → Agrees window limit t kept log
    → Agrees window limit t (outcome window t b kept).1 (logged (outcome window t b kept).0 t log)
decided window limit t kept log true e a = record {
  same = λ now h.
      a.same now h ∙ ap (recent now (window * second)) (sym (full-logged window t t kept log));
  few = a.few;
}
decided window limit t kept log false e a = record {
  same = λ now h.
      recent-append now (window * second) kept (t ∷ [])
      ∙ ap (λ xs. xs ++ recent now (window * second) (t ∷ [])) (a.same now h)
      ∙ sym (recent-append now (window * second) log (t ∷ []));
  few = ground (arith, length-append kept (t ∷ []));
}

pub checked-Agrees :
    (window limit start t : ℕ) (events log : List ℕ)
    → start ≤ t
    → Agrees window limit start events log
    → Agrees window limit t
        (check_events window t limit events).1
        (logged (check_events window t limit events).0 t log)
checked-Agrees window limit start t events log h a =
    decided window limit t (prune t (window * second) events) log _ refl (record {
      same =
          λ now k. recent-prune t now (window * second) events k ∙ a.same now (omega (arith, h, k));
      few = omega (arith, prune-length t (window * second) events, a.few);
    })

admitted_few :
    (window limit start now : ℕ) (times events log : List ℕ)
    → IsSorted start times
    → All (λ t. t ≤ now) times
    → start ≤ now
    → Agrees window limit start events log
    → length (recent now (window * second) (admitted window limit times events log)) ≤ limit
admitted_few window limit start now [] events log s late h a =
    omega (arith, ap length (a.same now h), recent-length now (window * second) events, a.few)
admitted_few window limit start now (t ∷ times) events log s late h a =
    admitted_few window limit t now times _ _ s.1 late.1 late.0
      (checked-Agrees window limit start t events log s.0 a)

-- Of the requests of one subject that come in the order of time, under one limit, at most `limit`
-- are let through in the window that ends at the last of them, or at any later time.
pub admitted-bound :
    (window limit start now : ℕ) (times : List ℕ)
    → IsSorted start times
    → All (λ t. t ≤ now) times
    → start ≤ now
    → length (recent now (window * second) (admitted window limit times [] [])) ≤ limit
admitted-bound window limit start now times s late h =
    admitted_few window limit start now times [] [] s late h
      (record { same = λ n k. refl; few = omega arith })

-- The oldest event is out of the window once the advised seconds and one more have passed.
waited : (w now t e : ℕ) → now + (max 1 ((w + e - now) / second) + 1) * second ≤ t → e + w < t
waited w now t e h = omega arith

later_check :
    (window limit now t r : ℕ) (kept : List ℕ)
    → full window now kept ≡ refused r
    → length kept ≤ limit
    → now + (r + 1) * second ≤ t
    → (check_events window t limit kept).0 ≡ allowed
later_check window limit now t r [] e few h = cc
later_check window limit now t r (x ∷ kept) e few h =
    let gone = waited (window * second) now t x in
    ground (arith, gone, prune-length t (window * second) kept)

-- A request that is refused is let through once the advised seconds and one more have passed, if
-- no other request of the subject came in between.
pub retry-allowed :
    (window limit now t r : ℕ) (events : List ℕ)
    → length events ≤ limit
    → (check_events window now limit events).0 ≡ refused r
    → now + (r + 1) * second ≤ t
    → (check_events window t limit (check_events window now limit events).1).0 ≡ allowed
retry-allowed window limit now t r events few e h =
    of_outcome (leb limit (length (prune now (window * second) events))) e
  where
    of_outcome :
        (b : Bool)
        → (outcome window now b (prune now (window * second) events)).0 ≡ refused r
        → (check_events window t limit
            (outcome window now b (prune now (window * second) events)).1).0
          ≡ allowed
    of_outcome true e =
        later_check window limit now t r (prune now (window * second) events) e
          (omega (arith, prune-length now (window * second) events, few)) h
    of_outcome false e = cc

-- Whatever the configuration, a request is allowed, or refused with an advised wait of at least
-- one second: the oldest event of an empty deque is never looked for.
pub enforce-total :
    (env : Option ℤ) (now : ℕ) (key : String) (rpm : Option ℤ) (events : Events)
    → ((enforce_rate_limit env now key rpm events).0 ≡ allowed)
      ⊎ ((r : ℕ) × ((enforce_rate_limit env now key rpm events).0 ≡ refused r) × (1 ≤ r))
unfolding enforce_rate_limit check_and_record
enforce-total env now key rpm events = limited (requested_rpm env rpm) _ refl
  where
    of_kept :
        (limit : ℕ) (kept : List ℕ) (b : Bool)
        → 0 < limit
        → leb limit (length kept) ≡ b
        → ((outcome 60 now b kept).0 ≡ allowed)
          ⊎ ((r : ℕ) × ((outcome 60 now b kept).0 ≡ refused r) × (1 ≤ r))
    of_kept limit kept false h e = inl refl
    of_kept limit [] true h e = absurd (ground arith)
    of_kept limit (x ∷ kept) true h e = inr (retry_after 60 now x, refl, omega arith)

    limited :
        (limit : ℕ) (b : Bool)
        → leb limit 0 ≡ b
        → ((unless_unlimited now key limit events b).0 ≡ allowed)
          ⊎ ((r : ℕ) × ((unless_unlimited now key limit events b).0 ≡ refused r) × (1 ≤ r))
    limited limit true e = inl refl
    limited limit false e = of_kept limit _ _ (ground arith) refl
