-- ===== src/Gateway/Tests.antt =====
-- The theorems on server/circuit_breaker.py and server/rate_limit.py at concrete inputs.
use open_aipoject.Prelude.{ℕ, [], ◌∷◌, none, some, refl, arith, true, false, ◌≤◌, ◌≡◌, ◌⊎◌, length}
use open_aipoject.Gateway.RateLimit.{allowed, refused, check_events, enforce_rate_limit}
use open_aipoject.Gateway.Circuit.{
  Environment, circuit_key, Circuits, record_success, record_failure, record_response, allow,
}
use open_aipoject.Gateway.Events.{recent, prune, prune-recent}
use open_aipoject.Gateway.RateLimit.Window.{admitted, admitted-bound, retry-allowed, enforce-total}
use open_aipoject.Gateway.Circuit.Opening.{
  failures_of, record_failure-opens, record_failure-below, record_success-closes, allow-isolation,
}
use open_aipoject.Prelude.Text.{strip, append, lower}
use open_aipoject.Prelude.PyInt.{pos}
use open_aipoject.Gateway.RateLimit.Specification.{promised, admitted-promised}

abbrev sample_environment : Environment
sample_environment = record { threshold = some (pos 2); window = none; cooldown = none }

abbrev one_failure : Circuits
one_failure = ("openai:gpt", record { failures = 1000000 ∷ []; open_until = 0 }) ∷ []

record_failure-opens_example :
    (allow 100000000 "OpenAI" "gpt"
      (record_failure sample_environment 2000000 "OpenAI" "gpt" one_failure)).0
    ≡ false
unfolding circuit_key append strip lower
record_failure-opens_example =
    record_failure-opens sample_environment 2000000 100000000 "OpenAI" "gpt" one_failure
      (omega arith)

record_failure-below_example :
    (allow 2000001 "openai" "other"
      (record_failure sample_environment 2000000 "openai" "other" one_failure)).0
    ≡ (allow 2000001 "openai" "other" one_failure).0
unfolding circuit_key append strip lower
record_failure-below_example =
    record_failure-below sample_environment 2000000 2000001 "openai" "other" one_failure
      (omega arith)

record_success-closes_example :
    ((allow 5 "openai" "gpt" (record_success "openai" "gpt" one_failure)).0 ≡ true)
    × (failures_of "openai" "gpt" (record_success "openai" "gpt" one_failure) ≡ [])
record_success-closes_example = record_success-closes 5 "openai" "gpt" one_failure

allow-isolation_example :
    ((allow 9 "google" "pro"
        (record_response sample_environment 7 true "openai" "gpt" one_failure)).0
      ≡ (allow 9 "google" "pro" one_failure).0)
    × ((allow 9 "google" "pro" (allow 7 "openai" "gpt" one_failure).1).0
        ≡ (allow 9 "google" "pro" one_failure).0)
unfolding circuit_key append strip lower
allow-isolation_example =
    allow-isolation sample_environment 7 9 true "openai" "gpt" "google" "pro" one_failure refl

admitted-bound_example :
    length (recent 3000000 60000000 (admitted 60 2 (1000000 ∷ 2000000 ∷ 3000000 ∷ []) [] [])) ≤ 2
admitted-bound_example =
    admitted-bound 60 2 0 3000000 (1000000 ∷ 2000000 ∷ 3000000 ∷ [])
      (omega arith, (omega arith, (omega arith, tt)))
      (omega arith, (omega arith, (omega arith, tt))) (omega arith)

retry-allowed_example :
    (check_events 60 62000000 1 (check_events 60 1500000 1 (1000000 ∷ [])).1).0 ≡ allowed
retry-allowed_example =
    retry-allowed 60 1 1500000 62000000 59 (1000000 ∷ []) (omega arith) refl (omega arith)

enforce-total_example :
    ((enforce_rate_limit none 5 "user" (some (pos 1)) (("user", 4 ∷ []) ∷ [])).0 ≡ allowed)
    ⊎ ((r : ℕ) × ((enforce_rate_limit none 5 "user" (some (pos 1)) (("user", 4 ∷ []) ∷ [])).0
          ≡ refused r)
        × (1 ≤ r))
enforce-total_example = enforce-total none 5 "user" (some (pos 1)) (("user", 4 ∷ []) ∷ [])

prune-recent_example :
    prune 65000000 60000000 (1000000 ∷ 2000000 ∷ 6000000 ∷ [])
    ≡ recent 65000000 60000000 (1000000 ∷ 2000000 ∷ 6000000 ∷ [])
prune-recent_example =
    prune-recent 65000000 60000000 0 (1000000 ∷ 2000000 ∷ 6000000 ∷ [])
      (omega arith, (omega arith, (omega arith, tt)))

admitted-promised_example :
    admitted 60 1 (1000000 ∷ 2000000 ∷ 62000000 ∷ []) [] []
    ≡ promised 60 1 (1000000 ∷ 2000000 ∷ 62000000 ∷ []) []
admitted-promised_example =
    admitted-promised 60 1 0 (1000000 ∷ 2000000 ∷ 62000000 ∷ [])
      (omega arith, (omega arith, (omega arith, tt)))
