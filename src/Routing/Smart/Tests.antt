-- ===== src/Routing/Smart/Tests.antt =====
-- The theorems on the smart routing at a concrete registry, and a run that returns an error.
use open_aipoject.Prelude.{
  ◌+◌, String, ◌≡◌, true, Option, none, some, List, ◌∷◌, map, str_eq, if◌then◌else◌, [], ℕ, not,
  refl, ◌≤◌, ◌≢◌, length, any, All, arith,
}
use open_aipoject.Gateway.Circuit.{
  Environment, circuit_key, record_success, record_failure, record_response, allow,
}
use open_aipoject.Routing.TierDecider.{decide_tier}
use open_aipoject.Routing.Invocation.{Outside, invoke_candidate}
use open_aipoject.Routing.Models.{UnifiedResponse}
use open_aipoject.Routing.Selector.{select}
use open_aipoject.Routing.Validator.{validate}
use open_aipoject.Routing.Fallback.{decide}
use open_aipoject.Routing.Smart.{round, attempt_loop, Attempt, Routing}
use open_aipoject.Routing.Types.{t1}
use open_aipoject.Routing.Router.{route_once_plan}
use open_aipoject.Routing.Registry.{next_tier_of, get_candidates, find_model}
use open_aipoject.Routing.Smart.Run.{
  Reply, run_smart_attempt_loop, routed, constrain_to_routable_providers, starting, run-finishes,
  unfinished,
}
use open_aipoject.Prelude.Text.{
  lstrip, rstrip, strip, text_length, append, has_infix, partition_colon, lower,
}
use open_aipoject.Routing.Registry.Order.{IsDistinct}
use open_aipoject.Routing.Smart.Tried.{MayCall, run-MayCall}
use open_aipoject.Routing.Smart.Answers.{run-passes}
use open_aipoject.Routing.Samples.{
  sample_registry, sample_constraints, sample_features, sample_services, answer_of, short, long,
  model,
}
use open_aipoject.Routing.Invocation.Breaker.{invoke_candidate-blocked}
use open_aipoject.Prelude.PyInt.{pos}

-- `mini` answers too shortly, and `large` well; the world outside counts the calls of its clock.
abbrev sample_outside : Outside ℕ
sample_outside = record {
  clock = λ w. (w, w + 1);
  complete = λ c w.
      if str_eq c.model_name "large"
      then (some (answer_of "large" long), w)
      else (some (answer_of c.model_name short), w);
  others = λ w circuits. circuits;
  elapsed_ms = λ w. (w, w + 1);
  authorizer = some (λ provider name w. (some (not (str_eq name "small")), w));
}

-- The same with a `large` that fails.
abbrev failing_outside : Outside ℕ
failing_outside = record sample_outside {
  complete = λ c w.
      if str_eq c.model_name "large" then (none, w) else (some (answer_of c.model_name short), w);
}

abbrev sample_env : Environment
sample_env = record { threshold = none; window = none; cooldown = none }

abbrev sample_run : Outside ℕ → Reply ℕ
sample_run io =
    run_smart_attempt_loop sample_services sample_env io sample_features "smart" sample_constraints
      ("openai" ∷ []) (record { circuits = []; outside = 0 })

-- The model and the error of the answer, and the names of the models that were called.
abbrev seen : {W : Type 0} → Reply W → Option (String × Option String × List String)
seen (routed resp s) = some (resp.model, resp.error, map (λ a. a.candidate.model_name) s.attempts)
seen _ = none

small_run : seen (sample_run sample_outside) ≡ some ("large", none, "mini" ∷ "large" ∷ [])
unfolding run_smart_attempt_loop route_once_plan decide_tier get_candidates select attempt_loop
    round invoke_candidate allow record_response record_success record_failure circuit_key
    next_tier_of decide validate lower strip lstrip rstrip append has_infix text_length
    partition_colon find_model
small_run = refl

-- An earlier answer that is no error is not returned where the last call fails.
failing_run :
    seen (sample_run failing_outside) ≡ some ("large", some "unknown", "mini" ∷ "large" ∷ [])
unfolding run_smart_attempt_loop route_once_plan decide_tier get_candidates select attempt_loop
    round invoke_candidate allow record_response record_success record_failure circuit_key
    next_tier_of decide validate lower strip lstrip rstrip append has_infix text_length
    partition_colon find_model
failing_run = refl

abbrev resp_of : Reply ℕ → UnifiedResponse
resp_of (routed resp s) = resp
resp_of _ = answer_of "" ""

abbrev end_of : Reply ℕ → Routing ℕ
end_of (routed resp s) = s
end_of _ = starting t1 [] (record { circuits = []; outside = 0 })

sample_run_routed :
    sample_run sample_outside
    ≡ routed (resp_of (sample_run sample_outside)) (end_of (sample_run sample_outside))
unfolding run_smart_attempt_loop route_once_plan decide_tier get_candidates select attempt_loop
    round invoke_candidate allow record_response record_success record_failure circuit_key
    next_tier_of decide validate lower strip lstrip rstrip append has_infix text_length
    partition_colon find_model
sample_run_routed = refl

passing_attempt :
    any (λ (a : Attempt). a.validation.valid) (end_of (sample_run sample_outside)).attempts ≡ true
unfolding run_smart_attempt_loop route_once_plan decide_tier get_candidates select attempt_loop
    round invoke_candidate allow record_response record_success record_failure circuit_key
    next_tier_of decide validate lower strip lstrip rstrip append has_infix text_length
    partition_colon find_model
passing_attempt = refl

sample_order-IsDistinct : IsDistinct sample_registry.tier_order
sample_order-IsDistinct = ((refl, (refl, (refl, tt))), ((refl, (refl, tt)), ((refl, tt), (tt, tt))))

run-finishes_example : sample_run sample_outside ≢ unfinished
run-finishes_example =
    run-finishes sample_services sample_env sample_outside sample_features "smart"
      sample_constraints ("openai" ∷ []) (record { circuits = []; outside = 0 })
      sample_order-IsDistinct

run-MayCall_example :
    All
      (λ (a : Attempt).
        MayCall
          (constrain_to_routable_providers ("openai" ∷ []) sample_constraints)
          sample_outside
          a.candidate)
      (end_of (sample_run sample_outside)).attempts
    × (length (end_of (sample_run sample_outside)).attempts ≤ 3)
run-MayCall_example =
    run-MayCall sample_services sample_env sample_outside sample_features "smart" sample_constraints
      ("openai" ∷ []) (record { circuits = []; outside = 0 }) (resp_of (sample_run sample_outside))
      (end_of (sample_run sample_outside)) ((refl, (refl, (refl, tt))), tt) sample_run_routed

run-passes_example :
    (sample_services.validator sample_features
      (constrain_to_routable_providers ("openai" ∷ []) sample_constraints)
      (resp_of (sample_run sample_outside))).valid
    ≡ true
run-passes_example =
    run-passes sample_services sample_env sample_outside sample_features "smart" sample_constraints
      ("openai" ∷ []) (record { circuits = []; outside = 0 }) (resp_of (sample_run sample_outside))
      (end_of (sample_run sample_outside)) sample_run_routed passing_attempt

abbrev strict_env : Environment
strict_env = record { threshold = some (pos 1); window = none; cooldown = none }

invoke_candidate-blocked_example :
    let reply =
      invoke_candidate strict_env sample_outside
        (model "mini" t1 100)
        (record { circuits = record_failure strict_env 5 "openai" "mini" []; outside = 9 }) in
    (reply.0.error ≡ some "provider_error") × (reply.1.outside ≡ 10)
invoke_candidate-blocked_example =
    invoke_candidate-blocked strict_env sample_outside (model "mini" t1 100) 5 [] 9 (omega arith)
      (omega arith)
