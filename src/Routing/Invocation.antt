-- ===== src/Routing/Invocation.antt =====
-- orchestrator/core.py, `_invoke_candidate`: one call of a provider's model behind the circuit
-- breaker. What stands outside the process is a record of operations on a state of its own.
pub mod Breaker
use open_aipoject.Prelude.{
  ℕ, String, Bool, true, false, Option, none, some, is_some, str_eq, if◌then◌else◌,
}
use open_aipoject.Prelude.Text.{lower, strip, is_empty}
use open_aipoject.Gateway.Circuit.{Environment, Circuits, allow, record_failure, record_response}
use open_aipoject.Routing.Models.{ModelCandidate, UnifiedResponse}

-- `clock` is `time.time()` in microseconds; `complete` gets the client and its completion, `none`
-- if either raises; `others` is what other requests do to the breaker's store during the call.
-- `elapsed_ms` is the time since the routing began; the authorizer is the caller's, `none` if it
-- gives none, and its answer is `none` if it raises.
pub record Outside (W : Type 0) : Type 0 where
  pub clock : W → ℕ × W
  pub complete : ModelCandidate → W → Option UnifiedResponse × W
  pub others : W → Circuits → Circuits
  pub elapsed_ms : W → ℕ × W
  pub authorizer : Option (String → String → W → Option Bool × W)

-- The breaker's store, and the state outside.
pub record Surroundings (W : Type 0) : Type 0 where
  pub circuits : Circuits
  pub outside : W

-- `_error_response`
abbrev pub error_response : String → String → String → UnifiedResponse
error_response provider model code = record {
  text = "";
  provider = provider;
  model = model;
  error = some code;
  finish_reason = some "error";
  attempt = 1;
  fallback_from = none;
}

abbrev pub text_or_empty : Option String → String
text_or_empty none = ""
text_or_empty (some t) = t

-- `_normalize_empty_success_response`
abbrev pub normalize_empty_success_response : UnifiedResponse → UnifiedResponse
normalize_empty_success_response response =
    if is_some response.error
    then response
    else if is_empty (strip response.text)
    then if str_eq (lower (strip (text_or_empty response.finish_reason))) "length"
      then response
      else record response {
        text = "";
        finish_reason = some "error";
        error = some "provider_error";
      }
    else response

module _ {W : Type 0} (env : Environment) (io : Outside W) where
  -- The answer and the failure of a call, each recorded by the breaker.
  abbrev pub record_call :
      ModelCandidate → Circuits → Option UnifiedResponse → ℕ × W → UnifiedResponse × Surroundings W
  record_call c circuits none (now, w) = (
    error_response c.provider c.model_name "unknown",
    record { circuits = record_failure env now c.provider c.model_name circuits; outside = w },
  )
  record_call c circuits (some raw) (now, w) =
      let response = normalize_empty_success_response raw in
      (
        response,
        record {
          circuits =
              record_response env now (is_some response.error) response.provider response.model
                circuits;
          outside = w;
        },
      )

  abbrev pub after_completion :
      ModelCandidate → Circuits → Option UnifiedResponse × W → UnifiedResponse × Surroundings W
  after_completion c circuits (answer, w) = record_call c (io.others w circuits) answer (io.clock w)

  abbrev pub call_if_allowed :
      ModelCandidate → W → Bool × Circuits → UnifiedResponse × Surroundings W
  call_if_allowed c w (false, circuits) = (
    error_response c.provider c.model_name "provider_error",
    record { circuits = circuits; outside = w },
  )
  call_if_allowed c w (true, circuits) = after_completion c circuits (io.complete c w)

  abbrev pub at_time : ModelCandidate → Circuits → ℕ × W → UnifiedResponse × Surroundings W
  at_time c circuits (now, w) = call_if_allowed c w (allow now c.provider c.model_name circuits)

  -- `_invoke_candidate`
  unfoldable pub invoke_candidate :
      ModelCandidate → Surroundings W → UnifiedResponse × Surroundings W
  invoke_candidate c s = at_time c s.circuits (io.clock s.outside)
