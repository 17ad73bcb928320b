-- ===== src/Routing/Smart/Run.antt =====
-- orchestrator/core.py, `_run_smart_attempt_loop` as a whole: the constraints narrowed to the
-- providers that can be reached, the plan, the loop, and the answer that is returned.
use open_aipoject.Prelude.{
  suc, String, refl, ◌≢◌, true, false, ◌&&◌, Option, some, List, ◌∷◌, arith, if◌then◌else◌, [],
  none, ℕ, not,
}
use open_aipoject.Gateway.Circuit.{Environment}
use open_aipoject.Routing.TierDecider.{PromptFeatures}
use open_aipoject.Routing.Invocation.{Outside, Surroundings, error_response}
use open_aipoject.Routing.Models.{
  ModelCandidate, RoutingConstraints, ValidationResult, UnifiedResponse,
}
use open_aipoject.Routing.Fallback.{FallbackPolicy}
use open_aipoject.Routing.Smart.{raised, Routing, LoopEnd, Router, attempt_loop, left, out_of_fuel}
use open_aipoject.Routing.Types.{Tier}
use open_aipoject.Routing.Router.{RoutePlan, route_once_plan}
use open_aipoject.Routing.Registry.{ModelRegistry, contains}
use open_aipoject.Routing.Registry.Order.{IsDistinct}
use open_aipoject.Routing.Smart.Progress.{rounds_left, attempt_loop-ends}
use open_aipoject.Prelude.Text.{is_empty, strip, lower}

-- `_constrain_to_routable_providers`: `available` is what the registry of clients returns for the
-- requested providers.
abbrev pub kept_preference : List String → Option String → Option String
kept_preference available none = none
kept_preference available (some preferred) =
    let normalized_preferred = lower (strip preferred) in
    if not (is_empty normalized_preferred) && not (contains normalized_preferred available)
    then none
    else some preferred

abbrev pub constrain_to_routable_providers : List String → RoutingConstraints → RoutingConstraints
constrain_to_routable_providers available constraints = record constraints {
  allowed_providers = some available;
  preferred_provider = kept_preference available constraints.preferred_provider;
}

abbrev pub latency_or : Option ℕ → ℕ → ℕ
latency_or none default = default
latency_or (some n) default = n

-- The policy of one request.
abbrev pub policy_of : ModelRegistry → RoutingConstraints → FallbackPolicy
policy_of registry constraints = record {
  max_attempts = registry.default_max_attempts;
  max_total_latency_ms = latency_or constraints.constraint_latency_ms registry.default_latency_ms;
  allow_escalation = true;
}

abbrev pub starting : {W : Type 0} → Tier → List ModelCandidate → Surroundings W → Routing W
starting tier candidates around = record {
  around = around;
  current_tier = tier;
  current_candidates = candidates;
  attempt_index = 0;
  best_non_error = none;
  final_response = none;
  last_response = none;
  attempts = [];
  credit_exclusions = [];
  fallback_used = false;
}

-- What is returned: an answer with the loop's last state as its routing metadata, or an error
-- without; a ValueError is passed on.
pub data Reply (W : Type 0) : Type 0 where
  routed : UnifiedResponse → Routing W → Reply W
  refused_with : UnifiedResponse → Reply W
  value_error_raised : Reply W
  unfinished : Reply W

-- The answer of a loop that has ended.
abbrev pub conclude :
    {W : Type 0}
    → Routing W
    → Option UnifiedResponse
    → Option UnifiedResponse
    → Option UnifiedResponse
    → Reply W
conclude s (some final) best last = routed final s
conclude s none (some best) last = routed best s
conclude s none none (some last) = routed last s
conclude s none none none = refused_with (error_response "orchestrator" "smart_router" "unknown")

abbrev pub concluded : {W : Type 0} → LoopEnd W → Reply W
concluded (left s) = conclude s s.final_response s.best_non_error s.last_response
concluded raised = value_error_raised
concluded out_of_fuel = unfinished

-- The services of the orchestrator: `validate` is the validator, `thresholds` the decider's.
pub record Services : Type 0 where
  pub models : ModelRegistry
  pub buffer : ℕ
  pub tier_thresholds : String → Option ℕ
  pub validator : PromptFeatures → RoutingConstraints → UnifiedResponse → ValidationResult

abbrev pub router_of : Services → RoutePlan → RoutingConstraints → Router
router_of services plan constraints = record {
  registry = services.models;
  token_buffer = services.buffer;
  features = plan.plan_features;
  constraints = constraints;
  policy = policy_of services.models constraints;
  check_response = services.validator;
}

module _ {W : Type 0} (services : Services) (env : Environment) (io : Outside W) where
  -- The fuel is what the plan's candidates and the tiers behind its tier allow.
  abbrev pub run_plan : RoutingConstraints → Surroundings W → Option RoutePlan → Reply W
  run_plan constraints around none =
      refused_with (error_response "orchestrator" "smart_router" "unknown")
  run_plan constraints around (some plan) =
      let router = router_of services plan constraints in
      let s = starting plan.plan_tier plan.ordered_candidates around in
      concluded (attempt_loop router env io (suc (rounds_left router s)) s)

  abbrev pub run_constrained :
      PromptFeatures → String → RoutingConstraints → Surroundings W → List String → Reply W
  run_constrained analyzed routing_mode constraints around [] =
      refused_with (error_response "orchestrator" "smart_router" "provider_error")
  run_constrained analyzed routing_mode constraints around (p ∷ ps) = run_plan constraints around (
      route_once_plan services.models services.buffer services.tier_thresholds analyzed routing_mode
        constraints)

  -- `_run_smart_attempt_loop`
  unfoldable pub run_smart_attempt_loop :
      PromptFeatures → String → RoutingConstraints → List String → Surroundings W → Reply W
  run_smart_attempt_loop analyzed routing_mode constraints available around =
      run_constrained analyzed routing_mode (constrain_to_routable_providers available constraints)
        around available

  concluded-finished : (e : LoopEnd W) → e ≢ out_of_fuel → concluded e ≢ unfinished
  concluded-finished (left s) h = chosen s.final_response s.best_non_error s.last_response
    where
      chosen : (final best last : Option UnifiedResponse) → conclude s final best last ≢ unfinished
      chosen (some final) best last = λ e. cc
      chosen none (some best) last = λ e. cc
      chosen none none (some last) = λ e. cc
      chosen none none none = λ e. cc
  concluded-finished raised h = λ e. cc
  concluded-finished out_of_fuel h = absurd (h refl)

  -- If no tier is named twice in the order of the tiers, the smart routing of a request ends with
  -- an answer or with a ValueError, whatever the providers, the authorizer and the validator do.
  pub run-finishes :
      (analyzed : PromptFeatures) (routing_mode : String) (constraints : RoutingConstraints)
      (available : List String) (around : Surroundings W)
      → IsDistinct services.models.tier_order
      → run_smart_attempt_loop analyzed routing_mode constraints available around ≢ unfinished
  unfolding run_smart_attempt_loop
  run-finishes analyzed routing_mode constraints [] around d = λ e. cc
  run-finishes analyzed routing_mode constraints (p ∷ ps) around d = of_plan (
      route_once_plan services.models services.buffer services.tier_thresholds analyzed routing_mode
        (constrain_to_routable_providers (p ∷ ps) constraints))
    where
      of_plan :
          (plan : Option RoutePlan)
          → run_plan (constrain_to_routable_providers (p ∷ ps) constraints) around plan ≢ unfinished
      of_plan none = λ e. cc
      of_plan (some plan) = concluded-finished _ (
          attempt_loop-ends
            (router_of services plan (constrain_to_routable_providers (p ∷ ps) constraints)) env io
            _ (starting plan.plan_tier plan.ordered_candidates around) d (omega arith))
