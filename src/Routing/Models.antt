-- ===== src/Routing/Models.antt =====
-- orchestrator/routing_types.py and models/unified_response.py: the models that a request may be
-- routed to, the constraints on them, and what an attempt returns. Prices are in millionths of a
-- dollar for a million tokens, a cost limit in 10^-12 dollars.
use open_aipoject.Prelude.{ℕ, String, Bool, Option, List}
use open_aipoject.Routing.Types.{Tier}

-- The fields of `ModelCandidate` that routing reads; `billing_class` is the enumeration's value.
pub record ModelCandidate : Type 0 where
  pub provider : String
  pub model_name : String
  pub model_tier : Tier
  pub input_cost_per_1m : ℕ
  pub output_cost_per_1m : ℕ
  pub context_limit : ℕ
  pub tags : List String
  pub billing_class : String
  pub enabled : Bool
  pub selectable : Bool
  pub aliases : List String

-- `RoutingConstraints`; `None` is read as every field's default.
pub record RoutingConstraints : Type 0 where
  pub max_cost_usd : Option ℕ
  pub constraint_latency_ms : Option ℕ
  pub preferred_provider : Option String
  pub allowed_providers : Option (List String)
  pub allowed_billing_classes : Option (List String)
  pub allowed_models : Option (List String)
  pub min_context_limit : Option ℕ
  pub json_only : Bool
  pub must_be_strict : Bool

-- `SelectionResult`
pub record SelectionResult : Type 0 where
  pub primary_candidate : ModelCandidate
  pub fallback_candidates : List ModelCandidate

-- `ValidationResult`
pub record ValidationResult : Type 0 where
  pub valid : Bool
  pub reason : String
  pub severity : String

-- The fields of `UnifiedResponse` that routing reads or writes; `error` is the code of the error.
pub record UnifiedResponse : Type 0 where
  pub text : String
  pub provider : String
  pub model : String
  pub error : Option String
  pub finish_reason : Option String
  pub attempt : ℕ
  pub fallback_from : Option String
