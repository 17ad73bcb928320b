-- ===== src/Routing/Samples.antt =====
-- A registry, constraints, a prompt and answers for the tests of the routing.
use open_aipoject.Prelude.{String, true, false, none, some, ◌∷◌, [], ℕ}
use open_aipoject.Routing.TierDecider.{PromptFeatures}
use open_aipoject.Routing.Models.{ModelCandidate, RoutingConstraints, UnifiedResponse}
use open_aipoject.Routing.Validator.{validate}
use open_aipoject.Routing.Types.{Tier, t1, t2}
use open_aipoject.Routing.Registry.{ModelRegistry}
use open_aipoject.Routing.Smart.Run.{Services}

abbrev pub model : String → Tier → ℕ → ModelCandidate
model name tier cost = record {
  provider = "openai";
  model_name = name;
  model_tier = tier;
  input_cost_per_1m = cost;
  output_cost_per_1m = cost;
  context_limit = 8000;
  tags = "cheap" ∷ [];
  billing_class = "advanced";
  enabled = true;
  selectable = true;
  aliases = [];
}

abbrev pub sample_registry : ModelRegistry
sample_registry = record {
  providers =
      ("openai", model "small" t1 200 ∷ model "mini" t1 100 ∷ model "large" t2 900 ∷ []) ∷ [];
  tier_order = "T0" ∷ "T1" ∷ "T2" ∷ "T3" ∷ [];
  allow_providers = none;
  default_max_attempts = 3;
  default_latency_ms = 12000;
}

abbrev pub sample_constraints : RoutingConstraints
sample_constraints = record {
  max_cost_usd = none;
  constraint_latency_ms = none;
  preferred_provider = none;
  allowed_providers = none;
  allowed_billing_classes = some ("Advanced" ∷ []);
  allowed_models = none;
  min_context_limit = some 4000;
  json_only = false;
  must_be_strict = false;
}

abbrev pub sample_features : PromptFeatures
sample_features = record {
  token_estimate = 1200;
  has_code = false;
  has_math = false;
  has_analysis = false;
  has_factual = false;
  strict_format = false;
  has_logs_stacktrace = false;
  context_token_estimate = 0;
  context_messages = 0;
  is_follow_up = false;
  needs_latest_info = false;
  needs_accuracy = false;
  intent = "general";
  has_strict_constraints = false;
}

abbrev pub sample_services : Services
sample_services = record {
  models = sample_registry;
  buffer = 200;
  tier_thresholds = λ name. none;
  validator = validate (λ text. true) (λ text. false) (λ name. none);
}

abbrev pub answer_of : String → String → UnifiedResponse
answer_of name text = record {
  text = text;
  provider = "openai";
  model = name;
  error = none;
  finish_reason = some "stop";
  attempt = 1;
  fallback_from = none;
}

abbrev pub short : String
short = "Yes."

abbrev pub long : String
long = "The capital of the country has been Canberra since 1927."
