-- ===== src/Routing/Router.antt =====
-- orchestrator/smart_router.py: the tier and the ordered candidates that a request starts with. The
-- features are those of the analyzer, with the estimates already taken from the messages.
pub mod Candidates
use open_aipoject.Prelude.{
  String, true, Option, none, some, List, [], ◌∷◌, ◌||◌, ℕ, str_eq, if◌then◌else◌,
}
use open_aipoject.Prelude.Text.{partition_colon}
use open_aipoject.Routing.Types.{Tier, t0, t2}
use open_aipoject.Routing.Models.{ModelCandidate, RoutingConstraints, SelectionResult}
use open_aipoject.Routing.Registry.{ModelRegistry, get_candidates, find_model}
use open_aipoject.Routing.Selector.{select}
use open_aipoject.Routing.Selector.Selection.{selected}
use open_aipoject.Routing.TierDecider.{PromptFeatures, decide_tier}

-- `_apply_constraints`
abbrev pub apply_constraints : PromptFeatures → RoutingConstraints → PromptFeatures
apply_constraints features constraints =
    if constraints.must_be_strict || constraints.json_only
    then record features { strict_format = true; has_strict_constraints = true }
    else features

-- `_resolve_forced_tier`
abbrev pub resolve_forced_tier : String → Option Tier
resolve_forced_tier routing_mode =
    if str_eq routing_mode "cheap"
    then some t0
    else if str_eq routing_mode "strong"
    then some t2
    else none

-- The tier that is forced, or the decider's.
abbrev pub initial_decision : (String → Option ℕ) → PromptFeatures → Option Tier → Tier
initial_decision thresholds features (some tier) = tier
initial_decision thresholds features none = (decide_tier thresholds features).tier

-- The search over `constraints.allowed_models` for a tier that has candidates: the tier is that of
-- the last model that was found and enabled, also where its tier has none.
abbrev pub enabled_tier : Option ModelCandidate → Option Tier
enabled_tier none = none
enabled_tier (some c) = if c.enabled then some c.model_tier else none

abbrev pub tier_of_key : ModelRegistry → Option (String × String) → Option Tier
tier_of_key registry none = none
tier_of_key registry (some (provider, model)) = enabled_tier (find_model registry provider model)

abbrev pub found_or :
    Tier → List ModelCandidate → Tier × List ModelCandidate → Tier × List ModelCandidate
found_or tier [] rest = rest
found_or tier (c ∷ cs) rest = (tier, c ∷ cs)

module _ (registry : ModelRegistry) (constraints : RoutingConstraints) where
  -- One key of the search; `rest` is the search in the keys behind it.
  abbrev pub try_tier :
      Option Tier → (Tier → Tier × List ModelCandidate) → Tier → Tier × List ModelCandidate
  try_tier none rest tier = rest tier
  try_tier (some t) rest tier = found_or t (get_candidates registry t constraints) (rest t)

  abbrev pub search_models : List String → Tier → Tier × List ModelCandidate
  search_models [] tier = (tier, [])
  search_models (key ∷ keys) tier =
      try_tier (tier_of_key registry (partition_colon key)) (search_models keys) tier

  abbrev pub search_allowed : Option (List String) → Tier → Tier × List ModelCandidate
  search_allowed none tier = (tier, [])
  search_allowed (some keys) tier = search_models keys tier

  -- The candidates of the tier, or those of the search where it has none.
  abbrev pub first_candidates : Tier → List ModelCandidate → Tier × List ModelCandidate
  first_candidates tier [] = search_allowed constraints.allowed_models tier
  first_candidates tier (c ∷ cs) = (tier, c ∷ cs)

-- What `route_once_plan` returns, without its metadata.
pub record RoutePlan : Type 0 where
  pub plan_features : PromptFeatures
  pub plan_tier : Tier
  pub ordered_candidates : List ModelCandidate

abbrev pub plan_of : PromptFeatures → Tier → Option SelectionResult → Option RoutePlan
plan_of features tier none = none
plan_of features tier (some selection) =
    some (record {
      plan_features = features;
      plan_tier = tier;
      ordered_candidates = selected selection;
    })

-- `route_once_plan`; `none` is the selector's ValueError.
unfoldable pub route_once_plan :
    ModelRegistry
    → ℕ
    → (String → Option ℕ)
    → PromptFeatures
    → String
    → RoutingConstraints
    → Option RoutePlan
route_once_plan registry token_buffer thresholds analyzed routing_mode constraints =
    let features = apply_constraints analyzed constraints in
    let tier = initial_decision thresholds features (resolve_forced_tier routing_mode) in
    let start =
      first_candidates registry constraints tier (get_candidates registry tier constraints) in
    plan_of features start.0 (select token_buffer features start.1 constraints)
