-- ===== src/Routing/Router/Candidates.antt =====
-- The candidates that a plan starts with are permitted.
use open_aipoject.Prelude.{String, ◌≡◌, refl, Option, some, List, ◌∷◌, arith, All, [], none, ℕ}
use open_aipoject.Routing.TierDecider.{PromptFeatures}
use open_aipoject.Routing.Models.{ModelCandidate, RoutingConstraints, SelectionResult}
use open_aipoject.Routing.Types.{Tier}
use open_aipoject.Routing.Router.{
  tier_of_key, found_or, try_tier, search_models, search_allowed, first_candidates, RoutePlan,
  plan_of, route_once_plan,
}
use open_aipoject.Routing.Registry.{ModelRegistry, get_candidates}
use open_aipoject.Routing.Registry.Permitted.{IsPermitted, IsKeyed, get_candidates-IsPermitted}
use open_aipoject.Routing.Selector.Selection.{selected, select-All}
use open_aipoject.Prelude.Text.{partition_colon}
use mathlib.Core.Path.{subst}

module _ (registry : ModelRegistry) (keyed : IsKeyed registry.providers)
    (constraints : RoutingConstraints) where
  found_or-All :
      (t : Tier) (cs : List ModelCandidate) (rest : Tier × List ModelCandidate)
      → All (IsPermitted constraints) cs
      → All (IsPermitted constraints) rest.1
      → All (IsPermitted constraints) (found_or t cs rest).1
  found_or-All t [] rest h k = k
  found_or-All t (c ∷ cs) rest h k = h

  try_tier-All :
      (t : Option Tier) (rest : Tier → Tier × List ModelCandidate) (tier : Tier)
      → ((u : Tier) → All (IsPermitted constraints) (rest u).1)
      → All (IsPermitted constraints) (try_tier registry constraints t rest tier).1
  try_tier-All none rest tier h = h tier
  try_tier-All (some t) rest tier h =
      found_or-All t (get_candidates registry t constraints) (rest t)
        (get_candidates-IsPermitted registry t constraints keyed) (h t)

  search_models-All :
      (keys : List String) (tier : Tier)
      → All (IsPermitted constraints) (search_models registry constraints keys tier).1
  search_models-All [] tier = tt
  search_models-All (key ∷ keys) tier =
      try_tier-All (tier_of_key registry (partition_colon key))
        (search_models registry constraints keys) tier (λ u. search_models-All keys u)

  first_candidates-All :
      (tier : Tier) (cs : List ModelCandidate)
      → All (IsPermitted constraints) cs
      → All (IsPermitted constraints) (first_candidates registry constraints tier cs).1
  first_candidates-All tier (c ∷ cs) h = h
  first_candidates-All tier [] h = searched constraints.allowed_models
    where
      searched :
          (keys : Option (List String))
          → All (IsPermitted constraints) (search_allowed registry constraints keys tier).1
      searched none = tt
      searched (some keys) = search_models-All keys tier

plan_of-All :
    (P : ModelCandidate → Type 0) (features : PromptFeatures) (tier : Tier)
    (o : Option SelectionResult) (plan : RoutePlan)
    → plan_of features tier o ≡ some plan
    → ((s : SelectionResult) → o ≡ some s → All P (selected s))
    → All P plan.ordered_candidates
plan_of-All P features tier none plan e h = cc
plan_of-All P features tier (some s) plan e h =
    subst (All P) {x = selected s} (ground arith) (h s refl)

pub route_once_plan-IsPermitted :
    (registry : ModelRegistry) (token_buffer : ℕ) (thresholds : String → Option ℕ)
    (analyzed : PromptFeatures) (routing_mode : String) (constraints : RoutingConstraints)
    (plan : RoutePlan)
    → IsKeyed registry.providers
    → route_once_plan registry token_buffer thresholds analyzed routing_mode constraints ≡ some plan
    → All (IsPermitted constraints) plan.ordered_candidates
unfolding route_once_plan
route_once_plan-IsPermitted registry token_buffer thresholds analyzed routing_mode constraints plan
      keyed e =
    plan_of-All (IsPermitted constraints) _ _ _ plan e (λ s k.
      select-All (IsPermitted constraints) token_buffer _ _ constraints s k (
        first_candidates-All registry keyed constraints _ _
          (get_candidates-IsPermitted registry _ constraints keyed)))
