-- ===== src/Routing/Registry.antt =====
-- orchestrator/model_registry.py: which models may serve a tier, and the order of the tiers. The
-- registry is what `from_yaml` has read; `str(item or "")` of a text is the text.
pub mod Permitted
pub mod Order
use open_aipoject.Prelude.{
  ℕ, String, Bool, true, false, Option, none, some, List, [], ◌∷◌, ◌++◌, map, any, filter, not,
  ◌&&◌, ◌||◌, leb, str_eq, if◌then◌else◌,
}
use open_aipoject.Prelude.Text.{lower, strip, append, is_empty}
use open_aipoject.Routing.Types.{Tier, t0, t1, t2, t3}
use open_aipoject.Routing.Models.{ModelCandidate, RoutingConstraints}

-- `_providers` and the entries of `_routing_defaults` that are read.
pub record ModelRegistry : Type 0 where
  pub providers : List (String × List ModelCandidate)
  pub tier_order : List String
  pub allow_providers : Option (List String)
  pub default_max_attempts : ℕ
  pub default_latency_ms : ℕ

-- `tier.value`
abbrev pub tier_value : Tier → String
tier_value t0 = "T0"
tier_value t1 = "T1"
tier_value t2 = "T2"
tier_value t3 = "T3"

-- `Tier(value)`; `none` is a ValueError.
abbrev pub tier_named : String → Option Tier
tier_named value =
    if str_eq value "T0"
    then some t0
    else if str_eq value "T1"
    then some t1
    else if str_eq value "T2"
    then some t2
    else if str_eq value "T3"
    then some t3
    else none

-- What `next_tier` (`next_tier_of` here) returns or raises.
pub data NextTier : Type 0 where
  no_tier : NextTier
  tier_error : NextTier
  onward : Tier → NextTier

abbrev pub named_or_error : Option Tier → NextTier
named_or_error none = tier_error
named_or_error (some tier) = onward tier

-- `Tier(tier_order[idx + 1])`, of what stands behind `idx`.
abbrev pub first_tier : List String → NextTier
first_tier [] = no_tier
first_tier (value ∷ values) = named_or_error (tier_named value)

-- `tier_order.index(value)`, and the tier behind it.
abbrev pub tier_behind : String → List String → NextTier
tier_behind value [] = tier_error
tier_behind value (v ∷ values) =
    if str_eq v value then first_tier values else tier_behind value values

unfoldable pub next_tier_of : ModelRegistry → Tier → NextTier
next_tier_of registry tier = tier_behind (tier_value tier) registry.tier_order

-- `value in items`
abbrev pub contains : String → List String → Bool
contains value items = any (λ item. str_eq item value) items

-- `{str(item or "").strip().lower() for item in items if str(item or "").strip()}`
abbrev pub normalized : List String → List String
normalized items =
    map (λ item. lower (strip item)) (filter (λ item. not (is_empty (strip item))) items)

-- `allowed and provider.lower() not in allowed`: an empty list excludes nothing.
abbrev pub permits_provider : Option (List String) → String → Bool
permits_provider none provider = true
permits_provider (some []) provider = true
permits_provider (some (p ∷ ps)) provider = contains (lower provider) (map lower (p ∷ ps))

-- `allowed is not None and value not in allowed`
abbrev pub permits_value : Option (List String) → String → Bool
permits_value none value = true
permits_value (some items) value = contains value (normalized items)

abbrev pub permits_context : Option ℕ → ℕ → Bool
permits_context none limit = true
permits_context (some least) limit = leb least limit

-- `f"{candidate.provider}:{candidate.model_name}".lower()`
abbrev pub model_key : ModelCandidate → String
model_key c = lower (append c.provider (append ":" c.model_name))

abbrev pub same_tier : Tier → Tier → Bool
same_tier a b = str_eq (tier_value a) (tier_value b)

-- The tests of the inner loop of `get_candidates`, in their order.
abbrev pub permits : Tier → RoutingConstraints → ModelCandidate → Bool
permits tier constraints c =
    c.enabled
    && (c.selectable
        && (same_tier c.model_tier tier
            && (permits_value constraints.allowed_billing_classes c.billing_class
                && (permits_value constraints.allowed_models (model_key c)
                    && permits_context constraints.min_context_limit c.context_limit))))

-- `constraints.allowed_providers` if it is given, and else the registry's default.
abbrev pub allowed_or_default : Option (List String) → Option (List String) → Option (List String)
allowed_or_default none default = default
allowed_or_default (some allowed) default = some allowed

abbrev pub candidates_of :
    Option (List String)
    → (ModelCandidate → Bool)
    → List (String × List ModelCandidate)
    → List ModelCandidate
candidates_of allowed keep [] = []
candidates_of allowed keep ((provider, models) ∷ providers) =
    (if permits_provider allowed provider then filter keep models else [])
    ++ candidates_of allowed keep providers

unfoldable pub get_candidates : ModelRegistry → Tier → RoutingConstraints → List ModelCandidate
get_candidates registry tier constraints =
    candidates_of (allowed_or_default constraints.allowed_providers registry.allow_providers)
      (permits tier constraints) registry.providers

-- The first of a provider's models with the name, or with the alias.
abbrev pub model_called : String → List ModelCandidate → Option ModelCandidate
model_called name [] = none
model_called name (c ∷ cs) =
    if str_eq c.model_name name || contains name c.aliases then some c else model_called name cs

-- `self._providers.get(provider_norm, [])`
abbrev pub models_of : String → List (String × List ModelCandidate) → List ModelCandidate
models_of provider [] = []
models_of provider ((p, models) ∷ providers) =
    if str_eq p provider then models else models_of provider providers

unfoldable pub find_model : ModelRegistry → String → String → Option ModelCandidate
find_model registry provider model_name =
    let provider_norm = strip (lower provider) in
    let model_norm = strip model_name in
    if is_empty provider_norm || is_empty model_norm
    then none
    else model_called model_norm (models_of provider_norm registry.providers)
