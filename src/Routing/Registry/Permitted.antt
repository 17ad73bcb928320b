-- ===== src/Routing/Registry/Permitted.antt =====
-- What holds of the models that the registry offers for a tier, and how many there can be.
use mathlib.Core.Path.{subst}
use open_aipoject.Prelude.Text.{lower}
use open_aipoject.Prelude.{
  any, str_eq, map, ap, sym, ◌∙◌, refl, ◌||◌, ℕ, String, Bool, true, false, Option, none, some,
  List, [], ◌∷◌, filter, length, All, ◌&&◌, ◌≡◌, ◌≤◌, ◌+◌, arith, leb→le, length-append,
  length-filter, All-append, if◌then◌else◌,
}
use open_aipoject.Routing.Types.{Tier}
use open_aipoject.Routing.Models.{ModelCandidate, RoutingConstraints}
use open_aipoject.Routing.Registry.{
  ModelRegistry, get_candidates, candidates_of, permits, permits_provider, permits_value,
  permits_context, contains, normalized, model_key, same_tier, allowed_or_default,
}

-- The value is in the list, if there is one.
abbrev pub IsAmong : Option (List String) → String → Type 0
IsAmong none value = Unit {0}
IsAmong (some items) value = contains value (normalized items) ≡ true

abbrev pub IsAtLeast : Option ℕ → ℕ → Type 0
IsAtLeast none n = Unit {0}
IsAtLeast (some least) n = least ≤ n

-- Without a list, and with an empty one, every provider is allowed.
abbrev pub IsAllowedProvider : Option (List String) → String → Type 0
IsAllowedProvider none provider = Unit {0}
IsAllowedProvider (some []) provider = Unit {0}
IsAllowedProvider (some (p ∷ ps)) provider =
    any (λ item. str_eq (lower item) (lower provider)) (p ∷ ps) ≡ true

-- The models stand under the name of their provider, as `from_yaml` enters them.
abbrev pub IsKeyed : List (String × List ModelCandidate) → Type 0
IsKeyed [] = Unit {0}
IsKeyed ((provider, models) ∷ providers) =
    All (λ (c : ModelCandidate). c.provider ≡ provider) models × IsKeyed providers

-- A model that a request under the constraints may use.
pub record IsPermitted (constraints : RoutingConstraints) (c : ModelCandidate) : Type 0 where
  pub is_enabled : c.enabled ≡ true
  pub is_selectable : c.selectable ≡ true
  pub provider_allowed : IsAllowedProvider constraints.allowed_providers c.provider
  pub class_allowed : IsAmong constraints.allowed_billing_classes c.billing_class
  pub model_allowed : IsAmong constraints.allowed_models (model_key c)
  pub context_enough : IsAtLeast constraints.min_context_limit c.context_limit

all_true :
    (a b c d e f : Bool)
    → a && (b && (c && (d && (e && f)))) ≡ true
    → (a ≡ true) × (b ≡ true) × (c ≡ true) × (d ≡ true) × (e ≡ true) × (f ≡ true)
all_true a b c d e f h = ground arith

among :
    (allowed : Option (List String)) (value : String)
    → permits_value allowed value ≡ true
    → IsAmong allowed value
among none value h = tt
among (some items) value h = h

large_enough : (least : Option ℕ) (n : ℕ) → permits_context least n ≡ true → IsAtLeast least n
large_enough none n h = tt
large_enough (some least) n h = leb→le least n h

any-lower :
    (value : String) (items : List String)
    → contains value (map lower items) ≡ any (λ item. str_eq (lower item) value) items
any-lower value [] = refl
any-lower value (item ∷ items) = ap (λ b. str_eq (lower item) value || b) (any-lower value items)

-- The registry's default is only used where the constraints have no list.
provider_among :
    (allowed default : Option (List String)) (provider : String)
    → permits_provider (allowed_or_default allowed default) provider ≡ true
    → IsAllowedProvider allowed provider
provider_among none default provider h = tt
provider_among (some []) default provider h = tt
provider_among (some (p ∷ ps)) default provider h = sym (any-lower (lower provider) (p ∷ ps)) ∙ h

permits-IsPermitted :
    (tier : Tier) (constraints : RoutingConstraints) (c : ModelCandidate)
    → IsAllowedProvider constraints.allowed_providers c.provider
    → permits tier constraints c ≡ true
    → IsPermitted constraints c
permits-IsPermitted tier constraints c a h =
    let p =
      all_true c.enabled c.selectable (same_tier c.model_tier tier)
        (permits_value constraints.allowed_billing_classes c.billing_class)
        (permits_value constraints.allowed_models (model_key c))
        (permits_context constraints.min_context_limit c.context_limit) h in
    record {
      is_enabled = p.0;
      is_selectable = p.1;
      provider_allowed = a;
      class_allowed = among constraints.allowed_billing_classes c.billing_class p.3;
      model_allowed = among constraints.allowed_models (model_key c) p.4;
      context_enough = large_enough constraints.min_context_limit c.context_limit p.5;
    }

if-All :
    (P : ModelCandidate → Type 0) (b : Bool) (xs : List ModelCandidate)
    → (b ≡ true → All P xs)
    → All P (if b then xs else [])
if-All P true xs h = h refl
if-All P false xs h = tt

-- What passes the tests under an allowed provider.
passing-All :
    (tier : Tier) (constraints : RoutingConstraints) (provider : String)
    (models : List ModelCandidate)
    → IsAllowedProvider constraints.allowed_providers provider
    → All (λ (c : ModelCandidate). c.provider ≡ provider) models
    → All (IsPermitted constraints) (filter (permits tier constraints) models)
passing-All tier constraints provider [] a k = tt
passing-All tier constraints provider (c ∷ cs) a k =
    kept (permits tier constraints c) refl (passing-All tier constraints provider cs a k.1)
  where
    kept :
        (b : Bool)
        → permits tier constraints c ≡ b
        → All (IsPermitted constraints) (filter (permits tier constraints) cs)
        → All (IsPermitted constraints) (
            if b
            then c ∷ filter (permits tier constraints) cs
            else filter (permits tier constraints) cs)
    kept true e h = (
      permits-IsPermitted tier constraints c
          (subst (IsAllowedProvider constraints.allowed_providers) (sym k.0) a) e,
      h,
    )
    kept false e h = h

candidates_of-IsPermitted :
    (tier : Tier) (constraints : RoutingConstraints) (default : Option (List String))
    (providers : List (String × List ModelCandidate))
    → IsKeyed providers
    → All (IsPermitted constraints) (
        candidates_of
          (allowed_or_default constraints.allowed_providers default)
          (permits tier constraints)
          providers)
candidates_of-IsPermitted tier constraints default [] k = tt
candidates_of-IsPermitted tier constraints default ((p, models) ∷ providers) k =
    let allowed = allowed_or_default constraints.allowed_providers default in
    All-append (IsPermitted constraints)
      (if permits_provider allowed p then filter (permits tier constraints) models else [])
      (candidates_of allowed (permits tier constraints) providers)
      (if-All (IsPermitted constraints) (permits_provider allowed p)
        (filter (permits tier constraints) models)
        (λ e.
          passing-All tier constraints p models
            (provider_among constraints.allowed_providers default p e) k.0))
      (candidates_of-IsPermitted tier constraints default providers k.1)

pub get_candidates-IsPermitted :
    (registry : ModelRegistry) (tier : Tier) (constraints : RoutingConstraints)
    → IsKeyed registry.providers
    → All (IsPermitted constraints) (get_candidates registry tier constraints)
unfolding get_candidates
get_candidates-IsPermitted registry tier constraints k =
    candidates_of-IsPermitted tier constraints registry.allow_providers registry.providers k

-- The number of models in the registry.
abbrev pub model_count : List (String × List ModelCandidate) → ℕ
model_count [] = 0
model_count ((provider, models) ∷ providers) = length models + model_count providers

if-length : (b : Bool) (xs : List ModelCandidate) → length (if b then xs else []) ≤ length xs
if-length true xs = omega arith
if-length false xs = omega arith

candidates_of-length :
    (allowed : Option (List String)) (keep : ModelCandidate → Bool)
    (providers : List (String × List ModelCandidate))
    → length (candidates_of allowed keep providers) ≤ model_count providers
candidates_of-length allowed keep [] = omega arith
candidates_of-length allowed keep ((p, models) ∷ providers) = omega (
  arith,
  length-append (if permits_provider allowed p then filter keep models else [])
      (candidates_of allowed keep providers),
  if-length (permits_provider allowed p) (filter keep models),
  length-filter keep models,
  candidates_of-length allowed keep providers,
)

pub get_candidates-length :
    (registry : ModelRegistry) (tier : Tier) (constraints : RoutingConstraints)
    → length (get_candidates registry tier constraints) ≤ model_count registry.providers
unfolding get_candidates
get_candidates-length registry tier constraints =
    candidates_of-length (allowed_or_default constraints.allowed_providers registry.allow_providers)
      (permits tier constraints) registry.providers
