-- ===== src/Routing/Registry/Order.antt =====
-- The order of the tiers: where no tier is named twice, each next tier has fewer behind it.
use open_aipoject.Prelude.{
  suc, ◌<◌, String, ◌≡◌, inl, inr, false, Option, none, some, List, ◌∷◌, arith, str_eq, eq_iff,
  if◌then◌else◌, Bool-cases, length, All, [], ℕ,
}
use open_aipoject.Routing.Types.{Tier}
use open_aipoject.Routing.Registry.{
  ModelRegistry, tier_value, tier_named, named_or_error, first_tier, tier_behind, next_tier_of,
  onward,
}
use mathlib.Core.Path.{subst}

-- No value stands twice in the list.
abbrev pub IsDistinct : List String → Type 0
IsDistinct [] = Unit
IsDistinct (v ∷ values) = All (λ u. str_eq v u ≡ false) values × IsDistinct values

-- How many values stand behind the first `value`.
abbrev pub behind : String → List String → ℕ
behind value [] = 0
behind value (v ∷ values) =
    let rest = behind value values in if str_eq v value then length values else rest

tier_named-eq : (v : String) (t : Tier) → tier_named v ≡ some t → v ≡ tier_value t
tier_named-eq v t h = ground (arith, eq_iff v "T0", eq_iff v "T1", eq_iff v "T2", eq_iff v "T3")

named_or_error-eq : (o : Option Tier) (t : Tier) → named_or_error o ≡ onward t → o ≡ some t
named_or_error-eq none t h = cc
named_or_error-eq (some u) t h = ground arith

first_tier-All :
    (P : String → Type 0) (values : List String) (t : Tier)
    → first_tier values ≡ onward t
    → All P values
    → P (tier_value t)
first_tier-All P [] t h a = cc
first_tier-All P (v ∷ values) t h a =
    subst P (tier_named-eq v t (named_or_error-eq (tier_named v) t h)) a.0

tier_behind-All :
    (P : String → Type 0) (value : String) (values : List String) (t : Tier)
    → tier_behind value values ≡ onward t
    → All P values
    → P (tier_value t)
tier_behind-All P value [] t h a = cc
tier_behind-All P value (v ∷ values) t h a = elim (Bool-cases (str_eq v value)) [
  | inl e ↦ first_tier-All P values t (ground arith) a.1
  | inr e ↦ tier_behind-All P value values t (ground arith) a.1
]

-- The tier that comes first is followed by one less than there are.
behind-first :
    (values : List String) (t : Tier)
    → first_tier values ≡ onward t
    → suc (behind (tier_value t) values) ≡ length values
behind-first [] t h = cc
behind-first (v ∷ values) t h =
    let e = tier_named-eq v t (named_or_error-eq (tier_named v) t h) in
    ground (arith, eq_iff v (tier_value t))

tier_behind-decreases :
    (value : String) (values : List String) (t : Tier)
    → IsDistinct values
    → tier_behind value values ≡ onward t
    → behind (tier_value t) values < behind value values
tier_behind-decreases value [] t d h = cc
tier_behind-decreases value (v ∷ values) t d h = elim (Bool-cases (str_eq v value)) [
  | inl e ↦
      let k : first_tier values ≡ onward t = ground arith in
      let apart = first_tier-All (λ u. str_eq v u ≡ false) values t k d.0 in
      ground (arith, behind-first values t k)
  | inr e ↦
      let k : tier_behind value values ≡ onward t = ground arith in
      let apart = tier_behind-All (λ u. str_eq v u ≡ false) value values t k d.0 in
      ground (arith, tier_behind-decreases value values t d.1 k)
]

-- Where no tier is named twice, the next tier has fewer tiers behind it.
pub next_tier_of-decreases :
    (registry : ModelRegistry) (tier t : Tier)
    → IsDistinct registry.tier_order
    → next_tier_of registry tier ≡ onward t
    → behind (tier_value t) registry.tier_order < behind (tier_value tier) registry.tier_order
unfolding next_tier_of
next_tier_of-decreases registry tier t d h =
    tier_behind-decreases (tier_value tier) registry.tier_order t d h
