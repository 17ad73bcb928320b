-- ===== src/Routing/TierDecider/Thresholds.antt =====
-- Which prompts get the strongest tier.
use open_aipoject.Routing.Types.{t3, Tier}
use open_aipoject.Prelude.{
  ℕ, String, Bool, true, false, Option, ◌&&◌, ◌||◌, if◌then◌else◌, ◌≡◌, refl, sym, ◌∙◌, ◌↔◌, ap,
  ◌≤◌, ◌⊎◌, none, some, arith, eq_iff,
}
use open_aipoject.Routing.TierDecider.{
  PromptFeatures, TierDecision, is_ultra_strict, is_coding, is_advanced, is_strict_quality, because,
  is_large, is_deep_follow_up, is_structured, is_short_rewrite, decide_lower, decide_tier,
  threshold_or,
}

choose :
    (Q : TierDecision → Type 0) (b : Bool) (x y : TierDecision)
    → (b ≡ true → Q x)
    → (b ≡ false → Q y)
    → Q (if b then x else y)
choose Q true x y h k = h refl
choose Q false x y h k = k refl

-- Whether the strongest tier is due.
abbrev pub is_strongest : (String → Option ℕ) → PromptFeatures → Bool
is_strongest thresholds f =
    is_ultra_strict thresholds f
    || (is_coding thresholds f || (is_advanced thresholds f || is_strict_quality thresholds f))

abbrev tier_is_strongest : Tier → Bool
tier_is_strongest t3 = true
tier_is_strongest _ = false

or_false : (b : Bool) → b || false ≡ b
or_false true = refl
or_false false = refl

strongest_tier : (t : Tier) → tier_is_strongest t ≡ true → t ≡ t3
strongest_tier t3 e = refl
strongest_tier _ e = cc

step :
    (b : Bool) (reason : String) (d : TierDecision)
    → tier_is_strongest (if b then because t3 reason else d).tier ≡ b || tier_is_strongest d.tier
step true reason d = refl
step false reason d = refl

module _ (thresholds : String → Option ℕ) (f : PromptFeatures) where
  lower_not_strongest : tier_is_strongest (decide_lower thresholds f).tier ≡ false
  lower_not_strongest =
      choose Q (is_deep_follow_up thresholds f) _ _ (λ _. refl)
        (λ _.
          choose Q (is_structured thresholds f) _ _ (λ _. refl)
            (λ _.
              choose Q (is_large thresholds f) _ _ (λ _. refl)
                (λ _.
                  choose Q (f.needs_accuracy && f.has_factual) _ _ (λ _. refl)
                    (λ _. choose Q (is_short_rewrite thresholds f) _ _ (λ _. refl) (λ _. refl)))))
    where
      Q : TierDecision → Type 0
      Q d = tier_is_strongest d.tier ≡ false

  strongest-path : tier_is_strongest (decide_tier thresholds f).tier ≡ is_strongest thresholds f
  unfolding decide_tier
  strongest-path =
      step (is_ultra_strict thresholds f) _ _
      ∙ ap (λ b. is_ultra_strict thresholds f || b)
          (step (is_coding thresholds f) _ _
            ∙ ap (λ b. is_coding thresholds f || b)
                (step (is_advanced thresholds f) _ _
                  ∙ ap (λ b. is_advanced thresholds f || b)
                      (step (is_strict_quality thresholds f) _ _
                        ∙ ap (λ b. is_strict_quality thresholds f || b) lower_not_strongest
                        ∙ or_false (is_strict_quality thresholds f))))

-- A limit that is configured, and else its default.
abbrev pub configured : Option ℕ → ℕ → ℕ
configured none default = default
configured (some n) default = n

pub configured-threshold_or :
    (o : Option ℕ) (default : ℕ) → configured o default ≡ threshold_or o default
configured-threshold_or none default = refl
configured-threshold_or (some n) default = refl

-- A long prompt with a strict format that asks for accurate facts.
abbrev pub IsLongStrict : (ultra : ℕ) → PromptFeatures → Type 0
IsLongStrict ultra f =
    (ultra ≤ f.token_estimate)
    × (f.strict_format ≡ true)
    × (f.needs_accuracy ≡ true)
    × (f.has_factual ≡ true)

abbrev pub IsAboutCode : PromptFeatures → Type 0
IsAboutCode f = (f.has_code ≡ true) ⊎ (f.has_logs_stacktrace ≡ true) ⊎ (f.intent ≡ "code")

-- Mathematics or an analysis that is to be accurate, has a strict format or is large.
abbrev pub IsHardReasoning : (strong strong_context : ℕ) → PromptFeatures → Type 0
IsHardReasoning strong strong_context f =
    ((f.has_math ≡ true) ⊎ (f.has_analysis ≡ true))
    × ((f.needs_accuracy ≡ true)
        ⊎ (f.strict_format ≡ true)
        ⊎ (strong ≤ f.token_estimate)
        ⊎ (strong_context ≤ f.context_token_estimate))

abbrev pub IsStrictWork : PromptFeatures → Type 0
IsStrictWork f =
    (f.has_strict_constraints ≡ true)
    × (f.needs_accuracy ≡ true)
    × ((f.has_factual ≡ true) ⊎ (f.has_analysis ≡ true))

module _ (thresholds : String → Option ℕ) (f : PromptFeatures) where
  is_ultra_strict-IsLongStrict :
      (is_ultra_strict thresholds f ≡ true)
      ↔ IsLongStrict (configured (thresholds "ultra_prompt_tokens") 3200) f
  is_ultra_strict-IsLongStrict =
      rw (configured-threshold_or (thresholds "ultra_prompt_tokens") 3200)
        (λ h. ground arith, λ h. ground arith)

  is_coding-IsAboutCode : (is_coding thresholds f ≡ true) ↔ IsAboutCode f
  is_coding-IsAboutCode =
      (λ h. ground (arith, eq_iff f.intent "code"), λ h. ground (arith, eq_iff f.intent "code"))

  is_advanced-IsHardReasoning :
      (is_advanced thresholds f ≡ true)
      ↔ IsHardReasoning
          (configured (thresholds "strong_prompt_tokens") 1800)
          (configured (thresholds "strong_context_tokens") 2200)
          f
  is_advanced-IsHardReasoning =
      rw (configured-threshold_or (thresholds "strong_prompt_tokens") 1800) (
        rw (configured-threshold_or (thresholds "strong_context_tokens") 2200)
          (λ h. ground arith, λ h. ground arith))

  is_strict_quality-IsStrictWork : (is_strict_quality thresholds f ≡ true) ↔ IsStrictWork f
  is_strict_quality-IsStrictWork = (λ h. ground arith, λ h. ground arith)

  any_of :
      (a b c d : Bool) {A B C D : Type 0}
      → (a ≡ true) ↔ A
      → (b ≡ true) ↔ B
      → (c ≡ true) ↔ C
      → (d ≡ true) ↔ D
      → (a || (b || (c || d)) ≡ true) ↔ (A ⊎ B ⊎ C ⊎ D)
  any_of a b c d g h k l = (λ e. ground (arith, g, h, k, l), λ e. ground (arith, g, h, k, l))

  -- The strongest tier is chosen exactly for a long prompt with a strict format that asks for
  -- accurate facts, for a prompt with code, with logs or with the intent "code", for mathematics
  -- or an analysis that asks for accuracy, has a strict format or is large, and for strict
  -- constraints where accuracy is asked for, on facts or in an analysis.
  pub decide_tier-strongest : ((decide_tier thresholds f).tier ≡ t3) ↔ (
      IsLongStrict (configured (thresholds "ultra_prompt_tokens") 3200) f
      ⊎ IsAboutCode f
      ⊎ IsHardReasoning
          (configured (thresholds "strong_prompt_tokens") 1800)
          (configured (thresholds "strong_context_tokens") 2200)
          f
      ⊎ IsStrictWork f)
  decide_tier-strongest =
      let both =
        any_of (is_ultra_strict thresholds f) (is_coding thresholds f) (is_advanced thresholds f)
          (is_strict_quality thresholds f) is_ultra_strict-IsLongStrict is_coding-IsAboutCode
          is_advanced-IsHardReasoning is_strict_quality-IsStrictWork in
      (
        λ e. both.0 (sym (strongest-path thresholds f) ∙ ap tier_is_strongest e),
        λ e.
            strongest_tier (decide_tier thresholds f).tier (strongest-path thresholds f ∙ both.1 e),
      )
