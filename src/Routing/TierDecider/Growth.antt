-- ===== src/Routing/TierDecider/Growth.antt =====
-- A longer prompt is never given a weaker tier.
use open_aipoject.Routing.Types.{t0, t1, t2, t3, Tier}
use open_aipoject.Prelude.{
  ℕ, ◌≤◌, String, ◌≡◌, Bool, true, ◌&&◌, Option, List, arith, if◌then◌else◌,
}
use open_aipoject.Routing.TierDecider.{
  PromptFeatures, TierDecision, because, structure_reasons, is_ultra_strict, is_coding, is_large,
  is_advanced, is_strict_quality, is_deep_follow_up, is_structured, is_short_rewrite, decide_tier,
}

abbrev pub strength : Tier → ℕ
strength t0 = 0
strength t1 = 1
strength t2 = 2
strength t3 = 3

-- The chain of the branches, on the conditions' results.
abbrev chain :
    (ultra code hard strict deep structured large facts short : Bool) → List String → TierDecision
chain ultra code hard strict deep structured large facts short reasons =
    if ultra
    then because t3 "ultra_strict_high_accuracy"
    else if code
    then because t3 "coding_priority_models"
    else if hard
    then because t3 "advanced_reasoning"
    else if strict
    then because t3 "strict_high_quality_output"
    else if deep
    then because t2 "follow_up_needs_depth"
    else if structured
    then record { tier = t2; reasons = reasons }
    else if large
    then because t2 "large_context_or_prompt"
    else if facts
    then because t2 "high_accuracy_factual"
    else if short
    then because t0 "short_simple_rewrite"
    else because t1 "default_t1"

chain-grows :
    (u u' c h h' s d t l l' f r r' : Bool) (reasons : List String)
    → (u ≡ true → u' ≡ true)
    → (h ≡ true → h' ≡ true)
    → (l ≡ true → l' ≡ true)
    → (r' ≡ true → r ≡ true)
    → strength (chain u c h s d t l f r reasons).tier
      ≤ strength (chain u' c h' s d t l' f r' reasons).tier
chain-grows u u' c h h' s d t l l' f r r' reasons a b e g = ground arith

-- Of two prompts that agree in everything but their estimates of tokens, the one whose estimates
-- are at least as large gets a tier at least as strong.
pub decide_tier-grows :
    (thresholds : String → Option ℕ) (f : PromptFeatures) (tokens context : ℕ)
    → f.token_estimate ≤ tokens
    → f.context_token_estimate ≤ context
    → strength (decide_tier thresholds f).tier
      ≤ strength
          (decide_tier thresholds
            (record f { token_estimate = tokens; context_token_estimate = context })).tier
unfolding decide_tier
decide_tier-grows thresholds f tokens context h k =
    let g : PromptFeatures = record f {
      token_estimate = tokens;
      context_token_estimate = context;
    } in
    chain-grows (is_ultra_strict thresholds f) (is_ultra_strict thresholds g)
      (is_coding thresholds f) (is_advanced thresholds f) (is_advanced thresholds g)
      (is_strict_quality thresholds f) (is_deep_follow_up thresholds f) (is_structured thresholds f)
      (is_large thresholds f) (is_large thresholds g) (f.needs_accuracy && f.has_factual)
      (is_short_rewrite thresholds f) (is_short_rewrite thresholds g)
      (structure_reasons thresholds f) (λ e. ground arith) (λ e. ground arith) (λ e. ground arith)
      (λ e. ground arith)
