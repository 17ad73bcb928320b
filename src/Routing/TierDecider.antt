-- ===== src/Routing/TierDecider.antt =====
-- orchestrator/tier_decider.py: the tier of models that a prompt needs.
pub mod Thresholds
pub mod Growth
use open_aipoject.Prelude.{
  ℕ, String, Bool, true, false, Option, none, some, List, [], ◌∷◌, ◌++◌, not, ◌&&◌, ◌||◌, ltb, leb,
  str_eq, if◌then◌else◌,
}
use open_aipoject.Routing.Types.{Tier, t0, t1, t2, t3}

-- The fields of `PromptFeatures` that the decision reads; the estimates are not negative.
pub record PromptFeatures : Type 0 where
  pub token_estimate : ℕ
  pub has_code : Bool
  pub has_math : Bool
  pub has_analysis : Bool
  pub has_factual : Bool
  pub strict_format : Bool
  pub has_logs_stacktrace : Bool
  pub context_token_estimate : ℕ
  pub context_messages : ℕ
  pub is_follow_up : Bool
  pub needs_latest_info : Bool
  pub needs_accuracy : Bool
  pub intent : String
  pub has_strict_constraints : Bool

-- `TierDecision`
pub record TierDecision : Type 0 where
  pub tier : Tier
  pub reasons : List String

-- `self._thresholds.get(name, default)`
abbrev pub threshold_or : Option ℕ → ℕ → ℕ
threshold_or none default = default
threshold_or (some n) default = n

abbrev pub because : Tier → String → TierDecision
because tier reason = record { tier = tier; reasons = reason ∷ [] }

module _ (thresholds : String → Option ℕ) (f : PromptFeatures) where
  abbrev pub cheap_max_prompt_tokens : ℕ
  cheap_max_prompt_tokens = threshold_or (thresholds "cheap_max_prompt_tokens") 700

  abbrev pub strong_prompt_tokens : ℕ
  strong_prompt_tokens = threshold_or (thresholds "strong_prompt_tokens") 1800

  abbrev pub ultra_prompt_tokens : ℕ
  ultra_prompt_tokens = threshold_or (thresholds "ultra_prompt_tokens") 3200

  abbrev pub strong_context_tokens : ℕ
  strong_context_tokens = threshold_or (thresholds "strong_context_tokens") 2200

  -- The conditions of the branches, in their order.
  abbrev pub is_ultra_strict : Bool
  is_ultra_strict =
      leb ultra_prompt_tokens f.token_estimate
      && (f.strict_format && (f.needs_accuracy && f.has_factual))

  abbrev pub is_coding : Bool
  is_coding = f.has_code || (f.has_logs_stacktrace || str_eq f.intent "code")

  abbrev pub is_large : Bool
  is_large =
      leb strong_prompt_tokens f.token_estimate
      || leb strong_context_tokens f.context_token_estimate

  abbrev pub is_advanced : Bool
  is_advanced =
      (f.has_math || f.has_analysis) && (f.needs_accuracy || (f.strict_format || is_large))

  abbrev pub is_strict_quality : Bool
  is_strict_quality =
      f.has_strict_constraints && (f.needs_accuracy && (f.has_factual || f.has_analysis))

  abbrev pub is_deep_follow_up : Bool
  is_deep_follow_up =
      ltb 0 f.context_messages
      && (f.is_follow_up
          && (f.has_analysis || (f.needs_accuracy || (f.needs_latest_info || f.has_factual))))

  abbrev pub is_structured : Bool
  is_structured =
      f.has_code
      || (f.has_math
          || (f.has_analysis
              || (f.strict_format || (f.has_logs_stacktrace || f.has_strict_constraints))))

  abbrev pub is_short_rewrite : Bool
  is_short_rewrite =
      (str_eq f.intent "rewrite"
        || (str_eq f.intent "summarize"
            || (str_eq f.intent "bullets" || str_eq f.intent "brainstorm")))
      && (ltb f.token_estimate cheap_max_prompt_tokens
          && (not f.strict_format && (not f.has_code && (not f.has_math && not f.has_analysis))))

  abbrev pub reason_if : Bool → String → List String
  reason_if b reason = if b then reason ∷ [] else []

  abbrev pub structure_reasons : List String
  structure_reasons =
      reason_if f.has_code "code_detected"
      ++ (reason_if f.has_math "math_detected"
          ++ (reason_if f.has_analysis "analysis_detected"
              ++ (reason_if f.strict_format "strict_format"
                  ++ (reason_if f.has_logs_stacktrace "logs_detected"
                      ++ reason_if f.has_strict_constraints "strict_constraints"))))

  -- The branches below the strongest tier.
  abbrev pub decide_lower : TierDecision
  decide_lower =
      if is_deep_follow_up
      then because t2 "follow_up_needs_depth"
      else if is_structured
      then record { tier = t2; reasons = structure_reasons }
      else if is_large
      then because t2 "large_context_or_prompt"
      else if f.needs_accuracy && f.has_factual
      then because t2 "high_accuracy_factual"
      else if is_short_rewrite
      then because t0 "short_simple_rewrite"
      else because t1 "default_t1"

  -- `TierDecider.decide`
  unfoldable pub decide_tier : TierDecision
  decide_tier =
      if is_ultra_strict
      then because t3 "ultra_strict_high_accuracy"
      else if is_coding
      then because t3 "coding_priority_models"
      else if is_advanced
      then because t3 "advanced_reasoning"
      else if is_strict_quality
      then because t3 "strict_high_quality_output"
      else decide_lower
