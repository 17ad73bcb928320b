-- ===== src/Routing/Tests.antt =====
-- The theorems on orchestrator/fallback_manager.py and
-- orchestrator/tier_decider.py at concrete inputs.
use open_aipoject.Routing.Types.{t3, stop, t1, t2, retry_same_tier}
use open_aipoject.Routing.TierDecider.Growth.{strength, decide_tier-grows}
use open_aipoject.Prelude.{ℕ, true, some, ◌<◌, ◌≡◌, ◌≢◌, arith, ◌⊎◌, ◌↔◌, false, none, ◌≤◌}
use open_aipoject.Routing.Fallback.{FallbackPolicy, is_recoverable, decide}
use open_aipoject.Routing.Fallback.Decisions.{Requires, decide-Requires, decide-over_budget}
use open_aipoject.Routing.TierDecider.{PromptFeatures, decide_tier}
use open_aipoject.Routing.TierDecider.Thresholds.{
  decide_tier-strongest, IsLongStrict, IsAboutCode, IsHardReasoning, IsStrictWork,
}

abbrev sample_policy : FallbackPolicy
sample_policy = record { max_attempts = 3; max_total_latency_ms = 12000; allow_escalation = true }

decide-Requires_example :
    let d = decide t1 "refusal" 0 500 0 sample_policy (λ t. some t2) in
    Requires 0 true (some t2) d × ((d.action ≡ stop) ⊎ (1 < 3))
decide-Requires_example = decide-Requires t1 "refusal" 0 500 0 sample_policy (λ t. some t2)

late_retry : (decide t1 "too_short" 0 12500 1 sample_policy (λ t. some t2)).action ≢ stop
unfolding decide
late_retry = λ e. cc

decide-over_budget_example :
    ((decide t1 "too_short" 0 12500 1 sample_policy (λ t. some t2)).action ≡ retry_same_tier)
    × (◌≡◌ {A = ℕ} 0 0)
    × (0 < 1)
    × (is_recoverable "too_short" ≡ true)
decide-over_budget_example =
    decide-over_budget t1 "too_short" 0 12500 1 sample_policy (λ t. some t2) (omega arith)
      late_retry

abbrev sample_prompt : PromptFeatures
sample_prompt = record {
  token_estimate = 120;
  has_code = false;
  has_math = false;
  has_analysis = false;
  has_factual = false;
  strict_format = false;
  has_logs_stacktrace = false;
  context_token_estimate = 0;
  context_messages = 0;
  is_follow_up = false;
  needs_latest_info = false;
  needs_accuracy = false;
  intent = "rewrite";
  has_strict_constraints = false;
}

decide_tier-strongest_example : ((decide_tier (λ name. none) sample_prompt).tier ≡ t3) ↔ (
    IsLongStrict 3200 sample_prompt
    ⊎ IsAboutCode sample_prompt
    ⊎ IsHardReasoning 1800 2200 sample_prompt
    ⊎ IsStrictWork sample_prompt)
decide_tier-strongest_example = decide_tier-strongest (λ name. none) sample_prompt

decide_tier-grows_example :
    strength (decide_tier (λ name. none) sample_prompt).tier
    ≤ strength
        (decide_tier
          (λ name. none)
          (record sample_prompt { token_estimate = 2000; context_token_estimate = 0 })).tier
decide_tier-grows_example =
    decide_tier-grows (λ name. none) sample_prompt 2000 0 (omega arith) (omega arith)
