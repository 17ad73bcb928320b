-- ===== src/Routing/Fallback.antt =====
-- orchestrator/fallback_manager.py: what follows an attempt that did not pass its validation.
pub mod Decisions
use open_aipoject.Prelude.{
  ℕ, String, Bool, true, false, Option, none, some, ◌&&◌, ◌||◌, ◌+◌, leb, ltb, ◌==◌, str_eq,
  if◌then◌else◌,
}
use open_aipoject.Routing.Types.{
  Tier, NextAction, FallbackDecision, retry_same_tier, escalate_tier, stop,
}

-- `FallbackPolicy`
pub record FallbackPolicy : Type 0 where
  pub max_attempts : ℕ
  pub max_total_latency_ms : ℕ
  pub allow_escalation : Bool

abbrev pub decision : NextAction → Option Tier → String → FallbackDecision
decision action next_tier reason = record {
  action = action;
  next_tier = next_tier;
  reason = reason;
}

-- `{"provider_error", "too_short", "truncated"}`
abbrev pub is_recoverable : String → Bool
is_recoverable reason =
    str_eq reason "provider_error" || (str_eq reason "too_short" || str_eq reason "truncated")

-- `{"provider_error", "rate_limit", "timeout", "refusal"}`
abbrev pub is_provider_failure : String → Bool
is_provider_failure reason =
    str_eq reason "provider_error"
    || (str_eq reason "rate_limit" || (str_eq reason "timeout" || str_eq reason "refusal"))

-- `{"too_short", "format_violation", "truncated"}`
abbrev pub is_quality_failure : String → Bool
is_quality_failure reason =
    str_eq reason "too_short" || (str_eq reason "format_violation" || str_eq reason "truncated")

abbrev pub escalate_or : Option Tier → String → FallbackDecision → FallbackDecision
escalate_or none reason otherwise = otherwise
escalate_or (some tier) reason otherwise = decision escalate_tier (some tier) reason

-- The end of `decide`: an escalation for a quality failure, or a stop.
abbrev pub decide_quality : String → Bool → Option Tier → FallbackDecision
decide_quality reason allow_escalation next_tier =
    if is_quality_failure reason && allow_escalation
    then escalate_or next_tier reason (decision stop none reason)
    else decision stop none reason

-- From the branch for a truncated answer on.
abbrev pub decide_truncated : String → ℕ → Bool → Option Tier → FallbackDecision
decide_truncated reason remaining allow_escalation next_tier =
    if str_eq reason "truncated" && ltb 0 remaining
    then decision retry_same_tier none reason
    else decide_quality reason allow_escalation next_tier

-- From the branch for the provider's failures on, within the latency budget.
abbrev pub decide_within_budget : String → ℕ → Bool → Option Tier → FallbackDecision
decide_within_budget reason remaining allow_escalation next_tier =
    if is_provider_failure reason && ltb 0 remaining
    then decision retry_same_tier none reason
    else if is_provider_failure reason && (str_eq reason "refusal" && allow_escalation)
    then escalate_or next_tier reason (decide_truncated reason remaining allow_escalation next_tier)
    else decide_truncated reason remaining allow_escalation next_tier

-- The branch for a spent latency budget.
abbrev pub decide_over_budget : String → ℕ → ℕ → FallbackDecision
decide_over_budget reason attempt_index remaining =
    if (attempt_index == 0) && (ltb 0 remaining && is_recoverable reason)
    then decision retry_same_tier none "latency_budget_recovery"
    else decision stop none "latency_budget"

-- `FallbackManager.decide`; `next_tier_fn` has no effects.
unfoldable pub decide :
    Tier → String → ℕ → ℕ → ℕ → FallbackPolicy → (Tier → Option Tier) → FallbackDecision
decide current_tier reason attempt_index elapsed_ms remaining policy next_tier_fn =
    if leb policy.max_attempts (attempt_index + 1)
    then decision stop none "max_attempts"
    else if leb policy.max_total_latency_ms elapsed_ms
    then decide_over_budget reason attempt_index remaining
    else decide_within_budget reason remaining policy.allow_escalation (next_tier_fn current_tier)
