-- ===== src/Routing/Fallback/Decisions.antt =====
-- When the fallback manager goes on, and that it stops.
use open_aipoject.Prelude.{
  ℕ, String, Bool, true, false, Option, none, some, arith, ◌≡◌, refl, ◌<◌, ◌≤◌, ◌+◌, ◌≢◌, ◌&&◌,
  str_eq, ltb, leb, ◌==◌, if◌then◌else◌, ltb→lt, ==_iff, ◌⊎◌, inl, inr,
}
use open_aipoject.Routing.Types.{
  Tier, retry_same_tier, escalate_tier, stop, FallbackDecision, NextAction,
}
use open_aipoject.Routing.Fallback.{
  FallbackPolicy, decide, is_recoverable, is_provider_failure, is_quality_failure,
  decide_within_budget, decide_over_budget, decision, decide_truncated, decide_quality, escalate_or,
}

-- What an action requires of the attempt that it follows, and which tier it names.
abbrev pub RequiresFor : ℕ → Bool → Option Tier → NextAction → Option Tier → Type 0
RequiresFor remaining permitted onward retry_same_tier tier = (0 < remaining) × (tier ≡ none)
RequiresFor remaining permitted onward escalate_tier tier =
    (permitted ≡ true) × (tier ≡ onward) × (onward ≢ none)
RequiresFor remaining permitted onward stop tier = tier ≡ none

abbrev pub Requires : ℕ → Bool → Option Tier → FallbackDecision → Type 0
Requires remaining permitted onward d = RequiresFor remaining permitted onward d.action d.next_tier

both : (a b : Bool) → a && b ≡ true → (a ≡ true) × (b ≡ true)
both true b e = (refl, e)
both false b e = cc

branches :
    (Q : FallbackDecision → Type 0) (b : Bool) (x y : FallbackDecision)
    → (b ≡ true → Q x)
    → (b ≡ false → Q y)
    → Q (if b then x else y)
branches Q true x y h k = h refl
branches Q false x y h k = k refl

escalated :
    (remaining : ℕ) {permitted : Bool} (onward : Option Tier) (reason : String)
    (d : FallbackDecision)
    → permitted ≡ true
    → Requires remaining permitted onward d
    → Requires remaining permitted onward (escalate_or onward reason d)
escalated remaining none reason d e h = h
escalated remaining (some tier) reason d e h = (e, refl, λ n. cc)

module _ (remaining : ℕ) (permitted : Bool) (onward : Option Tier) where
  stop-Requires :
      (reason : String) → Requires remaining permitted onward (decision stop none reason)
  stop-Requires reason = refl

  retry-Requires :
      (reason : String)
      → ltb 0 remaining ≡ true
      → Requires remaining permitted onward (decision retry_same_tier none reason)
  retry-Requires reason h = (ltb→lt 0 remaining h, refl)

  quality-Requires :
      (reason : String)
      → Requires remaining permitted onward (decide_quality reason permitted onward)
  quality-Requires reason =
      branches (Requires remaining permitted onward) (is_quality_failure reason && permitted) _ _
        (λ e.
          escalated remaining onward reason (decision stop none reason) (both _ permitted e).1
            (stop-Requires reason))
        (λ e. stop-Requires reason)

  truncated-Requires :
      (reason : String)
      → Requires remaining permitted onward (decide_truncated reason remaining permitted onward)
  truncated-Requires reason =
      branches (Requires remaining permitted onward) (str_eq reason "truncated" && ltb 0 remaining)
        _ _ (λ e. retry-Requires reason (both _ _ e).1) (λ e. quality-Requires reason)

  within-Requires :
      (reason : String)
      → Requires remaining permitted onward (decide_within_budget reason remaining permitted onward)
  within-Requires reason =
      branches (Requires remaining permitted onward) (is_provider_failure reason && ltb 0 remaining)
        _ _ (λ e. retry-Requires reason (both _ _ e).1)
        (λ _.
          branches (Requires remaining permitted onward)
            (is_provider_failure reason && (str_eq reason "refusal" && permitted)) _ _
            (λ e.
              escalated remaining onward reason _
                (both _ permitted (both (is_provider_failure reason) _ e).1).1
                (truncated-Requires reason))
            (λ e. truncated-Requires reason))

  over_budget-Requires :
      (reason : String) (attempt : ℕ)
      → Requires remaining permitted onward (decide_over_budget reason attempt remaining)
  over_budget-Requires reason attempt =
      branches (Requires remaining permitted onward)
        ((attempt == 0) && (ltb 0 remaining && is_recoverable reason)) _ _
        (λ e. retry-Requires "latency_budget_recovery" (both _ _ (both _ _ e).1).0)
        (λ e. stop-Requires "latency_budget")

-- A further attempt is made only below the limit on attempts: on the same tier only while it has
-- candidates left, on another tier only if the policy allows it and there is a next tier, which
-- is then the decision's; a stop names no tier.
pub decide-Requires :
    (tier : Tier) (reason : String) (attempt elapsed remaining : ℕ) (policy : FallbackPolicy)
    (next_tier_fn : Tier → Option Tier)
    → let d = decide tier reason attempt elapsed remaining policy next_tier_fn in
      Requires remaining policy.allow_escalation (next_tier_fn tier) d
      × ((d.action ≡ stop) ⊎ (attempt + 1 < policy.max_attempts))
unfolding decide
decide-Requires tier reason attempt elapsed remaining policy next_tier_fn =
    branches
      (λ d.
        Requires remaining policy.allow_escalation (next_tier_fn tier) d
        × ((d.action ≡ stop) ⊎ (attempt + 1 < policy.max_attempts)))
      (leb policy.max_attempts (attempt + 1)) _ _
      (λ e. (
        stop-Requires remaining policy.allow_escalation (next_tier_fn tier) "max_attempts",
        inl refl,
      ))
      (λ e. (
        branches (Requires remaining policy.allow_escalation (next_tier_fn tier))
            (leb policy.max_total_latency_ms elapsed) _ _
            (λ _. over_budget-Requires remaining _ _ reason attempt)
            (λ _. within-Requires remaining _ _ reason),
        inr (ground arith),
      ))

-- Once the latency budget is spent, only the first attempt is followed by another one, on the same
-- tier, after a failure that a retry may mend and with candidates left.
pub decide-over_budget :
    (tier : Tier) (reason : String) (attempt elapsed remaining : ℕ) (policy : FallbackPolicy)
    (next_tier_fn : Tier → Option Tier)
    → policy.max_total_latency_ms ≤ elapsed
    → (decide tier reason attempt elapsed remaining policy next_tier_fn).action ≢ stop
    → ((decide tier reason attempt elapsed remaining policy next_tier_fn).action ≡ retry_same_tier)
      × (attempt ≡ 0)
      × (0 < remaining)
      × (is_recoverable reason ≡ true)
unfolding decide
decide-over_budget tier reason attempt elapsed remaining policy next_tier_fn h =
    let Goes : FallbackDecision → Type 0 = λ d.
      (d.action ≢ stop)
      → (d.action ≡ retry_same_tier)
        × (attempt ≡ 0)
        × (0 < remaining)
        × (is_recoverable reason ≡ true) in
    branches Goes (leb policy.max_attempts (attempt + 1)) _ _ (λ e n. absurd (n refl))
      (λ _.
        branches Goes (leb policy.max_total_latency_ms elapsed) _ _
          (λ _.
            branches Goes ((attempt == 0) && (ltb 0 remaining && is_recoverable reason)) _ _
              (λ e n.
                let p = both (attempt == 0) _ e in
                let q = both (ltb 0 remaining) _ p.1 in
                (refl, (==_iff attempt 0).0 p.0, ltb→lt 0 remaining q.0, q.1))
              (λ e n. absurd (n refl)))
          (λ e. absurd (omega (arith, h, gt e))))
  where
    gt : leb policy.max_total_latency_ms elapsed ≡ false → elapsed < policy.max_total_latency_ms
    gt e = ground arith
