-- ===== src/Work/OutputPolicy.antt =====
-- server/work/output_policy.py: whether a run that writes too much is asked to finish, or
-- interrupted.
pub mod Guardrail
use open_aipoject.Prelude.{ℕ, Bool, not, ◌&&◌, ◌-◌, min, max, leb}
use open_aipoject.Prelude.PyInt.{ℤ, pos, negsuc}

-- `WorkOutputGuardrailDecision`
pub record WorkOutputGuardrailDecision : Type 0 where
  pub finalize : Bool
  pub interrupt : Bool
  pub limit_reached : Bool

-- `max(bound, n)` for a bound that is not negative.
abbrev pub at_least : ℕ → ℤ → ℕ
at_least bound (pos n) = max bound n
at_least bound (negsuc n) = bound

-- `min(max(1, finalize_threshold), maximum - 1)`
abbrev pub finalize_at : ℤ → ℕ → ℕ
finalize_at finalize_threshold maximum = min (at_least 1 finalize_threshold) (maximum - 1)

unfoldable pub resolve_output_guardrail :
    ℤ → ℤ → ℤ → Bool → Bool → Bool → WorkOutputGuardrailDecision
resolve_output_guardrail output_tokens max_output_tokens finalize_threshold provider_interruptible
      finalize_already_requested interrupt_already_requested =
    let used = at_least 0 output_tokens in
    let maximum = at_least 1 max_output_tokens in
    let limit_reached = leb maximum used in
    record {
      finalize =
          leb (finalize_at finalize_threshold maximum) used
          && (not limit_reached && (provider_interruptible && not finalize_already_requested));
      interrupt = limit_reached && (provider_interruptible && not interrupt_already_requested);
      limit_reached = limit_reached;
    }
