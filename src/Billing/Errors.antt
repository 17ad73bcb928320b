-- ===== src/Billing/Errors.antt =====
-- The exceptions of the billing services (server/billing/errors.py and the built-in ones that the
-- repository raises), without their message texts.
use open_aipoject.Prelude.{ℕ, String}

-- The fields of `UsageAllowanceExceededError`.
pub record Exceeded : Type 0 where
  pub requested : ℕ
  pub used : ℕ
  pub reserved : ℕ
  pub limit : ℕ
  pub plan_code : String
  pub reset_at : ℕ

pub data BillingError : Type 0 where
  value_error lookup_error runtime_error integrity_error : BillingError
  configuration conflict not_found state_error : BillingError
  allowance_exceeded : Exceeded → BillingError

pub data Result {ℓ} (A : Type ℓ) : Type ℓ where
  ok : A → Result A
  err : BillingError → Result A
