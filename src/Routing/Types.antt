-- ===== src/Routing/Types.antt =====
-- The tiers and decisions of orchestrator/routing_types.py that the fallback manager uses.
use open_aipoject.Prelude.{String, Option}

pub data Tier : Type 0 where
  t0 t1 t2 t3 : Tier

pub data NextAction : Type 0 where
  retry_same_tier escalate_tier stop : NextAction

-- `FallbackDecision`
pub record FallbackDecision : Type 0 where
  pub action : NextAction
  pub next_tier : Option Tier
  pub reason : String
