-- ===== src/Work/OutputPolicy/Guardrail.antt =====
-- The guardrail's decisions exclude each other, are made once, and come in order.
use open_aipoject.Prelude.{Bool, true, false, arith, ◌≤◌, ◌≡◌, ◌<◌, ◌↔◌, ◌&&◌}
use open_aipoject.Prelude.PyInt.{ℤ}
use open_aipoject.Work.OutputPolicy.{at_least, finalize_at, resolve_output_guardrail}

-- A run is asked to finish exactly from the threshold on and below the maximum, and interrupted
-- exactly from the maximum on; either only if its provider can be interrupted and it was not asked
-- before, so that never both happen at once. The threshold that is used is below the maximum.
pub guardrail_iff :
    (output maximum threshold : ℤ) (interruptible finalized interrupted : Bool)
    → let d =
        resolve_output_guardrail output maximum threshold interruptible finalized interrupted in
      let used = at_least 0 output in
      let most = at_least 1 maximum in
      (finalize_at threshold most < most)
      × ((d.finalize ≡ true) ↔ (
          (finalize_at threshold most ≤ used)
          × (used < most)
          × (interruptible ≡ true)
          × (finalized ≡ false)))
      × ((d.interrupt ≡ true) ↔ ((most ≤ used) × (interruptible ≡ true) × (interrupted ≡ false)))
      × ((d.limit_reached ≡ true) ↔ (most ≤ used))
      × ((d.finalize && d.interrupt) ≡ false)
unfolding resolve_output_guardrail
guardrail_iff output maximum threshold interruptible finalized interrupted = ground arith
