-- ===== src/Work/Tests.antt =====
-- The theorems on server/work/output_policy.py at concrete runs.
use open_aipoject.Prelude.{true, false, ◌≤◌, ◌<◌, ◌≡◌, ◌↔◌, ◌&&◌}
use open_aipoject.Prelude.PyInt.{pos}
use open_aipoject.Work.OutputPolicy.{resolve_output_guardrail}
use open_aipoject.Work.OutputPolicy.Guardrail.{guardrail_iff}

guardrail_iff_example :
    let d = resolve_output_guardrail (pos 95) (pos 100) (pos 90) true false false in
    (90 < 100)
    × ((d.finalize ≡ true) ↔ ((90 ≤ 95) × (95 < 100) × (true ≡ true) × (false ≡ false)))
    × ((d.interrupt ≡ true) ↔ ((100 ≤ 95) × (true ≡ true) × (false ≡ false)))
    × ((d.limit_reached ≡ true) ↔ (100 ≤ 95))
    × ((d.finalize && d.interrupt) ≡ false)
guardrail_iff_example = guardrail_iff (pos 95) (pos 100) (pos 90) true false false
