-- ===== src/Routing/Invocation/Breaker.antt =====
-- A model whose circuit a failure has opened is not called.
use open_aipoject.Prelude.{
  ◌+◌, ◌*◌, ◌≤◌, ◌<◌, ◌≡◌, refl, ◌∙◌, Bool, true, false, some, ◌∷◌, ◌++◌, arith, leb, length, [], ℕ,
}
use open_aipoject.Gateway.Circuit.{
  Environment, failure_threshold, window_seconds, cooldown_seconds, Circuits, record_failure, allow,
}
use open_aipoject.Gateway.Events.{second, prune}
use open_aipoject.Gateway.Circuit.Opening.{failures_of, record_failure-opens}
use open_aipoject.Routing.Invocation.{Outside, call_if_allowed, invoke_candidate}
use open_aipoject.Routing.Models.{ModelCandidate}

module _ {W : Type 0} (env : Environment) (io : Outside W) (c : ModelCandidate) where
  not_called :
      (w : W) (allowed : Bool × Circuits)
      → allowed.0 ≡ false
      → let reply = call_if_allowed env io c w allowed in
        (reply.0.error ≡ some "provider_error") × (reply.1.outside ≡ w)
  not_called w (false, circuits) h = (refl, refl)
  not_called w (true, circuits) h = cc

  -- While the circuit is open that a failure of the model has opened, a call of the candidate
  -- returns a provider error, and nothing outside is touched but the clock.
  pub invoke_candidate-blocked :
      (now : ℕ) (circuits : Circuits) (w : W)
      → failure_threshold env
        ≤ length (
            prune now
              (window_seconds env * second)
              (failures_of c.provider c.model_name circuits ++ (now ∷ [])))
      → (io.clock w).0 < now + cooldown_seconds env * second
      → let reply = invoke_candidate env io c (record {
        circuits = record_failure env now c.provider c.model_name circuits;
        outside = w;
      }) in
        (reply.0.error ≡ some "provider_error") × (reply.1.outside ≡ (io.clock w).1)
  unfolding invoke_candidate
  invoke_candidate-blocked now circuits w h early =
      not_called (io.clock w).1
        (allow (io.clock w).0 c.provider c.model_name
          (record_failure env now c.provider c.model_name circuits))
        (record_failure-opens env now (io.clock w).0 c.provider c.model_name circuits h
          ∙ lt-leb (io.clock w).0 (now + cooldown_seconds env * second) early)
    where
      lt-leb : (a b : ℕ) → a < b → leb b a ≡ false
      lt-leb a b h = ground arith
