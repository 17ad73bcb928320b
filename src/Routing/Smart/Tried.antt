-- ===== src/Routing/Smart/Tried.antt =====
-- Which models a routed request has called, and how often.
use open_aipoject.Prelude.{
  ◌+◌, ◌≤◌, ◌<◌, ◌≡◌, refl, sym, List, ◌∷◌, arith, length, length-append, All, All-append, [],
  String, ℕ,
}
use open_aipoject.Gateway.Circuit.{Environment}
use open_aipoject.Routing.Invocation.{Outside, Surroundings}
use open_aipoject.Routing.Models.{ModelCandidate, UnifiedResponse, RoutingConstraints}
use open_aipoject.Routing.Smart.{Attempt, Routing, Router, attempt_loop, left}
use open_aipoject.Routing.Types.{Tier}
use open_aipoject.Routing.Registry.{get_candidates}
use open_aipoject.Routing.Registry.Permitted.{IsPermitted, IsKeyed, get_candidates-IsPermitted}
use open_aipoject.Routing.Smart.Steps.{
  moved_on, denied, retried, escalated_to, gave_up, ended, GrantedBy, Loads, Calls, Continues,
  Leaves,
}
use open_aipoject.Routing.Selector.Selection.{select-All}
use mathlib.Core.Path.{subst}
use open_aipoject.Routing.TierDecider.{PromptFeatures}
use open_aipoject.Routing.Smart.Invariant.{loop_keeps, run-Ran}
use open_aipoject.Routing.Smart.Run.{
  constrain_to_routable_providers, Services, router_of, run_smart_attempt_loop, routed,
}
use open_aipoject.Routing.Router.Candidates.{route_once_plan-IsPermitted}

-- A model that may be called for the request: permitted, and let through by the authorizer.
pub record MayCall {W : Type 0} (constraints : RoutingConstraints) (io : Outside W)
    (c : ModelCandidate) : Type 0 where
  pub permitted : IsPermitted constraints c
  pub let_through : GrantedBy io.authorizer c

module _ {W : Type 0} (router : Router) (env : Environment) (io : Outside W) where
  -- The candidates are permitted, those called were let through, and each call is counted once.
  pub record IsCareful (s : Routing W) : Type 0 where
    pub waiting : All (IsPermitted router.constraints) s.current_candidates
    pub tried : All (λ (a : Attempt). MayCall router.constraints io a.candidate) s.attempts
    pub counted : length s.attempts ≡ s.attempt_index
    pub below : s.attempt_index ≤ router.policy.max_attempts

  loaded-All :
      IsKeyed router.registry.providers
      → (tier : Tier) (candidates : List ModelCandidate) → Loads router env io tier candidates
      → All (IsPermitted router.constraints) candidates
  loaded-All keyed tier candidates l = subst (All (IsPermitted router.constraints)) (sym l.2) (
      select-All (IsPermitted router.constraints) router.token_buffer router.features
        (get_candidates router.registry tier router.constraints) router.constraints l.0 l.1
        (get_candidates-IsPermitted router.registry tier router.constraints keyed))

  -- What a call leaves behind, in a state whose counter is not yet raised.
  record IsNoted (s m : Routing W) : Type 0 where
    waiting : All (IsPermitted router.constraints) m.current_candidates
    tried : All (λ (a : Attempt). MayCall router.constraints io a.candidate) m.attempts
    counted : length m.attempts ≡ s.attempt_index + 1
    index : m.attempt_index ≡ s.attempt_index

  Calls-IsNoted :
      (s m : Routing W) (resp : UnifiedResponse)
      → Calls router env io s m resp
      → IsCareful s
      → IsNoted s m
  Calls-IsNoted s m resp calls p =
      let waiting = subst (All (IsPermitted router.constraints)) calls.at_head p.waiting in
      subst (IsNoted s) (sym calls.as_noted) (record {
        waiting = waiting.1;
        tried =
            All-append (λ (a : Attempt). MayCall router.constraints io a.candidate) s.attempts _
              p.tried (record { permitted = waiting.0; let_through = calls.granted }, tt);
        counted = omega (arith, length-append s.attempts (_ ∷ []), p.counted);
        index = refl;
      })

  keep :
      IsKeyed router.registry.providers
      → (s s' : Routing W) → s.attempt_index < router.policy.max_attempts
      → Continues router env io s s'
      → IsCareful s
      → IsCareful s'
  keep keyed s s' h (moved_on tier candidates none_left e l k) p = subst IsCareful (sym k) (record {
    waiting = loaded-All keyed tier candidates l;
    tried = p.tried;
    counted = p.counted;
    below = p.below;
  })
  keep keyed s s' h (denied c rest around head k) p = subst IsCareful (sym k) (record {
    waiting = (subst (All (IsPermitted router.constraints)) head p.waiting).1;
    tried = p.tried;
    counted = p.counted;
    below = p.below;
  })
  keep keyed s s' h (retried m resp calls invalid lt k) p =
      let n = Calls-IsNoted s m resp calls p in
      subst IsCareful (sym k) (record {
        waiting = n.waiting;
        tried = n.tried;
        counted = omega (arith, n.counted, n.index);
        below = omega (arith, n.index);
      })
  keep keyed s s' h (escalated_to tier candidates m resp calls invalid lt e l k) p =
      let n = Calls-IsNoted s m resp calls p in
      subst IsCareful (sym k) (record {
        waiting = loaded-All keyed tier candidates l;
        tried = n.tried;
        counted = omega (arith, n.counted, n.index);
        below = omega (arith, n.index);
      })

  -- Every model called was permitted and let through, and there are at most so many attempts.
  pub record IsBounded (s : Routing W) : Type 0 where
    pub all_may : All (λ (a : Attempt). MayCall router.constraints io a.candidate) s.attempts
    pub within : length s.attempts ≤ router.policy.max_attempts

  leaving :
      (s s' : Routing W)
      → s.attempt_index < router.policy.max_attempts
      → Leaves router env io s s'
      → IsCareful s
      → IsBounded s'
  leaving s s' h (gave_up none_left e k) p =
      subst IsBounded (sym k)
        (record { all_may = p.tried; within = omega (arith, p.counted, p.below) })
  leaving s s' h (ended m resp calls k) p =
      let n = Calls-IsNoted s m resp calls p in
      subst IsBounded (sym k) (record { all_may = n.tried; within = omega (arith, n.counted) })

  pub loop-IsBounded :
      IsKeyed router.registry.providers
      → (fuel : ℕ) (s end : Routing W) → attempt_loop router env io fuel s ≡ left end
      → IsCareful s
      → IsBounded end
  loop-IsBounded keyed =
      loop_keeps router env io IsCareful IsBounded (keep keyed) leaving
        (λ s p. record { all_may = p.tried; within = omega (arith, p.counted, p.below) })

-- Let each model of the registry stand under its provider's name. Every model that the routing of
-- an answered request has called is enabled and selectable, its provider is one of the available
-- ones where there are any, its billing class, its name and its context are what the constraints
-- ask for, and the authorizer let it through; and no more calls were made than the attempts that
-- are allowed.
pub run-MayCall :
    {W : Type 0} (services : Services) (env : Environment) (io : Outside W)
    (analyzed : PromptFeatures) (routing_mode : String) (constraints : RoutingConstraints)
    (available : List String) (around : Surroundings W) (resp : UnifiedResponse) (end : Routing W)
    → IsKeyed services.models.providers
    → run_smart_attempt_loop services env io analyzed routing_mode constraints available around
      ≡ routed resp end
    → All
        (λ (a : Attempt).
          MayCall (constrain_to_routable_providers available constraints) io a.candidate)
        end.attempts
      × (length end.attempts ≤ services.models.default_max_attempts)
run-MayCall services env io analyzed routing_mode constraints available around resp end keyed e =
    let ran =
      run-Ran services env io analyzed routing_mode constraints available around resp end e in
    let narrowed = constrain_to_routable_providers available constraints in
    let bounded =
      loop-IsBounded (router_of services ran.plan narrowed) env io keyed ran.fuel _ end ran.looped
        (record {
          waiting =
              route_once_plan-IsPermitted services.models services.buffer services.tier_thresholds
                analyzed routing_mode narrowed ran.plan keyed ran.planned;
          tried = tt;
          counted = refl;
          below = omega arith;
        }) in
    (bounded.all_may, bounded.within)
