-- ===== src/Routing/Smart/Invariant.antt =====
-- What every step keeps holds at the loop's end, and what a routed answer came from.
use open_aipoject.Prelude.{
  zero, suc, ◌<◌, String, ◌≡◌, refl, Bool, true, false, some, ltb, if◌then◌else◌, ltb→lt, ℕ, Option,
  none, List, ◌∷◌, [],
}
use open_aipoject.Gateway.Circuit.{Environment}
use open_aipoject.Routing.TierDecider.{PromptFeatures}
use open_aipoject.Routing.Invocation.{Outside, Surroundings}
use open_aipoject.Routing.Models.{RoutingConstraints, UnifiedResponse}
use open_aipoject.Routing.Smart.{
  Routing, Round, LoopEnd, after_round, Router, round, attempt_loop, again, leave, faulted, left,
  raised, out_of_fuel,
}
use open_aipoject.Routing.Router.{RoutePlan, route_once_plan}
use open_aipoject.Routing.Smart.Run.{
  starting, conclude, Services, router_of, routed, constrain_to_routable_providers, concluded,
  run_plan, run_smart_attempt_loop,
}
use open_aipoject.Routing.Smart.Rounds.{round-Takes}
use open_aipoject.Routing.Smart.Steps.{Continues, Leaves, Takes}
use mathlib.Core.Path.{subst, ap}

left-inj : {W : Type 0} (a b : Routing W) → ◌≡◌ {A = LoopEnd W} (left a) (left b) → a ≡ b
left-inj a b e = cc

module _ {W : Type 0} (router : Router) (env : Environment) (io : Outside W)
    (P Q : Routing W → Type 0)
    (keep : (s s' : Routing W)
      → s.attempt_index < router.policy.max_attempts
      → Continues router env io s s'
      → P s
      → P s')
    (leaving : (s s' : Routing W)
      → s.attempt_index < router.policy.max_attempts
      → Leaves router env io s s'
      → P s
      → Q s')
    (over : (s : Routing W) → P s → Q s) where
  after_round_keeps :
      (fuel : ℕ) (s end : Routing W) (r : Round W)
      → s.attempt_index < router.policy.max_attempts
      → Takes router env io s r
      → P s
      → ((next : Routing W) → attempt_loop router env io fuel next ≡ left end → P next → Q end)
      → after_round (attempt_loop router env io fuel) r ≡ left end
      → Q end
  after_round_keeps fuel s end (again next) h t p ih e = ih next e (keep s next h t p)
  after_round_keeps fuel s end (leave final) h t p ih e =
      subst Q (left-inj final end e) (leaving s final h t p)
  after_round_keeps fuel s end faulted h t p ih e = cc

  pub loop_keeps :
      (fuel : ℕ) (s end : Routing W) → attempt_loop router env io fuel s ≡ left end → P s → Q end
  unfolding attempt_loop
  loop_keeps zero s end e p = cc
  loop_keeps (suc fuel) s end e p =
      tested (ltb s.attempt_index router.policy.max_attempts) refl e (λ h.
        after_round_keeps fuel s end (round router env io s) h (round-Takes router env io s) p
          (λ next. λ k. λ q. loop_keeps fuel next end k q))
    where
      tested :
          (b : Bool)
          → ltb s.attempt_index router.policy.max_attempts ≡ b
          → (if b
              then after_round (attempt_loop router env io fuel) (round router env io s)
              else left s)
            ≡ left end
          → (s.attempt_index < router.policy.max_attempts
              → after_round (attempt_loop router env io fuel) (round router env io s) ≡ left end
              → Q end)
          → Q end
      tested true t e k = k (ltb→lt _ _ t) e
      tested false t e k = subst Q (left-inj s end e) (over s p)

-- Where an answer with routing metadata came from.
pub record Ran {W : Type 0} (services : Services) (env : Environment) (io : Outside W)
    (analyzed : PromptFeatures) (routing_mode : String) (constraints : RoutingConstraints)
    (around : Surroundings W) (resp : UnifiedResponse) (end : Routing W) : Type 0 where
  pub plan : RoutePlan
  pub planned :
      route_once_plan services.models services.buffer services.tier_thresholds analyzed routing_mode
        constraints
      ≡ some plan
  pub fuel : ℕ
  pub looped :
      attempt_loop
        (router_of services plan constraints)
        env
        io
        fuel
        (starting plan.plan_tier plan.ordered_candidates around)
      ≡ left end
  pub replied :
      conclude end end.final_response end.best_non_error end.last_response ≡ routed resp end

conclude_state :
    {W : Type 0} (s end : Routing W) (final best last : Option UnifiedResponse)
    (resp : UnifiedResponse)
    → conclude s final best last ≡ routed resp end
    → s ≡ end
conclude_state s end (some final) best last resp e = cc
conclude_state s end none (some best) last resp e = cc
conclude_state s end none none (some last) resp e = cc
conclude_state s end none none none resp e = cc

concluded-inv :
    {W : Type 0} (loop : LoopEnd W) (resp : UnifiedResponse) (end : Routing W)
    → concluded loop ≡ routed resp end
    → (loop ≡ left end)
      × (conclude end end.final_response end.best_non_error end.last_response ≡ routed resp end)
concluded-inv (left s) resp end e =
    let k = conclude_state s end s.final_response s.best_non_error s.last_response resp e in
    (
      ap (λ x. left x) k,
      subst (λ x. conclude x x.final_response x.best_non_error x.last_response ≡ routed resp end) k
          e,
    )
concluded-inv raised resp end e = cc
concluded-inv out_of_fuel resp end e = cc

pub run-Ran :
    {W : Type 0} (services : Services) (env : Environment) (io : Outside W)
    (analyzed : PromptFeatures) (routing_mode : String) (constraints : RoutingConstraints)
    (available : List String) (around : Surroundings W) (resp : UnifiedResponse) (end : Routing W)
    → run_smart_attempt_loop services env io analyzed routing_mode constraints available around
      ≡ routed resp end
    → Ran services env io analyzed routing_mode
        (constrain_to_routable_providers available constraints)
        around
        resp
        end
unfolding run_smart_attempt_loop
run-Ran services env io analyzed routing_mode constraints [] around resp end e = cc
run-Ran services env io analyzed routing_mode constraints (p ∷ ps) around resp end e =
    of_plan
      (route_once_plan services.models services.buffer services.tier_thresholds analyzed
        routing_mode (constrain_to_routable_providers (p ∷ ps) constraints))
      refl e
  where
    of_plan :
        (plan : Option RoutePlan)
        → route_once_plan services.models services.buffer services.tier_thresholds analyzed
            routing_mode
            (constrain_to_routable_providers (p ∷ ps) constraints)
          ≡ plan
        → run_plan services env io
            (constrain_to_routable_providers (p ∷ ps) constraints)
            around
            plan
          ≡ routed resp end
        → Ran services env io analyzed routing_mode
            (constrain_to_routable_providers (p ∷ ps) constraints)
            around
            resp
            end
    of_plan none h e = cc
    of_plan (some plan) h e =
        let inv = concluded-inv _ resp end e in
        record { plan = plan; planned = h; fuel = _; looped = inv.0; replied = inv.1 }
