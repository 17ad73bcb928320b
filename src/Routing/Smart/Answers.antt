-- ===== src/Routing/Smart/Answers.antt =====
-- Which answer is returned: the first one that passes, and no call is made after it.
use open_aipoject.Prelude.{
  ◌+◌, ◌<◌, String, ◌≡◌, refl, sym, ◌∙◌, ◌⊎◌, inl, inr, Bool, true, false, Option, none, some, List,
  ◌∷◌, ◌++◌, arith, All, All-append, [], ℕ, any,
}
use open_aipoject.Gateway.Circuit.{Environment}
use open_aipoject.Routing.TierDecider.{PromptFeatures}
use open_aipoject.Routing.Invocation.{Outside, Surroundings}
use open_aipoject.Routing.Models.{RoutingConstraints, SelectionResult, UnifiedResponse}
use open_aipoject.Routing.Smart.{Attempt, Routing, Router, numbered, attempt_loop, left}
use open_aipoject.Routing.Types.{Tier}
use open_aipoject.Routing.Router.{apply_constraints, RoutePlan, plan_of, route_once_plan}
use open_aipoject.Routing.Registry.{ModelRegistry}
use open_aipoject.Routing.Smart.Invariant.{loop_keeps, run-Ran}
use open_aipoject.Routing.Smart.Run.{
  constrain_to_routable_providers, conclude, Services, router_of, run_smart_attempt_loop, routed,
}
use open_aipoject.Routing.Smart.Steps.{
  moved_on, denied, retried, escalated_to, gave_up, ended, Calls, Continues, Leaves,
}
use mathlib.Core.Path.{subst, ap}

module _ {W : Type 0} (router : Router) (env : Environment) (io : Outside W) where
  abbrev Failed : Attempt → Type 0
  Failed a = a.validation.valid ≡ false

  -- No attempt has passed so far, and no answer is final.
  record IsOpen (s : Routing W) : Type 0 where
    all_failed : All Failed s.attempts
    undecided : s.final_response ≡ none

  -- The last attempt's answer is final, and the ones before it have failed.
  record EndsWith (s : Routing W) (resp : UnifiedResponse) : Type 0 where
    earlier : List Attempt
    last : Attempt
    in_order : s.attempts ≡ earlier ++ (last ∷ [])
    earlier_failed : All Failed earlier
    is_final : s.final_response ≡ some resp
    judged : last.validation ≡ router.check_response router.features router.constraints resp

  abbrev IsClosed : Routing W → Type 0
  IsClosed s = IsOpen s ⊎ ((resp : UnifiedResponse) × EndsWith s resp)

  Calls-EndsWith :
      (s m s' : Routing W) (resp : UnifiedResponse)
      → Calls router env io s m resp
      → s' ≡ record m { final_response = some resp }
      → IsOpen s
      → EndsWith s' resp
  Calls-EndsWith s m s' resp calls k p = record {
    earlier = s.attempts;
    last = record {
      attempt_number = s.attempt_index + 1;
      attempt_tier = s.current_tier;
      candidate = calls.called;
      validation =
          router.check_response router.features router.constraints
            (numbered s.attempt_index s.last_response calls.raw);
    };
    in_order = ap (λ x. x.attempts) k ∙ ap (λ x. x.attempts) calls.as_noted;
    earlier_failed = p.all_failed;
    is_final = ap (λ x. x.final_response) k;
    judged = ap (router.check_response router.features router.constraints) (sym calls.as_numbered);
  }

  -- A call whose answer does not pass leaves the loop open.
  Calls-IsOpen :
      (s m : Routing W) (resp : UnifiedResponse)
      → Calls router env io s m resp
      → (router.check_response router.features router.constraints resp).valid ≡ false
      → IsOpen s
      → IsOpen m
  Calls-IsOpen s m resp calls invalid p = subst IsOpen (sym calls.as_noted) (record {
    all_failed = All-append Failed s.attempts _ p.all_failed (
      ap (λ r. (router.check_response router.features router.constraints r).valid)
            (sym calls.as_numbered)
          ∙ invalid,
      tt,
    );
    undecided = p.undecided;
  })

  keep :
      (s s' : Routing W)
      → s.attempt_index < router.policy.max_attempts
      → Continues router env io s s'
      → IsOpen s
      → IsOpen s'
  keep s s' h (moved_on tier candidates none_left e l k) p =
      subst IsOpen (sym k) (record { all_failed = p.all_failed; undecided = p.undecided })
  keep s s' h (denied c rest around head k) p =
      subst IsOpen (sym k) (record { all_failed = p.all_failed; undecided = p.undecided })
  keep s s' h (retried m resp calls invalid lt k) p =
      let n = Calls-IsOpen s m resp calls invalid p in
      subst IsOpen (sym k) (record { all_failed = n.all_failed; undecided = n.undecided })
  keep s s' h (escalated_to tier candidates m resp calls invalid lt e l k) p =
      let n = Calls-IsOpen s m resp calls invalid p in
      subst IsOpen (sym k) (record { all_failed = n.all_failed; undecided = n.undecided })

  leaving :
      (s s' : Routing W)
      → s.attempt_index < router.policy.max_attempts
      → Leaves router env io s s'
      → IsOpen s
      → IsClosed s'
  leaving s s' h (gave_up none_left e k) p = inl (subst IsOpen (sym k) p)
  leaving s s' h (ended m resp calls k) p = inr (resp, Calls-EndsWith s m s' resp calls k p)

  loop-IsClosed :
      (fuel : ℕ) (s end : Routing W)
      → attempt_loop router env io fuel s ≡ left end
      → IsOpen s
      → IsClosed end
  loop-IsClosed = loop_keeps router env io IsOpen IsClosed keep leaving (λ s p. inl p)

  none_passed :
      (attempts : List Attempt)
      → All Failed attempts
      → any (λ a. a.validation.valid) attempts ≡ false
  none_passed [] h = refl
  none_passed (a ∷ attempts) h = rw h.0 (none_passed attempts h.1)

  last_passes :
      (earlier : List Attempt) (last : Attempt)
      → All Failed earlier
      → any (λ a. a.validation.valid) (earlier ++ (last ∷ [])) ≡ true
      → last.validation.valid ≡ true
  last_passes [] last h k = ground arith
  last_passes (a ∷ earlier) last h k = last_passes earlier last h.1 (ground (arith, h.0))

  -- If some attempt has passed, it is the last one, and its answer is final.
  closed-passes :
      (end : Routing W)
      → IsClosed end
      → any (λ a. a.validation.valid) end.attempts ≡ true
      → (resp : UnifiedResponse) × (end.final_response ≡ some resp)
        × ((router.check_response router.features router.constraints resp).valid ≡ true)
  closed-passes end (inl p) h = absurd (clash (none_passed end.attempts p.all_failed) h)
    where
      clash : {b : Bool} → b ≡ false → b ≡ true → ⊥
      clash e k = cc
  closed-passes end (inr (resp, e)) h = (
    resp,
    e.is_final,
    ap (λ v. v.valid) (sym e.judged)
        ∙ last_passes e.earlier e.last e.earlier_failed
            (subst (λ xs. any (λ (a : Attempt). a.validation.valid) xs ≡ true) e.in_order h),
  )

conclude_final :
    {W : Type 0} (s : Routing W) (final best last : Option UnifiedResponse)
    (resp chosen : UnifiedResponse)
    → conclude s final best last ≡ routed resp s
    → final ≡ some chosen
    → chosen ≡ resp
conclude_final s none best last resp chosen e k = cc
conclude_final s (some f) best last resp chosen e k = cc

plan_features-eq :
    (features : PromptFeatures) (tier : Tier) (o : Option SelectionResult) (plan : RoutePlan)
    → plan_of features tier o ≡ some plan
    → plan.plan_features ≡ features
plan_features-eq features tier none plan e = cc
plan_features-eq features tier (some s) plan e = ground arith

route_once_plan-features :
    (registry : ModelRegistry) (token_buffer : ℕ) (thresholds : String → Option ℕ)
    (analyzed : PromptFeatures) (routing_mode : String) (constraints : RoutingConstraints)
    (plan : RoutePlan)
    → route_once_plan registry token_buffer thresholds analyzed routing_mode constraints ≡ some plan
    → plan.plan_features ≡ apply_constraints analyzed constraints
unfolding route_once_plan
route_once_plan-features registry token_buffer thresholds analyzed routing_mode constraints plan e =
    plan_features-eq _ _ _ plan e

-- If the answer to some attempt of a request passes its validation, then an answer that passes is
-- what the request is answered with, with the features that the constraints make strict.
pub run-passes :
    {W : Type 0} (services : Services) (env : Environment) (io : Outside W)
    (analyzed : PromptFeatures) (routing_mode : String) (constraints : RoutingConstraints)
    (available : List String) (around : Surroundings W) (resp : UnifiedResponse) (end : Routing W)
    → run_smart_attempt_loop services env io analyzed routing_mode constraints available around
      ≡ routed resp end
    → any (λ (a : Attempt). a.validation.valid) end.attempts ≡ true
    → let narrowed = constrain_to_routable_providers available constraints in
      (services.validator (apply_constraints analyzed narrowed) narrowed resp).valid ≡ true
run-passes services env io analyzed routing_mode constraints available around resp end e h =
    let ran =
      run-Ran services env io analyzed routing_mode constraints available around resp end e in
    let narrowed = constrain_to_routable_providers available constraints in
    let router = router_of services ran.plan narrowed in
    let passes =
      closed-passes router env io end
        (loop-IsClosed router env io ran.fuel _ end ran.looped
          (record { all_failed = tt; undecided = refl }))
        h in
    subst (λ r. (services.validator (apply_constraints analyzed narrowed) narrowed r).valid ≡ true)
      (conclude_final end end.final_response end.best_non_error end.last_response resp passes.0
        ran.replied passes.1)
      (subst (λ f. (services.validator f narrowed passes.0).valid ≡ true)
        (route_once_plan-features services.models services.buffer services.tier_thresholds analyzed
          routing_mode narrowed ran.plan ran.planned)
        passes.2)
