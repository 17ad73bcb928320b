-- ===== src/Routing/Smart/Rounds.antt =====
-- Every round of the loop is a step of the relation.
use open_aipoject.Prelude.{
  ◌+◌, ◌<◌, String, ◌≡◌, refl, sym, ◌⊎◌, inl, inr, Bool, true, false, Option, none, some, List, ◌∷◌,
  if◌then◌else◌, length, [], ℕ,
}
use open_aipoject.Gateway.Circuit.{Environment}
use open_aipoject.Routing.Invocation.{Outside, Surroundings, invoke_candidate}
use open_aipoject.Routing.Models.{ModelCandidate, UnifiedResponse}
use open_aipoject.Routing.Fallback.{decide}
use open_aipoject.Routing.Smart.{
  Routing, Router, is_escalation, decide_with, numbered, by_action, by_decision, on_validation,
  answered, authorized, authorize, round_of, round, stop, t0,
}
use open_aipoject.Routing.Types.{Tier, NextAction, FallbackDecision, retry_same_tier, escalate_tier}
use open_aipoject.Routing.Registry.{NextTier, no_tier, tier_error, onward, next_tier_of}
use open_aipoject.Routing.Fallback.Decisions.{RequiresFor, decide-Requires}
use open_aipoject.Routing.Smart.Steps.{
  GrantedBy, after_call, Calls, Takes, reloaded-Takes, exhausted-Takes, ended, denied, retried,
  escalated_to,
}
use mathlib.Core.Path.{subst, ap}

module _ {W : Type 0} (router : Router) (env : Environment) (io : Outside W) where
  -- An escalation names the tier that comes next.
  abbrev Names : Tier → NextAction → Option Tier → Type 0
  Names current escalate_tier (some tier) = next_tier_of router.registry current ≡ onward tier
  Names current _ _ = Unit

  names :
      (current : Tier) (remaining : ℕ) (permitted : Bool) (next : Option Tier) (action : NextAction)
      (tier : Option Tier)
      → RequiresFor remaining permitted next action tier
      → ((t : Tier) → next ≡ some t → next_tier_of router.registry current ≡ onward t)
      → Names current action tier
  names current remaining permitted next retry_same_tier tier r k = tt
  names current remaining permitted next stop tier r k = tt
  names current remaining permitted next escalate_tier none r k = tt
  names current remaining permitted next escalate_tier (some t) r k = k t (sym r.1)

  module _ (s m : Routing W) (resp : UnifiedResponse) (calls : Calls router env io s m resp)
      (invalid : (router.check_response router.features router.constraints resp).valid
        ≡ false) where
    by_action-Takes :
        (action : NextAction) (tier : Option Tier)
        → Names s.current_tier action tier
        → (action ≡ stop) ⊎ (s.attempt_index + 1 < router.policy.max_attempts)
        → Takes router env io s (by_action router env io m resp action tier)
    by_action-Takes stop tier n below = ended m resp calls refl
    by_action-Takes retry_same_tier tier n (inl e) = cc
    by_action-Takes retry_same_tier tier n (inr lt) = retried m resp calls invalid lt refl
    by_action-Takes escalate_tier none n below = ended m resp calls refl
    by_action-Takes escalate_tier (some tier) n (inl e) = cc
    by_action-Takes escalate_tier (some tier) n (inr lt) =
        reloaded-Takes router env io s
          (record m {
            current_tier = tier;
            attempt_index = m.attempt_index + 1;
            fallback_used = true;
          })
          _ refl (λ candidates l. escalated_to tier candidates m resp calls invalid lt n l refl)

    decision-Takes :
        (reason : String) (elapsed remaining : ℕ) (next : Option Tier)
        → ((t : Tier) → next ≡ some t → next_tier_of router.registry s.current_tier ≡ onward t)
        → let d =
            decide s.current_tier reason s.attempt_index elapsed remaining router.policy
              (λ tier. next) in
          Takes router env io s (by_action router env io m resp d.action d.next_tier)
    decision-Takes reason elapsed remaining next k =
        let d =
          decide s.current_tier reason s.attempt_index elapsed remaining router.policy
            (λ tier. next) in
        let r =
          decide-Requires s.current_tier reason s.attempt_index elapsed remaining router.policy
            (λ tier. next) in
        by_action-Takes d.action d.next_tier
          (names s.current_tier remaining router.policy.allow_escalation next d.action d.next_tier
            r.0 k)
          r.1

    unless_asked-Takes :
        (b : Bool) (d : FallbackDecision)
        → Takes router env io s (by_action router env io m resp d.action d.next_tier)
        → Takes router env io s (by_decision router env io m resp (if b then none else some d))
    unless_asked-Takes true d t = tt
    unless_asked-Takes false d t = t

    by_decision-Takes :
        (reason : String) (elapsed remaining : ℕ) (next : NextTier)
        → next_tier_of router.registry s.current_tier ≡ next
        → Takes router env io s (
            by_decision router env io m resp (
              decide_with
                (λ next.
                  decide s.current_tier reason s.attempt_index elapsed remaining router.policy
                    (λ tier. next))
                next))
    by_decision-Takes reason elapsed remaining no_tier e =
        decision-Takes reason elapsed remaining none (λ t h. cc)
    by_decision-Takes reason elapsed remaining (onward tier) e =
        decision-Takes reason elapsed remaining (some tier) (λ t h. cc)
    by_decision-Takes reason elapsed remaining tier_error e =
        unless_asked-Takes
          (is_escalation
            (decide s.current_tier reason s.attempt_index elapsed remaining router.policy
              (λ tier. some t0)).action)
          (decide s.current_tier reason s.attempt_index elapsed remaining router.policy
            (λ tier. none))
          (decision-Takes reason elapsed remaining none (λ t h. cc))

  module _ (s : Routing W) (c : ModelCandidate) (rest : List ModelCandidate)
      (head : s.current_candidates ≡ c ∷ rest) (pass : GrantedBy io.authorizer c) where
    call_made :
        (raw : UnifiedResponse) (around : Surroundings W)
        → Calls router env io s
            (after_call router env io s c rest raw around)
            (numbered s.attempt_index s.last_response raw)
    call_made raw around = record {
      called = c;
      rest = rest;
      raw = raw;
      left_around = around;
      at_head = head;
      granted = pass;
      as_numbered = refl;
      as_noted = refl;
    }

    on_validation-Takes :
        (raw : UnifiedResponse) (around : Surroundings W) (b : Bool)
        → let resp = numbered s.attempt_index s.last_response raw in
          let v = router.check_response router.features router.constraints resp in
          v.valid ≡ b
          → Takes router env io s
              (on_validation router env io (after_call router env io s c rest raw around) resp v b)
    on_validation-Takes raw around true e = ended _ _ (call_made raw around) refl
    on_validation-Takes raw around false e =
        let asked = io.elapsed_ms around.outside in
        by_decision-Takes s _ _
          (call_made raw (record { circuits = around.circuits; outside = asked.1 })) e
          (router.check_response router.features router.constraints
            (numbered s.attempt_index s.last_response raw)).reason
          asked.0 (length rest) (next_tier_of router.registry s.current_tier) refl

    answered-Takes :
        (call : UnifiedResponse × Surroundings W)
        → Takes router env io s
            (answered router env io (record s { current_candidates = rest }) c call)
    answered-Takes (raw, around) = on_validation-Takes raw around _ refl

  authorize-Takes :
      (s : Routing W) (c : ModelCandidate) (rest : List ModelCandidate)
      → s.current_candidates ≡ c ∷ rest
      → (authorizer : Option (String → String → W → Option Bool × W)) → io.authorizer ≡ authorizer
      → Takes router env io s
          (authorize router env io (record s { current_candidates = rest }) c authorizer)
  authorize-Takes s c rest h none e =
      answered-Takes s c rest h (subst (λ a. GrantedBy a c) (sym e) tt)
        (invoke_candidate env io c s.around)
  authorize-Takes s c rest h (some ask) e =
      asked (ask c.provider c.model_name s.around.outside) refl
    where
      asked :
          (answer : Option Bool × W)
          → ask c.provider c.model_name s.around.outside ≡ answer
          → Takes router env io s
              (authorized router env io (record s { current_candidates = rest }) c answer)
      asked (none, w) k = denied c rest _ h refl
      asked (some false, w) k = denied c rest _ h refl
      asked (some true, w) k =
          answered-Takes s c rest h
            (subst (λ a. GrantedBy a c) (sym e) (s.around.outside, ap (λ p. p.0) k))
            (invoke_candidate env io c (record { circuits = s.around.circuits; outside = w }))

  round_of-Takes :
      (s : Routing W) (candidates : List ModelCandidate)
      → s.current_candidates ≡ candidates
      → Takes router env io s (round_of router env io s candidates)
  round_of-Takes s [] h = exhausted-Takes router env io s _ h refl
  round_of-Takes s (c ∷ rest) h = authorize-Takes s c rest h io.authorizer refl

  pub round-Takes : (s : Routing W) → Takes router env io s (round router env io s)
  unfolding round
  round-Takes s = round_of-Takes s s.current_candidates refl
