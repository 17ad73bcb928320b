-- ===== src/Routing/Smart.antt =====
-- orchestrator/core.py, the loop of `_run_smart_attempt_loop`: candidates are tried until one
-- answer passes or the fallback manager stops.
pub mod Steps
pub mod Rounds
pub mod Progress
pub mod Run
pub mod Invariant
pub mod Tried
pub mod Answers
mod Tests
use open_aipoject.Prelude.{
  ℕ, String, Bool, true, false, Option, none, some, List, [], ◌∷◌, ◌++◌, ◌+◌, zero, suc, ltb,
  length, is_some, ◌&&◌, if◌then◌else◌,
}
use open_aipoject.Prelude.Text.{append}
use open_aipoject.Gateway.Circuit.{Environment, Circuits}
use open_aipoject.Routing.Types.{
  Tier, FallbackDecision, NextAction, retry_same_tier, escalate_tier, stop, t0,
}
use open_aipoject.Routing.Models.{
  ModelCandidate, RoutingConstraints, SelectionResult, UnifiedResponse, ValidationResult,
}
use open_aipoject.Routing.Registry.{
  ModelRegistry, NextTier, no_tier, tier_error, onward, next_tier_of, get_candidates,
}
use open_aipoject.Routing.Selector.{select}
use open_aipoject.Routing.TierDecider.{PromptFeatures}
use open_aipoject.Routing.Fallback.{FallbackPolicy, decide}
use open_aipoject.Routing.Invocation.{Outside, Surroundings, invoke_candidate, error_response}

-- An entry of `routing_md["attempts"]`, with the candidate in place of its names.
pub record Attempt : Type 0 where
  pub attempt_number : ℕ
  pub attempt_tier : Tier
  pub candidate : ModelCandidate
  pub validation : ValidationResult

-- The loop's variables; `credit_exclusions` and `fallback_used` are entries of `routing_md`.
pub record Routing (W : Type 0) : Type 0 where
  pub around : Surroundings W
  pub current_tier : Tier
  pub current_candidates : List ModelCandidate
  pub attempt_index : ℕ
  pub best_non_error : Option UnifiedResponse
  pub final_response : Option UnifiedResponse
  pub last_response : Option UnifiedResponse
  pub attempts : List Attempt
  pub credit_exclusions : List ModelCandidate
  pub fallback_used : Bool

-- The ways out of one round: `continue`, `break`, or a ValueError.
pub data Round (W : Type 0) : Type 0 where
  again : Routing W → Round W
  leave : Routing W → Round W
  faulted : Round W

pub data LoopEnd (W : Type 0) : Type 0 where
  left : Routing W → LoopEnd W
  raised : LoopEnd W
  out_of_fuel : LoopEnd W

-- What a round is followed by; `rest` is the loop.
abbrev pub after_round : {W : Type 0} → (Routing W → LoopEnd W) → Round W → LoopEnd W
after_round rest (again s) = rest s
after_round rest (leave s) = left s
after_round rest faulted = raised

-- What a request is routed with; `check_response` is the validator with its thresholds.
pub record Router : Type 0 where
  pub registry : ModelRegistry
  pub token_buffer : ℕ
  pub features : PromptFeatures
  pub constraints : RoutingConstraints
  pub policy : FallbackPolicy
  pub check_response : PromptFeatures → RoutingConstraints → UnifiedResponse → ValidationResult

-- Whether the decision has asked for the next tier.
abbrev pub is_escalation : NextAction → Bool
is_escalation escalate_tier = true
is_escalation retry_same_tier = false
is_escalation stop = false

abbrev pub unless_asked : FallbackDecision → FallbackDecision → Option FallbackDecision
unless_asked asked otherwise = if is_escalation asked.action then none else some otherwise

-- `decide` with a `next_tier_fn` that may raise: where there is a tier, an escalation to it shows
-- that the function was called.
abbrev pub decide_with : (Option Tier → FallbackDecision) → NextTier → Option FallbackDecision
decide_with decision no_tier = some (decision none)
decide_with decision (onward tier) = some (decision (some tier))
decide_with decision tier_error = unless_asked (decision (some t0)) (decision none)

-- `resp` with its place among the attempts.
abbrev pub numbered : ℕ → Option UnifiedResponse → UnifiedResponse → UnifiedResponse
numbered attempt_index none resp = record resp { attempt = attempt_index + 1 }
numbered attempt_index (some prev) resp =
    if ltb 0 attempt_index
    then record resp {
      attempt = attempt_index + 1;
      fallback_from = some (append prev.provider (append ":" prev.model));
    }
    else record resp { attempt = attempt_index + 1 }

abbrev pub first_non_error :
    Option UnifiedResponse → UnifiedResponse → Option String → Option UnifiedResponse
first_non_error (some best) resp error = some best
first_non_error none resp (some code) = none
first_non_error none resp none = some resp

module _ {W : Type 0} (router : Router) (env : Environment) (io : Outside W) where
  abbrev pub reloaded : Routing W → Option SelectionResult → Round W
  reloaded s none = faulted
  reloaded s (some selection) = again (record s {
    current_candidates = selection.primary_candidate ∷ selection.fallback_candidates;
  })

  -- The candidates of the tier that is now current.
  abbrev pub reload : Routing W → Round W
  reload s = reloaded s (
      select router.token_buffer router.features
        (get_candidates router.registry s.current_tier router.constraints) router.constraints)

  -- The branch for a tier that has no candidates left.
  abbrev pub exhausted : Routing W → NextTier → Round W
  exhausted s no_tier = leave s
  exhausted s tier_error = faulted
  exhausted s (onward tier) = reload (record s { current_tier = tier })

  abbrev pub on_escalation : Routing W → UnifiedResponse → Option Tier → Round W
  on_escalation s resp none = leave (record s { final_response = some resp })
  on_escalation s resp (some tier) =
      reload (record s {
        current_tier = tier;
        attempt_index = s.attempt_index + 1;
        fallback_used = true;
      })

  -- What follows the decision; `none` is the ValueError that `decide` passes on.
  abbrev pub by_action : Routing W → UnifiedResponse → NextAction → Option Tier → Round W
  by_action s resp retry_same_tier tier =
      again (record s { attempt_index = s.attempt_index + 1; fallback_used = true })
  by_action s resp escalate_tier tier = on_escalation s resp tier
  by_action s resp stop tier = leave (record s { final_response = some resp })

  abbrev pub by_decision : Routing W → UnifiedResponse → Option FallbackDecision → Round W
  by_decision s resp none = faulted
  by_decision s resp (some d) = by_action s resp d.action d.next_tier

  abbrev pub on_elapsed : Routing W → UnifiedResponse → String → ℕ × W → Round W
  on_elapsed s resp reason (elapsed_ms, w) =
      by_decision (record s { around = record { circuits = s.around.circuits; outside = w } }) resp
        (decide_with
          (λ next.
            decide s.current_tier reason s.attempt_index elapsed_ms (length s.current_candidates)
              router.policy (λ tier. next))
          (next_tier_of router.registry s.current_tier))

  -- From `if validation.ok` on.
  abbrev pub on_validation : Routing W → UnifiedResponse → ValidationResult → Bool → Round W
  on_validation s resp v true = leave (record s { final_response = some resp })
  on_validation s resp v false = on_elapsed s resp v.reason (io.elapsed_ms s.around.outside)

  -- The answer `resp` to the call of `c`, numbered, on_validation and noted.
  abbrev pub noted : Routing W → ModelCandidate → UnifiedResponse → UnifiedResponse → Round W
  noted s c raw resp =
      let v = router.check_response router.features router.constraints resp in
      on_validation
        (record s {
          last_response = some raw;
          best_non_error = first_non_error s.best_non_error resp resp.error;
          attempts =
              s.attempts
              ++ (record {
                attempt_number = s.attempt_index + 1;
                attempt_tier = s.current_tier;
                candidate = c;
                validation = v;
              }
                  ∷ []);
        })
        resp v v.valid

  abbrev pub answered : Routing W → ModelCandidate → UnifiedResponse × Surroundings W → Round W
  answered s c (raw, around) =
      noted (record s { around = around }) c raw (numbered s.attempt_index s.last_response raw)

  -- An authorizer that raises denies.
  abbrev pub authorized : Routing W → ModelCandidate → Option Bool × W → Round W
  authorized s c (some true, w) =
      answered s c
        (invoke_candidate env io c (record { circuits = s.around.circuits; outside = w }))
  authorized s c (_, w) = again (record s {
    around = record { circuits = s.around.circuits; outside = w };
    credit_exclusions = s.credit_exclusions ++ (c ∷ []);
  })

  abbrev pub authorize :
      Routing W → ModelCandidate → Option (String → String → W → Option Bool × W) → Round W
  authorize s c none = answered s c (invoke_candidate env io c s.around)
  authorize s c (some ask) = authorized s c (ask c.provider c.model_name s.around.outside)

  abbrev pub round_of : Routing W → List ModelCandidate → Round W
  round_of s [] = exhausted s (next_tier_of router.registry s.current_tier)
  round_of s (c ∷ rest) = authorize (record s { current_candidates = rest }) c io.authorizer

  -- One round of the `while` loop.
  unfoldable pub round : Routing W → Round W
  round s = round_of s s.current_candidates

  -- `while attempt_index < policy.max_attempts`, on fuel.
  unfoldable pub attempt_loop : ℕ → Routing W → LoopEnd W
  attempt_loop zero s = out_of_fuel
  attempt_loop (suc fuel) s =
      let rest = after_round (attempt_loop fuel) (round s) in
      if ltb s.attempt_index router.policy.max_attempts then rest else left s
