-- ===== src/Routing/Smart/Steps.antt =====
-- One round of the loop as a relation between the loop's states.
use open_aipoject.Routing.Smart.{
  faulted, Router, Environment, Outside, Option, Tier, Routing, String, List, ModelCandidate,
  UnifiedResponse, Round, SelectionResult, NextTier, Bool, select, Surroundings, get_candidates,
  numbered, some, [], first_non_error, ◌++◌, ◌+◌, ◌∷◌, reloaded, exhausted, again, leave,
}
use open_aipoject.Prelude.{◌<◌, ◌≡◌, refl, true, false, none}
use open_aipoject.Routing.Registry.{next_tier_of, no_tier, tier_error, onward}
use open_aipoject.Routing.Selector.Selection.{selected}

-- The authorizer lets the candidate pass, at some time.
abbrev pub GrantedBy :
    {W : Type 0} → Option (String → String → W → Option Bool × W) → ModelCandidate → Type 0
GrantedBy none c = Unit
GrantedBy {W} (some ask) c = (w : W) × ((ask c.provider c.model_name w).0 ≡ some true)

module _ {W : Type 0} (router : Router) (env : Environment) (io : Outside W) where
  -- The candidates that the selector returns for the tier.
  abbrev pub Loads : Tier → List ModelCandidate → Type 0
  Loads tier candidates =
      (selection : SelectionResult) × (select router.token_buffer router.features
          (get_candidates router.registry tier router.constraints) router.constraints
        ≡ some selection)
      × (candidates ≡ selected selection)

  -- The state behind a call of `c`, whose answer is `raw`.
  abbrev pub after_call :
      Routing W
      → ModelCandidate
      → List ModelCandidate
      → UnifiedResponse
      → Surroundings W
      → Routing W
  after_call s c rest raw around =
      let resp = numbered s.attempt_index s.last_response raw in
      record s {
        around = around;
        current_candidates = rest;
        last_response = some raw;
        best_non_error = first_non_error s.best_non_error resp resp.error;
        attempts =
            s.attempts
            ++ (record {
              attempt_number = s.attempt_index + 1;
              attempt_tier = s.current_tier;
              candidate = c;
              validation = router.check_response router.features router.constraints resp;
            }
                ∷ []);
      }

  pub record Calls (s m : Routing W) (resp : UnifiedResponse) : Type 0 where
    pub called : ModelCandidate
    pub rest : List ModelCandidate
    pub raw : UnifiedResponse
    pub left_around : Surroundings W
    pub at_head : s.current_candidates ≡ called ∷ rest
    pub granted : GrantedBy io.authorizer called
    pub as_numbered : resp ≡ numbered s.attempt_index s.last_response raw
    pub as_noted : m ≡ after_call s called rest raw left_around

  pub data Continues (s s' : Routing W) : Type 0 where
    moved_on :
        (tier : Tier) (candidates : List ModelCandidate)
        → s.current_candidates ≡ []
        → next_tier_of router.registry s.current_tier ≡ onward tier
        → Loads tier candidates
        → s' ≡ record s { current_tier = tier; current_candidates = candidates }
        → Continues s s'
    denied :
        (c : ModelCandidate) (rest : List ModelCandidate) (around : Surroundings W)
        → s.current_candidates ≡ c ∷ rest
        → s' ≡ record s {
          around = around;
          current_candidates = rest;
          credit_exclusions = s.credit_exclusions ++ (c ∷ []);
        }
        → Continues s s'
    retried :
        (m : Routing W) (resp : UnifiedResponse)
        → Calls s m resp
        → (router.check_response router.features router.constraints resp).valid ≡ false
        → s.attempt_index + 1 < router.policy.max_attempts
        → s' ≡ record m { attempt_index = m.attempt_index + 1; fallback_used = true }
        → Continues s s'
    escalated_to :
        (tier : Tier) (candidates : List ModelCandidate) (m : Routing W) (resp : UnifiedResponse)
        → Calls s m resp
        → (router.check_response router.features router.constraints resp).valid ≡ false
        → s.attempt_index + 1 < router.policy.max_attempts
        → next_tier_of router.registry s.current_tier ≡ onward tier
        → Loads tier candidates
        → s' ≡ record m {
          current_tier = tier;
          current_candidates = candidates;
          attempt_index = m.attempt_index + 1;
          fallback_used = true;
        }
        → Continues s s'

  pub data Leaves (s s' : Routing W) : Type 0 where
    gave_up :
        s.current_candidates ≡ []
        → next_tier_of router.registry s.current_tier ≡ no_tier
        → s' ≡ s
        → Leaves s s'
    ended :
        (m : Routing W) (resp : UnifiedResponse)
        → Calls s m resp
        → s' ≡ record m { final_response = some resp }
        → Leaves s s'

  abbrev pub Takes : Routing W → Round W → Type 0
  Takes s (again s') = Continues s s'
  Takes s (leave s') = Leaves s s'
  Takes s faulted = Unit

  pub reloaded-Takes :
      (s m : Routing W) (o : Option SelectionResult)
      → select router.token_buffer router.features
          (get_candidates router.registry m.current_tier router.constraints)
          router.constraints
        ≡ o
      → ((candidates : List ModelCandidate)
          → Loads m.current_tier candidates
          → Continues s (record m { current_candidates = candidates }))
      → Takes s (reloaded router env io m o)
  reloaded-Takes s m none e k = tt
  reloaded-Takes s m (some selection) e k = k (selected selection) (selection, e, refl)

  pub exhausted-Takes :
      (s : Routing W) (next : NextTier)
      → s.current_candidates ≡ []
      → next_tier_of router.registry s.current_tier ≡ next
      → Takes s (exhausted router env io s next)
  exhausted-Takes s no_tier h e = gave_up h e refl
  exhausted-Takes s tier_error h e = tt
  exhausted-Takes s (onward tier) h e =
      reloaded-Takes s (record s { current_tier = tier }) _ refl
        (λ candidates l. moved_on tier candidates h e l refl)
