-- ===== src/Routing/Smart/Progress.antt =====
-- The loop ends: each round takes a candidate off the list or moves to a tier further on, so the
-- candidates and the tiers bound the rounds, whatever the answers are.
use open_aipoject.Prelude.{
  zero, suc, ◌+◌, ◌*◌, ◌≤◌, ◌<◌, ◌≡◌, sym, ◌≢◌, List, arith, ltb, length, Bool, true, false,
  if◌then◌else◌, ℕ,
}
use open_aipoject.Gateway.Circuit.{Environment}
use open_aipoject.Routing.Invocation.{Outside}
use open_aipoject.Routing.Models.{ModelCandidate}
use open_aipoject.Routing.Smart.{
  Routing, Round, Router, round, attempt_loop, again, leave, faulted, left, out_of_fuel,
  after_round,
}
use open_aipoject.Routing.Types.{Tier}
use open_aipoject.Routing.Registry.{tier_value, next_tier_of, get_candidates, onward}
use open_aipoject.Routing.Registry.Permitted.{model_count, get_candidates-length}
use open_aipoject.Routing.Registry.Order.{IsDistinct, behind, next_tier_of-decreases}
use open_aipoject.Routing.Smart.Rounds.{round-Takes}
use open_aipoject.Routing.Smart.Steps.{
  moved_on, denied, retried, escalated_to, Loads, Continues, Takes,
}
use open_aipoject.Routing.Selector.Selection.{select-length}
use mathlib.Core.Path.{subst, ap}

-- The rounds that can follow at most, of the tiers behind the current one and its candidates.
abbrev pub rounds_left : {W : Type 0} → Router → Routing W → ℕ
rounds_left router s =
    behind (tier_value s.current_tier) router.registry.tier_order
      * (model_count router.registry.providers + 1)
    + length s.current_candidates

product : (a b n k m : ℕ) → a < b → k ≤ n → a * (n + 1) + k < b * (n + 1) + m
product a b n k m h l = grind arith

module _ {W : Type 0} (router : Router) (env : Environment) (io : Outside W) where
  loaded-decreases :
      (tier next : Tier) (candidates : List ModelCandidate) (n : ℕ)
      → IsDistinct router.registry.tier_order
      → next_tier_of router.registry tier ≡ onward next
      → Loads router env io next candidates
      → behind (tier_value next) router.registry.tier_order
            * (model_count router.registry.providers + 1)
          + length candidates
        < behind (tier_value tier) router.registry.tier_order
            * (model_count router.registry.providers + 1)
          + n
  loaded-decreases tier next candidates n d e l =
      product (behind (tier_value next) router.registry.tier_order)
        (behind (tier_value tier) router.registry.tier_order)
        (model_count router.registry.providers) (length candidates) n
        (next_tier_of-decreases router.registry tier next d e)
        (omega (
          arith,
          ap length l.2,
          select-length router.token_buffer router.features
              (get_candidates router.registry next router.constraints) router.constraints l.0 l.1,
          get_candidates-length router.registry next router.constraints,
        ))

  Continues-decreases :
      (s s' : Routing W)
      → IsDistinct router.registry.tier_order
      → Continues router env io s s'
      → rounds_left router s' < rounds_left router s
  Continues-decreases s s' d (moved_on tier candidates none_left e l k) =
      subst (λ x. rounds_left router x < rounds_left router s) (sym k)
        (loaded-decreases s.current_tier tier candidates (length s.current_candidates) d e l)
  Continues-decreases s s' d (denied c rest around head k) =
      subst (λ x. rounds_left router x < rounds_left router s) (sym k)
        (omega (arith, ap length head))
  Continues-decreases s s' d (retried m resp calls invalid below k) = omega (
    arith,
    ap (rounds_left router) k,
    ap (rounds_left router) calls.as_noted,
    ap length calls.at_head,
  )
  Continues-decreases s s' d (escalated_to tier candidates m resp calls invalid below e l k) =
      subst (λ x. rounds_left router x < rounds_left router s) (sym k)
        (loaded-decreases s.current_tier tier candidates (length s.current_candidates) d e l)

  after_round-ends :
      (fuel : ℕ) (s : Routing W) (r : Round W)
      → IsDistinct router.registry.tier_order
      → rounds_left router s < suc fuel
      → Takes router env io s r
      → ((next : Routing W)
          → rounds_left router next < fuel
          → attempt_loop router env io fuel next ≢ out_of_fuel)
      → after_round (attempt_loop router env io fuel) r ≢ out_of_fuel
  after_round-ends fuel s (again next) d h t ih =
      ih next (omega (arith, Continues-decreases s next d t))
  after_round-ends fuel s (leave end) d h t ih = λ k. cc
  after_round-ends fuel s faulted d h t ih = λ k. cc

  -- Where no tier is named twice, the loop ends within the rounds that its candidates and the
  -- tiers behind the current one allow, whatever the providers, the authorizer and the validator
  -- answer.
  pub attempt_loop-ends :
      (fuel : ℕ) (s : Routing W)
      → IsDistinct router.registry.tier_order
      → rounds_left router s < fuel
      → attempt_loop router env io fuel s ≢ out_of_fuel
  unfolding attempt_loop
  attempt_loop-ends zero s d h = elim h [ ]
  attempt_loop-ends (suc fuel) s d h = tested (ltb s.attempt_index router.policy.max_attempts) (
      after_round-ends fuel s (round router env io s) d h (round-Takes router env io s)
        (λ next. λ k. attempt_loop-ends fuel next d k))
    where
      tested :
          (b : Bool)
          → after_round (attempt_loop router env io fuel) (round router env io s) ≢ out_of_fuel
          → (if b
              then after_round (attempt_loop router env io fuel) (round router env io s)
              else left s)
            ≢ out_of_fuel
      tested true k = k
      tested false k = λ e. cc
