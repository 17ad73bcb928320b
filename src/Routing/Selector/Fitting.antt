-- ===== src/Routing/Selector/Fitting.antt =====
-- When nothing can be selected, and that candidates with room for the prompt are preferred.
use open_aipoject.Prelude.{
  suc, ◌+◌, ◌≤◌, ◌≡◌, refl, sym, ◌↔◌, Bool, true, false, ◌&&◌, Option, some, List, ◌∷◌, arith, leb,
  leb→le, length, filter, All, All-map, filter_passes, [], none, ℕ, any,
}
use open_aipoject.Routing.TierDecider.{PromptFeatures}
use open_aipoject.Routing.Models.{ModelCandidate, RoutingConstraints, SelectionResult}
use open_aipoject.Routing.Selector.{
  estimated_request_cost, rank_leb, insert_by, sorted_by, unless_empty, fits, filtered, affordable,
  selection_of, select,
}
use open_aipoject.Routing.Selector.Selection.{selected, selection_of-eq-some, affordable-All}
use open_aipoject.Routing.Selector.Ranking.{sorted_by-All, insert_by-length}
use mathlib.Core.Path.{subst}

filter-none :
    (p : ModelCandidate → Bool) (xs : List ModelCandidate)
    → All (λ c. p c ≡ false) xs
    → filter p xs ≡ []
filter-none p [] h = refl
filter-none p (x ∷ xs) h = rw h.0 (filter-none p xs h.1)

none-filter :
    (p : ModelCandidate → Bool) (xs : List ModelCandidate)
    → filter p xs ≡ []
    → All (λ c. p c ≡ false) xs
none-filter p [] h = tt
none-filter p (x ∷ xs) h = (ground arith, none-filter p xs (ground arith))

unless_empty-none : (xs ys : List ModelCandidate) → unless_empty xs ys ≡ [] → ys ≡ []
unless_empty-none [] ys h = h
unless_empty-none (x ∷ xs) ys h = cc

affordable-none :
    (max_cost : Option ℕ) (f : PromptFeatures) (xs : List ModelCandidate)
    → affordable max_cost f xs ≡ []
    → xs ≡ []
affordable-none none f xs h = h
affordable-none (some n) f xs h =
    unless_empty-none (filter (λ c. leb (estimated_request_cost f c) n) xs) xs h

sorted_by-none :
    (le : ModelCandidate → ModelCandidate → Bool) (xs : List ModelCandidate)
    → selection_of (sorted_by le xs) ≡ none
    → xs ≡ []
sorted_by-none le [] h = refl
sorted_by-none le (x ∷ xs) h =
    absurd (longer (insert_by le x (sorted_by le xs)) (insert_by-length le x (sorted_by le xs)) h)
  where
    longer :
        (ys : List ModelCandidate)
        → length ys ≡ suc (length (sorted_by le xs))
        → selection_of ys ≡ none
        → ⊥
    longer [] e h = omega arith
    longer (y ∷ ys) e h = cc

and_disabled : (b c : Bool) → c ≡ false → b && c ≡ false
and_disabled b c h = ground arith

nothing_selected :
    (token_buffer : ℕ) (f : PromptFeatures) (candidates : List ModelCandidate)
    (constraints : RoutingConstraints)
    → All (λ c. c.enabled ≡ false) candidates
    → select token_buffer f candidates constraints ≡ none
unfolding select
nothing_selected token_buffer f candidates constraints h =
    rw
      (filter-none (λ c. fits token_buffer f c && c.enabled) candidates
        (All-map (λ c. c.enabled ≡ false) (λ c. fits token_buffer f c && c.enabled ≡ false)
          (λ c h. and_disabled (fits token_buffer f c) c.enabled h) candidates h))
      (rw (filter-none (λ c. c.enabled) candidates h) (of_limit constraints.max_cost_usd))
  where
    of_limit :
        (max_cost : Option ℕ)
        → selection_of (sorted_by (rank_leb f constraints) (affordable max_cost f [])) ≡ none
    of_limit none = refl
    of_limit (some n) = refl

-- The selector raises its error exactly when no candidate is enabled: neither a small context nor
-- a cost limit leaves a request without a model.
pub select-none_iff :
    (token_buffer : ℕ) (f : PromptFeatures) (candidates : List ModelCandidate)
    (constraints : RoutingConstraints)
    → (select token_buffer f candidates constraints ≡ none)
      ↔ All (λ c. c.enabled ≡ false) candidates
unfolding select
select-none_iff token_buffer f candidates constraints = (
  (λ h.
      none-filter (λ c. c.enabled) candidates
        (unless_empty-none (filter (λ c. fits token_buffer f c && c.enabled) candidates)
          (filter (λ c. c.enabled) candidates)
          (affordable-none constraints.max_cost_usd f (filtered token_buffer f candidates) (
            sorted_by-none (rank_leb f constraints)
              (affordable constraints.max_cost_usd f (filtered token_buffer f candidates)) h)))),
  nothing_selected token_buffer f candidates constraints,
)

any-filter :
    (p : ModelCandidate → Bool) (xs ys : List ModelCandidate)
    → any p xs ≡ true
    → unless_empty (filter p xs) ys ≡ filter p xs
any-filter p [] ys h = cc
any-filter p (x ∷ xs) ys h = ground (arith, any-filter p xs ys)

fits_of : (b c : Bool) → b && c ≡ true → b ≡ true
fits_of b c h = ground arith

-- If some enabled candidate has room for the prompt, its context and the buffer, then every
-- selected one has.
pub select-fits :
    (token_buffer : ℕ) (f : PromptFeatures) (candidates : List ModelCandidate)
    (constraints : RoutingConstraints) (s : SelectionResult)
    → select token_buffer f candidates constraints ≡ some s
    → any (λ c. fits token_buffer f c && c.enabled) candidates ≡ true
    → All
        (λ c. f.token_estimate + f.context_token_estimate + token_buffer ≤ c.context_limit)
        (selected s)
unfolding select
select-fits token_buffer f candidates constraints s e h =
    let Fit = λ (c : ModelCandidate).
      f.token_estimate + f.context_token_estimate + token_buffer ≤ c.context_limit in
    subst (All Fit) (sym (selection_of-eq-some _ s e)) (
      sorted_by-All Fit (rank_leb f constraints)
        (affordable constraints.max_cost_usd f (filtered token_buffer f candidates))
        (affordable-All Fit constraints.max_cost_usd f (filtered token_buffer f candidates) (
          subst (All Fit)
            (sym (
              any-filter (λ c. fits token_buffer f c && c.enabled) candidates
                (filter (λ c. c.enabled) candidates) h))
            (filter_passes Fit (λ c. fits token_buffer f c && c.enabled)
              (λ c k. leb→le _ _ (fits_of (fits token_buffer f c) c.enabled k)) candidates))))
