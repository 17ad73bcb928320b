-- ===== src/Routing/Selector/Selection.antt =====
-- What the selector returns: some of the candidates, the enabled ones, in the order of its key.
use open_aipoject.Prelude.{
  ◌≤◌, ◌≡◌, sym, Bool, true, ◌&&◌, Option, none, some, List, ◌∷◌, arith, leb, length, filter,
  length-filter, All, filter-All, filter_passes, [], ℕ,
}
use open_aipoject.Routing.TierDecider.{PromptFeatures}
use open_aipoject.Routing.Models.{ModelCandidate, RoutingConstraints, SelectionResult}
use open_aipoject.Routing.Selector.{
  estimated_request_cost, rank_leb, unless_empty, fits, filtered, affordable, selection_of, select,
}
use open_aipoject.Routing.Selector.Ranking.{
  rank_leb_trans, rank_leb_total, IsRanked, sorted_by-All, sorted_by-length, sorted_by-IsRanked,
}
use mathlib.Core.Path.{subst, ap}

abbrev pub selected : SelectionResult → List ModelCandidate
selected s = s.primary_candidate ∷ s.fallback_candidates

pub selection_of-eq-some :
    (xs : List ModelCandidate) (s : SelectionResult) → selection_of xs ≡ some s → selected s ≡ xs
selection_of-eq-some [] s h = cc
selection_of-eq-some (x ∷ xs) s h = ground arith

unless_empty-All :
    (P : ModelCandidate → Type 0) (xs ys : List ModelCandidate)
    → All P xs
    → All P ys
    → All P (unless_empty xs ys)
unless_empty-All P [] ys h k = k
unless_empty-All P (x ∷ xs) ys h k = h

filtered-All :
    (P : ModelCandidate → Type 0) (token_buffer : ℕ) (f : PromptFeatures)
    (candidates : List ModelCandidate)
    → All P candidates
    → All P (filtered token_buffer f candidates)
filtered-All P token_buffer f candidates h =
    unless_empty-All P (filter (λ c. fits token_buffer f c && c.enabled) candidates)
      (filter (λ c. c.enabled) candidates)
      (filter-All P (λ c. fits token_buffer f c && c.enabled) candidates h)
      (filter-All P (λ c. c.enabled) candidates h)

pub affordable-All :
    (P : ModelCandidate → Type 0) (max_cost : Option ℕ) (f : PromptFeatures)
    (candidates : List ModelCandidate)
    → All P candidates
    → All P (affordable max_cost f candidates)
affordable-All P none f candidates h = h
affordable-All P (some n) f candidates h =
    unless_empty-All P (filter (λ c. leb (estimated_request_cost f c) n) candidates) candidates
      (filter-All P (λ c. leb (estimated_request_cost f c) n) candidates h) h

-- What holds of every candidate holds of the selected ones.
pub select-All :
    (P : ModelCandidate → Type 0) (token_buffer : ℕ) (f : PromptFeatures)
    (candidates : List ModelCandidate) (constraints : RoutingConstraints) (s : SelectionResult)
    → select token_buffer f candidates constraints ≡ some s
    → All P candidates
    → All P (selected s)
unfolding select
select-All P token_buffer f candidates constraints s e h =
    subst (All P) (sym (selection_of-eq-some _ s e)) (
      sorted_by-All P (rank_leb f constraints)
        (affordable constraints.max_cost_usd f (filtered token_buffer f candidates))
        (affordable-All P constraints.max_cost_usd f (filtered token_buffer f candidates)
          (filtered-All P token_buffer f candidates h)))

unless_empty-length :
    (n : ℕ) (xs ys : List ModelCandidate)
    → length xs ≤ n
    → length ys ≤ n
    → length (unless_empty xs ys) ≤ n
unless_empty-length n [] ys h k = k
unless_empty-length n (x ∷ xs) ys h k = h

affordable-length :
    (max_cost : Option ℕ) (f : PromptFeatures) (candidates : List ModelCandidate)
    → length (affordable max_cost f candidates) ≤ length candidates
affordable-length none f candidates = omega arith
affordable-length (some n) f candidates =
    unless_empty-length (length candidates)
      (filter (λ c. leb (estimated_request_cost f c) n) candidates) candidates
      (length-filter (λ c. leb (estimated_request_cost f c) n) candidates) (omega arith)

pub select-length :
    (token_buffer : ℕ) (f : PromptFeatures) (candidates : List ModelCandidate)
    (constraints : RoutingConstraints) (s : SelectionResult)
    → select token_buffer f candidates constraints ≡ some s
    → length (selected s) ≤ length candidates
unfolding select
select-length token_buffer f candidates constraints s e = omega (
  arith,
  ap length (selection_of-eq-some _ s e),
  sorted_by-length (rank_leb f constraints)
      (affordable constraints.max_cost_usd f (filtered token_buffer f candidates)),
  affordable-length constraints.max_cost_usd f (filtered token_buffer f candidates),
  unless_empty-length (length candidates)
      (filter (λ c. fits token_buffer f c && c.enabled) candidates)
      (filter (λ c. c.enabled) candidates)
      (length-filter (λ c. fits token_buffer f c && c.enabled) candidates)
      (length-filter (λ c. c.enabled) candidates),
)

enabled_of : (b c : Bool) → b && c ≡ true → c ≡ true
enabled_of b c h = ground arith

-- By the selector's own key, and enabled.
pub select-IsRanked :
    (token_buffer : ℕ) (f : PromptFeatures) (candidates : List ModelCandidate)
    (constraints : RoutingConstraints) (s : SelectionResult)
    → select token_buffer f candidates constraints ≡ some s
    → IsRanked (rank_leb f constraints) (selected s) × All (λ c. c.enabled ≡ true) (selected s)
unfolding select
select-IsRanked token_buffer f candidates constraints s e =
    subst (λ xs. IsRanked (rank_leb f constraints) xs × All (λ c. c.enabled ≡ true) xs)
      (sym (selection_of-eq-some _ s e))
      (
        sorted_by-IsRanked (rank_leb f constraints) (rank_leb_trans f constraints)
            (rank_leb_total f constraints)
            (affordable constraints.max_cost_usd f (filtered token_buffer f candidates)),
        sorted_by-All (λ c. c.enabled ≡ true) (rank_leb f constraints)
            (affordable constraints.max_cost_usd f (filtered token_buffer f candidates))
            (affordable-All (λ c. c.enabled ≡ true) constraints.max_cost_usd f
              (filtered token_buffer f candidates)
              (unless_empty-All (λ c. c.enabled ≡ true)
                (filter (λ c. fits token_buffer f c && c.enabled) candidates)
                (filter (λ c. c.enabled) candidates)
                (filter_passes (λ c. c.enabled ≡ true) (λ c. fits token_buffer f c && c.enabled)
                  (λ c h. enabled_of (fits token_buffer f c) c.enabled h) candidates)
                (filter_passes (λ c. c.enabled ≡ true) (λ c. c.enabled) (λ c h. h) candidates))),
      )
