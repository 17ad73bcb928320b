-- ===== src/Routing/Selector.antt =====
-- orchestrator/model_selector.py: the candidates of a tier in the order in which they are tried.
-- Costs are compared in exact arithmetic, where the code adds floats.
pub mod Ranking
pub mod Selection
pub mod Fitting
pub mod Precedence
pub mod Preferences
use open_aipoject.Prelude.{
  ℕ, String, Bool, true, false, Option, none, some, List, [], ◌∷◌, map, any, filter, not, ◌&&◌,
  ◌||◌, ◌+◌, ◌*◌, ◌/◌, max, leb, ltb, str_eq, if◌then◌else◌,
}
use open_aipoject.Prelude.Text.{lower, is_empty}
use open_aipoject.Routing.Models.{ModelCandidate, RoutingConstraints, SelectionResult}
use open_aipoject.Routing.Registry.{contains}
use open_aipoject.Routing.TierDecider.{PromptFeatures}

-- `_is_coding_task`
abbrev pub is_coding_task : PromptFeatures → Bool
is_coding_task f = f.has_code || (f.has_logs_stacktrace || str_eq f.intent "code")

abbrev pub lower_tags : ModelCandidate → List String
lower_tags c = map lower c.tags

-- `{"coding", "reasoning"} & tags`
abbrev pub tagged_for_coding : ModelCandidate → Bool
tagged_for_coding c = contains "coding" (lower_tags c) || contains "reasoning" (lower_tags c)

-- `preferred_order` of `_coding_preference_rank`.
abbrev pub preferred_order : List (String × String × ℕ)
preferred_order =
    ("openai", "gpt-5.6-sol", 0)
    ∷ ("openai", "gpt-5.4", 1)
    ∷ ("claude", "claude-opus-5", 2)
    ∷ ("deepseek", "deepseek-v4-pro", 3)
    ∷ ("grok", "grok-4.5", 4)
    ∷ ("gemini", "gemini-3.1-pro-preview", 5)
    ∷ ("claude", "claude-fable-5", 6)
    ∷ []

-- `preferred_order[key]` if the key is there, and else `default`.
abbrev pub rank_in : String → String → ℕ → List (String × String × ℕ) → ℕ
rank_in provider model default [] = default
rank_in provider model default ((p, m, rank) ∷ order) =
    if str_eq p provider && str_eq m model then rank else rank_in provider model default order

-- `_coding_preference_rank`
abbrev pub coding_preference_rank : PromptFeatures → ModelCandidate → ℕ
coding_preference_rank f c =
    if is_coding_task f
    then rank_in (lower c.provider) c.model_name (if tagged_for_coding c then 50 else 100)
        preferred_order
    else 999

abbrev pub needs_reasoning : PromptFeatures → Bool
needs_reasoning f =
    f.has_math || (f.has_analysis || (f.needs_accuracy || str_eq f.intent "analysis"))

abbrev pub short_simple : PromptFeatures → Bool
short_simple f =
    contains f.intent ("rewrite" ∷ "summarize" ∷ "bullets" ∷ "brainstorm" ∷ [])
    && (ltb f.token_estimate 700 && (not (is_coding_task f) && not (needs_reasoning f)))

abbrev pub large_context : PromptFeatures → Bool
large_context f = leb 2200 (f.token_estimate + f.context_token_estimate)

-- `penalty += n` under a condition.
abbrev pub penalty_if : Bool → ℕ → ℕ
penalty_if b n = if b then n else 0

-- `_tag_penalty`
abbrev pub tag_penalty : PromptFeatures → ModelCandidate → ℕ
tag_penalty f c =
    let tags = lower_tags c in
    penalty_if (is_coding_task f && not (tagged_for_coding c)) 3
    + penalty_if (needs_reasoning f && not (contains "reasoning" tags)) 2
    + penalty_if
        (short_simple f && (not (contains "non_reasoning" tags) && not (contains "cheap" tags))) 1
    + penalty_if (large_context f && not (contains "long_context" tags)) 1

-- Ten times `0.6 * input + 0.4 * output`.
abbrev pub blended_cost : ModelCandidate → ℕ
blended_cost c = 6 * c.input_cost_per_1m + 4 * c.output_cost_per_1m

-- An absent preference and an empty one are the same.
abbrev pub provider_penalty : Option String → ModelCandidate → ℕ
provider_penalty none c = 1
provider_penalty (some preferred) c =
    if not (is_empty preferred) && str_eq (lower c.provider) (lower preferred) then 0 else 1

-- `_estimated_request_cost`: `int(n * 0.8)` and `int(n * 0.5)` drop the fraction.
abbrev pub completion_tokens : PromptFeatures → ℕ
completion_tokens f =
    if f.has_code || (f.has_analysis || f.has_math)
    then max (f.token_estimate * 4 / 5) 200
    else max (f.token_estimate / 2) 80

abbrev pub estimated_request_cost : PromptFeatures → ModelCandidate → ℕ
estimated_request_cost f c =
    (f.token_estimate + f.context_token_estimate) * c.input_cost_per_1m
    + completion_tokens f * c.output_cost_per_1m

-- `ReliabilityStore.get`
abbrev pub reliability : String → String → ℕ
reliability provider model = 1

-- Lexicographic order: each pair holds the two keys' values at one place.
abbrev pub lex_leb : List (ℕ × ℕ) → Bool
lex_leb [] = true
lex_leb ((a, b) ∷ rest) = let later = lex_leb rest in ltb a b || ((leb a b) && later)

-- Whether `_rank_key` of `c` is at most that of `d`; the negated places are compared the other way.
abbrev pub rank_leb : PromptFeatures → RoutingConstraints → ModelCandidate → ModelCandidate → Bool
rank_leb f constraints c d = lex_leb (
    (reliability d.provider d.model_name, reliability c.provider c.model_name)
    ∷ (coding_preference_rank f c, coding_preference_rank f d)
    ∷ (tag_penalty f c, tag_penalty f d)
    ∷ (blended_cost c, blended_cost d)
    ∷ (
      provider_penalty constraints.preferred_provider c,
      provider_penalty constraints.preferred_provider d,
    )
    ∷ (d.context_limit, c.context_limit)
    ∷ [])

-- The stable sort that `sorted` is, by the order `le` of the keys.
abbrev pub insert_by :
    (ModelCandidate → ModelCandidate → Bool)
    → ModelCandidate
    → List ModelCandidate
    → List ModelCandidate
insert_by le x [] = x ∷ []
insert_by le x (y ∷ ys) = let rest = insert_by le x ys in if le x y then x ∷ y ∷ ys else y ∷ rest

abbrev pub sorted_by :
    (ModelCandidate → ModelCandidate → Bool) → List ModelCandidate → List ModelCandidate
sorted_by le [] = []
sorted_by le (x ∷ xs) = insert_by le x (sorted_by le xs)

-- `filtered if filtered else otherwise`
abbrev pub unless_empty : List ModelCandidate → List ModelCandidate → List ModelCandidate
unless_empty [] otherwise = otherwise
unless_empty (c ∷ cs) otherwise = c ∷ cs

abbrev pub fits : ℕ → PromptFeatures → ModelCandidate → Bool
fits token_buffer f c =
    leb (f.token_estimate + f.context_token_estimate + token_buffer) c.context_limit

-- The candidates after the first two filters.
abbrev pub filtered : ℕ → PromptFeatures → List ModelCandidate → List ModelCandidate
filtered token_buffer f candidates =
    unless_empty (filter (λ c. fits token_buffer f c && c.enabled) candidates)
      (filter (λ c. c.enabled) candidates)

abbrev pub affordable : Option ℕ → PromptFeatures → List ModelCandidate → List ModelCandidate
affordable none f candidates = candidates
affordable (some max_cost) f candidates =
    unless_empty (filter (λ c. leb (estimated_request_cost f c) max_cost) candidates) candidates

-- `ranked[0]` and `ranked[1:]`; `none` is the ValueError that nothing can be selected.
abbrev pub selection_of : List ModelCandidate → Option SelectionResult
selection_of [] = none
selection_of (c ∷ cs) = some (record { primary_candidate = c; fallback_candidates = cs })

-- `ModelSelector.select`
unfoldable pub select :
    ℕ → PromptFeatures → List ModelCandidate → RoutingConstraints → Option SelectionResult
select token_buffer f candidates constraints = selection_of (
    sorted_by (rank_leb f constraints)
      (affordable constraints.max_cost_usd f (filtered token_buffer f candidates)))
