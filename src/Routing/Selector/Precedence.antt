-- ===== src/Routing/Selector/Precedence.antt =====
-- The order of the candidates, described without the selector's key.
use open_aipoject.Prelude.{
  ℕ, String, Bool, any, ◌+◌, ◌*◌, ◌<◌, ◌≤◌, ◌≡◌, ◌⊎◌, true, false, ◌&&◌, ◌||◌, Option, none, some,
  List, [], ◌∷◌, str_eq, ltb, leb, if◌then◌else◌, All, not,
}
use open_aipoject.Routing.Models.{ModelCandidate, RoutingConstraints}
use open_aipoject.Routing.TierDecider.{PromptFeatures}
use open_aipoject.Prelude.Text.{is_empty, lower}

-- The models that coding prompts prefer, the best first.
abbrev pub coding_models : List (String × String)
coding_models =
    ("openai", "gpt-5.6-sol")
    ∷ ("openai", "gpt-5.4")
    ∷ ("claude", "claude-opus-5")
    ∷ ("deepseek", "deepseek-v4-pro")
    ∷ ("grok", "grok-4.5")
    ∷ ("gemini", "gemini-3.1-pro-preview")
    ∷ ("claude", "claude-fable-5")
    ∷ []

-- How many models of the list stand before the one that is named, and `otherwise` if none is it.
abbrev pub place_in : String → String → (otherwise : ℕ) → (before : ℕ) → List (String × String) → ℕ
place_in provider name otherwise before [] = otherwise
place_in provider name otherwise before ((p, m) ∷ ms) =
    let rest = place_in provider name otherwise (before + 1) ms in
    if str_eq p provider && str_eq m name then before else rest

-- Whether the prompt is about code, and whether it needs reasoning.
abbrev pub about_code : PromptFeatures → Bool
about_code f = f.has_code || (f.has_logs_stacktrace || str_eq f.intent "code")

abbrev pub about_reasons : PromptFeatures → Bool
about_reasons f = f.has_math || (f.has_analysis || (f.needs_accuracy || str_eq f.intent "analysis"))

abbrev pub is_light : PromptFeatures → Bool
is_light f =
    any (λ i. str_eq i f.intent) ("rewrite" ∷ "summarize" ∷ "bullets" ∷ "brainstorm" ∷ [])
    && (ltb f.token_estimate 700 && not (about_code f || about_reasons f))

-- A tag of the model, in whatever letters.
abbrev pub has_tag : String → ModelCandidate → Bool
has_tag tag c = any (λ t. str_eq (lower t) tag) c.tags

-- What a model lacks: a need of the prompt that none of the tags answers, with its weight.
abbrev pub lacks : (needed : Bool) → (tags : List String) → ModelCandidate → (weight : ℕ) → ℕ
lacks needed tags c weight = if needed && not (any (λ t. has_tag t c) tags) then weight else 0

abbrev pub coding_place : PromptFeatures → ModelCandidate → ℕ
coding_place f c =
    if about_code f
    then place_in (lower c.provider) c.model_name
        (if has_tag "coding" c || has_tag "reasoning" c then 50 else 100) 0 coding_models
    else 0

abbrev pub mismatch : PromptFeatures → ModelCandidate → ℕ
mismatch f c =
    lacks (about_code f) ("coding" ∷ "reasoning" ∷ []) c 3
    + lacks (about_reasons f) ("reasoning" ∷ []) c 2
    + lacks (is_light f) ("non_reasoning" ∷ "cheap" ∷ []) c 1
    + lacks (leb 2200 (f.token_estimate + f.context_token_estimate)) ("long_context" ∷ []) c 1

-- A model of the provider that is preferred, if one is.
abbrev pub is_preferred : Option String → ModelCandidate → Bool
is_preferred none c = false
is_preferred (some provider) c =
    not (is_empty provider) && str_eq (lower provider) (lower c.provider)

-- `c` may stand before `d`: it has the better place among the models for code, or the same and
-- answers the prompt's needs better, or as well and costs less, or as much and is preferred where
-- `d` is not, or is so too and has room for as much context.
abbrev pub MayPrecede :
    PromptFeatures → RoutingConstraints → ModelCandidate → ModelCandidate → Type 0
MayPrecede f constraints c d =
    (coding_place f c < coding_place f d)
    ⊎ ((coding_place f c ≡ coding_place f d)
        × ((mismatch f c < mismatch f d)
            ⊎ ((mismatch f c ≡ mismatch f d)
                × ((6 * c.input_cost_per_1m + 4 * c.output_cost_per_1m
                      < 6 * d.input_cost_per_1m + 4 * d.output_cost_per_1m)
                    ⊎ ((6 * c.input_cost_per_1m + 4 * c.output_cost_per_1m
                          ≡ 6 * d.input_cost_per_1m + 4 * d.output_cost_per_1m)
                        × (((is_preferred constraints.preferred_provider c ≡ true)
                              × (is_preferred constraints.preferred_provider d ≡ false))
                            ⊎ ((is_preferred constraints.preferred_provider c
                                  ≡ is_preferred constraints.preferred_provider d)
                                × (d.context_limit ≤ c.context_limit))))))))

-- The relation holds between each candidate and all those behind it.
abbrev pub AllPairs : (ModelCandidate → ModelCandidate → Type 0) → List ModelCandidate → Type 0
AllPairs R [] = Unit
AllPairs R (x ∷ xs) = All (R x) xs × AllPairs R xs
