-- ===== src/Routing/Validator.antt =====
-- orchestrator/response_validator.py: whether an answer is good enough to be returned. What
-- `json.loads` accepts and what the regular expression for refusals finds are the parameters.
pub mod Verdicts
use open_aipoject.Prelude.{
  ℕ, String, Bool, true, false, Option, none, some, List, [], ◌∷◌, any, ◌&&◌, ◌||◌, not, ltb,
  str_eq, if◌then◌else◌,
}
use open_aipoject.Prelude.Text.{lower, text_length, has_infix}
use open_aipoject.Routing.Models.{RoutingConstraints, UnifiedResponse, ValidationResult}
use open_aipoject.Routing.TierDecider.{PromptFeatures, threshold_or}

abbrev pub verdict : Bool → String → String → ValidationResult
verdict valid reason severity = record { valid = valid; reason = reason; severity = severity }

abbrev pub refusal_phrases : List String
refusal_phrases =
    "i'm sorry, but i can't assist" ∷ "i am sorry, but i can't assist"
    ∷ "i'm sorry, but i cannot assist" ∷ "i am sorry, but i cannot assist" ∷ "i can't assist with"
    ∷ "i cannot assist with" ∷ "i can't help with" ∷ "i cannot help with"
    ∷ "i'm unable to help with" ∷ "i am unable to help with"
    ∷ "modify or override my system instructions" ∷ []

-- The reason of a failed call: its code if that is one of three.
abbrev pub error_reason : String → String
error_reason code =
    if str_eq code "timeout" || (str_eq code "rate_limit" || str_eq code "provider_error")
    then code
    else "provider_error"

abbrev pub is_length : Option String → Bool
is_length none = false
is_length (some finish_reason) = str_eq finish_reason "length"

-- `_looks_like_refusal`
abbrev pub looks_like_refusal : (String → Bool) → String → Bool
looks_like_refusal refusal_pattern text =
    let text_lower = lower text in
    any (λ phrase. has_infix phrase text_lower) refusal_phrases || refusal_pattern text_lower

abbrev pub effective_strict : PromptFeatures → RoutingConstraints → Bool
effective_strict features constraints =
    (constraints.must_be_strict || constraints.json_only)
    || (features.strict_format || features.has_strict_constraints)

abbrev pub is_complex : PromptFeatures → RoutingConstraints → Bool
is_complex features constraints =
    features.has_analysis || (features.has_code || effective_strict features constraints)

abbrev pub min_chars : (String → Option ℕ) → PromptFeatures → RoutingConstraints → ℕ
min_chars thresholds features constraints =
    if is_complex features constraints
    then threshold_or (thresholds "validator_short_complex_chars") 120
    else threshold_or (thresholds "validator_short_simple_chars") 40

module _ (json_loads refusal_pattern : String → Bool) (thresholds : String → Option ℕ) where
  -- The tests of an answer that is no error, in their order.
  abbrev pub validate_text :
      PromptFeatures → RoutingConstraints → UnifiedResponse → ValidationResult
  validate_text features constraints response =
      if looks_like_refusal refusal_pattern response.text
      then verdict false "refusal" "medium"
      else if constraints.json_only && not (json_loads response.text)
      then verdict false "format_violation" "high"
      else if is_length response.finish_reason && is_complex features constraints
      then verdict false "truncated" "medium"
      else if ltb (text_length response.text) (min_chars thresholds features constraints)
      then verdict false "too_short" "medium"
      else verdict true "ok" "none"

  abbrev pub validate_by_error :
      PromptFeatures → RoutingConstraints → UnifiedResponse → Option String → ValidationResult
  validate_by_error features constraints response none = validate_text features constraints response
  validate_by_error features constraints response (some code) =
      verdict false (error_reason code) "high"

  -- `ResponseValidator.validate`
  unfoldable pub validate : PromptFeatures → RoutingConstraints → UnifiedResponse → ValidationResult
  validate features constraints response =
      validate_by_error features constraints response response.error
