-- ===== src/Routing/Validator/Verdicts.antt =====
-- Exactly which answers pass, and which failures the fallback manager can be told of.
use open_aipoject.Prelude.{
  inl, inr, All, [], ◌∷◌, ◌≢◌, ap, eq_iff, ◌≤◌, String, ◌≡◌, refl, ◌↔◌, ◌⊎◌, Bool, true, false,
  ◌&&◌, Option, none, arith, if◌then◌else◌, ℕ, not, some, ltb,
}
use open_aipoject.Routing.TierDecider.{PromptFeatures}
use open_aipoject.Routing.Models.{RoutingConstraints, UnifiedResponse, ValidationResult}
use open_aipoject.Routing.Validator.{
  verdict, is_length, looks_like_refusal, is_complex, min_chars, validate, validate_by_error,
}
use open_aipoject.Prelude.Text.{text_length, has_infix, lower}
use open_aipoject.Routing.TierDecider.Thresholds.{configured, configured-threshold_or}

not_true : (b : Bool) → (b ≡ true → ⊥) → b ≡ false
not_true true h = absurd (h refl)
not_true false h = refl

clash : {b : Bool} → b ≡ true → b ≡ false → ⊥
clash h k = cc

or_to : (a b : Bool) → (a ≡ false) ⊎ (b ≡ true) → a ≡ true → b ≡ true
or_to a b h e = ground arith

to_or : (a b : Bool) → (a ≡ true → b ≡ true) → (a ≡ false) ⊎ (b ≡ true)
to_or true b h = inr (h refl)
to_or false b h = inl refl

never_both : (a b : Bool) → (a ≡ false) ⊎ (b ≡ false) → a ≡ true → b ≡ true → ⊥
never_both a b h e f = ground arith

not_both : (a b : Bool) → (a ≡ true → b ≡ true → ⊥) → (a ≡ false) ⊎ (b ≡ false)
not_both true true h = absurd (h refl refl)
not_both true false h = inr refl
not_both false b h = inl refl

module _ (json_loads refusal_pattern : String → Bool) (thresholds : String → Option ℕ) where
  -- A request whose answer has to be complete: it is for an analysis, for code, or for a strict
  -- format.
  abbrev pub IsDemanding : PromptFeatures → RoutingConstraints → Type 0
  IsDemanding features constraints =
      (features.has_analysis ≡ true)
      ⊎ (features.has_code ≡ true)
      ⊎ (constraints.must_be_strict ≡ true)
      ⊎ (constraints.json_only ≡ true)
      ⊎ (features.strict_format ≡ true)
      ⊎ (features.has_strict_constraints ≡ true)

  -- The words of a refusal, in small letters.
  abbrev pub IsRefusalFree : String → Type 0
  IsRefusalFree text =
      All (λ phrase. has_infix phrase text ≡ false)
        ("i'm sorry, but i can't assist" ∷ "i am sorry, but i can't assist"
          ∷ "i'm sorry, but i cannot assist" ∷ "i am sorry, but i cannot assist"
          ∷ "i can't assist with" ∷ "i cannot assist with" ∷ "i can't help with"
          ∷ "i cannot help with" ∷ "i'm unable to help with" ∷ "i am unable to help with"
          ∷ "modify or override my system instructions" ∷ [])
      × (refusal_pattern text ≡ false)

  -- An answer that may be returned: no error and no refusal, JSON where that is asked for, not cut
  -- off by the limit on its length where it has to be complete, and long enough: 120 characters
  -- where it has to be complete and else 40, if nothing else is configured.
  pub record IsAcceptable (features : PromptFeatures) (constraints : RoutingConstraints)
      (response : UnifiedResponse) : Type 0 where
    pub no_error : response.error ≡ none
    pub no_refusal : IsRefusalFree (lower response.text)
    pub right_format : constraints.json_only ≡ true → json_loads response.text ≡ true
    pub not_cut : IsDemanding features constraints → response.finish_reason ≢ some "length"
    pub long_if_demanding :
        IsDemanding features constraints
        → configured (thresholds "validator_short_complex_chars") 120 ≤ text_length response.text
    pub long_else :
        ¬ IsDemanding features constraints
        → configured (thresholds "validator_short_simple_chars") 40 ≤ text_length response.text

  -- The chain of tests, on the tests' results.
  abbrev chain : (refusal json_only json cut complex short : Bool) → ValidationResult
  chain refusal json_only json cut complex short =
      if refusal
      then verdict false "refusal" "medium"
      else if json_only && not json
      then verdict false "format_violation" "high"
      else if cut && complex
      then verdict false "truncated" "medium"
      else if short
      then verdict false "too_short" "medium"
      else verdict true "ok" "none"

  chain_iff :
      (refusal json_only json cut complex short : Bool)
      → ((chain refusal json_only json cut complex short).valid ≡ true) ↔ (
          (refusal ≡ false)
          × ((json_only ≡ false) ⊎ (json ≡ true))
          × ((cut ≡ false) ⊎ (complex ≡ false))
          × (short ≡ false))
  chain_iff refusal json_only json cut complex short = (λ h. ground arith, λ h. ground arith)

  is_complex-IsDemanding :
      (features : PromptFeatures) (constraints : RoutingConstraints)
      → (is_complex features constraints ≡ true) ↔ IsDemanding features constraints
  is_complex-IsDemanding features constraints = (λ h. ground arith, λ h. ground arith)

  looks_like_refusal-IsRefusalFree :
      (text : String)
      → (looks_like_refusal refusal_pattern text ≡ false) ↔ IsRefusalFree (lower text)
  looks_like_refusal-IsRefusalFree text = (λ h. ground arith, λ h. ground arith)

  is_length_iff : (o : Option String) → (is_length o ≡ true) ↔ (o ≡ some "length")
  is_length_iff none = (λ h. cc, λ h. cc)
  is_length_iff (some reason) =
      (λ h. ap some ((eq_iff reason "length").0 h), λ h. ground (arith, eq_iff reason "length"))

  min_chars_iff :
      (features : PromptFeatures) (constraints : RoutingConstraints) (n : ℕ)
      → (ltb n (min_chars thresholds features constraints) ≡ false) ↔ (
          (is_complex features constraints ≡ true
            → configured (thresholds "validator_short_complex_chars") 120 ≤ n)
          × (is_complex features constraints ≡ false
              → configured (thresholds "validator_short_simple_chars") 40 ≤ n))
  min_chars_iff features constraints n =
      rw (configured-threshold_or (thresholds "validator_short_complex_chars") 120) (
        rw (configured-threshold_or (thresholds "validator_short_simple_chars") 40)
          (of_test (is_complex features constraints)))
    where
      of_test :
          (b : Bool) {x y : ℕ}
          → (ltb n (if b then x else y) ≡ false) ↔ ((b ≡ true → x ≤ n) × (b ≡ false → y ≤ n))
      of_test true = (λ h. (λ _. ground arith, λ e. cc), λ h. ground (arith, h.0 refl))
      of_test false = (λ h. (λ e. cc, λ _. ground arith), λ h. ground (arith, h.1 refl))

  -- What the tests of an answer without an error find, where it passes.
  abbrev Passes : PromptFeatures → RoutingConstraints → UnifiedResponse → Type 0
  Passes features constraints response =
      (looks_like_refusal refusal_pattern response.text ≡ false)
      × ((constraints.json_only ≡ false) ⊎ (json_loads response.text ≡ true))
      × ((is_length response.finish_reason ≡ false) ⊎ (is_complex features constraints ≡ false))
      × (ltb (text_length response.text) (min_chars thresholds features constraints) ≡ false)

  module _ (features : PromptFeatures) (constraints : RoutingConstraints)
      (response : UnifiedResponse) where
    Passes-IsAcceptable :
        response.error ≡ none
        → Passes features constraints response
        → IsAcceptable features constraints response
    Passes-IsAcceptable e p =
        let demanding = is_complex-IsDemanding features constraints in
        let long = (min_chars_iff features constraints (text_length response.text)).0 p.3 in
        record {
          no_error = e;
          no_refusal = (looks_like_refusal-IsRefusalFree response.text).0 p.0;
          right_format = or_to constraints.json_only (json_loads response.text) p.1;
          not_cut = λ d r.
              never_both (is_length response.finish_reason) (is_complex features constraints) p.2
                ((is_length_iff response.finish_reason).1 r) (demanding.1 d);
          long_if_demanding = λ d. long.0 (demanding.1 d);
          long_else =
              λ n. long.1 (not_true (is_complex features constraints) (λ c. n (demanding.0 c)));
        }

    IsAcceptable-Passes :
        IsAcceptable features constraints response → Passes features constraints response
    IsAcceptable-Passes h =
        let demanding = is_complex-IsDemanding features constraints in
        (
          (looks_like_refusal-IsRefusalFree response.text).1 h.no_refusal,
          to_or constraints.json_only (json_loads response.text) h.right_format,
          not_both (is_length response.finish_reason) (is_complex features constraints)
              (λ l c. h.not_cut (demanding.0 c) ((is_length_iff response.finish_reason).0 l)),
          (min_chars_iff features constraints (text_length response.text)).1 (
            λ c. h.long_if_demanding (demanding.0 c),
            λ c. h.long_else (λ d. clash (demanding.1 d) c),
          ),
        )

  -- The validator lets an answer pass exactly if it has no error and, in small letters, no phrase
  -- and no pattern of a refusal, is JSON where that is asked for, is not cut off by the limit on
  -- its length where it has to be complete, and is as long as the configured number of characters,
  -- 120 where it has to be complete and else 40 if nothing is configured.
  pub validate_iff :
      (features : PromptFeatures) (constraints : RoutingConstraints) (response : UnifiedResponse)
      → ((validate json_loads refusal_pattern thresholds features constraints response).valid
          ≡ true)
        ↔ IsAcceptable features constraints response
  unfolding validate
  validate_iff features constraints response = by_error response.error refl
    where
      by_error :
          (error : Option String)
          → response.error ≡ error
          → ((validate_by_error json_loads refusal_pattern thresholds features constraints response
                error).valid
              ≡ true)
            ↔ IsAcceptable features constraints response
      by_error (some code) e = (λ h. cc, λ h. cc (h.no_error))
      by_error none e =
          let both =
            chain_iff (looks_like_refusal refusal_pattern response.text) constraints.json_only
              (json_loads response.text) (is_length response.finish_reason)
              (is_complex features constraints)
              (ltb (text_length response.text) (min_chars thresholds features constraints)) in
          (
            λ h. Passes-IsAcceptable features constraints response e (both.0 h),
            λ h. both.1 (IsAcceptable-Passes features constraints response h),
          )
