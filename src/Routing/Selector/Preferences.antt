-- ===== src/Routing/Selector/Preferences.antt =====
-- The order in which the selector ranks the candidates is the one that Precedence describes.
use open_aipoject.Prelude.{
  ℕ, String, Bool, ◌+◌, ◌*◌, ◌≤◌, ◌<◌, ◌≡◌, refl, ap, ◌⊎◌, true, false, ◌&&◌, ◌||◌, Option, none,
  some, List, [], ◌∷◌, map, str_eq, ltb, leb, if◌then◌else◌, arith, eq_iff, not, any, All, All-map,
}
use open_aipoject.Routing.TierDecider.{PromptFeatures}
use open_aipoject.Routing.Models.{ModelCandidate, RoutingConstraints, SelectionResult}
use open_aipoject.Routing.Selector.{
  lower_tags, coding_preference_rank, tag_penalty, provider_penalty, rank_leb, select,
}
use open_aipoject.Routing.Registry.{contains}
use open_aipoject.Prelude.Text.{lower}
use open_aipoject.Routing.Selector.Selection.{selected, select-IsRanked}
use open_aipoject.Routing.Selector.Ranking.{IsRanked}
use open_aipoject.Routing.Selector.Precedence.{
  coding_models, place_in, about_code, about_reasons, has_tag, mismatch, is_preferred, MayPrecede,
  AllPairs,
}

contains-has_tag : (tag : String) (c : ModelCandidate) → contains tag (lower_tags c) ≡ has_tag tag c
contains-has_tag tag c = of_tags c.tags
  where
    of_tags :
        (tags : List String) → contains tag (map lower tags) ≡ any (λ t. str_eq (lower t) tag) tags
    of_tags [] = refl
    of_tags (t ∷ ts) = ap (λ b. str_eq (lower t) tag || b) (of_tags ts)

one_of_two :
    (b x y : Bool) (n : ℕ)
    → (if b && not (x || y) then n else 0) ≡ (if b && not (x || (y || false)) then n else 0)
one_of_two b x y n = ground arith

one_of_one :
    (b x : Bool) (n : ℕ) → (if b && not x then n else 0) ≡ (if b && not (x || false) then n else 0)
one_of_one b x n = ground arith

light :
    (i t c r x y : Bool) (n : ℕ)
    → (if (i && (t && (not c && not r))) && (not x && not y) then n else 0)
      ≡ (if (i && (t && not (c || r))) && not (x || (y || false)) then n else 0)
light i t c r x y n = ground arith

tag_penalty-mismatch : (f : PromptFeatures) (c : ModelCandidate) → tag_penalty f c ≡ mismatch f c
tag_penalty-mismatch f c = rw (contains-has_tag "coding" c) (
    rw (contains-has_tag "reasoning" c) (
      rw (contains-has_tag "non_reasoning" c) (
        rw (contains-has_tag "cheap" c) (
          rw (contains-has_tag "long_context" c) (
            omega (
              arith,
              one_of_two (about_code f) (has_tag "coding" c) (has_tag "reasoning" c) 3,
              one_of_one (about_reasons f) (has_tag "reasoning" c) 2,
              light
                  (any (λ i. str_eq i f.intent)
                    ("rewrite" ∷ "summarize" ∷ "bullets" ∷ "brainstorm" ∷ []))
                  (ltb f.token_estimate 700) (about_code f) (about_reasons f)
                  (has_tag "non_reasoning" c) (has_tag "cheap" c) 1,
              one_of_one (leb 2200 (f.token_estimate + f.context_token_estimate))
                  (has_tag "long_context" c) 1,
            ))))))

provider_penalty-is_preferred :
    (o : Option String) (c : ModelCandidate)
    → provider_penalty o c ≡ (if is_preferred o c then 0 else 1)
provider_penalty-is_preferred none c = refl
provider_penalty-is_preferred (some provider) c =
    ground (
      arith,
      eq_iff (lower provider) (lower c.provider),
      eq_iff (lower c.provider) (lower provider),
    )

-- One place of the lexicographic order.
place :
    (a b : ℕ) (r : Bool) {R : Type 0}
    → (r ≡ true → R)
    → ltb a b || (leb a b && r) ≡ true
    → (a < b) ⊎ ((a ≡ b) × R)
place a b true h e = ground (arith, h refl)
place a b false h e = ground arith

-- The place for code, which does not count where the prompt is not about code.
code_place :
    (code : Bool) (a b : ℕ) (r : Bool) {R : Type 0}
    → (r ≡ true → R)
    → ltb (if code then a else 999) (if code then b else 999)
        || (leb (if code then a else 999) (if code then b else 999) && r)
      ≡ true
    → ((if code then a else 0) < (if code then b else 0))
      ⊎ (((if code then a else 0) ≡ (if code then b else 0)) × R)
code_place true a b r h e = place a b r h e
code_place false a b r h e = ground (arith, h)

last_places :
    (p q : Bool) (m n : ℕ)
    → let a : ℕ = if p then 0 else 1 in
      let b : ℕ = if q then 0 else 1 in
      ltb a b || (leb a b && (ltb n m || (leb n m && true))) ≡ true
      → ((p ≡ true) × (q ≡ false)) ⊎ ((p ≡ q) × (n ≤ m))
last_places p q m n e = ground arith

module _ (f : PromptFeatures) (constraints : RoutingConstraints) where
  coding_preference_rank-coding_place :
      (c : ModelCandidate)
      → coding_preference_rank f c ≡ (
          if about_code f
          then place_in
              (lower c.provider)
              c.model_name
              (if has_tag "coding" c || has_tag "reasoning" c then 50 else 100)
              0
              coding_models
          else 999)
  coding_preference_rank-coding_place c =
      rw (contains-has_tag "coding" c) (rw (contains-has_tag "reasoning" c) refl)

  -- The order of the key is the order that is described.
  rank_leb-MayPrecede :
      (c d : ModelCandidate) → rank_leb f constraints c d ≡ true → MayPrecede f constraints c d
  rank_leb-MayPrecede c d = rw (coding_preference_rank-coding_place c) (
      rw (coding_preference_rank-coding_place d) (
        rw (tag_penalty-mismatch f c) (
          rw (tag_penalty-mismatch f d) (
            rw (provider_penalty-is_preferred constraints.preferred_provider c) (
              rw (provider_penalty-is_preferred constraints.preferred_provider d) (λ e.
                code_place (about_code f) (place_of c) (place_of d) _
                  (λ e1.
                    place (mismatch f c) (mismatch f d) _
                      (λ e2.
                        place (6 * c.input_cost_per_1m + 4 * c.output_cost_per_1m)
                          (6 * d.input_cost_per_1m + 4 * d.output_cost_per_1m) _
                          (λ e3.
                            last_places (is_preferred constraints.preferred_provider c)
                              (is_preferred constraints.preferred_provider d) c.context_limit
                              d.context_limit e3)
                          e2)
                      e1)
                  e))))))
    where
      place_of : ModelCandidate → ℕ
      place_of x =
          place_in (lower x.provider) x.model_name
            (if has_tag "coding" x || has_tag "reasoning" x then 50 else 100) 0 coding_models

  -- The selected candidates are enabled, and each of them may precede all that stand behind it: the
  -- order is by the place among the models preferred for code, if the prompt is about code, then by
  -- the needs of the prompt that no tag answers, then by 0.6 of the price of input and 0.4 of the
  -- price of output, then models of the preferred provider first, then by the larger context.
  pub select-MayPrecede :
      (token_buffer : ℕ) (candidates : List ModelCandidate) (s : SelectionResult)
      → select token_buffer f candidates constraints ≡ some s
      → AllPairs (MayPrecede f constraints) (selected s) × All (λ c. c.enabled ≡ true) (selected s)
  select-MayPrecede token_buffer candidates s e =
      let ranked = select-IsRanked token_buffer f candidates constraints s e in
      (pairs (selected s) ranked.0, ranked.1)
    where
      pairs :
          (xs : List ModelCandidate)
          → IsRanked (rank_leb f constraints) xs
          → AllPairs (MayPrecede f constraints) xs
      pairs [] r = tt
      pairs (x ∷ xs) r = (
        All-map (λ y. rank_leb f constraints x y ≡ true) (MayPrecede f constraints x)
            (λ y h. rank_leb-MayPrecede x y h) xs r.0,
        pairs xs r.1,
      )
