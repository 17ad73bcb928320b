-- ===== src/Routing/ModelTests.antt =====
-- The theorems on the selector and the validator at concrete candidates and answers.
use open_aipoject.Prelude.{◌+◌, ◌≤◌, ◌≡◌, refl, ◌↔◌, true, false, none, some, List, ◌∷◌, All, []}
use open_aipoject.Routing.Samples.{model, sample_constraints, sample_features, answer_of, long}
use open_aipoject.Routing.Models.{ModelCandidate, SelectionResult}
use open_aipoject.Routing.Selector.{select}
use open_aipoject.Routing.Validator.{validate}
use open_aipoject.Routing.Validator.Verdicts.{IsAcceptable, validate_iff}
use open_aipoject.Routing.Selector.Fitting.{select-none_iff, select-fits}
use open_aipoject.Routing.Selector.Selection.{selected}
use open_aipoject.Routing.Selector.Preferences.{select-MayPrecede}
use open_aipoject.Routing.Selector.Precedence.{MayPrecede, AllPairs}
use open_aipoject.Routing.Types.{t2, t1}
use open_aipoject.Prelude.Text.{lower}

abbrev offered : List ModelCandidate
offered = model "large" t2 900 ∷ model "mini" t1 100 ∷ []

abbrev chosen : SelectionResult
chosen = record {
  primary_candidate = model "mini" t1 100;
  fallback_candidates = model "large" t2 900 ∷ [];
}

mini_first : select 200 sample_features offered sample_constraints ≡ some chosen
unfolding select lower
mini_first = refl

select-MayPrecede_example :
    AllPairs (MayPrecede sample_features sample_constraints) (selected chosen)
    × All (λ c. c.enabled ≡ true) (selected chosen)
select-MayPrecede_example =
    select-MayPrecede sample_features sample_constraints 200 offered chosen mini_first

select-fits_example : All (λ c. 1200 + 0 + 200 ≤ c.context_limit) (selected chosen)
select-fits_example =
    select-fits 200 sample_features offered sample_constraints chosen mini_first refl

select-none_iff_example :
    (select 200 sample_features offered sample_constraints ≡ none)
    ↔ All (λ c. c.enabled ≡ false) offered
select-none_iff_example = select-none_iff 200 sample_features offered sample_constraints

validate_iff_example :
    ((validate
        (λ text. true)
        (λ text. false)
        (λ name. none)
        sample_features
        sample_constraints
        (answer_of "large" long)).valid
      ≡ true)
    ↔ IsAcceptable
        (λ text. true)
        (λ text. false)
        (λ name. none)
        sample_features
        sample_constraints
        (answer_of "large" long)
validate_iff_example =
    validate_iff (λ text. true) (λ text. false) (λ name. none) sample_features sample_constraints
      (answer_of "large" long)
