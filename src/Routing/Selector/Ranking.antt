-- ===== src/Routing/Selector/Ranking.antt =====
-- The order of the candidates is total and transitive, so the sort by it ranks them.
use open_aipoject.Prelude.{
  ℕ, Bool, true, false, List, [], ◌∷◌, length, All, ◌&&◌, ◌||◌, ◌≡◌, arith, refl, leb, ltb, All-map,
  if◌then◌else◌, ap, ◌∙◌, suc,
}
use open_aipoject.Routing.Models.{ModelCandidate, RoutingConstraints}
use open_aipoject.Routing.TierDecider.{PromptFeatures}
use open_aipoject.Routing.Selector.{
  sorted_by, insert_by, rank_leb, coding_preference_rank, tag_penalty, blended_cost,
  provider_penalty,
}

-- One place of the lexicographic order: a transitive rest makes it transitive, a total one total.
place_trans :
    (a b c : ℕ) (r s t : Bool)
    → (r ≡ true → s ≡ true → t ≡ true)
    → ltb a b || (leb a b && r) ≡ true
    → ltb b c || (leb b c && s) ≡ true
    → ltb a c || (leb a c && t) ≡ true
place_trans a b c true true t f h k = ground (arith, f refl refl)
place_trans a b c true false t f h k = ground arith
place_trans a b c false s t f h k = ground arith

place_total :
    (a b : ℕ) (r s : Bool)
    → (r ≡ false → s ≡ true)
    → ltb a b || (leb a b && r) ≡ false
    → ltb b a || (leb b a && s) ≡ true
place_total a b true s f h = ground arith
place_total a b false s f h = ground (arith, f refl)

module _ (f : PromptFeatures) (constraints : RoutingConstraints) where
  pub rank_leb_trans :
      (c d e : ModelCandidate)
      → rank_leb f constraints c d ≡ true
      → rank_leb f constraints d e ≡ true
      → rank_leb f constraints c e ≡ true
  rank_leb_trans c d e = place_trans 1 1 1 _ _ _ (
      place_trans (coding_preference_rank f c) (coding_preference_rank f d)
        (coding_preference_rank f e) _ _ _
        (place_trans (tag_penalty f c) (tag_penalty f d) (tag_penalty f e) _ _ _ (
          place_trans (blended_cost c) (blended_cost d) (blended_cost e) _ _ _ (
            place_trans (provider_penalty constraints.preferred_provider c)
              (provider_penalty constraints.preferred_provider d)
              (provider_penalty constraints.preferred_provider e) _ _ _
              (λ h k.
                place_trans e.context_limit d.context_limit c.context_limit true true true
                  (λ _ _. refl) k h)))))

  pub rank_leb_total :
      (c d : ModelCandidate)
      → rank_leb f constraints c d ≡ false
      → rank_leb f constraints d c ≡ true
  rank_leb_total c d = place_total 1 1 _ _ (
      place_total (coding_preference_rank f c) (coding_preference_rank f d) _ _ (
        place_total (tag_penalty f c) (tag_penalty f d) _ _ (
          place_total (blended_cost c) (blended_cost d) _ _ (
            place_total (provider_penalty constraints.preferred_provider c)
              (provider_penalty constraints.preferred_provider d) _ _
              (place_total d.context_limit c.context_limit true true (λ _. refl))))))

-- Each candidate comes at most as late as those behind it.
abbrev pub IsRanked : (ModelCandidate → ModelCandidate → Bool) → List ModelCandidate → Type 0
IsRanked le [] = Unit
IsRanked le (x ∷ xs) = All (λ y. le x y ≡ true) xs × IsRanked le xs

pub insert_by-All :
    (P : ModelCandidate → Type 0) (le : ModelCandidate → ModelCandidate → Bool) (x : ModelCandidate)
    (ys : List ModelCandidate)
    → P x
    → All P ys
    → All P (insert_by le x ys)
insert_by-All P le x [] p h = (p, tt)
insert_by-All P le x (y ∷ ys) p h =
    placed P (le x y) x y ys (insert_by le x ys) p h (insert_by-All P le x ys p h.1)
  where
    placed :
        (P : ModelCandidate → Type 0) (b : Bool) (x y : ModelCandidate)
        (ys rest : List ModelCandidate)
        → P x
        → All P (y ∷ ys)
        → All P rest
        → All P (if b then x ∷ y ∷ ys else y ∷ rest)
    placed P true x y ys rest p h k = (p, h)
    placed P false x y ys rest p h k = (h.0, k)

pub sorted_by-All :
    (P : ModelCandidate → Type 0) (le : ModelCandidate → ModelCandidate → Bool)
    (xs : List ModelCandidate)
    → All P xs
    → All P (sorted_by le xs)
sorted_by-All P le [] h = tt
sorted_by-All P le (x ∷ xs) h =
    insert_by-All P le x (sorted_by le xs) h.0 (sorted_by-All P le xs h.1)

pub insert_by-length :
    (le : ModelCandidate → ModelCandidate → Bool) (x : ModelCandidate) (ys : List ModelCandidate)
    → length (insert_by le x ys) ≡ suc (length ys)
insert_by-length le x [] = refl
insert_by-length le x (y ∷ ys) = ground (arith, insert_by-length le x ys)

pub sorted_by-length :
    (le : ModelCandidate → ModelCandidate → Bool) (xs : List ModelCandidate)
    → length (sorted_by le xs) ≡ length xs
sorted_by-length le [] = refl
sorted_by-length le (x ∷ xs) =
    insert_by-length le x (sorted_by le xs) ∙ ap suc (sorted_by-length le xs)

module _ (le : ModelCandidate → ModelCandidate → Bool)
    (trans : (c d e : ModelCandidate) → le c d ≡ true → le d e ≡ true → le c e ≡ true)
    (total : (c d : ModelCandidate) → le c d ≡ false → le d c ≡ true) where
  insert_by-IsRanked :
      (x : ModelCandidate) (ys : List ModelCandidate)
      → IsRanked le ys
      → IsRanked le (insert_by le x ys)
  insert_by-IsRanked x [] r = (tt, tt)
  insert_by-IsRanked x (y ∷ ys) r = placed (le x y) refl (insert_by-IsRanked x ys r.1)
    where
      placed :
          (b : Bool)
          → le x y ≡ b
          → IsRanked le (insert_by le x ys)
          → IsRanked le (if b then x ∷ y ∷ ys else y ∷ insert_by le x ys)
      placed true e k = (
        (e, All-map (λ z. le y z ≡ true) (λ z. le x z ≡ true) (λ z h. trans x y z e h) ys r.0),
        r,
      )
      placed false e k = (insert_by-All (λ z. le y z ≡ true) le x ys (total x y e) r.0, k)

  pub sorted_by-IsRanked : (xs : List ModelCandidate) → IsRanked le (sorted_by le xs)
  sorted_by-IsRanked [] = tt
  sorted_by-IsRanked (x ∷ xs) = insert_by-IsRanked x (sorted_by le xs) (sorted_by-IsRanked xs)
