-- ===== src/Billing/Metering/Invariant/Singles.antt =====
-- With one meter, a normalized mapping has at most one entry.
use open_aipoject.Prelude.{ℕ, ◌≤◌, ◌≡◌, refl, Bool, true, false, [], ◌∷◌, arith, ltb, if◌then◌else◌}
use open_aipoject.Billing.Quantities.{
  Meter, ai_credits, Quantities, insert, get_or_zero, sum_values,
}
use open_aipoject.Billing.Repository.Counters.{nonzero_entries, exceeds}

abbrev pub IsSingle : Quantities → Type 0
IsSingle [] = Unit
IsSingle (e ∷ []) = Unit
IsSingle (e ∷ f ∷ q) = ⊥

insert-IsSingle : (m : Meter) (n : ℕ) (q : Quantities) → IsSingle q → IsSingle (insert m n q)
insert-IsSingle m n [] h = tt
insert-IsSingle ai_credits n ((ai_credits, v) ∷ []) h = tt
insert-IsSingle m n (e ∷ f ∷ q) h = absurd h

pub nonzero_entries-IsSingle :
    (q acc : Quantities) → IsSingle acc → IsSingle (nonzero_entries q acc)
unfolding nonzero_entries
nonzero_entries-IsSingle [] acc h = h
nonzero_entries-IsSingle ((m, n) ∷ q) acc h =
    nonzero_entries-IsSingle q (if ltb 0 n then insert m n acc else acc)
      (choice (ltb 0 n) (insert m n acc) acc (insert-IsSingle m n acc h) h)
  where
    choice : (b : Bool) (x y : Quantities) → IsSingle x → IsSingle y → IsSingle (if b then x else y)
    choice true x y hx hy = hx
    choice false x y hx hy = hy

-- What a settlement charges: the quantity of the one meter.
abbrev pub charge_of : Quantities → ℕ
charge_of successful = get_or_zero ai_credits (nonzero_entries successful [])

single_sum : (q : Quantities) → IsSingle q → sum_values q ≡ get_or_zero ai_credits q
single_sum [] h = refl
single_sum ((ai_credits, n) ∷ []) h = omega arith
single_sum (e ∷ f ∷ q) h = absurd h

single_within :
    (n : ℕ) (q : Quantities)
    → IsSingle q
    → exceeds ((ai_credits, n) ∷ []) q ≡ false
    → get_or_zero ai_credits q ≤ n
single_within n [] h e = omega arith
single_within n ((ai_credits, v) ∷ []) h e = ground arith
single_within n (a ∷ b ∷ q) h e = absurd h

pub sum_values-charge : (q : Quantities) → sum_values (nonzero_entries q []) ≡ charge_of q
sum_values-charge q = single_sum (nonzero_entries q []) (nonzero_entries-IsSingle q [] tt)

-- What a settlement charges is at most what the row claims.
pub charge-le :
    (n : ℕ) (q : Quantities)
    → exceeds ((ai_credits, n) ∷ []) (nonzero_entries q []) ≡ false
    → charge_of q ≤ n
charge-le n q h = single_within n (nonzero_entries q []) (nonzero_entries-IsSingle q [] tt) h
