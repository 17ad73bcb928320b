-- ===== src/Billing/Store.antt =====
-- The tables `usage_counters` and `usage_reservations`, and the accounts that can be locked. A
-- UUID is a number, a timestamp counts microseconds. The columns used_quantity and
-- reserved_quantity are nonnegative by the CHECK of
-- db/migrations/20260718_add_b2c_billing_foundation.sql, and (usage_period_id, meter_key) and
-- (billing_account_id, request_id) are unique there.
use open_aipoject.Prelude.{
  ℕ, String, Bool, true, false, ◌&&◌, Option, none, some, List, [], ◌∷◌, ◌==◌, str_eq,
  if◌then◌else◌, any,
}
use open_aipoject.Billing.Quantities.{Meter, meter_eq, Quantities}

pub data State : Type 0 where
  reserved settled released expired : State

abbrev pub is_reserved : State → Bool
is_reserved reserved = true
is_reserved _ = false

-- A row of `usage_counters`.
pub record Counter : Type 0 where
  pub period : ℕ
  pub meter : Meter
  pub used : ℕ
  pub reserved : ℕ

-- A row of `usage_reservations`.
pub record Reservation : Type 0 where
  pub id : ℕ
  pub account : ℕ
  pub period : ℕ
  pub request_id : String
  pub operation : String
  pub state : State
  pub requested : Quantities
  pub settled : Option Quantities
  pub release_reason : Option String
  pub created_at : ℕ
  pub settled_at : Option ℕ
  pub released_at : Option ℕ
  pub last_activity : ℕ

pub record Db : Type 0 where
  pub accounts : List ℕ
  pub counters : List Counter
  pub reservations : List Reservation

-- `where usage_period_id = p and meter_key = m`
abbrev pub is_counter_of : ℕ → Meter → Counter → Bool
is_counter_of p m c = c.period == p && meter_eq c.meter m

abbrev pub find_counter : ℕ → Meter → List Counter → Option Counter
find_counter p m [] = none
find_counter p m (c ∷ cs) = if is_counter_of p m c then some c else find_counter p m cs

abbrev consed : Counter → Option (List Counter) → Option (List Counter)
consed c none = none
consed c (some cs) = some (c ∷ cs)

-- `update ... where usage_period_id = p and meter_key = m and ok`; `none` when no row is updated.
abbrev pub update_counter :
    ℕ → Meter → (Counter → Bool) → (Counter → Counter) → List Counter → Option (List Counter)
update_counter p m ok f [] = none
update_counter p m ok f (c ∷ cs) =
    if is_counter_of p m c && ok c then some (f c ∷ cs) else consed c (update_counter p m ok f cs)

-- `where id = i`
abbrev pub find_id : ℕ → List Reservation → Option Reservation
find_id i [] = none
find_id i (r ∷ rs) = if r.id == i then some r else find_id i rs

-- `where billing_account_id = a and request_id = q`
abbrev pub is_request_of : ℕ → String → Reservation → Bool
is_request_of a q r = r.account == a && str_eq r.request_id q

abbrev pub find_request : ℕ → String → List Reservation → Option Reservation
find_request a q [] = none
find_request a q (r ∷ rs) = if is_request_of a q r then some r else find_request a q rs

-- `update ... where id = i and state = 'reserved'`, with the row after the update.
abbrev pub update_reserved :
    ℕ → (Reservation → Reservation) → List Reservation → Option (Reservation × List Reservation)
update_reserved i f [] = none
update_reserved i f (r ∷ rs) =
    let rest = update_reserved i f rs in
    if r.id == i && is_reserved r.state
    then some (f r, f r ∷ rs)
    else elim rest [ none ↦ none | some (s, ss) ↦ some (s, r ∷ ss) ]

abbrev pub contains_account : ℕ → List ℕ → Bool
contains_account a accounts = any (λ x. x == a) accounts
