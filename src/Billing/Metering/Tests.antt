-- ===== src/Billing/Metering/Tests.antt =====
-- The theorems on server/billing/metering_service.py at concrete tables.
use open_aipoject.Billing.Metering.History.{
  next, nothing, History, reserving, commits, settling, releasing,
}
use open_aipoject.Prelude.{[], ◌∷◌, none, some, refl, arith, List, ◌≡◌, false, ◌+◌, ◌≤◌, true}
use open_aipoject.Prelude.PyInt.{pos, int_value}
use open_aipoject.Billing.Store.{reserved, settled, Reservation, Counter, Db, find_counter}
use open_aipoject.Billing.Quantities.{ai_credits, normalize_quantities, meter_of}
use open_aipoject.Billing.Metering.Checks.{
  EffectiveSubscription, required_text, exceeded, UsageReservation,
}
use open_aipoject.Billing.Metering.Invariant.Sums.{IsBalanced}
use open_aipoject.Billing.Session.Silent.{Silent}
use open_aipoject.Billing.Metering.Lifecycle.{reserve_usage, reserve_new, settle_usage}
use open_aipoject.Billing.Metering.Replays.{reserve_usage-Silent, over-Silent}
use open_aipoject.Prelude.Text.{strip}
use open_aipoject.Billing.Metering.Keeps.Histories.{commits-IsBalanced}
use open_aipoject.Billing.Metering.Supplement.{
  settle_usage_with_supplement, supplement_usage_reservation, release_usage, SupplementalSettlement,
  successful_of,
}
use open_aipoject.Billing.Errors.{ok, err, allowance_exceeded}
use open_aipoject.Billing.Metering.Races.{reserve_usage-race}
use open_aipoject.Billing.Metering.Grants.{fresh_reservation, fresh_row, reserve_new-granted}
use open_aipoject.Billing.Metering.Limits.{reserve_new-denied}
use open_aipoject.Billing.Metering.Bills.{IsBilled, settle_usage_with_supplement-bills}
use open_aipoject.Billing.Metering.Rebalance.{IsLocked}
use open_aipoject.Billing.Metering.Settlements.{IsSettled, settle_usage-settles}

abbrev open_row : Reservation
open_row = record {
  id = 10;
  account = 7;
  period = 1;
  request_id = "first";
  operation = "chat";
  state = reserved;
  requested = (ai_credits, 3) ∷ [];
  settled = none;
  release_reason = none;
  created_at = 100;
  settled_at = none;
  released_at = none;
  last_activity = 100;
}

abbrev settled_row : Reservation
settled_row = record open_row {
  id = 11;
  request_id = "second";
  state = settled;
  requested = (ai_credits, 5) ∷ [];
  settled = some ((ai_credits, 2) ∷ []);
  settled_at = some 120;
}

abbrev sample_counter : Counter
sample_counter = record { period = 1; meter = ai_credits; used = 2; reserved = 3 }

abbrev sample_db : Db
sample_db = record {
  accounts = 7 ∷ [];
  counters = sample_counter ∷ [];
  reservations = open_row ∷ settled_row ∷ [];
}

abbrev sample_plan : EffectiveSubscription
sample_plan = record {
  account = 7;
  period = 1;
  plan_code = "plus";
  allowance = int_value (pos 20);
  period_end = 9000;
}

sample_db-IsBalanced : IsBalanced sample_db
sample_db-IsBalanced = record {
  rows = ground arith;
  unique = (refl, refl, (refl, refl, tt));
  held_exact = λ p. ground arith;
  used_exact = λ p. ground arith;
}

abbrev sample_history : History
sample_history =
    next
      (reserving (next (settling 190 10 (("ai_credits", int_value (pos 1)) ∷ [])) nothing) 200 12
        sample_plan "third" "Chat" (("ai_credits", int_value (pos 4)) ∷ []))
      (next (releasing 210 12 "cancelled") nothing)

commits-IsBalanced_example : IsBalanced (commits sample_history sample_db)
commits-IsBalanced_example = commits-IsBalanced sample_history sample_db sample_db-IsBalanced

over-Silent_example :
    Silent (settle_usage 300 11 (("ai_credits", int_value (pos 2)) ∷ [])) sample_db
    × Silent (settle_usage_with_supplement 300 11 (pos 9) (pos 20)) sample_db
    × Silent (supplement_usage_reservation 300 11 (pos 9) 20) sample_db
    × Silent (release_usage 300 11 "late") sample_db
over-Silent_example =
    over-Silent 300 11 (("ai_credits", int_value (pos 2)) ∷ []) (pos 9) (pos 20) (pos 9) 20 "late"
      sample_db (settled_row, refl, refl)

text_first : required_text 255 "first" ≡ ok "first"
unfolding required_text
text_first = refl

reserve_usage-Silent_example :
    Silent
      (reserve_usage
        (λ db. db)
        300
        12
        sample_plan
        "first"
        "chat"
        (("ai_credits", int_value (pos 3)) ∷ []))
      sample_db
reserve_usage-Silent_example =
    reserve_usage-Silent (λ db. db) 300 12 sample_plan "first" "chat"
      (("ai_credits", int_value (pos 3)) ∷ []) sample_db {id = "first"} {r = open_row} text_first
      refl

abbrev empty_db : Db
empty_db = record { accounts = 7 ∷ []; counters = []; reservations = [] }

word_chat : required_text 64 "chat" ≡ ok "chat"
unfolding required_text
word_chat = refl

three_credits :
    normalize_quantities false (("ai_credits", int_value (pos 3)) ∷ []) ≡ ok ((ai_credits, 3) ∷ [])
unfolding normalize_quantities strip meter_of
three_credits = refl

reserve_usage-race_example :
    (reserve_usage
      (λ db. sample_db)
      300
      12
      sample_plan
      "first"
      "chat"
      (("ai_credits", int_value (pos 3)) ∷ [])
      empty_db).1
    ≡ sample_db
reserve_usage-race_example =
    reserve_usage-race (λ db. sample_db) 300 12 sample_plan "first" "chat"
      (("ai_credits", int_value (pos 3)) ∷ []) empty_db {id = "first"} {name = "chat"}
      {q = (ai_credits, 3) ∷ []} {r = open_row} text_first word_chat three_credits refl refl

reserve_new-denied_example :
    reserve_new 300 12 sample_plan "third" "chat" ((ai_credits, 16) ∷ []) sample_db
    ≡ (err (allowance_exceeded (exceeded sample_plan 20 16 sample_counter)), sample_db)
reserve_new-denied_example =
    reserve_new-denied 300 12 16 20 sample_plan "third" "chat" sample_counter sample_db refl refl
      (omega arith)

abbrev granted_counter : Counter
granted_counter = record sample_counter { reserved = 18 }

reserve_new-granted_example :
    (ds : List Counter) × (find_counter 1 ai_credits ds ≡ some granted_counter)
    × (granted_counter.used + granted_counter.reserved ≤ 20)
    × (reserve_new 300 12 sample_plan "third" "chat" ((ai_credits, 15) ∷ []) sample_db ≡ (
      ok (fresh_reservation 300 12 sample_plan "third" "chat" 15),
      record sample_db {
        counters = ds;
        reservations = fresh_row 300 12 sample_plan "third" "chat" 15 ∷ open_row ∷ settled_row ∷ [];
      },
    ))
reserve_new-granted_example =
    reserve_new-granted 300 12 15 20 sample_plan "third" "chat" sample_counter sample_db refl refl
      (omega arith) (omega arith) refl refl

one_credit :
    normalize_quantities true (("ai_credits", int_value (pos 1)) ∷ []) ≡ ok (successful_of 1)
unfolding normalize_quantities strip meter_of
one_credit = refl

sample_lock : IsLocked 10 open_row 3 sample_db
sample_lock = (refl, refl, refl, omega arith)

settle_usage-settles_example :
    (u : UsageReservation) × (db' : Db) × IsSettled 300 10 3 1 open_row sample_counter sample_db db'
    × (settle_usage 300 10 (("ai_credits", int_value (pos 1)) ∷ []) sample_db ≡ (ok u, db'))
settle_usage-settles_example =
    settle_usage-settles 300 10 3 1 (("ai_credits", int_value (pos 1)) ∷ []) open_row sample_counter
      sample_db one_credit sample_lock sample_db-IsBalanced.unique refl (omega arith) (omega arith)

settle_usage_with_supplement-bills_example :
    (s : SupplementalSettlement) × (db' : Db) × IsBilled 300 10 3 5 2 5 open_row sample_counter s
      db'
    × (settle_usage_with_supplement 300 10 (pos 5) (pos 20) sample_db ≡ (ok s, db'))
settle_usage_with_supplement-bills_example =
    settle_usage_with_supplement-bills 300 10 3 5 20 open_row sample_counter sample_db sample_lock
      sample_db-IsBalanced.unique refl (omega arith)
