-- ===== src/Webhooks/Failures.antt =====
-- What a failed delivery of an event that is not terminal leaves behind.
use open_aipoject.Prelude.{
  String, ◌≡◌, refl, sym, ◌∙◌, Bool, true, false, Option, none, some, if◌then◌else◌, [], ℕ, str_eq,
}
use open_aipoject.Webhooks.Once.{in_uow-On, On}
use open_aipoject.Webhooks.Dispatch.{Retrieved}
use open_aipoject.Webhooks.Delivery.{
  receive, mark_processed, check_status, check_event, synchronize_event, failed_row, mark_failed,
  after_third, with_retrieved, after_second, after_first, process_stripe_webhook,
}
use open_aipoject.Webhooks.Ledger.{
  IsOpenRow, found_after_set, found_after_append, other_after_set, other_after_append,
}
use open_aipoject.Webhooks.Events.{
  StripeEvent, Lifecycle, is_required, is_terminal, retrieve_event_subscription, error_code,
  ignored,
}
use open_aipoject.Webhooks.Work.{
  Work, pure, or_raise, committed, in_uow, continue_with, ◌>>◌, ◌>>=◌,
}
use open_aipoject.Webhooks.Store.{
  Fault, Outcome, EventRow, Store, find_event, same_payload, unless_present,
  create_webhook_event_if_absent, mark_webhook_event_failed, processing_error, done, fault,
  event_failed,
}
use mathlib.Core.Path.{subst}

-- The tables beside the events are the same.
pub record IsUntouched {U : Type 0} (s t : Store U) : Type 0 where
  pub same_accounts : t.accounts ≡ s.accounts
  pub same_subscriptions : t.subscriptions ≡ s.subscriptions
  pub same_usage : t.usage ≡ s.usage

-- Besides, the rows of all other events are the same, and the event is not terminal.
pub record IsRetryable {U : Type 0} (event : StripeEvent) (s t : Store U) : Type 0 where
  pub untouched : IsUntouched s t
  pub other_events :
      (id : String)
      → str_eq event.event_id id ≡ false
      → find_event id t.events ≡ find_event id s.events
  pub still_open : IsOpenRow (find_event event.event_id t.events)

module _ {U : Type 0} where
  IsUntouched-same : (s : Store U) → IsUntouched s s
  IsUntouched-same s = record { same_accounts = refl; same_subscriptions = refl; same_usage = refl }

  IsUntouched-trans : (s t u : Store U) → IsUntouched s t → IsUntouched t u → IsUntouched s u
  IsUntouched-trans s t u h k = record {
    same_accounts = k.same_accounts ∙ h.same_accounts;
    same_subscriptions = k.same_subscriptions ∙ h.same_subscriptions;
    same_usage = k.same_usage ∙ h.same_usage;
  }

  -- What holds of the tables if there is an exception.
  abbrev OnFault : {A : Type 0} → (Store U → Type 0) → Outcome A × Store U → Type 0
  OnFault P (done a, t) = Unit
  OnFault P (fault f, t) = P t

  rolled_back :
      {A : Type 0} (P : Store U → Type 0) (m : Work U A) (s : Store U)
      → P s
      → OnFault P (in_uow m s)
  unfolding in_uow
  rolled_back {A} P m s h = of_result (m s)
    where
      of_result : (o : Outcome A × Store U) → OnFault P (committed s o)
      of_result (done a, t) = tt
      of_result (fault f, t) = h

module _ {U : Type 0} (resolve : ℕ → ℕ → U → Outcome U) (grace : ℕ) (event : StripeEvent) where
  failed-IsRetryable :
      (f : Fault) (s t : Store U)
      → IsRetryable event s t
      → IsRetryable event s (mark_failed resolve grace event.event_id f t)
  unfolding mark_failed mark_webhook_event_failed
  failed-IsRetryable f s t r = of_found (find_event event.event_id t.events) refl
    where
      of_status :
          (row : EventRow) (b : Bool)
          → find_event event.event_id t.events ≡ some row
          → let u : Store U = if b then t else record t {
            events = mark_webhook_event_failed event.event_id (error_code f) t.events;
          } in
            IsRetryable event s u
      of_status row true e = r
      of_status row false e = record {
        untouched = record {
          same_accounts = r.untouched.same_accounts;
          same_subscriptions = r.untouched.same_subscriptions;
          same_usage = r.untouched.same_usage;
        };
        other_events = λ id d.
            other_after_set event.event_id id event_failed (some (error_code f)) t.events d
            ∙ r.other_events id d;
        still_open =
            subst IsOpenRow
              (sym
                (found_after_set event.event_id event_failed (some (error_code f)) t.events row e))
              refl;
      }

      of_found :
          (o : Option EventRow)
          → find_event event.event_id t.events ≡ o
          → IsRetryable event s (failed_row resolve grace event.event_id f t o)
      of_found none e = r
      of_found (some row) e = of_status row (is_terminal row.processing_status) e

  -- What the first unit leaves behind for an event that is not terminal.
  received-IsRetryable :
      (s : Store U)
      → IsOpenRow (find_event event.event_id s.events)
      → On (λ _ t. IsRetryable event s t) (receive resolve grace event s)
  unfolding create_webhook_event_if_absent
  received-IsRetryable s h = of_found (find_event event.event_id s.events) refl
    where
      present : (o : Outcome Bool) → On (λ (_ : Bool) t. IsRetryable event s t) (o, s)
      present (done b) = record {
        untouched = IsUntouched-same s;
        other_events = λ id d. refl;
        still_open = h;
      }
      present (fault f) = tt

      of_found :
          (o : Option EventRow)
          → find_event event.event_id s.events ≡ o
          → let created = unless_present event.event_id event.kind event.digest s.events o in
            On (λ (_ : Bool) t. IsRetryable event s t) (created.0, record s { events = created.1 })
      of_found (some row) e = present (same_payload event.digest (some row))
      of_found none e = record {
        untouched = record { same_accounts = refl; same_subscriptions = refl; same_usage = refl };
        other_events = λ id d. other_after_append _ id s.events d;
        still_open = subst IsOpenRow (sym (found_after_append _ s.events e)) refl;
      }

  -- What the second unit leaves behind where the delivery goes on.
  abbrev GoesOn : Store U → Option Lifecycle → Store U → Type 0
  GoesOn s none t = IsRetryable event s t
  GoesOn s (some outcome) t = Unit

  checked-GoesOn :
      (s t : Store U) → IsRetryable event s t → On (GoesOn s) (check_event resolve grace event t)
  unfolding check_event ◌>>=◌ ◌>>◌
  checked-GoesOn s t r = of_found (find_event event.event_id t.events)
    where
      of_kind :
          (b : Bool)
          → let m : Work U (Option Lifecycle) =
              if b
              then pure none
              else mark_processed resolve grace event.event_id true >> pure (some ignored) in
            On (GoesOn s) (m t)
      of_kind true = r
      of_kind false = tt

      of_status : (b : Bool) → On (GoesOn s) (check_status resolve grace event b t)
      of_status true = tt
      of_status false = of_kind (is_required event.kind)

      of_found :
          (o : Option EventRow)
          → On (GoesOn s) (
              continue_with
                (or_raise processing_error o t)
                (λ row. check_status resolve grace event (is_terminal row.processing_status)))
      of_found none = tt
      of_found (some row) = of_status (is_terminal row.processing_status)

  module _ (gateway : String → Outcome Retrieved) (now : ℕ) (s : Store U) where
    third-IsRetryable :
        (o : Outcome Lifecycle × Store U)
        → OnFault (IsRetryable event s) o
        → OnFault (IsRetryable event s) (after_third resolve grace [] event o)
    third-IsRetryable (done outcome, t) h = tt
    third-IsRetryable (fault f, t) h = failed-IsRetryable f s t h

    retrieved-IsRetryable :
        (o : Outcome (Option Retrieved)) (t : Store U)
        → IsRetryable event s t
        → OnFault (IsRetryable event s) (with_retrieved resolve grace [] [] event now o t)
    retrieved-IsRetryable (fault f) t r = failed-IsRetryable f s t r
    retrieved-IsRetryable (done retrieved) t r = third-IsRetryable _ (
        rolled_back (IsRetryable event s) (synchronize_event resolve grace event retrieved now) t r)

    second-IsRetryable :
        (o : Outcome (Option Lifecycle) × Store U)
        → On (GoesOn s) o
        → OnFault (IsRetryable event s) o
        → OnFault (IsRetryable event s) (after_second resolve grace [] [] gateway event now o)
    second-IsRetryable (done (some outcome), t) h k = tt
    second-IsRetryable (done none, t) h k =
        retrieved-IsRetryable (retrieve_event_subscription gateway event.kind event.object) t h
    second-IsRetryable (fault f, t) h k = failed-IsRetryable f s t k

    first-IsRetryable :
        (o : Outcome Bool × Store U)
        → On (λ (_ : Bool) t. IsRetryable event s t) o
        → OnFault (IsRetryable event s) o
        → OnFault (IsRetryable event s) (after_first resolve grace [] [] [] gateway event now o)
    first-IsRetryable (done created, t) h k =
        second-IsRetryable _
          (in_uow-On (GoesOn s) (check_event resolve grace event) t (checked-GoesOn s t h))
          (rolled_back (IsRetryable event s) (check_event resolve grace event) t h)
    first-IsRetryable (fault f, t) h k = k

  -- If a delivery of an event that is not terminal fails, with no other delivery in between, then
  -- the accounts, the subscriptions, the usage and the rows of all other events are as they were,
  -- and the event is not terminal.
  pub process-IsRetryable :
      (gateway : String → Outcome Retrieved) (now : ℕ) (s t : Store U) (f : Fault)
      → IsOpenRow (find_event event.event_id s.events)
      → process_stripe_webhook resolve grace [] [] [] gateway event now s ≡ (fault f, t)
      → IsRetryable event s t
  unfolding process_stripe_webhook
  process-IsRetryable gateway now s t f h e = subst (OnFault (IsRetryable event s)) e (
      first-IsRetryable gateway now s _
        (in_uow-On (λ (_ : Bool) t. IsRetryable event s t) (receive resolve grace event) s
          (received-IsRetryable s h))
        (rolled_back (IsRetryable event s) (receive resolve grace event) s
          (record { untouched = IsUntouched-same s; other_events = λ id d. refl; still_open = h })))
