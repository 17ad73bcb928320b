-- ===== src/Webhooks/Delivery.antt =====
-- server/billing/webhook_service.py, `process_stripe_webhook`: one delivery of an event, in its
-- units of work. Between two of them other deliveries may commit units of theirs; each unit is one
-- step.
use open_aipoject.Prelude.{
  ℕ, String, Bool, true, false, Option, none, some, List, [], ◌∷◌, if◌then◌else◌,
}
use open_aipoject.Webhooks.Store.{
  Store, Outcome, done, fault, Fault, processing_error, EventRow, find_event,
  create_webhook_event_if_absent, mark_webhook_event_processed, mark_webhook_event_failed,
}
use open_aipoject.Webhooks.Work.{◌>>=◌, ◌>>◌, Work, pure, gets, or_raise, in_uow}
use open_aipoject.Webhooks.Events.{
  StripeEvent, is_terminal, UnitOfWork, Lifecycle, error_code, duplicate, reraised,
  retrieve_event_subscription, as_conflict, is_required, lifecycle_of, ignored, receives, checks,
  synchronizes, fails,
}
use open_aipoject.Webhooks.Dispatch.{Retrieved, dispatch_event}

module _ {U : Type 0} (resolve : ℕ → ℕ → U → Outcome U) (grace : ℕ) where
  -- The first unit of work.
  abbrev pub receive : StripeEvent → Work U Bool
  receive event s =
      let created =
        create_webhook_event_if_absent event.event_id event.kind event.digest s.events in
      (created.0, record s { events = created.1 })

  abbrev pub mark_processed : String → Bool → Work U (Unit {0})
  mark_processed id as_ignored s =
      (done tt, record s { events = mark_webhook_event_processed id as_ignored s.events })

  abbrev pub check_status : StripeEvent → Bool → Work U (Option Lifecycle)
  check_status event true = pure (some duplicate)
  check_status event false =
      if is_required event.kind
      then pure none
      else mark_processed event.event_id true >> pure (some ignored)

  -- The second unit: the answer, if the event is already known or not one to be processed.
  unfoldable pub check_event : StripeEvent → Work U (Option Lifecycle)
  check_event event = do
    locked ← gets (λ s. find_event event.event_id s.events)
    row ← or_raise processing_error locked
    check_status event (is_terminal row.processing_status)

  abbrev pub apply_event : StripeEvent → Option Retrieved → ℕ → Work U Lifecycle
  apply_event event retrieved effective_at = do
    outcome ←
        dispatch_event resolve grace event.kind event.object event.created_at retrieved effective_at
    mark_processed event.event_id false
    pure (lifecycle_of outcome)

  abbrev pub apply_status : StripeEvent → Option Retrieved → ℕ → Bool → Work U Lifecycle
  apply_status event retrieved effective_at true = pure duplicate
  apply_status event retrieved effective_at false = apply_event event retrieved effective_at

  -- The third unit.
  unfoldable pub synchronize_event : StripeEvent → Option Retrieved → ℕ → Work U Lifecycle
  synchronize_event event retrieved effective_at = do
    locked ← gets (λ s. find_event event.event_id s.events)
    row ← or_raise processing_error locked
    apply_status event retrieved effective_at (is_terminal row.processing_status)

  abbrev pub failed_row : String → Fault → Store U → Option EventRow → Store U
  failed_row id f s none = s
  failed_row id f s (some row) =
      if is_terminal row.processing_status
      then s
      else record s { events = mark_webhook_event_failed id (error_code f) s.events }

  -- `_mark_failed`
  unfoldable pub mark_failed : String → Fault → Store U → Store U
  mark_failed id f s = failed_row id f s (find_event id s.events)

  abbrev pub commit_unit : UnitOfWork → Store U → Store U
  commit_unit (receives event) s = (in_uow (receive event) s).1
  commit_unit (checks event) s = (in_uow (check_event event) s).1
  commit_unit (synchronizes event retrieved now) s =
      (in_uow (synchronize_event event retrieved now) s).1
  commit_unit (fails id f) s = mark_failed id f s

  abbrev pub commit_units : List UnitOfWork → Store U → Store U
  commit_units [] s = s
  commit_units (u ∷ us) s = commit_units us (commit_unit u s)

  -- The handler of any exception behind the first unit.
  abbrev pub fail_delivery : List UnitOfWork → StripeEvent → Fault → Work U Lifecycle
  fail_delivery others event f s =
      (fault (reraised f), mark_failed event.event_id f (commit_units others s))

  abbrev pub after_third :
      List UnitOfWork → StripeEvent → Outcome Lifecycle × Store U → Outcome Lifecycle × Store U
  after_third others event (done outcome, s) = (done outcome, s)
  after_third others event (fault f, s) = fail_delivery others event f s

  abbrev pub with_retrieved :
      List UnitOfWork
      → List UnitOfWork
      → StripeEvent
      → ℕ
      → Outcome (Option Retrieved)
      → Work U Lifecycle
  with_retrieved others later event now (fault f) s = fail_delivery later event f s
  with_retrieved others later event now (done retrieved) s =
      after_third later event
        (in_uow (synchronize_event event retrieved now) (commit_units others s))

  abbrev pub after_second :
      List UnitOfWork
      → List UnitOfWork
      → (String → Outcome Retrieved)
      → StripeEvent
      → ℕ
      → Outcome (Option Lifecycle) × Store U
      → Outcome Lifecycle × Store U
  after_second others later gateway event now (fault f, s) = fail_delivery later event f s
  after_second others later gateway event now (done (some outcome), s) = (done outcome, s)
  after_second others later gateway event now (done none, s) =
      with_retrieved others later event now
        (retrieve_event_subscription gateway event.kind event.object) s

  abbrev pub after_first :
      List UnitOfWork
      → List UnitOfWork
      → List UnitOfWork
      → (String → Outcome Retrieved)
      → StripeEvent
      → ℕ
      → Outcome Bool × Store U
      → Outcome Lifecycle × Store U
  after_first early others later gateway event now (fault f, s) = (fault (as_conflict f), s)
  after_first early others later gateway event now (done created, s) =
      after_second others later gateway event now
        (in_uow (check_event event) (commit_units early s))

  -- `process_stripe_webhook`, with what other deliveries commit before its second and its third
  -- unit and before it notes a failure.
  unfoldable pub process_stripe_webhook :
      List UnitOfWork
      → List UnitOfWork
      → List UnitOfWork
      → (String → Outcome Retrieved)
      → StripeEvent
      → ℕ
      → Work U Lifecycle
  process_stripe_webhook early others later gateway event now s =
      after_first early others later gateway event now (in_uow (receive event) s)
