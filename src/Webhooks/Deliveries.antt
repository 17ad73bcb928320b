-- ===== src/Webhooks/Deliveries.antt =====
-- What one delivery of an event leaves behind, whatever other deliveries commit between its units.
use open_aipoject.Prelude.{
  String, ◌≡◌, refl, sym, Bool, true, false, Option, none, some, List, str_eq, eq_iff,
  if◌then◌else◌, ℕ,
}
use open_aipoject.Webhooks.Once.{IsKnown, IsEnded, IsKnown-kept, in_uow-On, On}
use open_aipoject.Webhooks.Service.{Applied}
use open_aipoject.Webhooks.Dispatch.{Retrieved, dispatch_event}
use open_aipoject.Webhooks.Units.{units-Follows}
use open_aipoject.Webhooks.Delivery.{
  receive, mark_processed, check_status, check_event, apply_status, synchronize_event, commit_units,
  after_third, with_retrieved, after_second, after_first, process_stripe_webhook,
}
use open_aipoject.Webhooks.Ledger.{Follows, Follows-same, found_after_set, found_after_append}
use open_aipoject.Webhooks.Events.{
  StripeEvent, Lifecycle, is_required, is_terminal, retrieve_event_subscription, lifecycle_of,
  UnitOfWork, ignored,
}
use open_aipoject.Webhooks.Upserts.{dispatch_event-events}
use open_aipoject.Webhooks.Work.{Work, pure, or_raise, continue_with, ◌>>◌, ◌>>=◌}
use open_aipoject.Webhooks.Store.{
  Outcome, EventRow, Store, find_event, unless_present, create_webhook_event_if_absent,
  ignored_or_processed, mark_webhook_event_processed, processing_error, value_error, done, fault,
}
use mathlib.Core.Path.{subst}

module _ {U : Type 0} (resolve : ℕ → ℕ → U → Outcome U) (grace : ℕ) (event : StripeEvent) where
  receive-On : (s : Store U) → On (λ _ t. IsKnown event t) (receive resolve grace event s)
  unfolding create_webhook_event_if_absent
  receive-On s = of_found (find_event event.event_id s.events) refl
    where
      of_digest :
          (row : EventRow) (b : Bool)
          → find_event event.event_id s.events ≡ some row
          → str_eq row.payload_hash event.digest ≡ b
          → let o : Outcome Bool = if b then done false else fault value_error in
            On (λ _ t. IsKnown event t) (o, s)
      of_digest row true e h = record {
        row = row;
        found = e;
        same_digest = (eq_iff row.payload_hash event.digest).0 h;
      }
      of_digest row false e h = tt

      of_found :
          (o : Option EventRow)
          → find_event event.event_id s.events ≡ o
          → let created = unless_present event.event_id event.kind event.digest s.events o in
            On (λ _ t. IsKnown event t) (created.0, record s { events = created.1 })
      of_found none e = record {
        row = _;
        found = found_after_append _ s.events e;
        same_digest = refl;
      }
      of_found (some row) e = of_digest row (str_eq row.payload_hash event.digest) e refl

  marked-IsEnded :
      (as_ignored : Bool) (s : Store U)
      → IsKnown event s
      → IsEnded event (mark_processed resolve grace event.event_id as_ignored s).1
  unfolding mark_webhook_event_processed
  marked-IsEnded as_ignored s k = record {
    known = record {
      row = _;
      found =
          found_after_set event.event_id (ignored_or_processed as_ignored) none s.events k.row
            k.found;
      same_digest = k.same_digest;
    };
    terminal = of_status as_ignored;
  }
    where
      of_status : (b : Bool) → is_terminal (ignored_or_processed b) ≡ true
      of_status true = refl
      of_status false = refl

  -- The event is still to be processed, or has ended.
  abbrev pub Checked : Option Lifecycle → Store U → Type 0
  Checked none t = IsKnown event t
  Checked (some outcome) t = IsEnded event t

  check-On : (s : Store U) → IsKnown event s → On Checked (check_event resolve grace event s)
  unfolding check_event ◌>>=◌ ◌>>◌
  check-On s k =
      subst
        (λ o. On Checked (
          continue_with (or_raise processing_error o s)
            (λ row. check_status resolve grace event (is_terminal row.processing_status))))
        (sym k.found) (of_status (is_terminal k.row.processing_status) refl)
    where
      of_kind :
          (b : Bool)
          → let m : Work U (Option Lifecycle) =
              if b
              then pure none
              else mark_processed resolve grace event.event_id true >> pure (some ignored) in
            On Checked (m s)
      of_kind true = k
      of_kind false = marked-IsEnded true s k

      of_status :
          (b : Bool)
          → is_terminal k.row.processing_status ≡ b
          → On Checked (check_status resolve grace event b s)
      of_status true t = record { known = k; terminal = t }
      of_status false t = of_kind (is_required event.kind)

  synchronize-On :
      (retrieved : Option Retrieved) (now : ℕ) (s : Store U)
      → IsKnown event s
      → On
          (λ (_ : Lifecycle) t. IsEnded event t)
          (synchronize_event resolve grace event retrieved now s)
  unfolding synchronize_event ◌>>=◌ ◌>>◌
  synchronize-On retrieved now s k =
      subst
        (λ o.
          On (λ (_ : Lifecycle) t. IsEnded event t)
            (continue_with (or_raise processing_error o s) (λ row.
              apply_status resolve grace event retrieved now (is_terminal row.processing_status))))
        (sym k.found) (of_status (is_terminal k.row.processing_status) refl)
    where
      applied :
          (o : Outcome Applied × Store U)
          → o.1.events ≡ s.events
          → On
              (λ (_ : Lifecycle) t. IsEnded event t)
              (continue_with o (λ outcome.
                mark_processed resolve grace event.event_id false >> pure (lifecycle_of outcome)))
      applied (done outcome, t) e =
          marked-IsEnded false t
            (IsKnown-kept event s t (subst (Follows s.events) (sym e) (Follows-same s.events)) k)
      applied (fault f, t) e = tt

      of_status :
          (b : Bool)
          → is_terminal k.row.processing_status ≡ b
          → On
              (λ (_ : Lifecycle) t. IsEnded event t)
              (apply_status resolve grace event retrieved now b s)
      of_status true t = record { known = k; terminal = t }
      of_status false t =
          applied
            (dispatch_event resolve grace event.kind event.object event.created_at retrieved now s)
            (dispatch_event-events resolve grace event.kind event.object event.created_at retrieved
              now s)

  module _ (early others later : List UnitOfWork) (gateway : String → Outcome Retrieved)
      (now : ℕ) where
    third-On :
        (o : Outcome Lifecycle × Store U)
        → On (λ (_ : Lifecycle) t. IsEnded event t) o
        → On (λ (_ : Lifecycle) t. IsEnded event t) (after_third resolve grace later event o)
    third-On (done outcome, t) h = h
    third-On (fault f, t) h = tt

    retrieved-On :
        (o : Outcome (Option Retrieved)) (s : Store U)
        → IsKnown event s
        → On
            (λ (_ : Lifecycle) t. IsEnded event t)
            (with_retrieved resolve grace others later event now o s)
    retrieved-On (fault f) s k = tt
    retrieved-On (done retrieved) s k = third-On _ (
        in_uow-On (λ (_ : Lifecycle) t. IsEnded event t)
          (synchronize_event resolve grace event retrieved now)
          (commit_units resolve grace others s)
          (synchronize-On retrieved now (commit_units resolve grace others s) (
            IsKnown-kept event s (commit_units resolve grace others s)
              (units-Follows resolve grace others s) k)))

    second-On :
        (o : Outcome (Option Lifecycle) × Store U)
        → On Checked o
        → On
            (λ (_ : Lifecycle) t. IsEnded event t)
            (after_second resolve grace others later gateway event now o)
    second-On (done (some outcome), t) h = h
    second-On (done none, t) h =
        retrieved-On (retrieve_event_subscription gateway event.kind event.object) t h
    second-On (fault f, t) h = tt

    first-On :
        (o : Outcome Bool × Store U)
        → On (λ _ t. IsKnown event t) o
        → On
            (λ (_ : Lifecycle) t. IsEnded event t)
            (after_first resolve grace early others later gateway event now o)
    first-On (done created, t) h = second-On _ (
        in_uow-On Checked (check_event resolve grace event) (commit_units resolve grace early t) (
          check-On (commit_units resolve grace early t) (
            IsKnown-kept event t (commit_units resolve grace early t)
              (units-Follows resolve grace early t) h)))
    first-On (fault f, t) h = tt

    pub process-IsEnded :
        (s : Store U)
        → On
            (λ (_ : Lifecycle) t. IsEnded event t)
            (process_stripe_webhook resolve grace early others later gateway event now s)
    unfolding process_stripe_webhook
    process-IsEnded s =
        first-On _
          (in_uow-On (λ _ t. IsKnown event t) (receive resolve grace event) s (receive-On s))
