-- ===== src/Webhooks/Units.antt =====
-- Every unit of work, of any delivery: the ledger of events follows, and the tables evolve.
use open_aipoject.Prelude.{
  String, ◌≡◌, refl, sym, Bool, true, false, Option, some, if◌then◌else◌, none, ℕ, List, ◌∷◌, [],
}
use open_aipoject.Webhooks.Rules.{Keeps, in_uow-Keeps}
use open_aipoject.Webhooks.Ledger.{
  Follows, Follows-same, Follows-trans, append-Follows, IsOpenRow, set_event-Follows,
}
use open_aipoject.Webhooks.Work.{Work, pure, or_raise, continue_with, ◌>>◌, ◌>>=◌}
use open_aipoject.Webhooks.Store.{
  Outcome, EventRow, Store, find_event, unless_present, create_webhook_event_if_absent,
  ignored_or_processed, mark_webhook_event_processed, processing_error, Fault,
  mark_webhook_event_failed, done, fault, event_failed,
}
use mathlib.Core.Path.{subst}
use open_aipoject.Webhooks.Upserts.{dispatch_event-events}
use open_aipoject.Webhooks.Service.{Applied}
use open_aipoject.Webhooks.Dispatch.{Retrieved, dispatch_event}
use open_aipoject.Webhooks.Delivery.{
  receive, mark_processed, check_status, check_event, apply_status, synchronize_event, failed_row,
  mark_failed, commit_unit, commit_units,
}
use open_aipoject.Webhooks.Events.{
  StripeEvent, Lifecycle, is_required, is_terminal, error_code, lifecycle_of, UnitOfWork, ignored,
  receives, checks, synchronizes, fails,
}

module _ {U : Type 0} (resolve : ℕ → ℕ → U → Outcome U) (grace : ℕ) where
  -- The rows of the events after some units of work, beside those before.
  abbrev pub FollowsEvents : Store U → Store U → Type 0
  FollowsEvents s t = Follows s.events t.events

  events_same : (s : Store U) → FollowsEvents s s
  events_same s = Follows-same s.events

  events_trans : (s t u : Store U) → FollowsEvents s t → FollowsEvents t u → FollowsEvents s u
  events_trans s t u = Follows-trans s.events t.events u.events

  receive-Follows :
      (event : StripeEvent)
      → Keeps FollowsEvents events_same events_trans (receive resolve grace event)
  unfolding create_webhook_event_if_absent
  receive-Follows event s = of_found (find_event event.event_id s.events)
    where
      of_found :
          (o : Option EventRow)
          → Follows s.events (unless_present event.event_id event.kind event.digest s.events o).1
      of_found (some e) = Follows-same s.events
      of_found none = append-Follows s.events _

  mark-Follows :
      (id : String) (as_ignored : Bool) (s : Store U)
      → IsOpenRow (find_event id s.events)
      → FollowsEvents s (mark_processed resolve grace id as_ignored s).1
  unfolding mark_webhook_event_processed
  mark-Follows id as_ignored s h =
      set_event-Follows id (ignored_or_processed as_ignored) none s.events h

  check-Follows :
      (event : StripeEvent)
      → Keeps FollowsEvents events_same events_trans (check_event resolve grace event)
  unfolding check_event ◌>>=◌ ◌>>◌
  check-Follows event s = of_found (find_event event.event_id s.events) refl
    where
      of_kind :
          (b : Bool) (row : EventRow)
          → find_event event.event_id s.events ≡ some row
          → is_terminal row.processing_status ≡ false
          → let m : Work U (Option Lifecycle) =
              if b
              then pure none
              else mark_processed resolve grace event.event_id true >> pure (some ignored) in
            FollowsEvents s (m s).1
      of_kind true row e t = events_same s
      of_kind false row e t = mark-Follows event.event_id true s (subst IsOpenRow (sym e) t)

      of_status :
          (row : EventRow) (b : Bool)
          → find_event event.event_id s.events ≡ some row
          → is_terminal row.processing_status ≡ b
          → FollowsEvents s (check_status resolve grace event b s).1
      of_status row true e t = events_same s
      of_status row false e t = of_kind (is_required event.kind) row e t

      of_found :
          (o : Option EventRow)
          → find_event event.event_id s.events ≡ o
          → FollowsEvents s
              (continue_with
                (or_raise processing_error o s)
                (λ row. check_status resolve grace event (is_terminal row.processing_status))).1
      of_found none e = events_same s
      of_found (some row) e = of_status row (is_terminal row.processing_status) e refl

  applied-Follows :
      (event : StripeEvent) (s : Store U) (o : Outcome Applied × Store U)
      → o.1.events ≡ s.events
      → IsOpenRow (find_event event.event_id s.events)
      → FollowsEvents s
          (continue_with o (λ outcome.
            mark_processed resolve grace event.event_id false >> pure (lifecycle_of outcome))).1
  unfolding ◌>>=◌ ◌>>◌
  applied-Follows event s (done outcome, t) e h =
      subst (λ es. Follows es (mark_processed resolve grace event.event_id false t).1.events) e
        (mark-Follows event.event_id false t
          (subst (λ es. IsOpenRow (find_event event.event_id es)) (sym e) h))
  applied-Follows event s (fault f, t) e h = subst (Follows s.events) (sym e) (events_same s)

  synchronize-Follows :
      (event : StripeEvent) (retrieved : Option Retrieved) (now : ℕ)
      → Keeps FollowsEvents events_same events_trans
          (synchronize_event resolve grace event retrieved now)
  unfolding synchronize_event ◌>>=◌
  synchronize-Follows event retrieved now s = of_found (find_event event.event_id s.events) refl
    where
      of_status :
          (row : EventRow) (b : Bool)
          → find_event event.event_id s.events ≡ some row
          → is_terminal row.processing_status ≡ b
          → FollowsEvents s (apply_status resolve grace event retrieved now b s).1
      of_status row true e t = events_same s
      of_status row false e t =
          applied-Follows event s
            (dispatch_event resolve grace event.kind event.object event.created_at retrieved now s)
            (dispatch_event-events resolve grace event.kind event.object event.created_at retrieved
              now s)
            (subst IsOpenRow (sym e) t)

      of_found :
          (o : Option EventRow)
          → find_event event.event_id s.events ≡ o
          → FollowsEvents s
              (continue_with (or_raise processing_error o s) (λ row.
                apply_status resolve grace event retrieved now
                  (is_terminal row.processing_status))).1
      of_found none e = events_same s
      of_found (some row) e = of_status row (is_terminal row.processing_status) e refl

  mark_failed-Follows :
      (id : String) (f : Fault) (s : Store U) → FollowsEvents s (mark_failed resolve grace id f s)
  unfolding mark_failed mark_webhook_event_failed
  mark_failed-Follows id f s = of_found (find_event id s.events) refl
    where
      of_status :
          (row : EventRow) (b : Bool)
          → find_event id s.events ≡ some row
          → is_terminal row.processing_status ≡ b
          → FollowsEvents s (
              if b
              then s
              else record s { events = mark_webhook_event_failed id (error_code f) s.events })
      of_status row true e t = events_same s
      of_status row false e t =
          set_event-Follows id event_failed (some (error_code f)) s.events
            (subst IsOpenRow (sym e) t)

      of_found :
          (o : Option EventRow)
          → find_event id s.events ≡ o
          → FollowsEvents s (failed_row resolve grace id f s o)
      of_found none e = events_same s
      of_found (some row) e = of_status row (is_terminal row.processing_status) e refl

  unit-Follows : (u : UnitOfWork) (s : Store U) → FollowsEvents s (commit_unit resolve grace u s)
  unit-Follows (receives event) =
      in_uow-Keeps FollowsEvents events_same events_trans _ (receive-Follows event)
  unit-Follows (checks event) =
      in_uow-Keeps FollowsEvents events_same events_trans _ (check-Follows event)
  unit-Follows (synchronizes event retrieved now) =
      in_uow-Keeps FollowsEvents events_same events_trans _
        (synchronize-Follows event retrieved now)
  unit-Follows (fails id f) = mark_failed-Follows id f

  pub units-Follows :
      (us : List UnitOfWork) (s : Store U)
      → Follows s.events (commit_units resolve grace us s).events
  units-Follows [] s = events_same s
  units-Follows (u ∷ us) s =
      events_trans s (commit_unit resolve grace u s)
        (commit_units resolve grace us (commit_unit resolve grace u s)) (unit-Follows u s)
        (units-Follows us (commit_unit resolve grace u s))
