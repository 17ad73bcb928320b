-- ===== src/Webhooks/Histories.antt =====
-- How the tables evolve in any history of deliveries.
use open_aipoject.Prelude.{
  String, Bool, true, false, Option, none, some, List, ◌∷◌, if◌then◌else◌, [], ℕ,
}
use open_aipoject.Webhooks.Dispatch.{Retrieved}
use open_aipoject.Webhooks.Delivery.{
  receive, mark_processed, check_status, check_event, apply_status, synchronize_event, failed_row,
  mark_failed, commit_unit, commit_units,
}
use open_aipoject.Webhooks.Evolution.{Evolves, Evolves_same, Evolves_trans}
use open_aipoject.Webhooks.Rules.{
  Keeps, bind-Keeps, then-Keeps, or_raise-Keeps, in_uow-Keeps, either-Keeps,
}
use open_aipoject.Webhooks.Events.{
  StripeEvent, is_required, is_terminal, error_code, UnitOfWork, receives, checks, synchronizes,
  fails,
}
use open_aipoject.Webhooks.Upserts.{dispatch_event-Evolves}
use open_aipoject.Webhooks.Store.{
  Fault, Outcome, EventRow, Store, find_event, mark_webhook_event_failed, processing_error,
}

module _ {U : Type 0} (resolve : ℕ → ℕ → U → Outcome U) (grace : ℕ) where
  mark-Evolves :
      (id : String) (as_ignored : Bool)
      → Keeps Evolves Evolves_same Evolves_trans (mark_processed resolve grace id as_ignored)
  mark-Evolves id as_ignored s = record {
    subscriptions_later = (Evolves_same s).subscriptions_later;
    accounts_later = (Evolves_same s).accounts_later;
  }

  check-Evolves :
      (event : StripeEvent)
      → Keeps Evolves Evolves_same Evolves_trans (check_event resolve grace event)
  unfolding check_event
  check-Evolves event = bind-Keeps Evolves Evolves_same Evolves_trans _ _ Evolves_same (λ locked.
      bind-Keeps Evolves Evolves_same Evolves_trans _ _
        (or_raise-Keeps Evolves Evolves_same Evolves_trans processing_error locked)
        (λ row. of_status (is_terminal row.processing_status)))
    where
      of_status :
          (b : Bool) → Keeps Evolves Evolves_same Evolves_trans (check_status resolve grace event b)
      of_status true = Evolves_same
      of_status false =
          either-Keeps Evolves Evolves_same Evolves_trans (is_required event.kind) _ _ Evolves_same
            (then-Keeps Evolves Evolves_same Evolves_trans _ _ (mark-Evolves event.event_id true)
              Evolves_same)

  synchronize-Evolves :
      (event : StripeEvent) (retrieved : Option Retrieved) (now : ℕ)
      → Keeps Evolves Evolves_same Evolves_trans
          (synchronize_event resolve grace event retrieved now)
  unfolding synchronize_event
  synchronize-Evolves event retrieved now =
      bind-Keeps Evolves Evolves_same Evolves_trans _ _ Evolves_same (λ locked.
        bind-Keeps Evolves Evolves_same Evolves_trans _ _
          (or_raise-Keeps Evolves Evolves_same Evolves_trans processing_error locked)
          (λ row. of_status (is_terminal row.processing_status)))
    where
      of_status :
          (b : Bool)
          → Keeps Evolves Evolves_same Evolves_trans
              (apply_status resolve grace event retrieved now b)
      of_status true = Evolves_same
      of_status false =
          bind-Keeps Evolves Evolves_same Evolves_trans _ _
            (dispatch_event-Evolves resolve grace event.kind event.object event.created_at retrieved
              now)
            (λ outcome.
              then-Keeps Evolves Evolves_same Evolves_trans _ _ (mark-Evolves event.event_id false)
                Evolves_same)

  mark_failed-Evolves :
      (id : String) (f : Fault) (s : Store U) → Evolves s (mark_failed resolve grace id f s)
  unfolding mark_failed
  mark_failed-Evolves id f s = of_found (find_event id s.events)
    where
      of_status :
          (b : Bool)
          → Evolves s (
              if b
              then s
              else record s { events = mark_webhook_event_failed id (error_code f) s.events })
      of_status true = Evolves_same s
      of_status false = record {
        subscriptions_later = (Evolves_same s).subscriptions_later;
        accounts_later = (Evolves_same s).accounts_later;
      }

      of_found : (o : Option EventRow) → Evolves s (failed_row resolve grace id f s o)
      of_found none = Evolves_same s
      of_found (some row) = of_status (is_terminal row.processing_status)

  unit-Evolves : (u : UnitOfWork) (s : Store U) → Evolves s (commit_unit resolve grace u s)
  unit-Evolves (receives event) =
      in_uow-Keeps Evolves Evolves_same Evolves_trans (receive resolve grace event) (λ s. record {
        subscriptions_later = (Evolves_same s).subscriptions_later;
        accounts_later = (Evolves_same s).accounts_later;
      })
  unit-Evolves (checks event) =
      in_uow-Keeps Evolves Evolves_same Evolves_trans _ (check-Evolves event)
  unit-Evolves (synchronizes event retrieved now) =
      in_uow-Keeps Evolves Evolves_same Evolves_trans _ (synchronize-Evolves event retrieved now)
  unit-Evolves (fails id f) = mark_failed-Evolves id f

  -- In any sequence of units of work of any deliveries, no subscription and no account is lost; a
  -- subscription stays with its account, and the time of its last event never becomes earlier; an
  -- account keeps its owner, and a customer that it has is never replaced.
  pub commit_units-Evolves :
      (us : List UnitOfWork) (s : Store U) → Evolves s (commit_units resolve grace us s)
  commit_units-Evolves [] s = Evolves_same s
  commit_units-Evolves (u ∷ us) s =
      Evolves_trans s (commit_unit resolve grace u s)
        (commit_units resolve grace us (commit_unit resolve grace u s)) (unit-Evolves u s)
        (commit_units-Evolves us (commit_unit resolve grace u s))
