-- ===== src/Webhooks/Repeats.antt =====
-- Repeated deliveries of one event, and those that fail.
use open_aipoject.Prelude.{String, ◌≡◌, refl, ◌∙◌, false, some, List, eq_iff, ℕ}
use open_aipoject.Webhooks.Once.{IsKnown, IsEnded, IsEnded-kept, On}
use open_aipoject.Webhooks.Dispatch.{Retrieved}
use open_aipoject.Webhooks.Units.{units-Follows}
use open_aipoject.Webhooks.Delivery.{
  receive, check_event, commit_units, after_second, after_first, process_stripe_webhook,
}
use open_aipoject.Webhooks.Events.{StripeEvent, Lifecycle, UnitOfWork, duplicate}
use open_aipoject.Webhooks.Deliveries.{process-IsEnded}
use open_aipoject.Webhooks.Work.{in_uow, ◌>>=◌}
use open_aipoject.Webhooks.Store.{Outcome, Store, create_webhook_event_if_absent, done}
use mathlib.Core.Path.{subst, ap}

module _ {U : Type 0} (resolve : ℕ → ℕ → U → Outcome U) (grace : ℕ) where
  receive_again :
      (event : StripeEvent) (s : Store U)
      → IsKnown event s
      → in_uow (receive resolve grace event) s ≡ (done false, s)
  unfolding in_uow create_webhook_event_if_absent
  receive_again event s k =
      rw k.found (rw ((eq_iff k.row.payload_hash event.digest).1 k.same_digest) refl)

  check_again :
      (event : StripeEvent) (s : Store U)
      → IsEnded event s
      → in_uow (check_event resolve grace event) s ≡ (done (some duplicate), s)
  unfolding in_uow check_event ◌>>=◌
  check_again event s e = rw e.known.found (rw e.terminal refl)

  process_again :
      (event : StripeEvent) (early others later : List UnitOfWork)
      (gateway : String → Outcome Retrieved) (now : ℕ) (s : Store U)
      → IsEnded event s
      → process_stripe_webhook resolve grace early others later gateway event now s
        ≡ (done duplicate, commit_units resolve grace early s)
  unfolding process_stripe_webhook
  process_again event early others later gateway now s e =
      let kept =
        IsEnded-kept event s (commit_units resolve grace early s)
          (units-Follows resolve grace early s) e in
      ap (after_first resolve grace early others later gateway event now)
        (receive_again event s e.known)
      ∙ ap (after_second resolve grace others later gateway event now)
          (check_again event (commit_units resolve grace early s) kept)

  -- Once a delivery of an event has returned, and whatever other deliveries have committed since, a
  -- further delivery of the event is answered as a duplicate, and its units of work write nothing:
  -- the tables are as the others leave them.
  pub process-once :
      (event : StripeEvent) (early others later early' others' later' between : List UnitOfWork)
      (gateway gateway' : String → Outcome Retrieved) (now now' : ℕ) (s t : Store U)
      (outcome : Lifecycle)
      → process_stripe_webhook resolve grace early others later gateway event now s
        ≡ (done outcome, t)
      → process_stripe_webhook resolve grace early' others' later' gateway' event now'
          (commit_units resolve grace between t)
        ≡ (done duplicate, commit_units resolve grace early' (commit_units resolve grace between t))
  process-once event early others later early' others' later' between gateway gateway' now now' s t
        outcome h =
      process_again event early' others' later' gateway' now' (commit_units resolve grace between t)
        (IsEnded-kept event t (commit_units resolve grace between t)
          (units-Follows resolve grace between t)
          (subst (On (λ (_ : Lifecycle) x. IsEnded event x)) h
            (process-IsEnded resolve grace event early others later gateway now s)))
