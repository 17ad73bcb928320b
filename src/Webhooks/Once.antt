-- ===== src/Webhooks/Once.antt =====
-- An event is applied once: when a delivery has returned, its event's status is terminal, and a
-- later delivery is answered as a duplicate and changes nothing.
use open_aipoject.Prelude.{◌≡◌, ◌∙◌, true, some}
use open_aipoject.Webhooks.Ledger.{Frozen, RowLater, Follows, later_row}
use open_aipoject.Webhooks.Events.{StripeEvent, is_terminal}
use open_aipoject.Webhooks.Work.{Work, committed, in_uow}
use open_aipoject.Webhooks.Store.{Outcome, EventRow, Store, find_event, done, fault}
use mathlib.Core.Path.{subst, ap}

-- What holds of a result and the tables, if there is a result.
abbrev pub On : {U A : Type 0} → (A → Store U → Type 0) → Outcome A × Store U → Type 0
On P (done a, t) = P a t
On P (fault f, t) = Unit

module _ {U : Type 0} where
  -- The event is in the ledger, with the digest of its payload.
  pub record IsKnown (event : StripeEvent) (s : Store U) : Type 0 where
    pub row : EventRow
    pub found : find_event event.event_id s.events ≡ some row
    pub same_digest : row.payload_hash ≡ event.digest

  -- Besides, its status is terminal.
  pub record IsEnded (event : StripeEvent) (s : Store U) : Type 0 where
    pub known : IsKnown event s
    pub terminal : is_terminal known.row.processing_status ≡ true

  pub IsKnown-kept :
      (event : StripeEvent) (s t : Store U)
      → Follows s.events t.events
      → IsKnown event s
      → IsKnown event t
  IsKnown-kept event s t h k =
      let r =
        later_row k.row (find_event event.event_id t.events) (
          subst (λ o. RowLater o (find_event event.event_id t.events)) k.found
            (h event.event_id)) in
      record { row = r.0; found = r.1; same_digest = r.2 ∙ k.same_digest }

  pub IsEnded-kept :
      (event : StripeEvent) (s t : Store U)
      → Follows s.events t.events
      → IsEnded event s
      → IsEnded event t
  IsEnded-kept event s t h k =
      let r = later_row k.known.row (find_event event.event_id t.events) (
        subst (λ o. RowLater o (find_event event.event_id t.events)) k.known.found
          (h event.event_id)) in
      let same : r.0 ≡ k.known.row = subst (λ b. Frozen b k.known.row r.0) k.terminal r.3 in
      record {
        known = record { row = r.0; found = r.1; same_digest = r.2 ∙ k.known.same_digest };
        terminal = ap (λ x. is_terminal x.processing_status) same ∙ k.terminal;
      }

  pub in_uow-On :
      {A : Type 0} (P : A → Store U → Type 0) (m : Work U A) (s : Store U)
      → On P (m s)
      → On P (in_uow m s)
  unfolding in_uow
  in_uow-On {A} P m s h = of_result (m s) h
    where
      of_result : (o : Outcome A × Store U) → On P o → On P (committed s o)
      of_result (done a, t) h = h
      of_result (fault f, t) h = tt
