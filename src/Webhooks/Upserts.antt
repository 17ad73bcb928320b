-- ===== src/Webhooks/Upserts.antt =====
-- The writes of the service let the tables evolve, and so does every unit of work.
use open_aipoject.Prelude.{
  not, is_some, String, ◌≡◌, sym, ◌∙◌, inl, inr, Bool, ◌&&◌, Option, none, some, List, ◌∷◌, ◌++◌,
  arith, str_eq, eq_iff, ◌==◌, if◌then◌else◌, leb→le, ==_iff, Bool-cases, [], true, false, refl, ℕ,
}
use open_aipoject.Webhooks.Evolution.{
  TimeLater, SubscriptionLater, Evolves, subscription_same, Evolves_same, Evolves_trans,
  claim_accounts-later,
}
use open_aipoject.Webhooks.Rules.{Keeps, dispatch_event-Keeps}
use open_aipoject.Webhooks.Store.{
  Outcome, Subscription, Store, required_text_of, get_subscription_by_provider_id, is_not_after,
  replace_subscription, refused_upsert, upsert_found, with_status, with_plan, upsert_normalized,
  upsert_subscription_snapshot, done, fault, Account, claim_accounts, claim_row, is_customer_taken,
  has_other_live, written_if_unique, integrity_error,
}
use open_aipoject.Webhooks.Service.{claim_stripe_customer_id}
use mathlib.Core.Path.{subst}
use open_aipoject.Webhooks.Dispatch.{Retrieved, EventObject, dispatch_event}

found_replaced :
    (other : String) (a b : Subscription) (rest : Option Subscription)
    → a.subscription_id ≡ b.subscription_id
    → SubscriptionLater (some a) (some b)
    → SubscriptionLater
        (if str_eq a.subscription_id other then some a else rest)
        (if str_eq b.subscription_id other then some b else rest)
found_replaced other a b rest e h =
    subst
      (λ n.
        SubscriptionLater (if str_eq a.subscription_id other then some a else rest)
          (if str_eq n other then some b else rest))
      e (either (str_eq a.subscription_id other))
  where
    either :
        (t : Bool) → SubscriptionLater (if t then some a else rest) (if t then some b else rest)
    either true = h
    either false = subscription_same rest

replace-later :
    (new existing : Subscription) (ss : List Subscription) (other : String)
    → get_subscription_by_provider_id new.subscription_id ss ≡ some existing
    → SubscriptionLater (some existing) (some new)
    → SubscriptionLater
        (get_subscription_by_provider_id other ss)
        (get_subscription_by_provider_id other (replace_subscription new ss))
replace-later new existing [] other e h = tt
replace-later new existing (s ∷ ss) other e h =
    replaced (str_eq s.subscription_id new.subscription_id) refl e
      (λ k. replace-later new existing ss other k h)
  where
    behind :
        (t : Bool)
        → SubscriptionLater
            (get_subscription_by_provider_id other ss)
            (get_subscription_by_provider_id other (replace_subscription new ss))
        → SubscriptionLater (if t then some s else get_subscription_by_provider_id other ss) (
            if t
            then some s
            else get_subscription_by_provider_id other (replace_subscription new ss))
    behind true ih = subscription_same (some s)
    behind false ih = ih

    replaced :
        (b : Bool)
        → str_eq s.subscription_id new.subscription_id ≡ b
        → (if b then some s else get_subscription_by_provider_id new.subscription_id ss)
          ≡ some existing
        → (get_subscription_by_provider_id new.subscription_id ss ≡ some existing
            → SubscriptionLater
                (get_subscription_by_provider_id other ss)
                (get_subscription_by_provider_id other (replace_subscription new ss)))
        → SubscriptionLater (get_subscription_by_provider_id other (s ∷ ss)) (
            get_subscription_by_provider_id other
              (if b then new ∷ ss else s ∷ replace_subscription new ss))
    replaced true t e ih =
        found_replaced other s new (get_subscription_by_provider_id other ss)
          ((eq_iff s.subscription_id new.subscription_id).0 t)
          (subst (λ o. SubscriptionLater o (some new)) (sym e) h)
    replaced false t e ih = behind (str_eq s.subscription_id other) (ih e)

append-later :
    (new : Subscription) (ss : List Subscription) (other : String)
    → SubscriptionLater
        (get_subscription_by_provider_id other ss)
        (get_subscription_by_provider_id other (ss ++ (new ∷ [])))
append-later new [] other = tt
append-later new (s ∷ ss) other = elim (Bool-cases (str_eq s.subscription_id other)) [
  | inl h ↦ rw h (subscription_same (some s))
  | inr h ↦ rw h (append-later new ss other)
]

not_after-later :
    (stored : Option ℕ) (at : ℕ) (last : Option ℕ)
    → last ≡ some at
    → is_not_after stored at ≡ true
    → TimeLater stored last
not_after-later none at last e h = tt
not_after-later (some t) at last e h = subst (TimeLater (some t)) (sym e) (leb→le t at h)

both : (a b : Bool) → a && b ≡ true → (a ≡ true) × (b ≡ true)
both true b e = (refl, e)
both false b e = cc

if_unique :
    (new : Subscription) (ss after : List Subscription) (other : String)
    → SubscriptionLater
        (get_subscription_by_provider_id other ss)
        (get_subscription_by_provider_id other after)
    → SubscriptionLater
        (get_subscription_by_provider_id other ss)
        (get_subscription_by_provider_id other (written_if_unique new ss after).1)
if_unique new ss after other h = either (has_other_live new ss)
  where
    either :
        (b : Bool)
        → let r : Outcome Subscription × List Subscription =
            if b then (fault integrity_error, ss) else (done new, after) in
          SubscriptionLater
            (get_subscription_by_provider_id other ss)
            (get_subscription_by_provider_id other r.1)
    either true = subscription_same (get_subscription_by_provider_id other ss)
    either false = h

upsert_found-later :
    (new : Subscription) (at : ℕ) (ss : List Subscription) (found : Option Subscription)
    (other : String)
    → get_subscription_by_provider_id new.subscription_id ss ≡ found
    → new.last_provider_event_at ≡ some at
    → SubscriptionLater
        (get_subscription_by_provider_id other ss)
        (get_subscription_by_provider_id other (upsert_found new at ss found).1)
upsert_found-later new at ss none other e h = if_unique new ss _ other (append-later new ss other)
upsert_found-later new at ss (some existing) other e h =
    when_written
      ((existing.owner_account == new.owner_account)
        && is_not_after existing.last_provider_event_at at)
      refl
  where
    when_written :
        (b : Bool)
        → (existing.owner_account == new.owner_account)
            && is_not_after existing.last_provider_event_at at
          ≡ b
        → let r : Outcome Subscription × List Subscription =
            if b
            then written_if_unique new ss (replace_subscription new ss)
            else (refused_upsert new at existing, ss) in
          SubscriptionLater
            (get_subscription_by_provider_id other ss)
            (get_subscription_by_provider_id other r.1)
    when_written true k =
        let p = both (existing.owner_account == new.owner_account) _ k in
        if_unique new ss _ other (
          replace-later new existing ss other e (
            sym ((==_iff existing.owner_account new.owner_account).0 p.0),
            not_after-later existing.last_provider_event_at at new.last_provider_event_at h p.1,
          ))
    when_written false k = subscription_same (get_subscription_by_provider_id other ss)

with_plan-last :
    (new : Subscription) (plan : Outcome String) (written : Subscription)
    → with_plan new plan ≡ done written
    → written.last_provider_event_at ≡ new.last_provider_event_at
with_plan-last new (fault f) written e = cc
with_plan-last new (done plan) written e = of_status (required_text_of new.subscription_status) e
  where
    of_status :
        (status : Outcome String)
        → with_status new plan status ≡ done written
        → written.last_provider_event_at ≡ new.last_provider_event_at
    of_status (fault f) e = cc
    of_status (done status) e = ground arith

upsert-later :
    (new : Subscription) (at : ℕ) (ss : List Subscription) (other : String)
    → new.last_provider_event_at ≡ some at
    → SubscriptionLater
        (get_subscription_by_provider_id other ss)
        (get_subscription_by_provider_id other (upsert_subscription_snapshot new at ss).1)
unfolding upsert_subscription_snapshot
upsert-later new at ss other h = of_normalized (with_plan new (required_text_of new.plan_code)) refl
  where
    of_normalized :
        (o : Outcome Subscription)
        → with_plan new (required_text_of new.plan_code) ≡ o
        → SubscriptionLater
            (get_subscription_by_provider_id other ss)
            (get_subscription_by_provider_id other (upsert_normalized o at ss).1)
    of_normalized (fault f) e = subscription_same (get_subscription_by_provider_id other ss)
    of_normalized (done written) e =
        upsert_found-later written at ss _ other refl
          (with_plan-last new (required_text_of new.plan_code) written e ∙ h)

-- A claim of a customer is refused or written.
claim_either :
    {U : Type 0} (R : Store U → Store U → Type 0) (resolve : ℕ → ℕ → U → Outcome U) (grace : ℕ)
    (account : Account) (customer_id : String) (s : Store U)
    → R s s
    → R s (record s { accounts = claim_accounts account.account_id customer_id s.accounts })
    → R s (claim_stripe_customer_id resolve grace account customer_id s).1
claim_either {U} R resolve grace account customer_id s h k = either (
    not (is_some account.stripe_customer_id)
    && is_customer_taken account.account_id customer_id s.accounts)
  where
    either :
        (b : Bool)
        → let r : Outcome Account × Store U = if b then (fault integrity_error, s) else (
          done (claim_row customer_id account account.stripe_customer_id),
          record s { accounts = claim_accounts account.account_id customer_id s.accounts },
        ) in
          R s r.1
    either true = h
    either false = k

module _ {U : Type 0} (resolve : ℕ → ℕ → U → Outcome U) (grace : ℕ) where
  pub dispatch_event-Evolves :
      (event_type : String) (object : EventObject) (created_at : ℕ) (retrieved : Option Retrieved)
      (effective_at : ℕ)
      → Keeps Evolves Evolves_same Evolves_trans
          (dispatch_event resolve grace event_type object created_at retrieved effective_at)
  dispatch_event-Evolves =
      dispatch_event-Keeps Evolves Evolves_same Evolves_trans resolve grace
        (λ account customer_id s.
          claim_either Evolves resolve grace account customer_id s (Evolves_same s) (record {
            subscriptions_later = (Evolves_same s).subscriptions_later;
            accounts_later = claim_accounts-later account.account_id customer_id s.accounts;
          }))
        (λ snapshot at h s. record {
          subscriptions_later = λ id. upsert-later snapshot at s.subscriptions id h;
          accounts_later = (Evolves_same s).accounts_later;
        })
        (λ s usage. record {
          subscriptions_later = (Evolves_same s).subscriptions_later;
          accounts_later = (Evolves_same s).accounts_later;
        })

  pub dispatch_event-events :
      (event_type : String) (object : EventObject) (created_at : ℕ) (retrieved : Option Retrieved)
      (effective_at : ℕ) (s : Store U)
      → (dispatch_event resolve grace event_type object created_at retrieved effective_at
          s).1.events
        ≡ s.events
  dispatch_event-events =
      dispatch_event-Keeps (λ s t. t.events ≡ s.events) (λ s. refl) (λ s t u h k. k ∙ h) resolve
        grace
        (λ account customer_id s.
          claim_either (λ s t. t.events ≡ s.events) resolve grace account customer_id s refl refl)
        (λ snapshot at h s. refl) (λ s usage. refl)
