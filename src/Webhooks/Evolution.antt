-- ===== src/Webhooks/Evolution.antt =====
-- How the tables of accounts and subscriptions evolve: nothing is lost, a subscription stays with
-- its account and its last event never becomes older, and a customer is never replaced.
use open_aipoject.Prelude.{
  ◌≤◌, String, ◌≡◌, refl, sym, ◌∙◌, Bool, Option, some, List, ◌∷◌, arith, ◌==◌, if◌then◌else◌, [],
  none, true, false, ℕ,
}
use open_aipoject.Webhooks.Store.{
  Account, Subscription, Store, get_subscription_by_provider_id, get_billing_account_by_id,
  claim_row, claim_accounts,
}
use mathlib.Core.Path.{subst}

abbrev pub TimeLater : Option ℕ → Option ℕ → Type 0
TimeLater none o = Unit
TimeLater (some t) none = ⊥
TimeLater (some t) (some u) = t ≤ u

abbrev pub SubscriptionLater : Option Subscription → Option Subscription → Type 0
SubscriptionLater none o = Unit
SubscriptionLater (some a) none = ⊥
SubscriptionLater (some a) (some b) =
    (b.owner_account ≡ a.owner_account)
    × TimeLater a.last_provider_event_at b.last_provider_event_at

abbrev pub CustomerKept : Option String → Option String → Type 0
CustomerKept none o = Unit
CustomerKept (some c) o = o ≡ some c

abbrev pub AccountLater : Option Account → Option Account → Type 0
AccountLater none o = Unit
AccountLater (some a) none = ⊥
AccountLater (some a) (some b) =
    (b.owner_id ≡ a.owner_id) × CustomerKept a.stripe_customer_id b.stripe_customer_id

-- The tables after some writes, beside those before.
pub record Evolves {U : Type 0} (s t : Store U) : Type 0 where
  pub subscriptions_later :
      (id : String)
      → SubscriptionLater
          (get_subscription_by_provider_id id s.subscriptions)
          (get_subscription_by_provider_id id t.subscriptions)
  pub accounts_later :
      (id : ℕ)
      → AccountLater
          (get_billing_account_by_id id s.accounts)
          (get_billing_account_by_id id t.accounts)

pub time_same : (o : Option ℕ) → TimeLater o o
time_same none = tt
time_same (some t) = omega arith

time_trans : (o p q : Option ℕ) → TimeLater o p → TimeLater p q → TimeLater o q
time_trans none p q h k = tt
time_trans (some t) none q h k = absurd h
time_trans (some t) (some u) none h k = absurd k
time_trans (some t) (some u) (some v) h k = omega (arith, h, k)

pub subscription_same : (o : Option Subscription) → SubscriptionLater o o
subscription_same none = tt
subscription_same (some a) = (refl, time_same a.last_provider_event_at)

subscription_trans :
    (o p q : Option Subscription)
    → SubscriptionLater o p
    → SubscriptionLater p q
    → SubscriptionLater o q
subscription_trans none p q h k = tt
subscription_trans (some a) none q h k = absurd h
subscription_trans (some a) (some b) none h k = absurd k
subscription_trans (some a) (some b) (some c) h k = (
  k.0 ∙ h.0,
  time_trans a.last_provider_event_at b.last_provider_event_at c.last_provider_event_at h.1 k.1,
)

customer_same : (o : Option String) → CustomerKept o o
customer_same none = tt
customer_same (some c) = refl

customer_trans : (o p q : Option String) → CustomerKept o p → CustomerKept p q → CustomerKept o q
customer_trans none p q h k = tt
customer_trans (some c) p q h k = subst (λ x. CustomerKept x q) h k

pub account_same : (o : Option Account) → AccountLater o o
account_same none = tt
account_same (some a) = (refl, customer_same a.stripe_customer_id)

account_trans : (o p q : Option Account) → AccountLater o p → AccountLater p q → AccountLater o q
account_trans none p q h k = tt
account_trans (some a) none q h k = absurd h
account_trans (some a) (some b) none h k = absurd k
account_trans (some a) (some b) (some c) h k = (
  k.0 ∙ h.0,
  customer_trans a.stripe_customer_id b.stripe_customer_id c.stripe_customer_id h.1 k.1,
)

pub Evolves_same : {U : Type 0} (s : Store U) → Evolves s s
Evolves_same s = record {
  subscriptions_later =
      λ id. subscription_same (get_subscription_by_provider_id id s.subscriptions);
  accounts_later = λ id. account_same (get_billing_account_by_id id s.accounts);
}

pub Evolves_trans : {U : Type 0} (s t u : Store U) → Evolves s t → Evolves t u → Evolves s u
Evolves_trans s t u h k = record {
  subscriptions_later = λ id.
      subscription_trans (get_subscription_by_provider_id id s.subscriptions)
        (get_subscription_by_provider_id id t.subscriptions)
        (get_subscription_by_provider_id id u.subscriptions) (h.subscriptions_later id)
        (k.subscriptions_later id);
  accounts_later = λ id.
      account_trans (get_billing_account_by_id id s.accounts)
        (get_billing_account_by_id id t.accounts) (get_billing_account_by_id id u.accounts)
        (h.accounts_later id) (k.accounts_later id);
}

-- The write of an account's customer.
claim_row-later :
    (customer_id : String) (a : Account) (o : Option String)
    → a.stripe_customer_id ≡ o
    → AccountLater (some a) (some (claim_row customer_id a o))
claim_row-later customer_id a none e =
    (refl, subst (λ o. CustomerKept o (some customer_id)) (sym e) tt)
claim_row-later customer_id a (some c) e = account_same (some a)

claim_row-id :
    (customer_id : String) (a : Account) (o : Option String)
    → (claim_row customer_id a o).account_id ≡ a.account_id
claim_row-id customer_id a none = refl
claim_row-id customer_id a (some c) = refl

found_claimed :
    (other : ℕ) (a b : Account) (rest : Option Account)
    → b.account_id ≡ a.account_id
    → AccountLater (some a) (some b)
    → AccountLater
        (if a.account_id == other then some a else rest)
        (if b.account_id == other then some b else rest)
found_claimed other a b rest e h =
    subst
      (λ n.
        AccountLater (if a.account_id == other then some a else rest)
          (if n == other then some b else rest))
      (sym e) (either (a.account_id == other))
  where
    either : (t : Bool) → AccountLater (if t then some a else rest) (if t then some b else rest)
    either true = h
    either false = account_same rest

pub claim_accounts-later :
    (id : ℕ) (customer_id : String) (accounts : List Account) (other : ℕ)
    → AccountLater
        (get_billing_account_by_id other accounts)
        (get_billing_account_by_id other (claim_accounts id customer_id accounts))
claim_accounts-later id customer_id [] other = tt
claim_accounts-later id customer_id (a ∷ accounts) other =
    claimed (a.account_id == id) (claim_accounts-later id customer_id accounts other)
  where
    behind :
        (t : Bool)
        → AccountLater
            (get_billing_account_by_id other accounts)
            (get_billing_account_by_id other (claim_accounts id customer_id accounts))
        → AccountLater (if t then some a else get_billing_account_by_id other accounts) (
            if t
            then some a
            else get_billing_account_by_id other (claim_accounts id customer_id accounts))
    behind true ih = account_same (some a)
    behind false ih = ih

    claimed :
        (b : Bool)
        → AccountLater
            (get_billing_account_by_id other accounts)
            (get_billing_account_by_id other (claim_accounts id customer_id accounts))
        → AccountLater (get_billing_account_by_id other (a ∷ accounts)) (
            get_billing_account_by_id other (
              if b
              then claim_row customer_id a a.stripe_customer_id ∷ accounts
              else a ∷ claim_accounts id customer_id accounts))
    claimed true ih =
        found_claimed other a (claim_row customer_id a a.stripe_customer_id)
          (get_billing_account_by_id other accounts)
          (claim_row-id customer_id a a.stripe_customer_id)
          (claim_row-later customer_id a a.stripe_customer_id refl)
    claimed false ih = behind (a.account_id == other) ih
