-- ===== src/Billing/Session/Steps.antt =====
-- What code does after a step whose outcome is known.
use open_aipoject.Prelude.{◌≡◌, ap, Bool}
use open_aipoject.Billing.Errors.{ok, err, BillingError}
use open_aipoject.Billing.Store.{Db}
use open_aipoject.Billing.Session.{Session, or_configuration, or_configuration_unless, ◌>>=◌}

module _ {A B : Type 0} (k : A → Session B) where
  pub bind_ok :
      (m : Session A) (db : Db) {a : A} {db' : Db} → m db ≡ (ok a, db') → (m >>= k) db ≡ k a db'
  unfolding ◌>>=◌
  bind_ok m db h = ap (λ r. ((λ _. r) >>= k) db) h

  pub bind_err :
      (m : Session A) (db : Db) {e : BillingError} {db' : Db}
      → m db ≡ (err e, db')
      → (m >>= k) db ≡ (err e, db')
  unfolding ◌>>=◌
  bind_err m db h = ap (λ r. ((λ _. r) >>= k) db) h

module _ {A : Type 0} where
  pub or_configuration_ok :
      (m : Session A) (db : Db) {a : A} {db' : Db}
      → m db ≡ (ok a, db')
      → or_configuration m db ≡ (ok a, db')
  unfolding or_configuration
  or_configuration_ok m db h = ap (λ r. or_configuration (λ _. r) db) h

  pub or_configuration_unless_ok :
      (keep : BillingError → Bool) (m : Session A) (db : Db) {a : A} {db' : Db}
      → m db ≡ (ok a, db')
      → or_configuration_unless keep m db ≡ (ok a, db')
  unfolding or_configuration_unless
  or_configuration_unless_ok keep m db h = ap (λ r. or_configuration_unless keep (λ _. r) db) h
