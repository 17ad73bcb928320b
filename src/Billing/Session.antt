-- ===== src/Billing/Session.antt =====
-- Code that runs in a database session and may raise: what was written before a raise stays in the
-- session, and `db_uow` of server/persistence.py undoes it.
pub mod Ensures
pub mod Steps
pub mod Silent
use open_aipoject.Prelude.{Bool, true, false, Option, none, some, if◌then◌else◌}
use open_aipoject.Billing.Errors.{Result, ok, err, BillingError, configuration}
use open_aipoject.Billing.Store.{Db}

abbrev pub Session : Type 0 → Type 0
Session A = Db → Result A × Db

module _ {A : Type 0} where
  abbrev pub pure : A → Session A
  pure a db = (ok a, db)

  abbrev pub raise : BillingError → Session A
  raise e db = (err e, db)

  abbrev pub lift : Result A → Session A
  lift r db = (r, db)

  abbrev pub gets : (Db → A) → Session A
  gets f db = (ok (f db), db)

  abbrev pub or_raise : BillingError → Option A → Session A
  or_raise e none db = (err e, db)
  or_raise e (some a) db = (ok a, db)

  abbrev converted : Result A × Db → Result A × Db
  converted (ok a, db) = (ok a, db)
  converted (err e, db) = (err configuration, db)

  -- `try: ... except Exception as exc: raise BillingConfigurationError(...) from exc`
  unfoldable pub or_configuration : Session A → Session A
  or_configuration m db = converted (m db)

  abbrev converted_unless : (BillingError → Bool) → Result A × Db → Result A × Db
  converted_unless keep (ok a, db) = (ok a, db)
  converted_unless keep (err e, db) = (err (if keep e then e else configuration), db)

  -- The same behind an `except` clause that raises some exceptions again.
  unfoldable pub or_configuration_unless : (BillingError → Bool) → Session A → Session A
  or_configuration_unless keep m db = converted_unless keep (m db)

  -- `db_uow` of server/persistence.py: commit on success, roll back on an exception. `before` is
  -- what there is without the session's own writes.
  unfoldable pub db_uow : Db → Result A × Db → Db
  db_uow before (ok a, db) = db
  db_uow before (err e, db) = before

module _ {A B : Type 0} where
  abbrev continue : Result A × Db → (A → Session B) → Result B × Db
  continue (ok a, db) f = f a db
  continue (err e, db) f = (err e, db)

  infixl 5 ◌>>=◌ ◌>>◌
  unfoldable pub ◌>>=◌ : Session A → (A → Session B) → Session B
  ◌>>=◌ m f db = continue (m db) f

  abbrev pub ◌>>◌ : Session A → Session B → Session B
  m >> k = m >>= λ _. k

abbrev pub guard : Bool → BillingError → Session (Unit {0})
guard c e db = ((if c then err e else ok tt), db)

abbrev pub modify : (Db → Db) → Session (Unit {0})
modify f db = (ok tt, f db)
