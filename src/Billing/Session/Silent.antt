-- ===== src/Billing/Session/Silent.antt =====
-- Code that leaves the session as it is, whether it returns or raises.
use open_aipoject.Prelude.{Bool, true, false, ◌≡◌, refl, sym}
use mathlib.Core.Path.{subst}
use open_aipoject.Billing.Errors.{Result, ok, err, BillingError}
use open_aipoject.Billing.Store.{Db}
use open_aipoject.Billing.Session.{Session, lift, gets, guard, ◌>>=◌}

abbrev pub Silent : {A : Type 0} → Session A → Db → Type 0
Silent m db = (m db).1 ≡ db

module _ {A B : Type 0} where
  pub Silent-bind :
      (m : Session A) (k : A → Session B) (db : Db)
      → Silent m db
      → ((a : A) → Silent (k a) db)
      → Silent (m >>= k) db
  unfolding ◌>>=◌
  Silent-bind m k db h f = after (m db) h
    where
      after : (r : Result A × Db) → r.1 ≡ db → Silent ((λ _. r) >>= k) db
      after (ok a, d) e = subst (λ d'. (k a d').1 ≡ db) (sym e) (f a)
      after (err x, d) e = e

  pub Silent-lift :
      (r : Result A) (k : A → Session B) (db : Db)
      → ((a : A) → r ≡ ok a → Silent (k a) db)
      → Silent (lift r >>= k) db
  unfolding ◌>>=◌
  Silent-lift (ok a) k db h = h a refl
  Silent-lift (err e) k db h = refl

  pub Silent-gets :
      (f : Db → A) (k : A → Session B) (db : Db) → Silent (k (f db)) db → Silent (gets f >>= k) db
  unfolding ◌>>=◌
  Silent-gets f k db h = h

module _ {B : Type 0} where
  pub Silent-guard :
      (b : Bool) (e : BillingError) (k : Unit {0} → Session B) (db : Db)
      → (b ≡ false → Silent (k tt) db)
      → Silent (guard b e >>= k) db
  unfolding ◌>>=◌
  Silent-guard true e k db h = refl
  Silent-guard false e k db h = h refl
