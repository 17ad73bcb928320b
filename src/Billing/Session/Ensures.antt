-- ===== src/Billing/Session/Ensures.antt =====
-- What holds of the value and the session when code returns; nothing is said of a raise.
use open_aipoject.Prelude.{Bool, true, false, Option, none, some, ◌≡◌, refl, sym, if◌then◌else◌}
use mathlib.Core.Path.{subst}
use open_aipoject.Billing.Errors.{Result, ok, err, BillingError}
use open_aipoject.Billing.Store.{Db}
use open_aipoject.Billing.Session.{
  Session, lift, gets, or_raise, or_configuration, or_configuration_unless, guard, ◌>>=◌,
}

abbrev pub Ensures : {A : Type 0} → (A → Db → Type 0) → Result A × Db → Type 0
Ensures Q (ok a, db) = Q a db
Ensures Q (err e, db) = Unit

pub Ensures-mono :
    {A : Type 0} (P Q : A → Db → Type 0) (r : Result A × Db)
    → ((a : A) (db : Db) → P a db → Q a db)
    → Ensures P r
    → Ensures Q r
Ensures-mono P Q (ok a, db) h p = h a db p
Ensures-mono P Q (err e, db) h p = tt

module _ {A : Type 0} (Q : A → Db → Type 0) where
  pub Ensures-lift :
      (r : Result A) (db : Db) → ((a : A) → r ≡ ok a → Q a db) → Ensures Q (lift r db)
  Ensures-lift (ok a) db h = h a refl
  Ensures-lift (err e) db h = tt

  pub Ensures-or_raise :
      (e : BillingError) (o : Option A) (db : Db)
      → ((a : A) → o ≡ some a → Q a db)
      → Ensures Q (or_raise e o db)
  Ensures-or_raise e none db h = tt
  Ensures-or_raise e (some a) db h = h a refl

  converted-Ensures : (r : Result A × Db) → Ensures Q r → Ensures Q (or_configuration (λ _. r) r.1)
  unfolding or_configuration
  converted-Ensures (ok a, db) h = h
  converted-Ensures (err e, db) h = tt

  pub Ensures-or_configuration :
      (m : Session A) (db : Db) → Ensures Q (m db) → Ensures Q (or_configuration m db)
  unfolding or_configuration
  Ensures-or_configuration m db h = converted-Ensures (m db) h

module _ {A : Type 0} (Q : A → Db → Type 0) (keep : BillingError → Bool) where
  converted_unless-Ensures :
      (r : Result A × Db) → Ensures Q r → Ensures Q (or_configuration_unless keep (λ _. r) r.1)
  unfolding or_configuration_unless
  converted_unless-Ensures (ok a, db) h = h
  converted_unless-Ensures (err e, db) h = tt

  pub Ensures-or_configuration_unless :
      (m : Session A) (db : Db) → Ensures Q (m db) → Ensures Q (or_configuration_unless keep m db)
  unfolding or_configuration_unless
  Ensures-or_configuration_unless m db h = converted_unless-Ensures (m db) h

module _ {A B : Type 0} (P : A → Db → Type 0) (Q : B → Db → Type 0) where
  continue-Ensures :
      (r : Result A × Db) (f : A → Session B)
      → Ensures P r
      → ((a : A) (db : Db) → P a db → Ensures Q (f a db))
      → Ensures Q (((λ _. r) >>= f) r.1)
  unfolding ◌>>=◌
  continue-Ensures (ok a, db) f h k = k a db h
  continue-Ensures (err e, db) f h k = tt

  -- The rule for a `do` block: `P` holds between its first step and the rest.
  pub Ensures-bind :
      (m : Session A) (f : A → Session B) (db : Db)
      → Ensures P (m db)
      → ((a : A) (db' : Db) → P a db' → Ensures Q (f a db'))
      → Ensures Q ((m >>= f) db)
  unfolding ◌>>=◌
  Ensures-bind m f db h k = continue-Ensures (m db) f h k

-- The rules for the steps that leave the session as it is.
module _ {A B : Type 0} (Q : B → Db → Type 0) where
  pub lift-bind :
      (r : Result A) (k : A → Session B) (db : Db)
      → ((a : A) → r ≡ ok a → Ensures Q (k a db))
      → Ensures Q ((lift r >>= k) db)
  unfolding ◌>>=◌
  lift-bind (ok a) k db h = h a refl
  lift-bind (err e) k db h = tt

  pub or_raise-bind :
      (e : BillingError) (o : Option A) (k : A → Session B) (db : Db)
      → ((a : A) → o ≡ some a → Ensures Q (k a db))
      → Ensures Q ((or_raise e o >>= k) db)
  unfolding ◌>>=◌
  or_raise-bind e none k db h = tt
  or_raise-bind e (some a) k db h = h a refl

  pub gets-bind :
      (f : Db → A) (k : A → Session B) (db : Db)
      → Ensures Q (k (f db) db)
      → Ensures Q ((gets f >>= k) db)
  unfolding ◌>>=◌
  gets-bind f k db h = h

  -- A step that only reads.
  pub reads-bind :
      (m : Session A) (k : A → Session B) (db : Db)
      → Ensures (λ _ db'. db' ≡ db) (m db)
      → ((a : A) → Ensures Q (k a db))
      → Ensures Q ((m >>= k) db)
  reads-bind m k db h f =
      Ensures-bind (λ _ db'. db' ≡ db) Q m k db h
        (λ a db' e. subst (λ d. Ensures Q (k a d)) (sym e) (f a))

module _ {B : Type 0} (Q : B → Db → Type 0) where
  pub guard-bind :
      (b : Bool) (e : BillingError) (k : Unit {0} → Session B) (db : Db)
      → (b ≡ false → Ensures Q (k tt db))
      → Ensures Q ((guard b e >>= k) db)
  unfolding ◌>>=◌
  guard-bind true e k db h = tt
  guard-bind false e k db h = h refl

module _ {A : Type 0} (Q : A → Db → Type 0) where
  pub Ensures-if :
      (b : Bool) (m k : Session A) (db : Db)
      → (b ≡ true → Ensures Q (m db))
      → (b ≡ false → Ensures Q (k db))
      → Ensures Q ((if b then m else k) db)
  Ensures-if true m k db h g = h refl
  Ensures-if false m k db h g = g refl
