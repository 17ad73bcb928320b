-- ===== src/Webhooks/Work.antt =====
-- Code of the webhook service in a database session: it reads and writes the tables and may raise.
-- What was written before an exception is undone by the unit of work that it stands in.
use open_aipoject.Prelude.{Option, none, some, Bool, true, false}
use open_aipoject.Webhooks.Store.{Store, Outcome, done, fault, Fault}

abbrev pub Work : Type 0 → Type 0 → Type 0
Work U A = Store U → Outcome A × Store U

module _ {U A : Type 0} where
  abbrev pub pure : A → Work U A
  pure a s = (done a, s)

  abbrev pub raise : Fault → Work U A
  raise f s = (fault f, s)

  abbrev pub lift : Outcome A → Work U A
  lift o s = (o, s)

  abbrev pub gets : (Store U → A) → Work U A
  gets f s = (done (f s), s)

  abbrev pub or_raise : Fault → Option A → Work U A
  or_raise f none s = (fault f, s)
  or_raise f (some a) s = (done a, s)

  -- `with uow_factory() as db`: commit on success, roll back on an exception.
  abbrev pub committed : Store U → Outcome A × Store U → Outcome A × Store U
  committed before (done a, s) = (done a, s)
  committed before (fault f, s) = (fault f, before)

  unfoldable pub in_uow : Work U A → Work U A
  in_uow m s = committed s (m s)

module _ {U A B : Type 0} where
  abbrev pub continue_with : Outcome A × Store U → (A → Work U B) → Outcome B × Store U
  continue_with (done a, s) f = f a s
  continue_with (fault e, s) f = (fault e, s)

  infixl 5 ◌>>=◌ ◌>>◌
  unfoldable pub ◌>>=◌ : Work U A → (A → Work U B) → Work U B
  ◌>>=◌ m f s = continue_with (m s) f

  unfoldable pub ◌>>◌ : Work U A → Work U B → Work U B
  unfolding ◌>>=◌
  m >> k = m >>= λ _. k

module _ {U : Type 0} where
  abbrev pub require : Bool → Fault → Work U (Unit {0})
  require true f s = (done tt, s)
  require false f s = (fault f, s)
