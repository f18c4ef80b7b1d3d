-- ===== src/Store/Calls.antt =====
-- A request as a computation on the database. What it throws leaves the database to the caller:
-- `transaction` rolls back. Between two statements of a request others may commit: `interleave`.
use coffee_shop_pos_multi_ag.Base.{Bool, Option, none, some, if◌then◌else◌}
use coffee_shop_pos_multi_ag.Failure.{Error, unique_violation, Result, ok, err}
use coffee_shop_pos_multi_ag.Store.{Db}

abbrev pub M : Type 0 → Type 0
M A = Db → Result A × Db

module _ {A : Type 0} where
  abbrev pub pure : A → M A
  pure a db = (ok a, db)

  abbrev pub throw : Error → M A
  throw e db = (err e, db)

  abbrev pub lift : Result A → M A
  lift r db = (r, db)

  abbrev pub gets : (Db → A) → M A
  gets f db = (ok (f db), db)

  -- The value, or what is thrown in its place.
  abbrev pub or_throw : Option A → Error → M A
  or_throw none e db = (err e, db)
  or_throw (some a) e db = (ok a, db)

  abbrev pub transaction : M A → M A
  transaction m db = let (r, db') = m db in elim r [ ok a ↦ (ok a, db') | err e ↦ (err e, db) ]

  -- `try { m } catch (P2002) { handler }`
  abbrev pub catch_unique : M A → M A → M A
  catch_unique m handler db =
      let (r, db') = m db in
      elim r [
        | ok a ↦ (ok a, db')
        | err e ↦ elim e [ unique_violation ↦ handler db' | other ↦ (err other, db') ]
      ]

infixl 5 ◌>>=◌ ◌>>◌
abbrev pub ◌>>=◌ : {A B : Type 0} → M A → (A → M B) → M B
◌>>=◌ m f db = let (r, db') = m db in elim r [ ok a ↦ f a db' | err e ↦ (err e, db') ]

abbrev pub ◌>>◌ : {A B : Type 0} → M A → M B → M B
m >> k = m >>= λ _. k

abbrev pub throw_if : Bool → Error → M (Unit {0})
throw_if c e db = (if c then err e else ok tt, db)

abbrev pub modify : (Db → Db) → M (Unit {0})
modify f db = (ok tt, f db)

-- What other requests commit meanwhile, such as while this one waits for a row lock.
abbrev pub interleave : (Db → Db) → M (Unit {0})
interleave others db = (ok tt, others db)
