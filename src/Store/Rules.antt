-- ===== src/Store/Rules.antt =====
-- Proof rules for requests: a call keeps an invariant of the database on every path, and its value
-- meets a postcondition where it returns one.
use coffee_shop_pos_multi_ag.Base.{Bool, true, false, if◌then◌else◌, ◌≡◌, refl, Option, none, some}
use coffee_shop_pos_multi_ag.Failure.{
  Error, type_error, record_missing, range_error, unique_violation, correction_violation, Result,
  ok, err,
}
use coffee_shop_pos_multi_ag.Store.{Db}
use coffee_shop_pos_multi_ag.Store.Calls.{
  M, lift, or_throw, transaction, catch_unique, ◌>>=◌, throw_if,
}

-- `others` stands for requests that keep the invariant themselves.
abbrev pub Keeps : (Db → Type 0) → (Db → Db) → Type 0
Keeps I f = (db : Db) → I db → I (f db)

abbrev pub Post : {A : Type 0} → (Db → Type 0) → (A → Db → Type 0) → Result A × Db → Type 0
Post I Q (ok a, db) = I db × Q a db
Post I Q (err e, db) = I db

module _ {A : Type 0} (I : Db → Type 0) (Q : A → Db → Type 0) where
  pub Post-keeps : (r : Result A × Db) → Post I Q r → I r.1
  Post-keeps (ok a, db) h = h.0
  Post-keeps (err e, db) h = h

  pub Post-if :
      (c : Bool) (m n : M A) (db : Db)
      → (c ≡ true → Post I Q (m db))
      → (c ≡ false → Post I Q (n db))
      → Post I Q ((if c then m else n) db)
  Post-if true m n db h k = h refl
  Post-if false m n db h k = k refl

  pub Post-transaction : (m : M A) (db : Db) → I db → Post I Q (m db) → Post I Q (transaction m db)
  Post-transaction m db i h = go (m db) h
    where
      go :
          (r : Result A × Db)
          → Post I Q r
          → Post I Q (let (x, db') = r in elim x [ ok a ↦ (ok a, db') | err e ↦ (err e, db) ])
      go (ok a, db') h = h
      go (err e, db') h = i

  pub Post-catch :
      (m handler : M A) (db : Db)
      → Post I Q (m db)
      → ((db' : Db) → I db' → Post I Q (handler db'))
      → Post I Q (catch_unique m handler db)
  Post-catch m handler db h k = go (m db) h
    where
      go :
          (r : Result A × Db)
          → Post I Q r
          → Post I Q (
              let (x, db') = r in
              elim x [
                | ok a ↦ (ok a, db')
                | err e ↦ elim e [ unique_violation ↦ handler db' | other ↦ (err other, db') ]
              ])
      go (ok a, db') h = h
      go (err unique_violation, db') h = k db' h
      go (err type_error, db') h = h
      go (err record_missing, db') h = h
      go (err range_error, db') h = h
      go (err correction_violation, db') h = h
      go (err (Error.bad_request m'), db') h = h
      go (err (Error.conflict m'), db') h = h
      go (err (Error.forbidden m'), db') h = h
      go (err (Error.not_found m'), db') h = h

pub Post-mono :
    {A : Type 0} (I : Db → Type 0) (Q R : A → Db → Type 0) (r : Result A × Db)
    → Post I Q r
    → ((a : A) (db : Db) → I db → Q a db → R a db)
    → Post I R r
Post-mono I Q R (ok a, db) h k = (h.0, k a db h.0 h.1)
Post-mono I Q R (err e, db) h k = h

pub Post-whole :
    {A : Type 0} (I : Db → Type 0) (Q : A → Db → Type 0) (r : Result A × Db)
    → Post I Q r
    → Post (λ _. Unit {0}) (λ a db. I db × Q a db) r
Post-whole I Q (ok a, db) h = (tt, h)
Post-whole I Q (err e, db) h = tt

-- A transaction that restores the invariant where it commits.
pub Post-transaction_of :
    {A : Type 0} (I : Db → Type 0) (Q : A → Db → Type 0) (m : M A) (db : Db)
    → I db
    → Post (λ _. Unit {0}) (λ a db'. I db' × Q a db') (m db)
    → Post I Q (transaction m db)
Post-transaction_of {A} I Q m db i h = go (m db) h
  where
    go :
        (r : Result A × Db)
        → Post (λ _. Unit {0}) (λ a db'. I db' × Q a db') r
        → Post I Q (let (x, db') = r in elim x [ ok a ↦ (ok a, db') | err e ↦ (err e, db) ])
    go (ok a, db') h = h.1
    go (err e, db') h = i

module _ {A B : Type 0} (I : Db → Type 0) (Q : A → Db → Type 0) (R : B → Db → Type 0) where
  pub Post-bind :
      (m : M A) (f : A → M B) (db : Db)
      → Post I Q (m db)
      → ((a : A) (db' : Db) → I db' → Q a db' → Post I R (f a db'))
      → Post I R ((m >>= f) db)
  Post-bind m f db h k = go (m db) h
    where
      go :
          (r : Result A × Db)
          → Post I Q r
          → Post I R (let (x, db') = r in elim x [ ok a ↦ f a db' | err e ↦ (err e, db') ])
      go (ok a, db') h = k a db' h.0 h.1
      go (err e, db') h = h

-- The steps that only look: they leave the database to what follows.
module _ {A B : Type 0} (I : Db → Type 0) (R : B → Db → Type 0) where
  pub Post-or_throw :
      (o : Option A) (e : Error) (f : A → M B) (db : Db)
      → I db
      → ((a : A) → o ≡ some a → Post I R (f a db))
      → Post I R ((or_throw o e >>= f) db)
  Post-or_throw none e f db i k = i
  Post-or_throw (some a) e f db i k = k a refl

  pub Post-lift :
      (r : Result A) (f : A → M B) (db : Db)
      → I db
      → ((a : A) → r ≡ ok a → Post I R (f a db))
      → Post I R ((lift r >>= f) db)
  Post-lift (ok a) f db i k = k a refl
  Post-lift (err e) f db i k = i

pub Post-throw_if :
    {B : Type 0} (I : Db → Type 0) (R : B → Db → Type 0) (c : Bool) (e : Error) (f : Unit {0} → M B)
    (db : Db)
    → I db
    → (c ≡ false → Post I R (f tt db))
    → Post I R ((throw_if c e >>= f) db)
Post-throw_if I R true e f db i k = i
Post-throw_if I R false e f db i k = k refl
