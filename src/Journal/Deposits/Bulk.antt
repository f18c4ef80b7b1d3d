-- ===== src/Journal/Deposits/Bulk.antt =====
-- A bulk of deposits records all its days or none (`createDepositsBulk`).
use coffee_shop_pos_multi_ag.Base.{
  ℕ, ◌+◌, ◌≡◌, refl, sym, ◌∙◌, ap, Bool, true, false, not, ◌&&◌, ◌||◌, List, [], ◌∷◌, filter, find?,
  any, map, ◌==◌, ℤ, Bool-cases, Option-cases, inl, inr, ◌⊎◌, arith, find?-sound,
}
use mathlib.Core.Path.{subst}
use coffee_shop_pos_multi_ag.Failure.{
  Error, type_error, record_missing, range_error, unique_violation, correction_violation, Result,
  ok, err, bad_request, conflict, repeated_date, before_ledger_start, day_not_closed,
  conflicting_deposits,
}
use coffee_shop_pos_multi_ag.Date.{Date, date_eq, date_before}
use coffee_shop_pos_multi_ag.Store.{Db}
use coffee_shop_pos_multi_ag.Store.Journal.{JournalLedger, JournalDeposit}
use coffee_shop_pos_multi_ag.Store.Calls.{
  M, pure, lift, throw, transaction, catch_unique, interleave, ◌>>=◌, ◌>>◌, throw_if,
}
use coffee_shop_pos_multi_ag.Store.Rules.{Post, Post-bind}
use coffee_shop_pos_multi_ag.Dict.{has}
use coffee_shop_pos_multi_ag.Reporting.Daily.{get_closed_daily_gross, date_key}
use coffee_shop_pos_multi_ag.Reporting.Sums.{filter-filter, filter_ext}
use coffee_shop_pos_multi_ag.Journal.{require_ledger}
use coffee_shop_pos_multi_ag.Journal.Deposits.{
  JournalDepositDto, earliest, latest, assert_eligible_dates, new_deposit, deposit_clashes,
  insert_deposit, insert_by_date, sort_by_date, repeats_date, insert_deposits, all_eligible,
  create_deposits_bulk,
}
use coffee_shop_pos_multi_ag.Journal.Missing.{has_deposit, without_deposit}

abbrev pub on_date : Date → JournalDepositDto → Bool
on_date date x = date_eq x.business_date date

abbrev Nothing : Db → Type 0
Nothing db = Unit {0}

-- The days of a ledger that have a deposit after `xs`, from those before.
abbrev Adds : ℕ → List JournalDepositDto → List JournalDeposit → List JournalDeposit → Type 0
Adds ledger_id xs before after =
    (date : Date)
    → has_deposit ledger_id date after
      ≡ (any (on_date date) xs || has_deposit ledger_id date before)

insert_deposit-Post :
    (row : JournalDeposit) (db : Db)
    → Post Nothing
        (λ _ db'. db'.journal_deposits ≡ row ∷ db.journal_deposits)
        (insert_deposit row db)
unfolding insert_deposit
insert_deposit-Post row db = elim (Bool-cases (any (deposit_clashes row) db.journal_deposits)) [
  | inl clash ↦ rw clash tt
  | inr free ↦ rw free (tt, refl)
]

insert_deposits-Post :
    (ids : ℕ → ℕ) (n : ℕ) (ledger : JournalLedger) (xs : List JournalDepositDto) (user_id : ℕ)
    (db : Db)
    → Post Nothing
        (λ _ db'. Adds ledger.id xs db.journal_deposits db'.journal_deposits)
        (insert_deposits ids n ledger xs user_id db)
unfolding insert_deposits new_deposit
insert_deposits-Post ids n ledger [] user_id db = (tt, λ date. refl)
insert_deposits-Post ids n ledger (x ∷ xs) user_id db =
    let row = new_deposit (ids n) ledger x user_id in
    Post-bind Nothing (λ _ db'. db'.journal_deposits ≡ row ∷ db.journal_deposits)
      (λ _ db'. Adds ledger.id (x ∷ xs) db.journal_deposits db'.journal_deposits)
      (insert_deposit row) _ db (insert_deposit-Post row db)
      (λ saved db1 u first.
        Post-bind Nothing (λ _ db'. Adds ledger.id xs db1.journal_deposits db'.journal_deposits)
          (λ _ db'. Adds ledger.id (x ∷ xs) db.journal_deposits db'.journal_deposits)
          (insert_deposits ids (n + 1) ledger xs user_id) (λ rows. pure (saved ∷ rows)) db1
          (insert_deposits-Post ids (n + 1) ledger xs user_id db1)
          (λ _ db2 v rest. (tt, λ date. rest date ∙ (rw first (both date)))))
  where
    both :
        (date : Date)
        → (any (on_date date) xs
            || has_deposit ledger.id date
                (new_deposit (ids n) ledger x user_id ∷ db.journal_deposits))
          ≡ (any (on_date date) (x ∷ xs) || has_deposit ledger.id date db.journal_deposits)
    both date = ground arith

-- Sorting keeps the days.
any-insert_by_date :
    (date : Date) (x : JournalDepositDto) (xs : List JournalDepositDto)
    → any (on_date date) (insert_by_date x xs) ≡ (on_date date x || any (on_date date) xs)
unfolding insert_by_date
any-insert_by_date date x [] = refl
any-insert_by_date date x (y ∷ ys) = ground (arith, any-insert_by_date date x ys)

any-sort_by_date :
    (date : Date) (xs : List JournalDepositDto)
    → any (on_date date) (sort_by_date xs) ≡ any (on_date date) xs
unfolding sort_by_date
any-sort_by_date date [] = refl
any-sort_by_date date (x ∷ xs) =
    any-insert_by_date date x (sort_by_date xs)
    ∙ ap (λ b. on_date date x || b) (any-sort_by_date date xs)

-- What a bulk may come to: an error that leaves the deposits, as others left them, or all of its days.
abbrev pub IsWhole :
    ℕ
    → List JournalDepositDto
    → (closed : List (Date × ℤ)) → (Db → Db)
    → Db
    → Result (List JournalDeposit) × Db
    → Type 0
IsWhole ledger_id xs closed others db (err e, db') = (db' ≡ db) ⊎ (db' ≡ others db)
IsWhole ledger_id xs closed others db (ok rows, db') =
    without_deposit ledger_id db'.journal_deposits closed
    ≡ filter (λ day. not (any (on_date day.0) xs))
        (without_deposit ledger_id (others db).journal_deposits closed)

without_deposit-Adds :
    (ledger_id : ℕ) (xs : List JournalDepositDto) (before after : List JournalDeposit)
    (closed : List (Date × ℤ))
    → Adds ledger_id (sort_by_date xs) before after
    → without_deposit ledger_id after closed
      ≡ filter (λ day. not (any (on_date day.0) xs)) (without_deposit ledger_id before closed)
unfolding without_deposit
without_deposit-Adds ledger_id xs before after closed h =
    filter_ext (λ day. not (has_deposit ledger_id day.0 after))
      (λ day. not (has_deposit ledger_id day.0 before) && not (any (on_date day.0) xs)) closed
      (λ day. rw (h day.0, any-sort_by_date day.0 xs) (de_morgan _ _))
    ∙ sym (
        filter-filter (λ day. not (has_deposit ledger_id day.0 before))
          (λ day. not (any (on_date day.0) xs)) closed)
  where
    de_morgan : (a b : Bool) → not (a || b) ≡ (not b && not a)
    de_morgan a b = ground arith

throw_if-Post :
    (b : Bool) (e : Error) (db : Db) → Post (λ db'. db' ≡ db) (λ _ _. Unit {0}) (throw_if b e db)
throw_if-Post true e db = refl
throw_if-Post false e db = (refl, tt)

-- The checks of `assertEligibleDepositDates` only look.
looks :
    {A : Type 0} (c : Bool) (e : Error) (f : Db → Result A) (d : A → Bool) (e' : Error) (db : Db)
    → Post
        (λ db'. db' ≡ db)
        (λ _ _. Unit {0})
        ((throw_if c e >> ((λ db'. lift (f db') db') >>= λ a. throw_if (d a) e')) db)
looks true e f d e' db = refl
looks {A} false e f d e' db = read (f db)
  where
    read :
        (r : Result A)
        → Post (λ db'. db' ≡ db) (λ _ _. Unit {0}) ((lift r >>= λ a. throw_if (d a) e') db)
    read (err e1) = refl
    read (ok a) = throw_if-Post (d a) e' db

pub all_eligible-Post :
    (ledger : JournalLedger) (rows : List JournalDepositDto) (db : Db)
    → Post (λ d. d ≡ db) (λ _ _. Unit {0}) (all_eligible ledger rows db)
unfolding assert_eligible_dates
all_eligible-Post ledger [] db = (refl, tt)
all_eligible-Post ledger (x ∷ xs) db =
    let dates = map (λ y. y.business_date) xs in
    looks (any (λ d. date_before d ledger.start_date) (x.business_date ∷ dates))
      (bad_request before_ledger_start)
      (get_closed_daily_gross (earliest x.business_date dates) (latest x.business_date dates))
      (λ closed. any (λ d. not (has d closed)) (x.business_date ∷ dates))
      (bad_request day_not_closed) db

pub require_ledger-Post :
    (ledger_id : ℕ) (db : Db)
    → Post (λ d. d ≡ db) (λ l _. l.id ≡ ledger_id) (require_ledger ledger_id db)
unfolding require_ledger
require_ledger-Post ledger_id db =
    elim (Option-cases (find? (λ l. l.id == ledger_id) db.journal_ledgers)) [
      | inl missing ↦ rw missing refl
      | inr (l, found) ↦ rw found (
        refl,
        (let same =
              find?-sound (λ (k : JournalLedger). k.id == ledger_id) db.journal_ledgers l found in
            ground arith),
      )
    ]

module _ (ledger_id : ℕ) (xs : List JournalDepositDto) (closed : List (Date × ℤ)) (others : Db → Db)
    (db : Db) where
  abbrev Whole : Result (List JournalDeposit) × Db → Type 0
  Whole = IsWhole ledger_id xs closed others db

  Whole-bind :
      {A : Type 0} (Q : A → Type 0) (m : M A) (f : A → M (List JournalDeposit))
      → Post (λ d. d ≡ db) (λ a _. Q a) (m db)
      → ((a : A) → Q a → Whole (f a db))
      → Whole ((m >>= f) db)
  Whole-bind {A} Q m f h k = go (m db) h
    where
      go :
          (r : Result A × Db)
          → Post (λ d. d ≡ db) (λ a _. Q a) r
          → Whole (let (x, db') = r in elim x [ ok a ↦ f a db' | err e ↦ (err e, db') ])
      go (ok a, db') h = subst (λ d. Whole (f a d)) (sym h.0) (k a h.1)
      go (err e, db') h = inl h

  Whole-transaction :
      (m : M (List JournalDeposit)) (e : Error)
      → Post Nothing
          (λ _ db'.
            Adds ledger_id (sort_by_date xs) (others db).journal_deposits db'.journal_deposits)
          (m (others db))
      → Whole (catch_unique (transaction m) (throw e) (others db))
  Whole-transaction m e h = go (m (others db)) h
    where
      go :
          (r : Result (List JournalDeposit) × Db)
          → Post Nothing
              (λ _ db'.
                Adds ledger_id (sort_by_date xs) (others db).journal_deposits db'.journal_deposits)
              r
          → Whole (catch_unique (transaction (λ _. r)) (throw e) (others db))
      go (ok rows, db') h =
          without_deposit-Adds ledger_id xs (others db).journal_deposits db'.journal_deposits closed
            h.1
      go (err unique_violation, db') h = inr refl
      go (err type_error, db') h = inr refl
      go (err record_missing, db') h = inr refl
      go (err range_error, db') h = inr refl
      go (err correction_violation, db') h = inr refl
      go (err (Error.bad_request m'), db') h = inr refl
      go (err (Error.conflict m'), db') h = inr refl
      go (err (Error.forbidden m'), db') h = inr refl
      go (err (Error.not_found m'), db') h = inr refl

  -- A bulk of deposits, whatever others commit between its checks and its inserts, either throws and leaves
  -- every row as it was or as the others left it, or takes exactly its own dates out of the closed days that
  -- the ledger has no deposit for.
  pub create_deposits_bulk-IsWhole :
      (ids : ℕ → ℕ) (user_id : ℕ)
      → IsWhole ledger_id xs closed others db
          (create_deposits_bulk others ids ledger_id xs user_id db)
  unfolding create_deposits_bulk
  create_deposits_bulk-IsWhole ids user_id =
      let rows = sort_by_date xs in
      let inserts : JournalLedger → M (List JournalDeposit) =
        λ l. insert_deposits ids 0 l rows user_id in
      let saving : JournalLedger → M (List JournalDeposit) = λ l.
        interleave others
        >> catch_unique (transaction (inserts l)) (throw (conflict conflicting_deposits)) in
      let checked : JournalLedger → M (List JournalDeposit) =
        λ l. all_eligible l rows >> saving l in
      Whole-bind (λ l. l.id ≡ ledger_id) (require_ledger ledger_id)
        (λ l. throw_if (repeats_date rows) (bad_request repeated_date) >> checked l)
        (require_ledger-Post ledger_id db)
        (λ ledger same.
          Whole-bind (λ _. Unit {0}) (throw_if (repeats_date rows) (bad_request repeated_date))
            (λ _. checked ledger) (throw_if-Post (repeats_date rows) (bad_request repeated_date) db)
            (λ _ _.
              Whole-bind (λ _. Unit {0}) (all_eligible ledger rows) (λ _. saving ledger)
                (all_eligible-Post ledger rows db)
                (λ _ _. Whole-transaction (inserts ledger) (conflict conflicting_deposits) (
                  subst
                    (λ i.
                      Post Nothing
                        (λ _ db'. Adds i rows (others db).journal_deposits db'.journal_deposits)
                        (inserts ledger (others db)))
                    same (insert_deposits-Post ids 0 ledger rows user_id (others db))))))
