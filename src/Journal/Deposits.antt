-- ===== src/Journal/Deposits.antt =====
-- The deposits and withdrawals of the journal, and the closed days that lack a deposit
-- (apps/api/src/journal/journal.service.ts). `others` is what other requests commit between the reads of a
-- request and its writes.
pub mod Bulk
use coffee_shop_pos_multi_ag.Base.{
  ℕ, ◌+◌, Bool, false, not, ◌&&◌, ◌||◌, List, [], ◌∷◌, Option, find?, any, map, update_where,
  delete_where, ◌==◌, if◌then◌else◌, ℤ,
}
use coffee_shop_pos_multi_ag.Failure.{
  bad_request, conflict, not_found, unique_violation, deposit_not_found, withdrawal_not_found,
  duplicate_deposit, conflicting_deposits, before_ledger_start, day_not_closed, repeated_date,
}
use coffee_shop_pos_multi_ag.Text.{Text, trim_or_null}
use coffee_shop_pos_multi_ag.Date.{Date, date_eq, date_before}
use coffee_shop_pos_multi_ag.Dict.{has}
use coffee_shop_pos_multi_ag.Store.{Db}
use coffee_shop_pos_multi_ag.Store.Journal.{JournalLedger, JournalDeposit, JournalWithdrawal}
use coffee_shop_pos_multi_ag.Store.Calls.{
  M, pure, throw, lift, gets, or_throw, transaction, catch_unique, modify, interleave, ◌>>=◌, ◌>>◌,
  throw_if,
}
use coffee_shop_pos_multi_ag.Reporting.Daily.{get_closed_daily_gross, date_key}
use coffee_shop_pos_multi_ag.Journal.{require_ledger}

pub record JournalDepositDto : Type 0 where
  pub business_date : Date
  pub amount_cents : ℤ
  pub note : Option Text

pub record JournalWithdrawalDto : Type 0 where
  pub withdrawn_on : Date
  pub amount_cents : ℤ
  pub note : Option Text

earliest : Date → List Date → Date
earliest first [] = first
earliest first (d ∷ dates) = earliest (if date_before d first then d else first) dates

latest : Date → List Date → Date
latest last [] = last
latest last (d ∷ dates) = latest (if date_before last d then d else last) dates

-- `assertEligibleDepositDates`: on or after the start of the ledger, and each a closed day.
unfoldable pub assert_eligible_dates : JournalLedger → Date → List Date → M (Unit {0})
unfolding earliest latest get_closed_daily_gross has date_before
assert_eligible_dates ledger first dates = do
  throw_if (any (λ d. date_before d ledger.start_date) (first ∷ dates))
      (bad_request before_ledger_start)
  closed ← λ db. lift (get_closed_daily_gross (earliest first dates) (latest first dates) db) db
  throw_if (any (λ d. not (has d closed)) (first ∷ dates)) (bad_request day_not_closed)

unfoldable pub new_deposit : ℕ → JournalLedger → JournalDepositDto → ℕ → JournalDeposit
unfolding trim_or_null
new_deposit id ledger input user_id = record {
  id = id;
  ledger_id = ledger.id;
  business_date = input.business_date;
  amount_cents = input.amount_cents;
  note = trim_or_null input.note;
  location_id = ledger.location_id;
  recorded_by_user_id = user_id;
  updated_by_user_id = user_id;
}

-- The unique indexes: the id, and the ledger with the date.
abbrev pub deposit_clashes : JournalDeposit → JournalDeposit → Bool
deposit_clashes a b =
    a.id == b.id || a.ledger_id == b.ledger_id && date_eq a.business_date b.business_date

unfoldable pub insert_deposit : JournalDeposit → M JournalDeposit
insert_deposit row = do
  throw_if (← gets λ db. any (deposit_clashes row) db.journal_deposits) unique_violation
  modify λ db. record db { journal_deposits = row ∷ db.journal_deposits }
  pure row

-- `createDeposit`
unfoldable pub create_deposit : (Db → Db) → ℕ → ℕ → JournalDepositDto → ℕ → M JournalDeposit
unfolding require_ledger assert_eligible_dates new_deposit insert_deposit date_eq
create_deposit others id ledger_id input user_id = do
  ledger ← require_ledger ledger_id
  assert_eligible_dates ledger input.business_date []
  interleave others
  catch_unique (insert_deposit (new_deposit id ledger input user_id))
      (throw (conflict duplicate_deposit))

abbrev pub changed_deposit : JournalDepositDto → ℕ → JournalDeposit → JournalDeposit
changed_deposit input user_id d = record d {
  business_date = input.business_date;
  amount_cents = input.amount_cents;
  note = trim_or_null input.note;
  updated_by_user_id = user_id;
}

abbrev others_clash : ℕ → JournalDeposit → List JournalDeposit → Bool
others_clash id row deposits = any (λ d. not (d.id == id) && deposit_clashes row d) deposits

-- The update of one row by its id.
unfoldable pub write_deposit : ℕ → JournalDepositDto → ℕ → M JournalDeposit
unfolding trim_or_null date_eq
write_deposit id input user_id = do
  current ←
      λ db. or_throw (find? (λ d. d.id == id) db.journal_deposits) (not_found deposit_not_found) db
  let row = changed_deposit input user_id current
  throw_if (← gets λ db. others_clash id row db.journal_deposits) unique_violation
  modify λ db. record db {
    journal_deposits =
        update_where (λ d. d.id == id) (changed_deposit input user_id) db.journal_deposits;
  }
  pure row

-- `updateDeposit`
unfoldable pub update_deposit : (Db → Db) → ℕ → JournalDepositDto → ℕ → M JournalDeposit
unfolding assert_eligible_dates write_deposit require_ledger
update_deposit others id input user_id = do
  existing ←
      λ db. or_throw (find? (λ d. d.id == id) db.journal_deposits) (not_found deposit_not_found) db
  ledger ← require_ledger existing.ledger_id
  assert_eligible_dates ledger input.business_date []
  interleave others
  catch_unique (write_deposit id input user_id) (throw (conflict duplicate_deposit))

-- `removeDeposit`
unfoldable pub remove_deposit : ℕ → M (Unit {0})
remove_deposit id = do
  throw_if (not (← gets λ db. any (λ d. d.id == id) db.journal_deposits))
      (not_found deposit_not_found)
  modify λ db. record db { journal_deposits = delete_where (λ d. d.id == id) db.journal_deposits }

insert_by_date : JournalDepositDto → List JournalDepositDto → List JournalDepositDto
insert_by_date x [] = x ∷ []
insert_by_date x (y ∷ ys) =
    let rest = insert_by_date x ys in
    if date_before y.business_date x.business_date then y ∷ rest else x ∷ y ∷ ys

unfoldable pub sort_by_date : List JournalDepositDto → List JournalDepositDto
unfolding insert_by_date date_before
sort_by_date [] = []
sort_by_date (x ∷ xs) = insert_by_date x (sort_by_date xs)

-- `assertNoRepeatedBusinessDate`
unfoldable pub repeats_date : List JournalDepositDto → Bool
unfolding date_eq
repeats_date [] = false
repeats_date (x ∷ xs) = any (λ y. date_eq y.business_date x.business_date) xs || repeats_date xs

unfoldable pub insert_deposits :
    (ℕ → ℕ) → ℕ → JournalLedger → List JournalDepositDto → ℕ → M (List JournalDeposit)
unfolding new_deposit insert_deposit
insert_deposits ids n ledger [] user_id = pure []
insert_deposits ids n ledger (x ∷ xs) user_id = do
  first ← insert_deposit (new_deposit (ids n) ledger x user_id)
  rest ← insert_deposits ids (n + 1) ledger xs user_id
  pure (first ∷ rest)

abbrev pub all_eligible : JournalLedger → List JournalDepositDto → M (Unit {0})
all_eligible ledger [] = pure tt
all_eligible ledger (x ∷ xs) =
    assert_eligible_dates ledger x.business_date (map (λ y. y.business_date) xs)

-- `createDepositsBulk`, with the ids of the new rows. The body has one deposit at least.
unfoldable pub create_deposits_bulk :
    (Db → Db) → (ℕ → ℕ) → ℕ → List JournalDepositDto → ℕ → M (List JournalDeposit)
unfolding require_ledger sort_by_date repeats_date assert_eligible_dates insert_deposits
create_deposits_bulk others ids ledger_id deposits user_id = do
  ledger ← require_ledger ledger_id
  let rows = sort_by_date deposits
  throw_if (repeats_date rows) (bad_request repeated_date)
  all_eligible ledger rows
  interleave others
  catch_unique (transaction (insert_deposits ids 0 ledger rows user_id))
      (throw (conflict conflicting_deposits))

-- `createWithdrawal`
unfoldable pub create_withdrawal : ℕ → ℕ → JournalWithdrawalDto → ℕ → M JournalWithdrawal
unfolding require_ledger trim_or_null
create_withdrawal id ledger_id input user_id = do
  ledger ← require_ledger ledger_id
  throw_if (← gets λ db. any (λ w. w.id == id) db.journal_withdrawals) unique_violation
  let row : JournalWithdrawal = record {
    id = id;
    ledger_id = ledger_id;
    withdrawn_on = input.withdrawn_on;
    amount_cents = input.amount_cents;
    note = trim_or_null input.note;
    location_id = ledger.location_id;
    recorded_by_user_id = user_id;
    updated_by_user_id = user_id;
  }
  modify λ db. record db { journal_withdrawals = row ∷ db.journal_withdrawals }
  pure row

-- `removeWithdrawal`
unfoldable pub remove_withdrawal : ℕ → M (Unit {0})
remove_withdrawal id = do
  throw_if (not (← gets λ db. any (λ w. w.id == id) db.journal_withdrawals))
      (not_found withdrawal_not_found)
  modify λ db. record db {
    journal_withdrawals = delete_where (λ w. w.id == id) db.journal_withdrawals;
  }

abbrev changed_withdrawal : JournalWithdrawalDto → ℕ → JournalWithdrawal → JournalWithdrawal
changed_withdrawal input user_id w = record w {
  withdrawn_on = input.withdrawn_on;
  amount_cents = input.amount_cents;
  note = trim_or_null input.note;
  updated_by_user_id = user_id;
}

-- `updateWithdrawal`
unfoldable pub update_withdrawal : ℕ → JournalWithdrawalDto → ℕ → M JournalWithdrawal
unfolding trim_or_null
update_withdrawal id input user_id = do
  current ← λ db.
      or_throw (find? (λ w. w.id == id) db.journal_withdrawals) (not_found withdrawal_not_found) db
  modify λ db. record db {
    journal_withdrawals =
        update_where (λ w. w.id == id) (changed_withdrawal input user_id) db.journal_withdrawals;
  }
  pure (changed_withdrawal input user_id current)
