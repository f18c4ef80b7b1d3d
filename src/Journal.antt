-- ===== src/Journal.antt =====
-- The journal's ledgers, their balances and their suggestion rates (apps/api/src/journal/journal.service.ts).
-- `others` is what other requests commit between the reads of a request and its write.
pub mod Balance
pub mod Deposits
pub mod Missing
pub mod RateInput
pub mod Rates
use coffee_shop_pos_multi_ag.Base.{
  ℕ, Bool, true, false, not, ◌&&◌, ◌||◌, List, [], ◌∷◌, ◌++◌, Option, none, some, filter, find?,
  any, map, update_where, ◌==◌, if◌then◌else◌, is_none, is_some, or_else, ℤ, pos, neg_ℤ,
}
use coffee_shop_pos_multi_ag.Failure.{
  Result, ok, err, bad_request, conflict, not_found, unique_violation, record_missing,
  ledger_not_found, duplicate_ledger_name, start_after_deposit, ledger_without_rate,
  rate_field_required, rate_field_not_applicable,
}
use coffee_shop_pos_multi_ag.Money.{
  cents, add_money, suggest_rent_deposit_cents, suggest_chair_deposit_cents,
}
use coffee_shop_pos_multi_ag.TradingDay.Cash.{all_cents}
use coffee_shop_pos_multi_ag.Text.{Text}
use coffee_shop_pos_multi_ag.Date.{Date, date_eq, date_before}
use coffee_shop_pos_multi_ag.Store.{Db}
use coffee_shop_pos_multi_ag.Store.Journal.{
  JournalSuggestionKind, no_suggestion, rent_percent_of_rounded_gross, chair_flat_above_threshold,
  JournalLedger, JournalDeposit, JournalWithdrawal, JournalSuggestionRate,
}
use coffee_shop_pos_multi_ag.Store.Calls.{
  M, pure, throw, lift, gets, or_throw, catch_unique, modify, interleave, ◌>>=◌, ◌>>◌, throw_if,
}
use coffee_shop_pos_multi_ag.Store.Queries.{first_by}

unfoldable pub require_ledger : ℕ → M JournalLedger
require_ledger id db =
    or_throw (find? (λ l. l.id == id) db.journal_ledgers) (not_found ledger_not_found) db

-- `balanceCents` of `toLedgerBalance`.
unfoldable pub ledger_balance : JournalLedger → Db → Result ℤ
unfolding all_cents add_money cents
ledger_balance ledger db =
    let deposits = filter (λ (d : JournalDeposit). d.ledger_id == ledger.id) db.journal_deposits in
    let withdrawals =
      filter (λ (w : JournalWithdrawal). w.ledger_id == ledger.id) db.journal_withdrawals in
    elim (all_cents (
      ledger.starting_balance_cents
      ∷ (map (λ (d : JournalDeposit). d.amount_cents) deposits
          ++ map (λ (w : JournalWithdrawal). neg_ℤ w.amount_cents) withdrawals))) [
            | ok amounts ↦ add_money amounts
            | err e ↦ err e
          ]

pub record CreateJournalLedgerDto : Type 0 where
  pub name : Text
  pub start_date : Date
  pub starting_balance_cents : Option ℤ

pub record UpdateJournalLedgerDto : Type 0 where
  pub start_date : Date
  pub starting_balance_cents : ℤ

unfoldable pub new_ledger : ℕ → CreateJournalLedgerDto → JournalLedger
new_ledger id input = record {
  id = id;
  name = input.name;
  start_date = input.start_date;
  starting_balance_cents = or_else input.starting_balance_cents (pos 0);
  suggestion_kind = no_suggestion;
  is_built_in = false;
  location_id = none;
}

-- `same_name` is the index on the name, and `similar` the comparison that ignores case.
unfoldable pub insert_ledger : (Text → Text → Bool) → JournalLedger → M JournalLedger
insert_ledger same_name row = do
  throw_if (← gets λ db. any (λ l. l.id == row.id || same_name l.name row.name) db.journal_ledgers)
      unique_violation
  modify λ db. record db { journal_ledgers = row ∷ db.journal_ledgers }
  pure row

-- `createLedger`
unfoldable pub create_ledger :
    (Text → Text → Bool)
    → (Text → Text → Bool)
    → (Db → Db)
    → ℕ
    → CreateJournalLedgerDto
    → M JournalLedger
unfolding new_ledger insert_ledger
create_ledger same_name similar others id input = do
  throw_if (← gets λ db. any (λ l. similar l.name input.name) db.journal_ledgers)
      (conflict duplicate_ledger_name)
  interleave others
  catch_unique (insert_ledger same_name (new_ledger id input))
      (throw (conflict duplicate_ledger_name))

abbrev earlier_deposit : JournalDeposit → JournalDeposit → Bool
earlier_deposit a b = date_before a.business_date b.business_date

abbrev starts_after : Date → Option JournalDeposit → Bool
starts_after start none = false
starts_after start (some d) = date_before d.business_date start

-- `updateLedger`
unfoldable pub update_ledger : (Db → Db) → ℕ → UpdateJournalLedgerDto → M JournalLedger
unfolding require_ledger first_by date_before
update_ledger others id input = do
  require_ledger id
  earliest ← gets λ db. first_by earlier_deposit (λ d. d.ledger_id == id) db.journal_deposits
  throw_if (starts_after input.start_date earliest) (bad_request start_after_deposit)
  interleave others
  modify λ db. record db {
    journal_ledgers =
        update_where (λ l. l.id == id)
          (λ l. record l {
            start_date = input.start_date;
            starting_balance_cents = input.starting_balance_cents;
          })
          db.journal_ledgers;
  }
  require_ledger id

abbrev pub later_rate : JournalSuggestionRate → JournalSuggestionRate → Bool
later_rate a b = date_before b.effective_from a.effective_from

-- `findRateInForce`
unfoldable pub find_rate_in_force : ℕ → Date → Db → Option JournalSuggestionRate
unfolding first_by date_before
find_rate_in_force ledger_id date db =
    first_by later_rate (λ r. r.ledger_id == ledger_id && not (date_before date r.effective_from))
      db.journal_rates

abbrev replaces : JournalSuggestionRate → Option JournalSuggestionRate → Bool
replaces rate none = true
replaces rate (some current) = date_before current.effective_from rate.effective_from

-- The loop of `rateInForceFor`.
unfoldable pub rate_loop :
    List JournalSuggestionRate → Date → Option JournalSuggestionRate → Option JournalSuggestionRate
unfolding date_before
rate_loop [] date current = current
rate_loop (rate ∷ rates) date current = rate_loop rates date (
    if date_before date rate.effective_from
    then current
    else if replaces rate current
    then some rate
    else current)

unfoldable pub rate_in_force_for : List JournalSuggestionRate → Date → Option JournalSuggestionRate
unfolding rate_loop
rate_in_force_for rates date = rate_loop rates date none

abbrev optional : Result ℤ → Result (Option ℤ)
optional (ok x) = ok (some x)
optional (err e) = err e

abbrev suggest_chair : ℤ → Option ℤ → Option ℤ → Result (Option ℤ)
suggest_chair gross none threshold = ok none
suggest_chair gross (some amount) none = ok none
suggest_chair gross (some amount) (some threshold) = elim (cents amount) [
  | err e ↦ err e
  | ok amount_cents ↦ elim (cents threshold) [
    | err e ↦ err e
    | ok threshold_cents ↦ optional (suggest_chair_deposit_cents gross amount_cents threshold_cents)
  ]
]

abbrev suggest_rent : ℤ → Option ℤ → Result (Option ℤ)
suggest_rent gross none = ok none
suggest_rent gross (some basis_points) = optional (suggest_rent_deposit_cents gross basis_points)

-- `suggestFor`
unfoldable pub suggest_for :
    JournalSuggestionKind → ℤ → Option JournalSuggestionRate → Result (Option ℤ)
unfolding cents suggest_rent_deposit_cents suggest_chair_deposit_cents
suggest_for no_suggestion gross rate = ok none
suggest_for rent_percent_of_rounded_gross gross none = ok none
suggest_for rent_percent_of_rounded_gross gross (some rate) =
    suggest_rent gross rate.rent_percent_basis_points
suggest_for chair_flat_above_threshold gross none = ok none
suggest_for chair_flat_above_threshold gross (some rate) =
    suggest_chair gross rate.chair_amount_cents rate.chair_threshold_cents
