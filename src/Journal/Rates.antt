-- ===== src/Journal/Rates.antt =====
-- Changing the suggestion rate of a ledger (`updateRate`), and which rate is in force on a date. `today` is the
-- shop's calendar date.
pub mod InForce
pub mod Past
use coffee_shop_pos_multi_ag.Base.{
  ℕ, ◌+◌, ◌*◌, ◌≤◌, ◌<◌, ◌≡◌, refl, sym, ◌∙◌, ap, Bool, true, false, not, ◌&&◌, ◌||◌, List, [], ◌∷◌,
  Option, none, some, filter, find?, any, All, update_where, ltb, leb, ◌==◌, if◌then◌else◌, is_none,
  is_some, ℤ, Bool-cases, Option-cases, inl, inr, arith, ◌⊎◌, Never,
}
use mathlib.Core.Path.{subst}
use coffee_shop_pos_multi_ag.Failure.{record_missing}
use coffee_shop_pos_multi_ag.Store.Calls.{
  M, pure, lift, gets, or_throw, modify, interleave, ◌>>=◌, ◌>>◌,
}
use coffee_shop_pos_multi_ag.Journal.RateInput.{UpdateRateDto, rate_data_for_kind}
use coffee_shop_pos_multi_ag.Date.{Date, date_eq, date_before}
use coffee_shop_pos_multi_ag.Store.{Db}
use coffee_shop_pos_multi_ag.Store.Journal.{
  JournalSuggestionKind, no_suggestion, rent_percent_of_rounded_gross, chair_flat_above_threshold,
  JournalLedger, JournalSuggestionRate,
}
use coffee_shop_pos_multi_ag.Store.Queries.{first_by}
use coffee_shop_pos_multi_ag.Journal.{
  require_ledger, find_rate_in_force, later_rate, replaces, rate_loop, rate_in_force_for,
}

abbrev pub at_key : ℕ → Date → JournalSuggestionRate → Bool
at_key ledger_id date r = r.ledger_id == ledger_id && date_eq r.effective_from date

unfoldable pub rewritten : UpdateRateDto → ℕ → JournalSuggestionRate → JournalSuggestionRate
rewritten fields user_id r = record r {
  rent_percent_basis_points = fields.rent_percent_basis_points;
  chair_amount_cents = fields.chair_amount_cents;
  chair_threshold_cents = fields.chair_threshold_cents;
  created_by_user_id = some user_id;
}

unfoldable pub new_rate : ℕ → JournalLedger → Date → UpdateRateDto → ℕ → JournalSuggestionRate
new_rate id ledger today fields user_id = record {
  id = id;
  ledger_id = ledger.id;
  effective_from = today;
  rent_percent_basis_points = fields.rent_percent_basis_points;
  chair_amount_cents = fields.chair_amount_cents;
  chair_threshold_cents = fields.chair_threshold_cents;
  location_id = ledger.location_id;
  created_by_user_id = some user_id;
}

-- The upsert on the ledger and the date.
unfoldable pub upsert_rate :
    ℕ
    → JournalLedger
    → Date
    → UpdateRateDto
    → ℕ
    → List JournalSuggestionRate
    → List JournalSuggestionRate
unfolding rewritten new_rate date_eq
upsert_rate id ledger today fields user_id rates =
    if any (at_key ledger.id today) rates
    then update_where (at_key ledger.id today) (rewritten fields user_id) rates
    else new_rate id ledger today fields user_id ∷ rates

-- `updateRate`
unfoldable pub update_rate : (Db → Db) → ℕ → Date → ℕ → UpdateRateDto → ℕ → M JournalSuggestionRate
unfolding require_ledger rate_data_for_kind upsert_rate
update_rate others id today ledger_id input user_id = do
  ledger ← require_ledger ledger_id
  fields ← lift (rate_data_for_kind ledger.suggestion_kind input)
  interleave others
  modify λ db. record db {
    journal_rates = upsert_rate id ledger today fields user_id db.journal_rates;
  }
  λ db. or_throw (find? (at_key ledger.id today) db.journal_rates) record_missing db

abbrev rate_if : JournalSuggestionKind → Option JournalSuggestionRate → Option JournalSuggestionRate
rate_if no_suggestion rate = none
rate_if rent_percent_of_rounded_gross rate = rate
rate_if chair_flat_above_threshold rate = rate

-- `getRate`
unfoldable pub get_rate : ℕ → Date → M (Option JournalSuggestionRate)
unfolding require_ledger find_rate_in_force
get_rate ledger_id today = do
  ledger ← require_ledger ledger_id
  gets λ db. rate_if ledger.suggestion_kind (find_rate_in_force ledger_id today db)

-- The rates of a ledger, as `getMissingDays` reads them.
abbrev pub rates_of : ℕ → List JournalSuggestionRate → List JournalSuggestionRate
rates_of ledger_id rates = filter (λ r. r.ledger_id == ledger_id) rates
