-- ===== src/Journal/RateInput.antt =====
-- The body of a change of rate, and `rateDataForKind` (apps/api/src/journal/journal.service.ts).
use coffee_shop_pos_multi_ag.Base.{Bool, true, false, not, ◌&&◌, Option, none, is_none, is_some, ℤ}
use coffee_shop_pos_multi_ag.Failure.{
  Result, ok, err, bad_request, ledger_without_rate, rate_field_required, rate_field_not_applicable,
  throw_if, ◌>>◌,
}
use coffee_shop_pos_multi_ag.Store.Journal.{
  JournalSuggestionKind, no_suggestion, rent_percent_of_rounded_gross, chair_flat_above_threshold,
}

pub record UpdateRateDto : Type 0 where
  pub rent_percent_basis_points : Option ℤ
  pub chair_amount_cents : Option ℤ
  pub chair_threshold_cents : Option ℤ

-- One round of the loop of `assertRateFields`.
abbrev rate_field : Bool → Option ℤ → Result (Unit {0})
rate_field expected field =
    throw_if (expected && is_none field) (bad_request rate_field_required)
    >> throw_if (not expected && is_some field) (bad_request rate_field_not_applicable)

-- `rateDataForKind`, with `assertRateFields`.
unfoldable pub rate_data_for_kind : JournalSuggestionKind → UpdateRateDto → Result UpdateRateDto
rate_data_for_kind no_suggestion input = err (bad_request ledger_without_rate)
rate_data_for_kind rent_percent_of_rounded_gross input =
    rate_field true input.rent_percent_basis_points
    >> rate_field false input.chair_amount_cents
    >> rate_field false input.chair_threshold_cents
    >> ok (record {
      rent_percent_basis_points = input.rent_percent_basis_points;
      chair_amount_cents = none;
      chair_threshold_cents = none;
    })
rate_data_for_kind chair_flat_above_threshold input =
    rate_field false input.rent_percent_basis_points
    >> rate_field true input.chair_amount_cents
    >> rate_field true input.chair_threshold_cents
    >> ok (record {
      rent_percent_basis_points = none;
      chair_amount_cents = input.chair_amount_cents;
      chair_threshold_cents = input.chair_threshold_cents;
    })
