-- ===== src/Failure.antt =====
-- What a call of the program ends in: a value, or what it throws. The Nest exceptions carry one of
-- the messages that the services spell out; the money helpers throw a TypeError, and the reports a RangeError; the database
-- client throws on a unique constraint (Prisma's code P2002) and on other refusals;
-- `correction_violation` is P2002 on the index of `corrects_stock_count_id`, which one handler tells apart.
use coffee_shop_pos_multi_ag.Base.{Bool, true, false}

pub data Message : Type 0 where
  quantity_not_positive upsize_count_out_of_range upsize_not_eligible line_out_of_range : Message
  upsize_exceeds_gross product_not_sellable : Message
  no_payment repeated_method negative_portion payment_total_differs negative_tip : Message
  online_cash_received online_change_owed received_below_tender change_owed_too_large : Message
  order_empty order_not_found line_not_found order_frozen no_open_day : Message
  void_not_completed already_voided void_open_day_only void_request_id_in_use : Message
  settle_not_completed no_change_owed : Message
  day_already_open date_used opener_inactive closer_inactive recorder_inactive : Message
  bad_date bad_day_type bad_opening_float no_opener no_client_id bad_actual_cash no_closer : Message
  bad_amount blank_description bad_kind category_not_allowed already_closed : Message
  bad_quantity bad_type item_inactive submitter_inactive shift_lead_inactive no_count_lines
        item_repeated :
      Message
  one_count_value bad_count_quantity bad_level not_on_sheet wrong_count_method
        bad_correction_target :
      Message
  already_corrected bad_range ledger_not_found deposit_not_found withdrawal_not_found : Message
  duplicate_ledger_name start_after_deposit duplicate_deposit conflicting_deposits
        before_ledger_start :
      Message
  day_not_closed repeated_date ledger_without_rate rate_field_required rate_field_not_applicable :
      Message
  movement_not_found across_days movement_day_closed movement_superseded : Message

pub data Error : Type 0 where
  type_error range_error unique_violation correction_violation record_missing : Error
  bad_request conflict forbidden not_found : Message → Error

pub data Result {ℓ} (A : Type ℓ) : Type ℓ where
  ok : A → Result A
  err : Error → Result A

infixl 5 ◌>>=◌ ◌>>◌
abbrev pub ◌>>=◌ {ℓ κ} : {A : Type ℓ} {B : Type κ} → Result A → (A → Result B) → Result B
ok a >>= f = f a
err e >>= f = err e

abbrev pub ◌>>◌ {ℓ κ} : {A : Type ℓ} {B : Type κ} → Result A → Result B → Result B
m >> k = m >>= λ _. k

-- `if (c) throw e;`
abbrev pub throw_if : Bool → Error → Result (Unit {0})
throw_if true e = err e
throw_if false e = ok tt

pub is_ok {ℓ} : {A : Type ℓ} → Result A → Bool
is_ok (ok a) = true
is_ok (err e) = false
