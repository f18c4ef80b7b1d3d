-- ===== src/Store/Journal.antt =====
-- The rows of the journal (apps/api/prisma/schema.prisma).
use coffee_shop_pos_multi_ag.Base.{ℕ, Bool, Option, ℤ}
use coffee_shop_pos_multi_ag.Text.{Text}
use coffee_shop_pos_multi_ag.Date.{Date}

pub data JournalSuggestionKind : Type 0 where
  no_suggestion rent_percent_of_rounded_gross chair_flat_above_threshold : JournalSuggestionKind

pub record JournalLedger : Type 0 where
  pub id : ℕ
  pub name : Text
  pub start_date : Date
  pub starting_balance_cents : ℤ
  pub suggestion_kind : JournalSuggestionKind
  pub is_built_in : Bool
  pub location_id : Option ℕ

pub record JournalDeposit : Type 0 where
  pub id : ℕ
  pub ledger_id : ℕ
  pub business_date : Date
  pub amount_cents : ℤ
  pub note : Option Text
  pub location_id : Option ℕ
  pub recorded_by_user_id : ℕ
  pub updated_by_user_id : ℕ

pub record JournalWithdrawal : Type 0 where
  pub id : ℕ
  pub ledger_id : ℕ
  pub withdrawn_on : Date
  pub amount_cents : ℤ
  pub note : Option Text
  pub location_id : Option ℕ
  pub recorded_by_user_id : ℕ
  pub updated_by_user_id : ℕ

pub record JournalSuggestionRate : Type 0 where
  pub id : ℕ
  pub ledger_id : ℕ
  pub effective_from : Date
  pub rent_percent_basis_points : Option ℤ
  pub chair_amount_cents : Option ℤ
  pub chair_threshold_cents : Option ℤ
  pub location_id : Option ℕ
  pub created_by_user_id : Option ℕ
