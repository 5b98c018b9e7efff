-- ===== src/Models/Fees.antt =====
-- app/modules/fees/models.py: accounts and the entries of their ledger.
use sms_backend.Common.{ℕ, String, Option, Bool, true, false}
use sms_backend.Common.Int.{ℤ}

-- ck_sms_fee_accounts_schedule_type
pub data PaymentScheduleType : Type 0 where
  one_time term_wise installment_wise custom : PaymentScheduleType

-- ck_sms_fee_accounts_status
pub data FeeAccountStatus : Type 0 where
  draft active paid partially_paid overdue closed cancelled : FeeAccountStatus

-- ck_sms_fee_ledger_entries_type
pub data EntryType : Type 0 where
  fee_assigned payment government_scholarship concession : EntryType
  adjustment reversal refund late_fee : EntryType

-- ck_sms_fee_ledger_entries_balance_effect
pub data BalanceEffect : Type 0 where
  increase decrease neutral : BalanceEffect

-- ck_sms_fee_ledger_entries_payment_mode
pub data PaymentMode : Type 0 where
  cash upi bank_transfer cheque card other : PaymentMode

-- ck_sms_fee_ledger_entries_status
pub data LedgerStatus : Type 0 where
  draft posted reversed cancelled : LedgerStatus

-- sms_fee_accounts
pub record FeeAccount : Type 0 where
  pub id : ℕ
  pub tenant_id : ℕ
  pub branch_id : ℕ
  pub student_id : ℕ
  pub enrollment_id : ℕ
  pub academic_year_id : ℕ
  pub currency : String
  pub assigned_fee_amount : ℤ
  pub scholarship_amount : ℤ
  pub concession_amount : ℤ
  pub net_payable_amount : ℤ
  pub total_paid_amount : ℤ
  pub total_adjusted_amount : ℤ
  pub total_reversed_amount : ℤ
  pub outstanding_amount : ℤ
  pub payment_schedule_type : PaymentScheduleType
  pub status : FeeAccountStatus
  pub created_by : ℕ
  pub updated_by : Option ℕ
  pub created_at : ℕ

-- sms_fee_ledger_entries
pub record FeeLedgerEntry : Type 0 where
  pub id : ℕ
  pub tenant_id : ℕ
  pub branch_id : ℕ
  pub fee_account_id : ℕ
  pub student_id : ℕ
  pub enrollment_id : ℕ
  pub academic_year_id : ℕ
  pub entry_type : EntryType
  pub balance_effect : BalanceEffect
  pub amount : ℤ
  pub payment_mode : Option PaymentMode
  pub external_reference : Option String
  pub receipt_number : Option String
  pub receipt_date : Option ℕ
  pub payment_period_label : Option String
  pub installment_number : Option ℤ
  pub entry_date : ℕ
  pub reversal_of_entry_id : Option ℕ
  pub status : LedgerStatus
  pub notes : Option String
  pub collected_by : Option ℕ
  pub posted_by : ℕ
  pub posted_at : ℕ
  pub created_by : ℕ
  pub created_at : ℕ

abbrev pub is_payment : EntryType → Bool
is_payment EntryType.payment = true
is_payment _ = false

abbrev pub is_reversal : EntryType → Bool
is_reversal EntryType.reversal = true
is_reversal _ = false

-- status in {"CANCELLED", "CLOSED"}
abbrev pub is_closed : FeeAccountStatus → Bool
is_closed FeeAccountStatus.closed = true
is_closed FeeAccountStatus.cancelled = true
is_closed _ = false
