-- ===== src/Fees/Schemas.antt =====
-- app/modules/fees/schemas.py: the requests with their validators, and the rows of the responses.
use sms_backend.Common.{ℕ, String, Bool, Option, none, some, List, ◌&&◌, not}
use sms_backend.Common.Int.{ℤ, pos, ◌+ℤ◌, leb_ℤ, ltb_ℤ}
use sms_backend.Models.{
  PaymentMode, PaymentScheduleType, FeeAccountStatus, EntryType, BalanceEffect, LedgerStatus,
}

-- 10^12 hundredths: the first amount that NUMERIC(12, 2) cannot hold
abbrev pub numeric_limit : ℤ
numeric_limit = pos 1000000000000

-- Field(ge=0, max_digits=12, decimal_places=2)
pub amount_field : ℤ → Bool
amount_field x = leb_ℤ (pos 0) x && ltb_ℤ x numeric_limit

pub record FeeAccountCreateRequest : Type 0 where
  pub enrollment_id : ℕ
  pub assigned_fee_amount : ℤ
  pub scholarship_amount : ℤ
  pub concession_amount : ℤ
  pub payment_schedule_type : PaymentScheduleType

-- the fields' bounds and `validate_net_amount`
unfoldable pub create_request_valid : FeeAccountCreateRequest → Bool
unfolding amount_field
create_request_valid p =
    amount_field p.assigned_fee_amount
    && amount_field p.scholarship_amount
    && amount_field p.concession_amount
    && not (ltb_ℤ p.assigned_fee_amount (p.scholarship_amount +ℤ p.concession_amount))

pub record FeePaymentCreateRequest : Type 0 where
  pub amount : ℤ
  pub payment_mode : PaymentMode
  pub receipt_date : ℕ
  pub external_reference : Option String
  pub payment_period_label : Option String
  pub installment_number : Option ℤ
  pub notes : Option String

-- Field(default=None, ge=1)
abbrev pub installment_field : Option ℤ → Bool
installment_field none = Bool.true
installment_field (some n) = leb_ℤ (pos 1) n

-- Field(gt=0, max_digits=12, decimal_places=2), and the installment's bound
unfoldable pub payment_request_valid : FeePaymentCreateRequest → Bool
payment_request_valid p =
    ltb_ℤ (pos 0) p.amount && ltb_ℤ p.amount numeric_limit && installment_field p.installment_number

-- one row of `list_fee_accounts`, column by column
pub record FeeAccountRow : Type 0 where
  pub id : ℕ
  pub tenant_id : ℕ
  pub branch_id : ℕ
  pub student_id : ℕ
  pub enrollment_id : ℕ
  pub academic_year_id : ℕ
  pub admission_number : Option String
  pub display_name : Option String
  pub legal_name : String
  pub branch_name : String
  pub academic_year : String
  pub year_level : String
  pub year_level_label : String
  pub programme_code : Option String
  pub programme_name : Option String
  pub programme_display : Option String
  pub section_name : Option String
  pub section_display : Option String
  pub currency : String
  pub assigned_fee_amount : ℤ
  pub scholarship_amount : ℤ
  pub concession_amount : ℤ
  pub net_payable_amount : ℤ
  pub total_paid_amount : ℤ
  pub total_adjusted_amount : ℤ
  pub total_reversed_amount : ℤ
  pub outstanding_amount : ℤ
  pub payment_schedule_type : PaymentScheduleType
  pub status : FeeAccountStatus

-- `FeeAccountListItem(**row, student_name=…)`
pub record FeeAccountListItem : Type 0 where
  pub row : FeeAccountRow
  pub student_name : String

-- one row of `list_enrollments_without_fee_accounts`
pub record FeeEnrollmentRow : Type 0 where
  pub enrollment_id : ℕ
  pub student_id : ℕ
  pub branch_id : ℕ
  pub academic_year_id : ℕ
  pub admission_number : Option String
  pub display_name : Option String
  pub legal_name : String
  pub branch_name : String
  pub academic_year : String
  pub year_level : String
  pub year_level_label : String
  pub programme_code : Option String
  pub programme_name : Option String
  pub programme_display : Option String
  pub section_name : Option String
  pub section_display : Option String

pub record FeeEnrollmentOption : Type 0 where
  pub row : FeeEnrollmentRow
  pub student_name : String

pub record FeePaymentPostResponse : Type 0 where
  pub fee_account : FeeAccountListItem
  pub ledger_entry_id : ℕ
  pub receipt_number : String

pub record FeeLedgerEntryItem : Type 0 where
  pub id : ℕ
  pub entry_type : EntryType
  pub balance_effect : BalanceEffect
  pub amount : ℤ
  pub payment_mode : Option PaymentMode
  pub external_reference : Option String
  pub receipt_number : Option String
  pub receipt_date : Option ℕ
  pub payment_period_label : Option String
  pub installment_number : Option ℤ
  pub entry_date : ℕ
  pub status : LedgerStatus
  pub notes : Option String
  pub collected_by_name : Option String
  pub posted_by_name : Option String
  pub posted_at : ℕ
  pub created_at : ℕ

pub record FeeLedgerResponse : Type 0 where
  pub fee_account : FeeAccountListItem
  pub entries : List FeeLedgerEntryItem
