-- ===== src/Fees/Repository/Statements.antt =====
-- The INSERT and UPDATE statements of FeeRepository, with the constraints that the tables of
-- app/modules/fees/models.py put on them.
use text.Mathlib.Text.{◌==◌ as str_eq}
use sms_backend.Common.{
  ℕ, String, Bool, true, false, Option, none, some, List, [], ◌∷◌, ◌++◌, ◌==◌, ◌&&◌, ◌||◌, not, any,
  update_where, is_some,
}
use sms_backend.Common.Int.{ℤ, pos, leb_ℤ, ltb_ℤ}
use sms_backend.Models.{FeeAccount, FeeAccountStatus, FeeLedgerEntry, is_payment, is_reversal}
use sms_backend.Database.{Db, Action, execute, pure, ◌>>◌}
use sms_backend.Fees.Schemas.{numeric_limit}

-- a NUMERIC(12, 2) column under the CHECK `>= 0`
unfoldable pub stored_amount : ℤ → Bool
stored_amount x = leb_ℤ (pos 0) x && ltb_ℤ x numeric_limit

-- the CHECK constraints of sms_fee_accounts
unfoldable pub fee_account_checks : FeeAccount → Bool
unfolding stored_amount
fee_account_checks a =
    str_eq a.currency "INR"
    && stored_amount a.assigned_fee_amount
    && stored_amount a.scholarship_amount
    && stored_amount a.concession_amount
    && stored_amount a.net_payable_amount
    && stored_amount a.total_paid_amount
    && stored_amount a.total_adjusted_amount
    && stored_amount a.total_reversed_amount
    && stored_amount a.outstanding_amount

-- the primary key and uq_sms_fee_accounts_tenant_enrollment
unfoldable pub fee_account_unique : List FeeAccount → FeeAccount → Bool
fee_account_unique accounts a = not (
    any (λ o. o.id == a.id || (o.tenant_id == a.tenant_id && o.enrollment_id == a.enrollment_id))
      accounts)

-- the foreign keys of sms_fee_accounts
unfoldable pub fee_account_references : Db → FeeAccount → Bool
fee_account_references db a =
    any (λ t. t.id == a.tenant_id) db.tenants
    && any (λ b. b.tenant_id == a.tenant_id && b.id == a.branch_id) db.branches
    && any (λ st. st.tenant_id == a.tenant_id && st.id == a.student_id) db.students
    && any (λ e. e.tenant_id == a.tenant_id && e.id == a.enrollment_id) db.enrollments
    && any (λ y. y.tenant_id == a.tenant_id && y.id == a.academic_year_id) db.academic_years
    && any (λ u. u.id == a.created_by) db.users

unfoldable pub fee_account_allowed : Db → FeeAccount → Bool
fee_account_allowed db a =
    fee_account_checks a && fee_account_unique db.fee_accounts a && fee_account_references db a

-- FeeRepository.create_fee_account: INSERT … RETURNING id
unfoldable pub insert_fee_account : FeeAccount → Action ℕ
insert_fee_account a =
    execute (λ db. fee_account_allowed db a)
      (λ db. record db { fee_accounts = db.fee_accounts ++ a ∷ [] })
    >> pure a.id

abbrev positive_installment : Option ℤ → Bool
positive_installment none = true
positive_installment (some n) = ltb_ℤ (pos 0) n

-- the CHECK constraints of sms_fee_ledger_entries
unfoldable pub ledger_entry_checks : FeeLedgerEntry → Bool
ledger_entry_checks l =
    ltb_ℤ (pos 0) l.amount
    && ltb_ℤ l.amount numeric_limit
    && (not (is_payment l.entry_type)
        || (is_some l.payment_mode && is_some l.receipt_number && is_some l.receipt_date))
    && (not (is_reversal l.entry_type) || is_some l.reversal_of_entry_id)
    && positive_installment l.installment_number

abbrev pub same_receipt : Option String → Option String → Bool
same_receipt (some a) (some b) = str_eq a b
same_receipt _ _ = false

-- uq_sms_fee_ledger_entries_receipt
unfoldable pub receipt_taken : List FeeLedgerEntry → FeeLedgerEntry → Bool
receipt_taken entries l =
    any
      (λ o.
        o.tenant_id == l.tenant_id
        && o.branch_id == l.branch_id
        && same_receipt o.receipt_number l.receipt_number)
      entries

abbrev pub known_user : Db → Option ℕ → Bool
known_user db none = true
known_user db (some id) = any (λ u. u.id == id) db.users

abbrev known_entry : Db → Option ℕ → Bool
known_entry db none = true
known_entry db (some id) = any (λ o. o.id == id) db.ledger_entries

-- the foreign keys of sms_fee_ledger_entries
unfoldable pub ledger_entry_references : Db → FeeLedgerEntry → Bool
ledger_entry_references db l =
    any (λ t. t.id == l.tenant_id) db.tenants
    && any (λ b. b.tenant_id == l.tenant_id && b.id == l.branch_id) db.branches
    && any (λ a. a.id == l.fee_account_id) db.fee_accounts
    && any (λ st. st.tenant_id == l.tenant_id && st.id == l.student_id) db.students
    && any (λ e. e.tenant_id == l.tenant_id && e.id == l.enrollment_id) db.enrollments
    && any (λ y. y.tenant_id == l.tenant_id && y.id == l.academic_year_id) db.academic_years
    && known_entry db l.reversal_of_entry_id
    && known_user db l.collected_by
    && known_user db (some l.posted_by)
    && known_user db (some l.created_by)

unfoldable pub ledger_entry_allowed : Db → FeeLedgerEntry → Bool
ledger_entry_allowed db l =
    ledger_entry_checks l
    && not (any (λ o. o.id == l.id) db.ledger_entries)
    && not (receipt_taken db.ledger_entries l)
    && ledger_entry_references db l

-- FeeRepository.create_ledger_entry: INSERT … RETURNING id
unfoldable pub create_ledger_entry : FeeLedgerEntry → Action ℕ
create_ledger_entry l =
    execute (λ db. ledger_entry_allowed db l)
      (λ db. record db { ledger_entries = db.ledger_entries ++ l ∷ [] })
    >> pure l.id

-- the SET clause of `update_fee_account_totals`
abbrev pub with_totals : ℤ → ℤ → FeeAccountStatus → ℕ → FeeAccount → FeeAccount
with_totals paid outstanding status user a = record a {
  total_paid_amount = paid;
  outstanding_amount = outstanding;
  status = status;
  updated_by = some user;
}

-- FeeRepository.update_fee_account_totals
unfoldable pub update_fee_account_totals : ℕ → ℤ → ℤ → FeeAccountStatus → ℕ → Action Unit
update_fee_account_totals account_id paid outstanding status user =
    execute (λ db. stored_amount paid && stored_amount outstanding && known_user db (some user))
      (λ db. record db {
        fee_accounts =
            update_where (λ a. a.id == account_id) (with_totals paid outstanding status user)
              db.fee_accounts;
      })
