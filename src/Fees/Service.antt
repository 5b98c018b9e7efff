-- ===== src/Fees/Service.antt =====
-- class FeeService (app/modules/fees/service.py). A call ends with a result or an HTTP error and with
-- the session that it leaves. `uuid4()` and the generated keys are drawn from `env.uuid` in turn.
use text.Mathlib.Text.{◌==◌ as str_eq}
use sms_backend.Common.{ℕ, String, Option, none, some, List, map, is_some, if◌then◌else◌}
use sms_backend.Common.Int.{ℤ, pos, ◌+ℤ◌, ◌-ℤ◌, ltb_ℤ, eqb_ℤ}
use sms_backend.Models.{
  FeeAccount, FeeAccountStatus, FeeLedgerEntry, EntryType, BalanceEffect, LedgerStatus, PaymentMode,
  is_closed,
}
use sms_backend.Database.{
  Env, Session, Error, Result, http, message, ok, err, Action, pure, select, or_raise, raise_if,
  ◌>>=◌, ◌>>◌, commit, rollback,
}
use sms_backend.Fees.Schemas.{
  FeeAccountCreateRequest, FeePaymentCreateRequest, FeeAccountRow, FeeAccountListItem,
  FeeEnrollmentRow, FeeEnrollmentOption, FeePaymentPostResponse, FeeLedgerResponse,
}
use sms_backend.Fees.Repository.{
  SetupEnrollment, list_fee_accounts, list_enrollments_without_fee_accounts,
  get_active_enrollment_for_fee_setup, get_fee_account_list_item, get_fee_account_for_payment,
  list_fee_ledger_entries, next_receipt_number, insert_fee_account, create_ledger_entry,
  update_fee_account_totals,
}

-- `display_name or legal_name`
abbrev pub shown_name : Option String → String → String
shown_name none legal = legal
shown_name (some d) legal = if str_eq d "" then legal else d

abbrev pub list_item : FeeAccountRow → FeeAccountListItem
list_item r = record { row = r; student_name = shown_name r.display_name r.legal_name }

abbrev enrollment_option : FeeEnrollmentRow → FeeEnrollmentOption
enrollment_option r = record { row = r; student_name = shown_name r.display_name r.legal_name }

-- FeeService.list_fee_accounts
unfoldable pub list_accounts : Env → ℕ → Option ℕ → Action (List FeeAccountListItem)
list_accounts env tenant_id branch_id =
    select (λ db. map list_item (list_fee_accounts env tenant_id branch_id db))

-- FeeService.list_fee_setup_options
unfoldable pub list_fee_setup_options : Env → ℕ → Option ℕ → Action (List FeeEnrollmentOption)
list_fee_setup_options env tenant_id branch_id =
    select (λ db.
      map enrollment_option (list_enrollments_without_fee_accounts env tenant_id branch_id db))

abbrev pub not_found : Error
not_found = http 404 (message "Fee account not found.")

-- FeeService.get_fee_ledger
unfoldable pub get_fee_ledger : Env → ℕ → Option ℕ → ℕ → Action FeeLedgerResponse
get_fee_ledger env tenant_id branch_id account_id = do
  account ← select (get_fee_account_for_payment tenant_id branch_id account_id)
  or_raise account not_found
  found ← select (get_fee_account_list_item env tenant_id account_id)
  row ← or_raise found not_found
  entries ← select (list_fee_ledger_entries env tenant_id branch_id account_id)
  pure (record { fee_account = list_item row; entries = entries })

-- the account that `create_fee_account` inserts
unfoldable pub new_account : Env → ℕ → ℕ → FeeAccountCreateRequest → SetupEnrollment → FeeAccount
new_account env tenant_id app_user_id payload e =
    let net_payable =
      payload.assigned_fee_amount -ℤ payload.scholarship_amount -ℤ payload.concession_amount in
    record {
      id = env.uuid 0;
      tenant_id = tenant_id;
      branch_id = e.branch_id;
      student_id = e.student_id;
      enrollment_id = e.enrollment_id;
      academic_year_id = e.academic_year_id;
      currency = "INR";
      assigned_fee_amount = payload.assigned_fee_amount;
      scholarship_amount = payload.scholarship_amount;
      concession_amount = payload.concession_amount;
      net_payable_amount = net_payable;
      total_paid_amount = pos 0;
      total_adjusted_amount = pos 0;
      total_reversed_amount = pos 0;
      outstanding_amount = net_payable;
      payment_schedule_type = payload.payment_schedule_type;
      status = if eqb_ℤ net_payable (pos 0) then FeeAccountStatus.paid else FeeAccountStatus.active;
      created_by = app_user_id;
      updated_by = none;
      created_at = env.now;
    }

-- one entry of `_create_initial_ledger_entries`: the dictionary `common` and what is added to it
unfoldable pub initial_entry :
    Env → ℕ → ℕ → ℕ → ℕ → SetupEnrollment → EntryType → BalanceEffect → ℤ → String → FeeLedgerEntry
initial_entry env key tenant_id account_id app_user_id e entry_type effect amount notes = record {
  id = env.uuid key;
  tenant_id = tenant_id;
  branch_id = e.branch_id;
  fee_account_id = account_id;
  student_id = e.student_id;
  enrollment_id = e.enrollment_id;
  academic_year_id = e.academic_year_id;
  entry_type = entry_type;
  balance_effect = effect;
  amount = amount;
  payment_mode = none;
  external_reference = none;
  receipt_number = none;
  receipt_date = none;
  payment_period_label = none;
  installment_number = none;
  entry_date = env.today;
  reversal_of_entry_id = none;
  status = LedgerStatus.posted;
  notes = some notes;
  collected_by = none;
  posted_by = app_user_id;
  posted_at = env.now;
  created_by = app_user_id;
  created_at = env.now;
}

-- `if amount > 0: self.repository.create_ledger_entry(…)`
unfoldable pub insert_if_positive : ℤ → FeeLedgerEntry → Action Unit
insert_if_positive amount entry =
    if ltb_ℤ (pos 0) amount then create_ledger_entry entry >> pure tt else pure tt

-- FeeService._create_initial_ledger_entries
unfoldable pub create_initial_ledger_entries :
    Env → ℕ → ℕ → SetupEnrollment → ℕ → FeeAccountCreateRequest → Action Unit
create_initial_ledger_entries env tenant_id account_id e app_user_id p = do
  insert_if_positive p.assigned_fee_amount (
      initial_entry env 1 tenant_id account_id app_user_id e EntryType.fee_assigned
        BalanceEffect.increase p.assigned_fee_amount "Initial fee account setup.")
  insert_if_positive p.scholarship_amount (
      initial_entry env 2 tenant_id account_id app_user_id e EntryType.government_scholarship
        BalanceEffect.decrease p.scholarship_amount
        "Scholarship recorded during initial fee setup.")
  insert_if_positive p.concession_amount (
      initial_entry env 3 tenant_id account_id app_user_id e EntryType.concession
        BalanceEffect.decrease p.concession_amount "Concession recorded during initial fee setup.")

-- `create_fee_account` from the insertion on, for an enrollment without an account
unfoldable pub set_up_account :
    Env → ℕ → ℕ → FeeAccountCreateRequest → SetupEnrollment → Action FeeAccountListItem
set_up_account env tenant_id app_user_id payload enrollment = do
  account_id ← insert_fee_account (new_account env tenant_id app_user_id payload enrollment)
  create_initial_ledger_entries env tenant_id account_id enrollment app_user_id payload
  commit
  loaded ← select (get_fee_account_list_item env tenant_id account_id)
  row ← or_raise loaded (http 500 (message "Fee account was created but could not be loaded."))
  pure (list_item row)

-- FeeService.create_fee_account
unfoldable pub create_fee_account :
    Env → ℕ → Option ℕ → ℕ → FeeAccountCreateRequest → Action FeeAccountListItem
create_fee_account env tenant_id branch_id app_user_id payload = do
  found ← select (get_active_enrollment_for_fee_setup tenant_id branch_id payload.enrollment_id)
  enrollment ←
      or_raise found
        (http 404 (message "Active enrollment was not found for this fee setup context."))
  raise_if (is_some enrollment.fee_account_id)
      (http 409 (message "A fee account already exists for this enrollment."))
  set_up_account env tenant_id app_user_id payload enrollment

-- the entry that `post_payment` inserts
unfoldable pub payment_entry :
    Env → ℕ → ℕ → FeeAccount → FeePaymentCreateRequest → String → FeeLedgerEntry
payment_entry env tenant_id app_user_id account payload receipt = record {
  id = env.uuid 0;
  tenant_id = tenant_id;
  branch_id = account.branch_id;
  fee_account_id = account.id;
  student_id = account.student_id;
  enrollment_id = account.enrollment_id;
  academic_year_id = account.academic_year_id;
  entry_type = EntryType.payment;
  balance_effect = BalanceEffect.decrease;
  amount = payload.amount;
  payment_mode = some payload.payment_mode;
  external_reference = payload.external_reference;
  receipt_number = some receipt;
  receipt_date = some payload.receipt_date;
  payment_period_label = payload.payment_period_label;
  installment_number = payload.installment_number;
  entry_date = env.today;
  reversal_of_entry_id = none;
  status = LedgerStatus.posted;
  notes = payload.notes;
  collected_by = some app_user_id;
  posted_by = app_user_id;
  posted_at = env.now;
  created_by = app_user_id;
  created_at = env.now;
}

-- `try: … except Exception: rollback; raise HTTPException(500, …)`
abbrev pub recover : {A : Type 0} → Result A × Session → Error → Result A × Session
recover (ok a, s) e = (ok a, s)
recover (err _, s) e = (err e, rollback s)

abbrev pub or_rollback : {A : Type 0} → Action A → Error → Action A
or_rollback m e s = recover (m s) e

-- the arguments of `send_fee_receipt_notification`
pub record ReceiptNotice : Type 0 where
  pub payment_id : ℕ
  pub student_id : ℕ
  pub amount_paid : ℤ
  pub receipt_no : String
  pub payment_mode : PaymentMode
  pub remaining_balance : ℤ
  pub payment_period_label : Option String
  pub tenant_id : ℕ
  pub branch_id : ℕ

-- `try: … except Exception: print(…)` around the notification
abbrev pub or_warn : Action Unit → Action Unit
or_warn m s = (ok tt, (m s).1)

-- the body of the `try` in `post_payment`
unfoldable pub write_payment : FeeAccount → FeeLedgerEntry → ℤ → ℤ → ℕ → Action ℕ
write_payment account entry new_total_paid new_outstanding app_user_id = do
  ledger_entry_id ← create_ledger_entry entry
  update_fee_account_totals account.id new_total_paid new_outstanding
      (if eqb_ℤ new_outstanding (pos 0)
        then FeeAccountStatus.paid
        else FeeAccountStatus.partially_paid)
      app_user_id
  commit
  pure ledger_entry_id

-- `post_payment` from the new totals on, for an account that may take the payment; `notify` is
-- WhatsAppNotificationService.send_fee_receipt_notification
unfoldable pub record_payment :
    Env
    → (ReceiptNotice → Action Unit)
    → ℕ
    → ℕ
    → FeePaymentCreateRequest
    → FeeAccount
    → Action FeePaymentPostResponse
record_payment env notify tenant_id app_user_id payload account = do
  let new_total_paid = account.total_paid_amount +ℤ payload.amount
  let new_outstanding = account.outstanding_amount -ℤ payload.amount
  receipt_number ← select (next_receipt_number tenant_id account.branch_id)
  ledger_entry_id ←
      or_rollback
        (write_payment account
          (payment_entry env tenant_id app_user_id account payload receipt_number) new_total_paid
          new_outstanding app_user_id)
        (http 500 (message "Failed to post payment."))
  loaded ← select (get_fee_account_list_item env tenant_id account.id)
  row ← or_raise loaded (http 500 (message "Payment posted but fee account could not be loaded."))
  or_warn (
      notify (record {
        payment_id = ledger_entry_id;
        student_id = account.student_id;
        amount_paid = payload.amount;
        receipt_no = receipt_number;
        payment_mode = payload.payment_mode;
        remaining_balance = new_outstanding;
        payment_period_label = payload.payment_period_label;
        tenant_id = tenant_id;
        branch_id = account.branch_id;
      }))
  pure (record {
    fee_account = list_item row;
    ledger_entry_id = ledger_entry_id;
    receipt_number = receipt_number;
  })

-- FeeService.post_payment
unfoldable pub post_payment :
    Env
    → (ReceiptNotice → Action Unit)
    → ℕ
    → Option ℕ
    → ℕ
    → ℕ
    → FeePaymentCreateRequest
    → Action FeePaymentPostResponse
post_payment env notify tenant_id branch_id app_user_id account_id payload = do
  found ← select (get_fee_account_for_payment tenant_id branch_id account_id)
  account ← or_raise found not_found
  raise_if (is_closed account.status)
      (http 400 (message "Payments cannot be posted to a closed or cancelled fee account."))
  raise_if (ltb_ℤ account.outstanding_amount payload.amount)
      (http 400 (message "Payment amount cannot exceed the current outstanding amount."))
  record_payment env notify tenant_id app_user_id payload account
