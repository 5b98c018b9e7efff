-- ===== src/Fees/Tests.antt =====
-- A small school on which the fee theorems are applied.
use sms_backend.Common.{
  ℕ, All, ◌+◌, ◌≡◌, ◌≢◌, refl, true, false, [], ◌∷◌, ◌++◌, String, some, none, arith, ◌⊎◌, length,
}
use sms_backend.Common.Int.{ℤ, pos, ◌+ℤ◌, ◌-ℤ◌, ◌≤ℤ◌}
use sms_backend.Models.{
  Student, StudentStatus, Enrollment, EnrollmentStatus, FeeAccount, FeeAccountStatus,
  FeeLedgerEntry, EntryType, BalanceEffect, LedgerStatus, PaymentMode, PaymentScheduleType,
  is_closed, failed_missing_phone,
}
use sms_backend.Database.{commit, insert_records, Db, Env, Action, ok, err, run_request}
use sms_backend.Security.Text.{codes}
use sms_backend.Notifications.Repository.{LogEntry, create_log}
use sms_backend.Notifications.Commits.{create_log_committed, create_log_committed-elsewhere}
use sms_backend.Fees.Schemas.{
  FeeAccountCreateRequest, FeePaymentCreateRequest, FeePaymentPostResponse,
}
use sms_backend.Fees.Receipts.{receipt_number, receipt_number-injective}
use sms_backend.Fees.Repository.{
  get_active_enrollment_for_fee_setup, create_ledger_entry, update_fee_account_totals,
  ledger_entry_checks, ledger_entry_references, insert_fee_account, fee_account_allowed,
  fee_account_checks, fee_account_unique, fee_account_references, stored_amount,
  get_fee_account_list_item, fee_account_joins, fee_account_row, year_level_label,
  programme_display, section_display, list_fee_accounts, get_fee_account_for_payment,
  next_receipt_number, receipt_taken, ledger_entry_allowed,
}
use sms_backend.Fees.Service.{
  record_payment, write_payment, set_up_account, new_account, initial_entry,
  create_initial_ledger_entries, insert_if_positive, ReceiptNotice, post_payment,
  create_fee_account, payment_entry, not_found, get_fee_ledger,
}
use sms_backend.Fees.Ledger.{sum_where}
use sms_backend.Fees.Payments.{Consistent, KeepsFees, SameFees, post_payment-Consistent}
use sms_backend.Fees.Setup.{create_fee_account-Consistent}
use sms_backend.Fees.Outcome.{after, PostedTo, post_payment_atomic}
use sms_backend.Fees.Numbering.{NumberedFrom, next_entry, next_receipt_number-consecutive}
use sms_backend.Fees.Scope.{foreign_account_not_found, list_fee_accounts-in_scope, RowInScope}

abbrev env : Env
env = record {
  text_le = λ _ _. true;
  like = λ _ _. false;
  right = λ s _. s;
  now = 500;
  today = 20;
  uuid = λ k. k + 100;
}

abbrev account : FeeAccount
account = record {
  id = 50;
  tenant_id = 1;
  branch_id = 2;
  student_id = 10;
  enrollment_id = 30;
  academic_year_id = 3;
  currency = "INR";
  assigned_fee_amount = pos 900;
  scholarship_amount = pos 100;
  concession_amount = pos 0;
  net_payable_amount = pos 800;
  total_paid_amount = pos 0;
  total_adjusted_amount = pos 0;
  total_reversed_amount = pos 0;
  outstanding_amount = pos 800;
  payment_schedule_type = PaymentScheduleType.one_time;
  status = FeeAccountStatus.active;
  created_by = 7;
  updated_by = none;
  created_at = 400;
}

abbrev opening : ℕ → EntryType → BalanceEffect → ℤ → FeeLedgerEntry
opening id entry_type effect amount = record {
  id = id;
  tenant_id = 1;
  branch_id = 2;
  fee_account_id = 50;
  student_id = 10;
  enrollment_id = 30;
  academic_year_id = 3;
  entry_type = entry_type;
  balance_effect = effect;
  amount = amount;
  payment_mode = none;
  external_reference = none;
  receipt_number = none;
  receipt_date = none;
  payment_period_label = none;
  installment_number = none;
  entry_date = 19;
  reversal_of_entry_id = none;
  status = LedgerStatus.posted;
  notes = none;
  collected_by = none;
  posted_by = 7;
  posted_at = 400;
  created_by = 7;
  created_at = 400;
}

abbrev pupil : ℕ → String → Student
pupil id name = record {
  id = id;
  tenant_id = 1;
  legal_name = name;
  display_name = none;
  current_status = StudentStatus.active;
  created_at = 0;
}

abbrev enrolled : ℕ → ℕ → Enrollment
enrolled id student = record {
  id = id;
  tenant_id = 1;
  student_id = student;
  branch_id = 2;
  academic_year_id = 3;
  programme_id = none;
  batch_id = none;
  section_id = none;
  admission_number = none;
  roll_number = none;
  year_level = "1";
  status = EnrollmentStatus.active;
  is_current = true;
}

abbrev school : Db
school = record {
  tenants = record { id = 1; display_name = "Trust" } ∷ [];
  branches = record { id = 2; tenant_id = 1; display_name = "North" } ∷ [];
  users = record { id = 7; full_name = "Clerk" } ∷ [];
  audit_events = [];
  academic_years = record { id = 3; tenant_id = 1; code = "AY26"; name = "2026-27" } ∷ [];
  programmes = [];
  batches = [];
  sections = [];
  students = pupil 10 "Asha" ∷ pupil 11 "Ravi" ∷ [];
  enrollments = enrolled 30 10 ∷ enrolled 31 11 ∷ [];
  fee_accounts = account ∷ [];
  ledger_entries =
      opening 60 EntryType.fee_assigned BalanceEffect.increase (pos 900)
      ∷ opening 61 EntryType.government_scholarship BalanceEffect.decrease (pos 100)
      ∷ [];
  attendance_sessions = [];
  attendance_records = [];
  import_batches = [];
  import_rows = [];
  subjects = [];
  notification_logs = [];
  exams = [];
  exam_subjects = [];
  exam_records = [];
}

school-Consistent : Consistent school
unfolding sum_where ◌+ℤ◌ ◌-ℤ◌
school-Consistent = ground arith

abbrev payment : FeePaymentCreateRequest
payment = record {
  amount = pos 300;
  payment_mode = PaymentMode.cash;
  receipt_date = 20;
  external_reference = none;
  payment_period_label = none;
  installment_number = none;
  notes = none;
}

abbrev setup : FeeAccountCreateRequest
setup = record {
  enrollment_id = 31;
  assigned_fee_amount = pos 700;
  scholarship_amount = pos 0;
  concession_amount = pos 50;
  payment_schedule_type = PaymentScheduleType.term_wise;
}

abbrev receipt_log : ReceiptNotice → LogEntry
receipt_log n = record {
  tenant_id = n.tenant_id;
  branch_id = some n.branch_id;
  event_type = codes "FEE_RECEIPT";
  entity_id = n.payment_id ∷ [];
  student_id = some n.student_id;
  recipient_phone = none;
  template_name = codes "fee_receipt";
  idempotency_key = n.payment_id ∷ n.student_id ∷ [];
  delivery_status = failed_missing_phone;
  error_message = some (codes "Student guardian mobile phone number is missing in profile");
}

-- a notification that writes its log and commits the session of the request
abbrev logging : ReceiptNotice → Action (Unit {0})
logging n = create_log_committed 900 500 (receipt_log n)

logging-KeepsFees : KeepsFees logging
logging-KeepsFees n s settled =
    let (accounts, entries, _) = create_log_committed-elsewhere 900 500 (receipt_log n) s settled in
    (accounts, entries)

post_payment-Consistent_example :
    Consistent (run_request (post_payment env logging 1 (some 2) 7 50 payment) school).1
post_payment-Consistent_example =
    post_payment-Consistent env logging 1 (some 2) 7 50 payment school logging-KeepsFees
      school-Consistent

create_fee_account-Consistent_example :
    Consistent (run_request (create_fee_account env 1 (some 2) 7 setup) school).1
create_fee_account-Consistent_example =
    create_fee_account-Consistent env 1 (some 2) 7 setup school school-Consistent

-- The writes of both requests go through in this school.
both_written :
    ((run_request (post_payment env logging 1 (some 2) 7 50 payment) school).1.ledger_entries
      ≡ school.ledger_entries ++ payment_entry env 1 7 account payment "RCP-000001" ∷ [])
    × (length (run_request (create_fee_account env 1 (some 2) 7 setup) school).1.ledger_entries ≡ 4)
unfolding run_request post_payment record_payment write_payment create_fee_account set_up_account
    get_fee_account_for_payment get_active_enrollment_for_fee_setup next_receipt_number
    receipt_number create_ledger_entry update_fee_account_totals commit insert_records
    ledger_entry_allowed ledger_entry_checks ledger_entry_references receipt_taken
    insert_fee_account fee_account_allowed fee_account_checks fee_account_unique
    fee_account_references new_account initial_entry stored_amount create_initial_ledger_entries
    insert_if_positive payment_entry get_fee_account_list_item list_fee_accounts fee_account_joins
    fee_account_row year_level_label programme_display section_display ◌+ℤ◌ ◌-ℤ◌
    create_log_committed create_log
both_written = (refl, refl)

post_payment_atomic_example :
    (SameFees (after env logging 1 (some 2) 7 50 payment school).1 school
      × ((r : FeePaymentPostResponse)
          → (after env logging 1 (some 2) 7 50 payment school).0 ≢ ok r))
    ⊎ ((a : FeeAccount) × (get_fee_account_for_payment 1 (some 2) 50 school ≡ some a)
        × (is_closed a.status ≡ false)
        × (payment.amount ≤ℤ a.outstanding_amount)
        × PostedTo env logging 1
            (some 2)
            7
            50
            payment
            school
            a
            (after env logging 1 (some 2) 7 50 payment school).1)
post_payment_atomic_example =
    post_payment_atomic env logging 1 (some 2) 7 50 payment school logging-KeepsFees

school-NumberedFrom : NumberedFrom 1 2 0 school.ledger_entries
school-NumberedFrom = ground arith

next_receipt_number-consecutive_example :
    (receipt_taken school.ledger_entries (next_entry env 1 7 account payment school) ≡ false)
    × NumberedFrom 1 2 0 (school.ledger_entries ++ next_entry env 1 7 account payment school ∷ [])
next_receipt_number-consecutive_example =
    next_receipt_number-consecutive env 1 7 account payment school school-NumberedFrom

foreign_account_not_found_example :
    (run_request (post_payment env logging 9 none 7 50 payment) school ≡ (err not_found, school))
    × (run_request (get_fee_ledger env 9 none 50) school ≡ (err not_found, school))
foreign_account_not_found_example =
    foreign_account_not_found env logging 9 none 7 50 payment school (ground arith)

list_fee_accounts-in_scope_example :
    All (RowInScope 1 (some 2)) (list_fee_accounts env 1 (some 2) school)
list_fee_accounts-in_scope_example = list_fee_accounts-in_scope env 1 (some 2) school

receipt_number-injective_example : Path ℕ 7 7
receipt_number-injective_example = receipt_number-injective 7 7 refl
