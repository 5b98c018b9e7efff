-- ===== src/Imports/CommitTests.antt =====
-- The theorems on the commit of a fee file applied to the school of Imports/Example.
use sms_backend.Common.{◌+◌, ◌≡◌, refl, some, none, [], ◌∷◌, length, filter}
use sms_backend.Common.Int.{pos, ◌-ℤ◌}
use sms_backend.Models.{
  ImportBatch, ImportRow, BatchStatus, RowStatus, FeeRowData, fee_data, fee_key,
}
use sms_backend.Database.{
  Db, Error, ok, err, http, message, run_request, commit, flush, insert_records,
}
use sms_backend.Fees.Repository.{
  get_active_enrollment_for_fee_setup, insert_fee_account, create_ledger_entry, fee_account_allowed,
  fee_account_checks, fee_account_unique, fee_account_references, stored_amount,
  ledger_entry_allowed, ledger_entry_checks, ledger_entry_references, receipt_taken,
}
use sms_backend.Fees.Service.{new_account, initial_entry, insert_if_positive}
use sms_backend.Fees.Payments.{Consistent}
use sms_backend.Imports.Repository.{get_batch, get_rows, update_batch, update_row, batch_references}
use sms_backend.Imports.Commit.{
  commit_fee_import, commit_rows, commit_row, commit_data, import_account, open_account,
  write_import, create_fee_import_ledger_entries,
}
use sms_backend.Imports.Ledger.{is_taken}
use sms_backend.Imports.Committed.{
  commit_fee_import-Consistent, commit_fee_import_atomic, commit_fee_import_opens,
  commit_fee_import_once,
}
use sms_backend.Imports.Example.{env, school_with}

abbrev batch : ImportBatch
batch = record {
  id = 80;
  tenant_id = 1;
  branch_id = some 2;
  module_code = "fees";
  source_filename = "fees.xlsx";
  checksum = "c";
  idempotency_key = fee_key 1 "c";
  status = BatchStatus.preview;
  summary = none;
  committed_rows = none;
  created_by = 7;
  committed_at = none;
}

abbrev fee : FeeRowData
fee = record {
  admission_number = "a1";
  student_name = "asha";
  academic_year = "2026";
  programme = "";
  section = "";
  assigned_fee_amount = pos 90000;
  scholarship_amount = pos 10000;
  concession_amount = pos 0;
  net_payable_amount = pos 80000;
  payment_schedule_type = "ONE_TIME";
  notes = none;
  enrollment_id = some 30;
  student_id = some 10;
  branch_id = some 2;
  academic_year_id = some 3;
}

abbrev fee_import_row : ImportRow
fee_import_row = record {
  id = 81;
  batch_id = 80;
  row_number = 3;
  raw_data = [];
  normalized_data = fee_data fee;
  validation_status = RowStatus.warning;
  errors = [];
  proposed_action = some "CREATE_FEE_ACCOUNT";
  target_entity_type = "FeeAccount";
  target_entity_id = none;
}

abbrev pub school : Db
school = school_with (batch ∷ []) (fee_import_row ∷ [])

pub school-Consistent : Consistent school
school-Consistent = record { unique = tt; owned = tt; balanced = tt }

pub import_committed : (run_request (commit_fee_import env 80 1 7 (some 2)) school).0 ≡ ok 1
unfolding run_request commit flush insert_records get_active_enrollment_for_fee_setup
    insert_fee_account create_ledger_entry fee_account_allowed fee_account_checks fee_account_unique
    fee_account_references stored_amount ledger_entry_allowed ledger_entry_checks
    ledger_entry_references receipt_taken new_account initial_entry insert_if_positive get_batch
    get_rows update_batch update_row batch_references commit_fee_import commit_rows commit_row
    commit_data import_account open_account write_import create_fee_import_ledger_entries ◌-ℤ◌
import_committed = refl

commit_fee_import-Consistent_example :
    Consistent (run_request (commit_fee_import env 80 1 7 (some 2)) school).1
commit_fee_import-Consistent_example =
    commit_fee_import-Consistent env 80 1 7 (some 2) school school-Consistent

commit_fee_import_opens_example :
    (length (run_request (commit_fee_import env 80 1 7 (some 2)) school).1.fee_accounts ≡ 0 + 1)
    × (1 ≡ length (filter is_taken (get_rows 80 school)))
commit_fee_import_opens_example =
    commit_fee_import_opens env 80 1 7 (some 2) school 1 school-Consistent import_committed

commit_fee_import_once_example :
    (e : Error) × (run_request
        (commit_fee_import env 80 1 7 none)
        (run_request (commit_fee_import env 80 1 7 (some 2)) school).1
      ≡ (err e, (run_request (commit_fee_import env 80 1 7 (some 2)) school).1))
commit_fee_import_once_example =
    commit_fee_import_once env 80 1 7 (some 2) school 1 env 1 7 none school-Consistent
      import_committed

-- without a user of the key 9, the account is refused
refused_user :
    (run_request (commit_fee_import env 80 1 9 (some 2)) school).0
    ≡ err (http 500 (message "Failed to commit fee batch."))
unfolding run_request commit flush insert_records get_active_enrollment_for_fee_setup
    insert_fee_account create_ledger_entry fee_account_allowed fee_account_checks fee_account_unique
    fee_account_references stored_amount ledger_entry_allowed ledger_entry_checks
    ledger_entry_references receipt_taken new_account initial_entry insert_if_positive get_batch
    get_rows update_batch update_row batch_references commit_fee_import commit_rows commit_row
    commit_data import_account open_account write_import create_fee_import_ledger_entries ◌-ℤ◌
refused_user = refl

commit_fee_import_atomic_example :
    (run_request (commit_fee_import env 80 1 9 (some 2)) school).1 ≡ school
commit_fee_import_atomic_example =
    commit_fee_import_atomic env 80 1 9 (some 2) school
      (http 500 (message "Failed to commit fee batch.")) school-Consistent refused_user
