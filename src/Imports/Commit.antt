-- ===== src/Imports/Commit.antt =====
-- ImportService.commit_fee_import (app/modules/imports/service.py). Each row draws four keys: one for
-- its account and three for the entries of the account's ledger.
use text.Mathlib.Text.{◌==◌ as str_eq}
use sms_backend.Common.{
  ℕ, ◌+◌, String, Bool, true, false, not, ◌&&◌, ◌||◌, Option, none, some, List, [], ◌∷◌, ◌==◌, any,
  is_some, if◌then◌else◌,
}
use sms_backend.Models.{
  ImportBatch, ImportRow, BatchStatus, RowData, no_data, fee_data, student_data, FeeRowData,
  PaymentScheduleType, EntryType, BalanceEffect, is_rejected,
}
use sms_backend.Database.{
  Env, Session, Error, http, message, counted, integrity, multiple_rows, exception, Result, ok, err,
  Action, pure, raise, select, or_raise, raise_if, ◌>>=◌, ◌>>◌, commit, rollback,
}
use sms_backend.Fees.Schemas.{FeeAccountCreateRequest}
use sms_backend.Fees.Repository.{
  SetupEnrollment, get_active_enrollment_for_fee_setup, insert_fee_account,
}
use sms_backend.Fees.Service.{new_account, initial_entry, insert_if_positive}
use sms_backend.Imports.Values.{is_empty}
use sms_backend.Imports.Repository.{get_batch, get_rows, update_batch, update_row}

-- `status in ["PREVIEW", "SUBMITTED"]`
abbrev pub is_ready : BatchStatus → Bool
is_ready BatchStatus.preview = true
is_ready BatchStatus.submitted = true
is_ready _ = false

-- `context_branch_id and batch.branch_id and batch.branch_id != context_branch_id`
abbrev pub foreign_branch : Option ℕ → Option ℕ → Bool
foreign_branch (some mine) (some theirs) = not (theirs == mine)
foreign_branch _ _ = false

-- `if not batch or batch.tenant_id != tenant_id or batch.module_code != "fees"`
abbrev pub fee_batch_of : ℕ → Option ImportBatch → Option ImportBatch
fee_batch_of tenant_id none = none
fee_batch_of tenant_id (some b) =
    if b.tenant_id == tenant_id && str_eq b.module_code "fees" then some b else none

-- `context_branch_id or batch.branch_id`
abbrev pub branch_or : Option ℕ → Option ℕ → Option ℕ
branch_or none b = b
branch_or (some mine) b = some mine

-- ck_sms_fee_accounts_schedule_type, on the text of a row
abbrev pub schedule_type_of : String → Option PaymentScheduleType
schedule_type_of s =
    if str_eq s "ONE_TIME"
    then some PaymentScheduleType.one_time
    else if str_eq s "TERM_WISE"
    then some PaymentScheduleType.term_wise
    else if str_eq s "INSTALLMENT_WISE"
    then some PaymentScheduleType.installment_wise
    else if str_eq s "CUSTOM"
    then some PaymentScheduleType.custom
    else none

-- the stream of keys from the k-th on
abbrev pub drawn : Env → ℕ → Env
drawn env k = record env { uuid = λ i. env.uuid (k + i) }

-- `notes or default`
abbrev pub notes_or : Option String → String → String
notes_or none default = default
notes_or (some s) default = if is_empty s then default else s

-- the dictionary that the account is created from: like that of FeeService.create_fee_account
abbrev pub request_of : SetupEnrollment → FeeRowData → PaymentScheduleType → FeeAccountCreateRequest
request_of e d schedule = record {
  enrollment_id = e.enrollment_id;
  assigned_fee_amount = d.assigned_fee_amount;
  scholarship_amount = d.scholarship_amount;
  concession_amount = d.concession_amount;
  payment_schedule_type = schedule;
}

-- ImportService._create_fee_import_ledger_entries
unfoldable pub create_fee_import_ledger_entries :
    Env → ℕ → ℕ → SetupEnrollment → ℕ → FeeRowData → Action Unit
create_fee_import_ledger_entries env tenant_id account_id e app_user_id d = do
  insert_if_positive d.assigned_fee_amount (
      initial_entry env 1 tenant_id account_id app_user_id e EntryType.fee_assigned
        BalanceEffect.increase d.assigned_fee_amount
        (notes_or d.notes "Initial fee account setup from fee import."))
  insert_if_positive d.scholarship_amount (
      initial_entry env 2 tenant_id account_id app_user_id e EntryType.government_scholarship
        BalanceEffect.decrease d.scholarship_amount
        (notes_or d.notes "Scholarship recorded from fee import."))
  insert_if_positive d.concession_amount (
      initial_entry env 3 tenant_id account_id app_user_id e EntryType.concession
        BalanceEffect.decrease d.concession_amount
        (notes_or d.notes "Concession recorded from fee import."))

-- the account of a row with its entries
unfoldable pub open_account :
    Env → ℕ → ℕ → FeeRowData → SetupEnrollment → PaymentScheduleType → Action ℕ
open_account env tenant_id app_user_id d e schedule = do
  account_id ←
      insert_fee_account (new_account env tenant_id app_user_id (request_of e d schedule) e)
  create_fee_import_ledger_entries env tenant_id account_id e app_user_id d
  pure account_id

-- the part of the loop for an enrollment without an account
unfoldable pub import_account : Env → ℕ → ℕ → ImportRow → FeeRowData → SetupEnrollment → Action Unit
import_account env tenant_id app_user_id row d e = do
  schedule ← or_raise (schedule_type_of d.payment_schedule_type) integrity
  account_id ← open_account env tenant_id app_user_id d e schedule
  update_row row.id (λ o. record o { target_entity_id = some account_id })

-- the body of the loop for the data of a fee row: a key that is None is no UUID
unfoldable pub commit_data : Env → ℕ → ℕ → Option ℕ → ImportRow → FeeRowData → Action Unit
commit_data env tenant_id app_user_id branch_id row d = do
  enrollment_id ← or_raise d.enrollment_id exception
  found ← select (get_active_enrollment_for_fee_setup tenant_id branch_id enrollment_id)
  enrollment ←
      or_raise found
        (http 400 (counted "Row " row.row_number ": Active enrollment no longer exists."))
  raise_if (is_some enrollment.fee_account_id)
      (http 409 (counted "Row " row.row_number ": Fee account already exists."))
  import_account env tenant_id app_user_id row d enrollment

abbrev pub has_data : RowData → Bool
has_data no_data = false
has_data _ = true

-- The data of a student has no `enrollment_id`.
unfoldable pub commit_row : Env → ℕ → ℕ → Option ℕ → ImportRow → RowData → Action Unit
commit_row env tenant_id app_user_id branch_id row no_data = pure tt
commit_row env tenant_id app_user_id branch_id row (student_data d) = raise exception
commit_row env tenant_id app_user_id branch_id row (fee_data d) =
    commit_data env tenant_id app_user_id branch_id row d

-- the loop: rows that are rejected or without data are passed over, the others are counted
unfoldable pub commit_rows : Env → ℕ → ℕ → Option ℕ → ℕ → ℕ → List ImportRow → Action ℕ
commit_rows env tenant_id app_user_id branch_id k n [] = pure n
commit_rows env tenant_id app_user_id branch_id k n (row ∷ rows) =
    let later = commit_rows env tenant_id app_user_id branch_id (k + 4) (n + 1) rows in
    let skipped = commit_rows env tenant_id app_user_id branch_id k n rows in
    let taken =
      commit_row (drawn env k) tenant_id app_user_id branch_id row row.normalized_data >> later in
    if is_rejected row.validation_status || not (has_data row.normalized_data)
    then skipped
    else taken

abbrev pub committed_batch : Env → ℕ → ImportBatch → ImportBatch
committed_batch env n b = record b {
  status = BatchStatus.committed;
  committed_at = some env.now;
  committed_rows = some n;
}

-- `except HTTPException: rollback; raise`, and `except Exception` with its HTTPException
abbrev pub recover_http : {A : Type 0} → Result A × Session → Error → Result A × Session
recover_http (ok a, s) e = (ok a, s)
recover_http (err (http status detail), s) e = (err (http status detail), rollback s)
recover_http (err integrity, s) e = (err e, rollback s)
recover_http (err multiple_rows, s) e = (err e, rollback s)
recover_http (err exception, s) e = (err e, rollback s)

-- the body of the `try`
unfoldable pub write_import : Env → ℕ → ℕ → Option ℕ → ImportBatch → List ImportRow → Action ℕ
write_import env tenant_id app_user_id branch_id b rows = do
  n ← commit_rows env tenant_id app_user_id branch_id 0 0 rows
  update_batch b.id (committed_batch env n)
  commit
  pure n

abbrev pub or_rollback_http : {A : Type 0} → Action A → Error → Action A
or_rollback_http m e s = recover_http (m s) e

-- ImportService.commit_fee_import, answered with `committed_rows`
unfoldable pub commit_fee_import : Env → ℕ → ℕ → ℕ → Option ℕ → Action ℕ
commit_fee_import env batch_id tenant_id app_user_id context_branch_id = do
  found ← select (λ db. fee_batch_of tenant_id (get_batch batch_id db))
  batch ← or_raise found (http 404 (message "Fee import batch not found."))
  raise_if (foreign_branch context_branch_id batch.branch_id)
      (http 403 (message "Not authorized for this batch."))
  raise_if (not (is_ready batch.status)) (http 400 (message "Batch is not ready to commit."))
  rows ← select (get_rows batch_id)
  raise_if (any (λ r. is_rejected r.validation_status) rows)
      (http 400 (message "Cannot commit batch with REJECTED rows."))
  or_rollback_http
      (write_import env tenant_id app_user_id (branch_or context_branch_id batch.branch_id) batch
        rows)
      (http 500 (message "Failed to commit fee batch."))
