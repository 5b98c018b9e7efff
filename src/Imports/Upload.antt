-- ===== src/Imports/Upload.antt =====
-- ImportService.upload_fee_excel with `_revalidate_fee_batch`, and get_import_preview
-- (app/modules/imports/service.py). `env.uuid 0` is the new batch's key, the rows draw the next ones.
use text.Mathlib.Text.{◌==◌ as str_eq}
use sms_backend.Common.{
  ℕ, ◌+◌, String, Bool, true, false, not, ◌&&◌, Option, none, some, List, [], ◌∷◌, ◌==◌,
  if◌then◌else◌,
}
use sms_backend.Models.{ImportBatch, ImportRow, BatchStatus, fee_key, Summary}
use sms_backend.Database.{
  Db, Env, http, message, exception, Action, pure, raise, select, or_raise, raise_if, ◌>>=◌, ◌>>◌,
  commit,
}
use sms_backend.Imports.Values.{TextLibrary, Cell}
use sms_backend.Imports.FeeFile.{
  RowResult, Validation, validated, value_error, decimal_error, parse_and_validate_fees,
}
use sms_backend.Imports.Repository.{
  get_batch, get_batch_by_idempotency_key, get_rows, create_batch, update_batch,
  delete_rows_for_batch, create_rows,
}
use sms_backend.Imports.Commit.{foreign_branch, branch_or}

-- What openpyxl makes of a file's bytes: the rows of the active sheet, if there is one, or an exception,
-- a ValueError or another one.
pub data Loaded : Type 0 where
  sheet : Option (List (List Cell)) → Loaded
  bad_value : String → Loaded
  unreadable_file : Loaded

-- openpyxl.load_workbook, and the digest of hashlib.sha256
pub record FileLibrary (Content : Type 0) : Type 0 where
  pub load_workbook : Content → Loaded
  pub sha256 : Content → String

pub record UploadResponse : Type 0 where
  pub message_text : String
  pub batch_id : ℕ
  pub status : BatchStatus

-- `status in {"UPLOADED", "PREVIEW", "FAILED"}`
abbrev pub is_open : BatchStatus → Bool
is_open BatchStatus.uploaded = true
is_open BatchStatus.preview = true
is_open BatchStatus.failed = true
is_open _ = false

-- the rows of a batch from the results of its validation
unfoldable pub fee_import_rows : Env → ℕ → ℕ → List RowResult → List ImportRow
fee_import_rows env k batch_id [] = []
fee_import_rows env k batch_id (r ∷ rs) =
    record {
      id = env.uuid k;
      batch_id = batch_id;
      row_number = r.row_number;
      raw_data = r.raw_data;
      normalized_data = r.normalized_data;
      validation_status = r.validation_status;
      errors = r.errors;
      proposed_action = some "CREATE_FEE_ACCOUNT";
      target_entity_type = "FeeAccount";
      target_entity_id = none;
    }
    ∷ fee_import_rows env (k + 1) batch_id rs

abbrev pub previewed : Summary → ImportBatch → ImportBatch
previewed n b = record b { summary = some n; committed_rows = none; status = BatchStatus.preview }

abbrev pub failed_batch : ImportBatch → ImportBatch
failed_batch b = record b { status = BatchStatus.failed }

-- from `try: row_results, summary = …` to the answer
unfoldable pub store_validation : Env → ℕ → String → Validation → Action UploadResponse
store_validation env batch_id text (value_error m) = do
  update_batch batch_id failed_batch
  commit
  raise (http 400 (message m))
store_validation env batch_id text decimal_error = raise exception
store_validation env batch_id text (validated rs n) = do
  update_batch batch_id (previewed n)
  create_rows (fee_import_rows env 1 batch_id rs)
  commit
  pure (record { message_text = text; batch_id = batch_id; status = BatchStatus.preview })

unfoldable pub validate_loaded : TextLibrary → ℕ → Option ℕ → Db → Loaded → Validation
validate_loaded lib tenant_id branch_id db (sheet rows) =
    parse_and_validate_fees lib tenant_id branch_id db rows
validate_loaded lib tenant_id branch_id db (bad_value m) = value_error m
validate_loaded lib tenant_id branch_id db unreadable_file = decimal_error

-- the batch that a new file gets
unfoldable pub new_fee_batch : Env → ℕ → Option ℕ → ℕ → String → String → ImportBatch
new_fee_batch env tenant_id branch_id app_user_id file_hash filename = record {
  id = env.uuid 0;
  tenant_id = tenant_id;
  branch_id = branch_id;
  module_code = "fees";
  source_filename = filename;
  checksum = file_hash;
  idempotency_key = fee_key tenant_id file_hash;
  status = BatchStatus.uploaded;
  summary = none;
  committed_rows = none;
  created_by = app_user_id;
  committed_at = none;
}

-- what `_revalidate_fee_batch` changes of the batch before it validates
abbrev pub reopened : Option ℕ → ℕ → String → ImportBatch → ImportBatch
reopened branch_id app_user_id filename b = record b {
  branch_id = branch_id;
  source_filename = filename;
  status = BatchStatus.uploaded;
  created_by = app_user_id;
}

module _ {Content : Type 0} (files : FileLibrary Content) (lib : TextLibrary) (env : Env)
    (tenant_id : ℕ) (branch_id : Option ℕ) (app_user_id : ℕ) (content : Content) (filename : String)
    (context_branch_id : Option ℕ) where
  -- the validator's call, within the branch of the caller or else of the file
  unfoldable pub validate_content : Db → Validation
  validate_content db =
      validate_loaded lib tenant_id (branch_or context_branch_id branch_id) db
        (files.load_workbook content)

  -- ImportService._revalidate_fee_batch
  unfoldable pub revalidate_fee_batch : ImportBatch → Action UploadResponse
  revalidate_fee_batch b = do
    delete_rows_for_batch b.id
    update_batch b.id (reopened branch_id app_user_id filename)
    v ← select validate_content
    store_validation env b.id "Fee file revalidated with the latest import rules." v

  -- the part of `upload_fee_excel` for a file that is known
  unfoldable pub open_existing : ImportBatch → Action UploadResponse
  open_existing b = do
    raise_if (not (str_eq b.module_code "fees"))
        (http 409 (message "This file hash is already used by another import type."))
    raise_if (foreign_branch context_branch_id b.branch_id)
        (http 403 (message "Not authorized for this batch."))
    if is_open b.status
        then revalidate_fee_batch b
        else pure (record {
          message_text =
              "This fee file was already uploaded. Opening the existing validation preview.";
          batch_id = b.id;
          status = b.status;
        })

  -- the part of `upload_fee_excel` for a new file
  unfoldable pub upload_new : Action UploadResponse
  upload_new = do
    let b = new_fee_batch env tenant_id branch_id app_user_id (files.sha256 content) filename
    create_batch b
    v ← select validate_content
    store_validation env b.id "Fee file uploaded and validated." v

  abbrev pub open_or_upload : Option ImportBatch → Action UploadResponse
  open_or_upload none = upload_new
  open_or_upload (some b) = open_existing b

  -- ImportService.upload_fee_excel
  unfoldable pub upload_fee_excel : Action UploadResponse
  upload_fee_excel = do
    existing ←
        select (get_batch_by_idempotency_key tenant_id (fee_key tenant_id (files.sha256 content)))
    open_or_upload existing

pub record PreviewResponse : Type 0 where
  pub batch : ImportBatch
  pub rows : List ImportRow

-- `if not batch or batch.tenant_id != tenant_id`, and the expected module where one is named
abbrev pub batch_of : ℕ → Option String → Option ImportBatch → Option ImportBatch
batch_of tenant_id expected none = none
batch_of tenant_id none (some b) = if b.tenant_id == tenant_id then some b else none
batch_of tenant_id (some m) (some b) =
    if b.tenant_id == tenant_id && str_eq b.module_code m then some b else none

-- ImportService.get_import_preview
unfoldable pub get_import_preview : ℕ → ℕ → Option ℕ → Option String → Action PreviewResponse
get_import_preview batch_id tenant_id context_branch_id expected_module_code = do
  found ← select (λ db. batch_of tenant_id expected_module_code (get_batch batch_id db))
  batch ← or_raise found (http 404 (message "Batch not found."))
  raise_if (foreign_branch context_branch_id batch.branch_id)
      (http 403 (message "Not authorized for this batch."))
  rows ← select (get_rows batch_id)
  pure (record { batch = batch; rows = rows })
