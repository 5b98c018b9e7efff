-- ===== src/Imports/Corrections.antt =====
-- ImportService.correct_fee_import_row, correct_fee_import_rows and _revalidate_fee_preview_rows
-- (app/modules/imports/service.py). The values of a correction are texts.
use sms_backend.Common.{
  ℕ, String, Bool, true, false, not, Option, none, some, List, [], ◌∷◌, ◌==◌, map, filter, first,
  if◌then◌else◌,
}
use sms_backend.Models.{ImportBatch, ImportRow, BatchStatus}
use sms_backend.Database.{
  http, message, exception, Action, pure, raise, select, or_raise, raise_if, ◌>>=◌, ◌>>◌, commit,
}
use sms_backend.Imports.Values.{TextLibrary, Cell, words, lookup}
use sms_backend.Imports.FeeFile.{
  RowResult, Validation, validated, value_error, decimal_error, parse_and_validate_fees,
}
use sms_backend.Imports.Repository.{get_batch, get_rows, update_batch, update_row}
use sms_backend.Imports.Commit.{fee_batch_of, foreign_branch, branch_or}
use sms_backend.Imports.Upload.{previewed, PreviewResponse, get_import_preview}

abbrev pub RawData : Type 0
RawData = List (String × String)

-- ImportRowBulkCorrection
pub record RowCorrection : Type 0 where
  pub row_id : ℕ
  pub raw_data : RawData

-- `status not in ["PREVIEW", "FAILED"]`
abbrev pub is_correctable : BatchStatus → Bool
is_correctable BatchStatus.preview = true
is_correctable BatchStatus.failed = true
is_correctable _ = false

abbrev pub preview_headers : List String
preview_headers =
    "Admission No" ∷ "Student Name" ∷ "Academic Year" ∷ "Programme / Stream" ∷ "Section"
    ∷ "Assigned Fee" ∷ "Government Scholarship" ∷ "Concession" ∷ "Payment Schedule Type" ∷ "Notes"
    ∷ []

-- `source.get(header, "")`
abbrev value_or_empty : Option String → String
value_or_empty none = ""
value_or_empty (some s) = s

-- The sheet that the rows are written to, as it is read again: `reread` is a text that openpyxl has
-- written to a cell and read from the file.
unfoldable pub preview_sheet : (String → Cell) → List ImportRow → List (List Cell)
preview_sheet reread rows =
    map words preview_headers
    ∷ map (λ r. map (λ h. reread (value_or_empty (lookup h r.raw_data))) preview_headers) rows

-- the assignments to a row in the loop over `zip(rows, row_results)`
abbrev pub with_result : RowResult → ImportRow → ImportRow
with_result r o = record o {
  raw_data = r.raw_data;
  normalized_data = r.normalized_data;
  validation_status = r.validation_status;
  errors = r.errors;
  proposed_action = some "CREATE_FEE_ACCOUNT";
  target_entity_type = "FeeAccount";
}

-- the loop itself, which ends with the shorter of the two lists
unfoldable pub store_results : List ImportRow → List RowResult → Action Unit
store_results [] rs = pure tt
store_results (o ∷ os) [] = pure tt
store_results (o ∷ os) (r ∷ rs) = update_row o.id (with_result r) >> store_results os rs

-- from the validator's results on
unfoldable pub store_preview :
    ImportBatch → List ImportRow → ℕ → Option ℕ → Validation → Action PreviewResponse
store_preview b rows tenant_id context_branch_id (value_error m) = raise exception
store_preview b rows tenant_id context_branch_id decimal_error = raise exception
store_preview b rows tenant_id context_branch_id (validated rs n) = do
  store_results rows rs
  update_batch b.id (previewed n)
  commit
  get_import_preview b.id tenant_id context_branch_id (some "fees")

-- ImportService._revalidate_fee_preview_rows
unfoldable pub revalidate_fee_preview_rows :
    TextLibrary
    → (String → Cell)
    → ImportBatch
    → List ImportRow
    → ℕ
    → Option ℕ
    → Action PreviewResponse
revalidate_fee_preview_rows lib reread b rows tenant_id context_branch_id = do
  v ← select (λ db.
      parse_and_validate_fees lib tenant_id (branch_or context_branch_id b.branch_id) db
        (some (preview_sheet reread rows)))
  store_preview b rows tenant_id context_branch_id v

abbrev corrected : ℕ → RawData → ImportRow → ImportRow
corrected row_id raw o = if o.id == row_id then record o { raw_data = raw } else o

-- `target_row.raw_data = raw_data`, on the objects and in the table; none if no row has the key
unfoldable pub correct_row : RowCorrection → List ImportRow → Action (List ImportRow)
correct_row c rows = do
  or_raise (first (filter (λ o. o.id == c.row_id) rows))
      (http 404 (message "Import row not found."))
  update_row c.row_id (λ o. record o { raw_data = c.raw_data })
  pure (map (corrected c.row_id c.raw_data) rows)

-- the loop over the corrections
unfoldable pub correct_rows : List RowCorrection → List ImportRow → Action (List ImportRow)
correct_rows [] rows = pure rows
correct_rows (c ∷ cs) rows = correct_row c rows >>= λ rows'. correct_rows cs rows'

-- the guards that both operations share
unfoldable pub correctable_batch : ℕ → ℕ → Option ℕ → Action ImportBatch
correctable_batch batch_id tenant_id context_branch_id = do
  found ← select (λ db. fee_batch_of tenant_id (get_batch batch_id db))
  batch ← or_raise found (http 404 (message "Fee import batch not found."))
  raise_if (foreign_branch context_branch_id batch.branch_id)
      (http 403 (message "Not authorized for this batch."))
  raise_if (not (is_correctable batch.status))
      (http 400 (message "Only preview batches can be corrected."))
  pure batch

abbrev pub is_empty_list : List RowCorrection → Bool
is_empty_list [] = true
is_empty_list (c ∷ cs) = false

-- ImportService.correct_fee_import_rows
unfoldable pub correct_fee_import_rows :
    TextLibrary → (String → Cell) → ℕ → ℕ → List RowCorrection → Option ℕ → Action PreviewResponse
correct_fee_import_rows lib reread batch_id tenant_id corrections context_branch_id = do
  batch ← correctable_batch batch_id tenant_id context_branch_id
  raise_if (is_empty_list corrections) (http 400 (message "No row corrections were provided."))
  rows ← select (get_rows batch_id)
  rows' ← correct_rows corrections rows
  revalidate_fee_preview_rows lib reread batch rows' tenant_id context_branch_id

-- ImportService.correct_fee_import_row
unfoldable pub correct_fee_import_row :
    TextLibrary → (String → Cell) → ℕ → ℕ → ℕ → RawData → Option ℕ → Action PreviewResponse
correct_fee_import_row lib reread batch_id row_id tenant_id raw_data context_branch_id = do
  batch ← correctable_batch batch_id tenant_id context_branch_id
  rows ← select (get_rows batch_id)
  rows' ← correct_row (record { row_id = row_id; raw_data = raw_data }) rows
  revalidate_fee_preview_rows lib reread batch rows' tenant_id context_branch_id
