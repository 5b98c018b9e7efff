-- ===== src/Imports/FeeFile.antt =====
-- FeeImportValidator.parse_and_validate (app/modules/imports/validators.py), on the rows that
-- openpyxl reads from the active sheet.
use Prim.Native.String.{◌++◌}
use text.Mathlib.Text.{◌==◌ as str_eq}
use sms_backend.Common.{
  ℕ, ◌+◌, String, Bool, false, not, ◌&&◌, ◌||◌, Option, none, some, List, [], ◌∷◌, ◌==◌, any,
  if◌then◌else◌,
}
use sms_backend.Models.{RowError, RowStatus, RowData, fee_data, Summary}
use sms_backend.Database.{Db}
use sms_backend.Imports.Values.{
  TextLibrary, Cell, truthy, clean_string, header_map, find_column, raw_data,
}
use sms_backend.Imports.Matches.{find_fee_import_enrollments, FeeEnrollment}
use sms_backend.Imports.FeeCells.{FeeColumns, FeeCells, read_cells, is_unreadable}
use sms_backend.Imports.FeeRows.{
  FileKey, file_key, is_keyed, fee_row_report, found_enrollment, fee_row_data,
}

-- an element of `results`
pub record RowResult : Type 0 where
  pub row_number : ℕ
  pub raw_data : List (String × String)
  pub normalized_data : RowData
  pub validation_status : RowStatus
  pub errors : List RowError

-- what the validation of a file ends with: rows and counts, a ValueError, or a decimal exception
pub data Validation : Type 0 where
  validated : List RowResult → Summary → Validation
  value_error : String → Validation
  decimal_error : Validation

-- `if not any(row_values): continue`, and the row below the headers of a template
abbrev is_marker : TextLibrary → List Cell → Bool
is_marker lib [] = false
is_marker lib (c ∷ cs) =
    let first_value = lib.lower (clean_string lib c) in
    str_eq first_value "required" || str_eq first_value "optional"

unfoldable pub is_skipped : TextLibrary → ℕ → List Cell → Bool
is_skipped lib row_idx row = not (any truthy row) || (row_idx == 2 && is_marker lib row)

-- the rows that the loop does not skip, with their numbers in the sheet
unfoldable pub numbered_rows : TextLibrary → ℕ → List (List Cell) → List (ℕ × List Cell)
numbered_rows lib row_idx [] = []
numbered_rows lib row_idx (row ∷ rows) =
    let rest = numbered_rows lib (row_idx + 1) rows in
    if is_skipped lib row_idx row then rest else (row_idx, row) ∷ rest

-- `if status == "VALID": …` and what follows it
unfoldable pub count_row : RowStatus → Summary → Summary
count_row RowStatus.valid n = record n { valid_rows = n.valid_rows + 1 }
count_row RowStatus.warning n = record n { warning_rows = n.warning_rows + 1 }
count_row RowStatus.rejected n = record n { rejected_rows = n.rejected_rows + 1 }

abbrev pub count_total : Summary → Summary
count_total n = record n { total_rows = n.total_rows + 1 }

abbrev pub zero_summary : Summary
zero_summary = record { total_rows = 0; valid_rows = 0; warning_rows = 0; rejected_rows = 0 }

module _ (lib : TextLibrary) (tenant_id : ℕ) (branch_id : Option ℕ) (db : Db) where
  abbrev pub matches_of : FeeCells → List FeeEnrollment
  matches_of c =
      find_fee_import_enrollments lib tenant_id branch_id c.admission_number c.academic_year db

  unfoldable pub fee_row_result :
      FeeColumns → List (String × ℕ) → List FileKey → ℕ → List Cell → RowResult
  fee_row_result columns headers seen row_idx row =
      let c = read_cells lib columns row in
      let report = fee_row_report lib seen c (matches_of c) in
      record {
        row_number = row_idx;
        raw_data = raw_data row headers;
        normalized_data = fee_data (fee_row_data c (found_enrollment c (matches_of c)));
        validation_status = report.status;
        errors = report.errors;
      }

  -- `seen_fee_keys.add(file_key)`
  abbrev pub seen_after : FeeCells → List FileKey → List FileKey
  seen_after c seen = if is_keyed c then file_key lib c ∷ seen else seen

  abbrev pub prepend :
      RowResult → Option (List RowResult × Summary) → Option (List RowResult × Summary)
  prepend r none = none
  prepend r (some (rs, n)) = some (r ∷ rs, n)

  -- the loop, with `seen_fee_keys` and `summary` handed on; none for a decimal exception
  unfoldable pub validate_fee_rows :
      FeeColumns
      → List (String × ℕ)
      → List FileKey
      → Summary
      → List (ℕ × List Cell)
      → Option (List RowResult × Summary)
  validate_fee_rows columns headers seen n [] = some ([], n)
  validate_fee_rows columns headers seen n ((row_idx, row) ∷ rows) =
      let c = read_cells lib columns row in
      let r = fee_row_result columns headers seen row_idx row in
      let rest =
        validate_fee_rows columns headers (seen_after c seen)
          (count_row r.validation_status (count_total n)) rows in
      if is_unreadable c then none else prepend r rest

unfoldable pub fee_columns : TextLibrary → List (String × ℕ) → FeeColumns
fee_columns lib headers =
    let find = find_column lib headers in
    record {
      admission_number = find ("Admission No" ∷ "Admission Number" ∷ []);
      academic_year = find ("Academic Year" ∷ []);
      assigned_fee = find ("Assigned Fee" ∷ []);
      payment_schedule_type = find ("Payment Schedule Type" ∷ []);
      student_name = find ("Student Name" ∷ []);
      programme = find ("Programme / Stream" ∷ []);
      section = find ("Section" ∷ []);
      government_scholarship = find ("Government Scholarship" ∷ []);
      concession = find ("Concession" ∷ []);
      notes = find ("Notes" ∷ []);
    }

abbrev if_missing : Option ℕ → String → List String → List String
if_missing none title titles = title ∷ titles
if_missing (some i) title titles = titles

-- `missing_headers`
unfoldable pub missing_fee_headers : FeeColumns → List String
missing_fee_headers columns = if_missing columns.admission_number "Admission No" (
    if_missing columns.academic_year "Academic Year" (
      if_missing columns.assigned_fee "Assigned Fee"
        (if_missing columns.payment_schedule_type "Payment Schedule Type" [])))

-- `", ".join(titles)`
abbrev pub comma_joined : List String → String
comma_joined [] = ""
comma_joined (t ∷ []) = t
comma_joined (t ∷ u ∷ ts) = t ++ (", " ++ comma_joined (u ∷ ts))

abbrev pub outcome : Option (List RowResult × Summary) → Validation
outcome none = decimal_error
outcome (some (rs, n)) = validated rs n

abbrev pub validate_columns :
    TextLibrary
    → ℕ
    → Option ℕ
    → Db
    → List (String × ℕ)
    → List String
    → List (List Cell)
    → Validation
validate_columns lib tenant_id branch_id db headers [] rows = outcome (
    validate_fee_rows lib tenant_id branch_id db (fee_columns lib headers) headers [] zero_summary
      (numbered_rows lib 2 rows))
validate_columns lib tenant_id branch_id db headers (t ∷ ts) rows =
    value_error ("Missing required columns: " ++ comma_joined (t ∷ ts))

-- FeeImportValidator.parse_and_validate, on the rows of the active sheet
unfoldable pub parse_and_validate_fees :
    TextLibrary → ℕ → Option ℕ → Db → Option (List (List Cell)) → Validation
parse_and_validate_fees lib tenant_id branch_id db none =
    value_error "No active sheet found in Excel file."
parse_and_validate_fees lib tenant_id branch_id db (some []) = value_error "Excel file is empty."
parse_and_validate_fees lib tenant_id branch_id db (some ([] ∷ rows)) =
    value_error "Excel file is empty."
parse_and_validate_fees lib tenant_id branch_id db (some ((h ∷ hs) ∷ rows)) =
    let headers = header_map lib (h ∷ hs) in
    validate_columns lib tenant_id branch_id db headers
      (missing_fee_headers (fee_columns lib headers)) rows
