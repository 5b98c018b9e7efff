-- ===== src/Models/Imports.antt =====
-- app/modules/imports/models.py. The JSON columns hold what the validators produce.
use sms_backend.Common.{ℕ, String, Option, List, Bool, true, false}
use sms_backend.Common.Int.{ℤ}

-- ck_sms_import_batches_status
pub data BatchStatus : Type 0 where
  uploaded validating preview submitted committed rejected failed : BatchStatus

-- ck_sms_import_rows_validation_status
pub data RowStatus : Type 0 where
  valid warning rejected : RowStatus

-- an element of `errors`
pub record RowError : Type 0 where
  pub field : String
  pub message : String

-- the counts in `summary`, without `committed_rows`
pub record Summary : Type 0 where
  pub total_rows : ℕ
  pub valid_rows : ℕ
  pub warning_rows : ℕ
  pub rejected_rows : ℕ

-- `normalized_data` of a fee row; the amounts are kept as the numbers whose texts they are
pub record FeeRowData : Type 0 where
  pub admission_number : String
  pub student_name : String
  pub academic_year : String
  pub programme : String
  pub section : String
  pub assigned_fee_amount : ℤ
  pub scholarship_amount : ℤ
  pub concession_amount : ℤ
  pub net_payable_amount : ℤ
  pub payment_schedule_type : String
  pub notes : Option String
  pub enrollment_id : Option ℕ
  pub student_id : Option ℕ
  pub branch_id : Option ℕ
  pub academic_year_id : Option ℕ

-- `normalized_data` of a student row; days are day numbers
pub record StudentRowData : Type 0 where
  pub student_name : String
  pub admission_number : String
  pub date_of_birth : Option ℕ
  pub gender : String
  pub student_mobile : Option String
  pub student_email : Option String
  pub guardian_name : String
  pub guardian_relationship : String
  pub guardian_mobile : String
  pub guardian_email : Option String
  pub year_level : String
  pub roll_number : Option String
  pub joining_date : Option ℕ
  pub ending_date : Option ℕ
  pub academic_year_id : Option ℕ
  pub programme_id : Option ℕ
  pub batch_id : Option ℕ
  pub section_id : Option ℕ
  pub branch_id : Option ℕ

pub data RowData : Type 0 where
  no_data : RowData
  fee_data : FeeRowData → RowData
  student_data : StudentRowData → RowData

-- the parts of an idempotency key: `{tenant}-{hash}` of a student file, `{tenant}-fees-{hash}` of a fee
-- file
pub data IdempotencyKey : Type 0 where
  student_key fee_key : ℕ → String → IdempotencyKey

-- sms_import_batches
pub record ImportBatch : Type 0 where
  pub id : ℕ
  pub tenant_id : ℕ
  pub branch_id : Option ℕ
  pub module_code : String
  pub source_filename : String
  pub checksum : String
  pub idempotency_key : IdempotencyKey
  pub status : BatchStatus
  pub summary : Option Summary
  -- `summary["committed_rows"]`
  pub committed_rows : Option ℕ
  pub created_by : ℕ
  pub committed_at : Option ℕ

-- sms_import_rows
pub record ImportRow : Type 0 where
  pub id : ℕ
  pub batch_id : ℕ
  pub row_number : ℕ
  pub raw_data : List (String × String)
  pub normalized_data : RowData
  pub validation_status : RowStatus
  pub errors : List RowError
  pub proposed_action : Option String
  pub target_entity_type : String
  pub target_entity_id : Option ℕ

abbrev pub is_rejected : RowStatus → Bool
is_rejected RowStatus.rejected = true
is_rejected _ = false

abbrev pub is_valid : RowStatus → Bool
is_valid RowStatus.valid = true
is_valid _ = false

abbrev pub is_warning : RowStatus → Bool
is_warning RowStatus.warning = true
is_warning _ = false
