-- ===== src/Imports/Accepted.antt =====
-- The rows of a fee file that the validator does not reject (FeeImportValidator.parse_and_validate in
-- app/modules/imports/validators.py).
use sms_backend.Common.{
  ℕ, ◌≡◌, refl, String, Bool, true, false, not, Option, none, some, List, [], ◌∷◌, filter, arith,
  inl, inr, Bool-cases, All, is_some-false, ◌+◌, ltb,
}
use sms_backend.Common.Int.{pos, ◌-ℤ◌, ◌≤ℤ◌}
use sms_backend.Models.{FeeRowData, fee_data, Summary, is_valid, is_rejected}
use sms_backend.Database.{Db}
use sms_backend.Imports.Values.{TextLibrary, Cell, is_empty}
use sms_backend.Imports.Reports.{no_findings}
use sms_backend.Imports.Matches.{FeeEnrollment, find_fee_import_enrollments}
use sms_backend.Imports.FeeCells.{FeeColumns, FeeCells, read_cells}
use sms_backend.Imports.FeeRows.{FileKey, part, is_schedule_type, found_enrollment, fee_row_data}
use sms_backend.Imports.FeeFile.{
  RowResult, validated, validate_fee_rows, parse_and_validate_fees, zero_summary, seen_after,
  fee_row_result, count_row, count_total, matches_of,
}
use sms_backend.Imports.FeeLoop.{validated-LoopRun, validate_fee_rows-Round}
use sms_backend.Imports.Checks.{fee_row_report-Passed, fee_row_report-IsFair}

-- `validation_status` is not REJECTED
abbrev pub is_accepted : RowResult → Bool
is_accepted r = not (is_rejected r.validation_status)

net_positive :
    (assigned scholarship concession : ℕ)
    → ltb assigned (scholarship + concession) ≡ false
    → pos 0 ≤ℤ pos assigned -ℤ pos scholarship -ℤ pos concession
unfolding ◌-ℤ◌
net_positive assigned scholarship concession h = ground arith

part-found_enrollment :
    (f : FeeEnrollment → ℕ) (c : FeeCells) (es : List FeeEnrollment) (e : FeeEnrollment)
    → is_empty c.admission_number ≡ false
    → is_empty c.academic_year ≡ false
    → es ≡ e ∷ []
    → part f (found_enrollment c es) ≡ some (f e)
unfolding found_enrollment
part-found_enrollment f c es e numbered dated single = rw (numbered, dated, single) refl

module _ (lib : TextLibrary) (tenant_id : ℕ) (branch_id : Option ℕ) (db : Db) where
  -- what a row tells that can be committed
  pub record AcceptedRow (r : RowResult) : Type 0 where
    pub data_ : FeeRowData
    pub is_data : r.normalized_data ≡ fee_data data_
    pub numbered : is_empty data_.admission_number ≡ false
    pub dated : is_empty data_.academic_year ≡ false
    pub scheduled : is_schedule_type data_.payment_schedule_type ≡ true
    pub assigned : pos 0 ≤ℤ data_.assigned_fee_amount
    pub scholarship : pos 0 ≤ℤ data_.scholarship_amount
    pub concession : pos 0 ≤ℤ data_.concession_amount
    pub net :
        data_.net_payable_amount
        ≡ data_.assigned_fee_amount -ℤ data_.scholarship_amount -ℤ data_.concession_amount
    pub payable : pos 0 ≤ℤ data_.net_payable_amount
    pub enrollment : FeeEnrollment
    pub single :
        find_fee_import_enrollments lib tenant_id branch_id data_.admission_number
          data_.academic_year db
        ≡ enrollment ∷ []
    pub free : enrollment.fee_account_id ≡ none
    pub for_enrollment : data_.enrollment_id ≡ some enrollment.enrollment_id
    pub for_student : data_.student_id ≡ some enrollment.student_id
    pub in_branch : data_.branch_id ≡ some enrollment.branch_id
    pub in_year : data_.academic_year_id ≡ some enrollment.academic_year_id

  fee_row_result-AcceptedRow :
      (columns : FeeColumns) (headers : List (String × ℕ)) (seen : List FileKey) (i : ℕ)
      (row : List Cell)
      → is_rejected
          (fee_row_result lib tenant_id branch_id db columns headers seen i row).validation_status
        ≡ false
      → AcceptedRow (fee_row_result lib tenant_id branch_id db columns headers seen i row)
  unfolding fee_row_result fee_row_data found_enrollment
  fee_row_result-AcceptedRow columns headers seen i row h =
      let c = read_cells lib columns row in
      let p =
        fee_row_report-Passed lib seen c (matches_of lib tenant_id branch_id db c)
          (record { accepted = h }) in
      let found = λ (f : FeeEnrollment → ℕ).
        part-found_enrollment f c _ p.enrollment p.numbered p.dated p.is_for.single in
      record {
        data_ = fee_row_data c (found_enrollment c (matches_of lib tenant_id branch_id db c));
        is_data = refl;
        numbered = p.numbered;
        dated = p.dated;
        scheduled = p.scheduled;
        assigned = omega arith;
        scholarship = omega arith;
        concession = omega arith;
        net = refl;
        payable = net_positive _ _ _ p.covered;
        enrollment = p.enrollment;
        single = p.is_for.single;
        free = is_some-false p.enrollment.fee_account_id p.is_for.open_;
        for_enrollment = found (λ e. e.enrollment_id);
        for_student = found (λ e. e.student_id);
        in_branch = found (λ e. e.branch_id);
        in_year = found (λ e. e.academic_year_id);
      }

  validate_fee_rows-AcceptedRow :
      (columns : FeeColumns) (headers : List (String × ℕ)) (seen : List FileKey) (n : Summary)
      (rows : List (ℕ × List Cell)) (rs : List RowResult) (m : Summary)
      → validate_fee_rows lib tenant_id branch_id db columns headers seen n rows ≡ some (rs, m)
      → All AcceptedRow (filter is_accepted rs)
  unfolding validate_fee_rows
  validate_fee_rows-AcceptedRow columns headers seen n [] rs m e =
      let same_rows : [] ≡ rs = cc e in rw (← same_rows) tt
  validate_fee_rows-AcceptedRow columns headers seen n ((i, row) ∷ rows) rs m e =
      let r = fee_row_result lib tenant_id branch_id db columns headers seen i row in
      let round =
        validate_fee_rows-Round lib tenant_id branch_id db columns headers seen n (i, row) rows rs m
          e in
      let later =
        validate_fee_rows-AcceptedRow columns headers
          (seen_after lib tenant_id branch_id db (read_cells lib columns row) seen)
          (count_row r.validation_status (count_total n)) rows round.later m round.rest in
      elim (Bool-cases (is_rejected r.validation_status)) [
        | inl t ↦ rw (round.results, t) later
        | inr f ↦
            rw (round.results, f) (fee_row_result-AcceptedRow columns headers seen i row f, later)
      ]

  validate_fee_rows-fair :
      (columns : FeeColumns) (headers : List (String × ℕ)) (seen : List FileKey) (n : Summary)
      (rows : List (ℕ × List Cell)) (rs : List RowResult) (m : Summary)
      → validate_fee_rows lib tenant_id branch_id db columns headers seen n rows ≡ some (rs, m)
      → All (λ r. is_valid r.validation_status ≡ no_findings r.errors) rs
  unfolding validate_fee_rows fee_row_result
  validate_fee_rows-fair columns headers seen n [] rs m e =
      let same_rows : [] ≡ rs = cc e in rw (← same_rows) tt
  validate_fee_rows-fair columns headers seen n ((i, row) ∷ rows) rs m e =
      let r = fee_row_result lib tenant_id branch_id db columns headers seen i row in
      let round =
        validate_fee_rows-Round lib tenant_id branch_id db columns headers seen n (i, row) rows rs m
          e in
      let c = read_cells lib columns row in
      rw round.results (
        (fee_row_report-IsFair lib seen c (matches_of lib tenant_id branch_id db c)).fair,
        validate_fee_rows-fair columns headers (seen_after lib tenant_id branch_id db c seen)
            (count_row r.validation_status (count_total n)) rows round.later m round.rest,
      )

-- Every row of a validated fee file that is not REJECTED names a number and a year and a known
-- schedule, its amounts and what remains of the assigned fee after scholarship and concession are
-- not below 0, and its number and year belong to exactly one active enrollment in the caller's
-- scope, which has no fee account and whose keys the row carries.
pub accepted_rows :
    (lib : TextLibrary) (tenant_id : ℕ) (branch_id : Option ℕ) (db : Db)
    (sheet : Option (List (List Cell))) (rs : List RowResult) (n : Summary)
    → parse_and_validate_fees lib tenant_id branch_id db sheet ≡ validated rs n
    → All (AcceptedRow lib tenant_id branch_id db) (filter is_accepted rs)
accepted_rows lib t b db sheet rs n e =
    let run = validated-LoopRun lib t b db sheet rs n e in
    validate_fee_rows-AcceptedRow lib t b db run.columns run.headers [] zero_summary run.rows rs n
      run.ran

-- A row of a validated fee file is VALID exactly if no finding is listed with it.
pub valid_without_findings :
    (lib : TextLibrary) (tenant_id : ℕ) (branch_id : Option ℕ) (db : Db)
    (sheet : Option (List (List Cell))) (rs : List RowResult) (n : Summary)
    → parse_and_validate_fees lib tenant_id branch_id db sheet ≡ validated rs n
    → All (λ r. is_valid r.validation_status ≡ no_findings r.errors) rs
valid_without_findings lib t b db sheet rs n e =
    let run = validated-LoopRun lib t b db sheet rs n e in
    validate_fee_rows-fair lib t b db run.columns run.headers [] zero_summary run.rows rs n run.ran
