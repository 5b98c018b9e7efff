-- ===== src/Imports/FeeRows.antt =====
-- One row of a fee file: the body of the loop in FeeImportValidator.parse_and_validate
-- (app/modules/imports/validators.py). Amounts are whole hundredths.
use Prim.Native.String.{◌++◌}
use text.Mathlib.Text.{◌==◌ as str_eq}
use sms_backend.Common.{
  ℕ, ◌+◌, String, Bool, true, false, not, ◌&&◌, ◌||◌, Option, none, some, List, [], ◌∷◌, any, ltb,
  is_some, if◌then◌else◌,
}
use sms_backend.Common.Int.{pos, ◌-ℤ◌}
use sms_backend.Models.{FeeRowData}
use sms_backend.Security.Text.{Text, codes, text_eq}
use sms_backend.Fees.Service.{shown_name}
use sms_backend.Imports.Values.{TextLibrary, is_empty, normalize_programme_match_value}
use sms_backend.Imports.Reports.{Report, no_errors, reject_if, warn_if}
use sms_backend.Imports.Matches.{FeeEnrollment}
use sms_backend.Imports.FeeCells.{is_refused, or_zero, FeeCells}

abbrev pub is_schedule_type : String → Bool
is_schedule_type s =
    str_eq s "ONE_TIME" || str_eq s "TERM_WISE" || str_eq s "INSTALLMENT_WISE" || str_eq s "CUSTOM"

abbrev missing : String
missing = "Required field missing."

abbrev unverified : String
unverified = "Optional field missing; it will be verified from active enrollment during import."

abbrev not_an_amount : String
not_an_amount = "Must be a zero or positive amount."

-- the checks of the fields that must be there
unfoldable pub check_required : FeeCells → Report
check_required c =
    let r = reject_if (is_empty c.admission_number) "Admission No" missing no_errors in
    let r = reject_if (is_empty c.academic_year) "Academic Year" missing r in
    let r = reject_if (is_refused c.assigned_fee) "Assigned Fee" not_an_amount r in
    let r = reject_if (is_refused c.scholarship) "Government Scholarship" not_an_amount r in
    let r = reject_if (is_refused c.concession) "Concession" not_an_amount r in
    reject_if (not (is_schedule_type c.schedule_type)) "Payment Schedule Type"
      "Must be one of ONE_TIME, TERM_WISE, INSTALLMENT_WISE, CUSTOM." r

-- the checks of the optional fields, and of the amounts against each other
unfoldable pub check_amounts : FeeCells → Report → Report
check_amounts c r =
    let r = warn_if (is_empty c.student_name) "Student Name" unverified r in
    let r = warn_if (is_empty c.programme) "Programme / Stream" unverified r in
    let r = warn_if (is_empty c.section) "Section" unverified r in
    reject_if (ltb (or_zero c.assigned_fee) (or_zero c.scholarship + or_zero c.concession))
      "Assigned Fee" "Scholarship and concession cannot exceed assigned fee." r

-- `normalized_value in {normalize(candidate) for candidate in candidates if candidate}`
abbrev is_candidate : Text → Option String → Bool
is_candidate wanted none = false
is_candidate wanted (some s) =
    not (is_empty s) && text_eq wanted (normalize_programme_match_value (codes s))

abbrev track_label : Option String → Option String → Option String
track_label (some stream) (some track) =
    if is_empty stream || is_empty track then none else some (stream ++ (" " ++ track))
track_label _ _ = none

abbrev matches_any : String → List (Option String) → Bool
matches_any value candidates =
    let wanted = normalize_programme_match_value (codes value) in
    text_eq wanted [] || any (is_candidate wanted) candidates

-- FeeImportValidator._programme_matches
unfoldable pub programme_matches : String → FeeEnrollment → Bool
programme_matches value e = matches_any value (
    e.programme_code
    ∷ e.programme_name
    ∷ e.programme_display
    ∷ e.stream_code
    ∷ track_label e.stream_code e.coaching_track
    ∷ [])

-- FeeImportValidator._section_matches
unfoldable pub section_matches : String → FeeEnrollment → Bool
section_matches value e = matches_any value (e.section_name ∷ [])

-- `a or b`, and the text of a value that may be None
abbrev or_else : Option String → Option String → Option String
or_else none b = b
or_else (some s) b = if is_empty s then b else some s

abbrev formatted : Option String → String
formatted none = "None"
formatted (some s) = s

-- the checks against the single enrollment that was found
unfoldable pub check_enrollment : TextLibrary → FeeCells → FeeEnrollment → Report → Report
check_enrollment lib c e r =
    let r =
      reject_if (is_some e.fee_account_id) "Admission No"
        "A fee account already exists for this enrollment." r in
    let r =
      warn_if
        (not (is_empty c.student_name)
          && not (
              str_eq (lib.lower c.student_name)
                (lib.lower (shown_name e.display_name e.legal_name))))
        "Student Name" "Student name differs from the active enrollment. Verify before finalizing."
        r in
    let expected = or_else e.programme_display (or_else e.programme_name e.programme_code) in
    let r =
      warn_if (not (is_empty c.programme) && not (programme_matches c.programme e))
        "Programme / Stream"
        ("Programme differs from the active enrollment. Expected " ++ (formatted expected ++ "."))
        r in
    warn_if (not (is_empty c.section) && not (section_matches c.section e)) "Section"
      ("Section differs from the active enrollment. Expected " ++ (formatted e.section_name ++ "."))
      r

-- the three cases of the number of matches
unfoldable pub check_matches : TextLibrary → FeeCells → List FeeEnrollment → Report → Report
check_matches lib c [] r =
    reject_if true "Admission No"
      "No active enrollment found for this admission number and academic year in the current context."
      r
check_matches lib c (e ∷ []) r = check_enrollment lib c e r
check_matches lib c (e ∷ f ∷ es) r =
    reject_if true "Admission No"
      "Multiple matching enrollments found. Upload within a selected branch context." r

abbrev pub single : List FeeEnrollment → Option FeeEnrollment
single (e ∷ []) = some e
single _ = none

-- `if admission_number and academic_year`
abbrev pub is_keyed : FeeCells → Bool
is_keyed c = not (is_empty c.admission_number) && not (is_empty c.academic_year)

abbrev pub FileKey : Type 0
FileKey = String × String

abbrev pub file_key : TextLibrary → FeeCells → FileKey
file_key lib c = (lib.lower c.admission_number, lib.lower c.academic_year)

abbrev pub same_key : FileKey → FileKey → Bool
same_key a b = str_eq a.0 b.0 && str_eq a.1 b.1

-- the report on a row, with the keys of the rows before it and the enrollments that match it
unfoldable pub fee_row_report : TextLibrary → List FileKey → FeeCells → List FeeEnrollment → Report
fee_row_report lib seen c matches =
    let fields = check_amounts c (check_required c) in
    let keyed = check_matches lib c matches (
      reject_if (any (same_key (file_key lib c)) seen) "Admission No"
        "Duplicate fee setup row for this admission number and academic year inside this file."
        fields) in
    if is_keyed c then keyed else fields

unfoldable pub found_enrollment : FeeCells → List FeeEnrollment → Option FeeEnrollment
found_enrollment c matches = if is_keyed c then single matches else none

-- `notes if notes else None`
abbrev pub or_none : String → Option String
or_none s = if is_empty s then none else some s

abbrev pub part : (FeeEnrollment → ℕ) → Option FeeEnrollment → Option ℕ
part f none = none
part f (some e) = some (f e)

-- `normalized_data`
unfoldable pub fee_row_data : FeeCells → Option FeeEnrollment → FeeRowData
fee_row_data c enrollment = record {
  admission_number = c.admission_number;
  student_name = c.student_name;
  academic_year = c.academic_year;
  programme = c.programme;
  section = c.section;
  assigned_fee_amount = pos (or_zero c.assigned_fee);
  scholarship_amount = pos (or_zero c.scholarship);
  concession_amount = pos (or_zero c.concession);
  net_payable_amount =
      pos (or_zero c.assigned_fee) -ℤ pos (or_zero c.scholarship) -ℤ pos (or_zero c.concession);
  payment_schedule_type = c.schedule_type;
  notes = or_none c.notes;
  enrollment_id = part (λ e. e.enrollment_id) enrollment;
  student_id = part (λ e. e.student_id) enrollment;
  branch_id = part (λ e. e.branch_id) enrollment;
  academic_year_id = part (λ e. e.academic_year_id) enrollment;
}
