-- ===== src/Imports/Matches.antt =====
-- ImportRepository.find_fee_import_enrollments (app/modules/imports/repository.py). The order of the
-- rows is left out: the validator only uses a row that is the single one.
use Prim.Native.String.{◌++◌}
use text.Mathlib.Text.{◌==◌ as str_eq}
use sms_backend.Common.{
  ℕ, String, Bool, true, false, Option, none, some, List, map, ◌==◌, ◌&&◌, ◌||◌, filter, join,
  outer_join, eq_opt,
}
use sms_backend.Models.{
  Enrollment, Student, AcademicYear, AcademicProgramme, Section, FeeAccount, is_active,
  is_active_student,
}
use sms_backend.Database.{Db}
use sms_backend.Fees.Repository.{in_branch}
use sms_backend.Imports.Values.{TextLibrary}

-- a row of the query
pub record FeeEnrollment : Type 0 where
  pub enrollment_id : ℕ
  pub student_id : ℕ
  pub branch_id : ℕ
  pub academic_year_id : ℕ
  pub legal_name : String
  pub display_name : Option String
  pub programme_code : Option String
  pub programme_name : Option String
  pub stream_code : Option String
  pub coaching_track : Option String
  pub programme_display : Option String
  pub section_name : Option String
  pub fee_account_id : Option ℕ

abbrev column : {A B : Type 0} → (A → Option B) → Option A → Option B
column f none = none
column f (some a) = f a

abbrev stream_label :
    TextLibrary → AcademicProgramme → Option String → Option String → Option String
stream_label lib p (some stream) (some track) = some (stream ++ (" - " ++ track))
stream_label lib p _ _ = elim (lib.ilike p.programme_name (p.programme_code ++ " - %")) [
  | true ↦ some p.programme_name
  | false ↦ some (p.programme_code ++ (" - " ++ p.programme_name))
]

-- the CASE expression: the codes and names of a programme are never NULL
unfoldable pub programme_label : TextLibrary → Option AcademicProgramme → Option String
programme_label lib none = none
programme_label lib (some p) = stream_label lib p p.stream_code p.coaching_track

-- `lower(column) = lower(:value)`, where the column may be NULL
abbrev same_lower : TextLibrary → Option String → String → Bool
same_lower lib none value = false
same_lower lib (some s) value = str_eq (lib.pg_lower s) (lib.pg_lower value)

abbrev fee_joins :
    Db
    → List (
        ((((Enrollment × Student) × AcademicYear) × Option AcademicProgramme) × Option Section)
        × Option FeeAccount)
fee_joins db =
    let with_student =
      join (λ e s. s.tenant_id == e.tenant_id && s.id == e.student_id) db.enrollments db.students in
    let with_year =
      join (λ r y. y.tenant_id == r.0.tenant_id && y.id == r.0.academic_year_id) with_student
        db.academic_years in
    let with_programme =
      outer_join (λ r p. p.tenant_id == r.0.0.tenant_id && eq_opt r.0.0.programme_id p.id) with_year
        db.programmes in
    let with_section =
      outer_join
        (λ r s.
          s.tenant_id == r.0.0.0.tenant_id
          && s.branch_id == r.0.0.0.branch_id
          && eq_opt r.0.0.0.batch_id s.batch_id
          && eq_opt r.0.0.0.section_id s.id)
        with_programme db.sections in
    outer_join (λ r a. a.tenant_id == r.0.0.0.0.tenant_id && a.enrollment_id == r.0.0.0.0.id)
      with_section db.fee_accounts

unfoldable pub fee_enrollment :
    TextLibrary
    → Enrollment
    → Student
    → Option AcademicProgramme
    → Option Section
    → Option FeeAccount
    → FeeEnrollment
fee_enrollment lib e s p sec a = record {
  enrollment_id = e.id;
  student_id = e.student_id;
  branch_id = e.branch_id;
  academic_year_id = e.academic_year_id;
  legal_name = s.legal_name;
  display_name = s.display_name;
  programme_code = column (λ q. some q.programme_code) p;
  programme_name = column (λ q. some q.programme_name) p;
  stream_code = column (λ q. q.stream_code) p;
  coaching_track = column (λ q. q.coaching_track) p;
  programme_display = programme_label lib p;
  section_name = column (λ q. some q.section_name) sec;
  fee_account_id = column (λ q. some q.id) a;
}

-- the WHERE clause
unfoldable pub fee_enrollment_wanted :
    TextLibrary → ℕ → Option ℕ → String → String → Enrollment → Student → AcademicYear → Bool
fee_enrollment_wanted lib tenant_id branch_id admission_number academic_year e s y =
    e.tenant_id == tenant_id
    && same_lower lib e.admission_number admission_number
    && (same_lower lib (some y.name) academic_year || same_lower lib (some y.code) academic_year)
    && is_active e.status
    && e.is_current
    && is_active_student s.current_status
    && in_branch branch_id e.branch_id

unfoldable pub find_fee_import_enrollments :
    TextLibrary → ℕ → Option ℕ → String → String → Db → List FeeEnrollment
find_fee_import_enrollments lib tenant_id branch_id admission_number academic_year db =
    map (λ r. fee_enrollment lib r.0.0.0.0.0 r.0.0.0.0.1 r.0.0.1 r.0.1 r.1)
      (filter
        (λ r.
          fee_enrollment_wanted lib tenant_id branch_id admission_number academic_year r.0.0.0.0.0
            r.0.0.0.0.1 r.0.0.0.1)
        (fee_joins db))
