-- ===== src/Fees/Repository/Listings.antt =====
-- The SELECT statements of FeeRepository that list accounts, and enrollments without one.
use sms_backend.Common.{
  ℕ, String, Bool, true, false, Option, none, some, List, map, ◌==◌, leb, ◌&&◌, filter, first, join,
  outer_join, sort_by, eq_opt, if◌then◌else◌,
}
use sms_backend.Models.{
  FeeAccount, Student, Enrollment, Branch, AcademicYear, AcademicProgramme, Section, is_active,
  is_active_student,
}
use sms_backend.Database.{Db, Env}
use sms_backend.Fees.Schemas.{FeeAccountRow, FeeEnrollmentRow}
use sms_backend.Fees.Repository.Labels.{programme_display, section_display, year_level_label}

-- `if branch_id is not None: statement.where(table.c.branch_id == branch_id)`
abbrev pub in_branch : Option ℕ → ℕ → Bool
in_branch none b = true
in_branch (some wanted) b = b == wanted

abbrev programme_joins : Enrollment → AcademicProgramme → Bool
programme_joins e p = e.tenant_id == p.tenant_id && eq_opt e.programme_id p.id

abbrev section_joins : Enrollment → Section → Bool
section_joins e s =
    e.tenant_id == s.tenant_id
    && e.branch_id == s.branch_id
    && eq_opt e.batch_id s.batch_id
    && eq_opt e.section_id s.id

abbrev code_of : Option AcademicProgramme → Option String
code_of none = none
code_of (some p) = some p.programme_code

abbrev name_of : Option AcademicProgramme → Option String
name_of none = none
name_of (some p) = some p.programme_name

abbrev section_name_of : Option Section → Option String
section_name_of none = none
section_name_of (some s) = some s.section_name

-- the columns that `list_fee_accounts` selects from one joined row
unfoldable pub fee_account_row :
    Env
    → FeeAccount
    → Student
    → Enrollment
    → Branch
    → AcademicYear
    → Option AcademicProgramme
    → Option Section
    → FeeAccountRow
fee_account_row env a st e b y p s = record {
  id = a.id;
  tenant_id = a.tenant_id;
  branch_id = a.branch_id;
  student_id = a.student_id;
  enrollment_id = a.enrollment_id;
  academic_year_id = a.academic_year_id;
  admission_number = e.admission_number;
  display_name = st.display_name;
  legal_name = st.legal_name;
  branch_name = b.display_name;
  academic_year = y.name;
  year_level = e.year_level;
  year_level_label = year_level_label e;
  programme_code = code_of p;
  programme_name = name_of p;
  programme_display = programme_display env p;
  section_name = section_name_of s;
  section_display = section_display env p s;
  currency = a.currency;
  assigned_fee_amount = a.assigned_fee_amount;
  scholarship_amount = a.scholarship_amount;
  concession_amount = a.concession_amount;
  net_payable_amount = a.net_payable_amount;
  total_paid_amount = a.total_paid_amount;
  total_adjusted_amount = a.total_adjusted_amount;
  total_reversed_amount = a.total_reversed_amount;
  outstanding_amount = a.outstanding_amount;
  payment_schedule_type = a.payment_schedule_type;
  status = a.status;
}

-- The FROM clause of `list_fee_accounts`: the account with its student, enrollment, branch and year,
-- and the programme and section where there are such.
abbrev pub FeeAccountJoin : Type 0
FeeAccountJoin =
    FeeAccount
    × Student
    × Enrollment
    × Branch
    × AcademicYear
    × Option AcademicProgramme
    × Option Section

unfoldable pub fee_account_joins : Db → List FeeAccountJoin
fee_account_joins db =
    let with_student =
      join (λ a st. a.tenant_id == st.tenant_id && a.student_id == st.id) db.fee_accounts
        db.students in
    let with_enrollment =
      join (λ r e. r.0.tenant_id == e.tenant_id && r.0.enrollment_id == e.id) with_student
        db.enrollments in
    let with_branch =
      join (λ r b. r.0.0.tenant_id == b.tenant_id && r.0.0.branch_id == b.id) with_enrollment
        db.branches in
    let with_year =
      join (λ r y. r.0.0.0.tenant_id == y.tenant_id && r.0.0.0.academic_year_id == y.id) with_branch
        db.academic_years in
    let with_programme = outer_join (λ r p. programme_joins r.0.0.1 p) with_year db.programmes in
    let with_section = outer_join (λ r s. section_joins r.0.0.0.1 s) with_programme db.sections in
    map (λ r. (r.0.0.0.0.0.0, r.0.0.0.0.0.1, r.0.0.0.0.1, r.0.0.0.1, r.0.0.1, r.0.1, r.1))
      with_section

abbrev pub account_in_scope : ℕ → Option ℕ → FeeAccount → Bool
account_in_scope tenant_id branch_id a = a.tenant_id == tenant_id && in_branch branch_id a.branch_id

-- FeeRepository.list_fee_accounts
unfoldable pub list_fee_accounts : Env → ℕ → Option ℕ → Db → List FeeAccountRow
list_fee_accounts env tenant_id branch_id db =
    map (λ r. fee_account_row env r.0 r.1 r.2 r.3 r.4 r.5 r.6)
      (sort_by (λ r q. leb q.0.created_at r.0.created_at)
        (filter (λ r. account_in_scope tenant_id branch_id r.0) (fee_account_joins db)))

-- FeeRepository.get_fee_account_list_item
unfoldable pub get_fee_account_list_item : Env → ℕ → ℕ → Db → Option FeeAccountRow
get_fee_account_list_item env tenant_id account_id db =
    first (filter (λ r. r.id == account_id) (list_fee_accounts env tenant_id none db))

abbrev pub EnrollmentJoin : Type 0
EnrollmentJoin =
    Enrollment
    × Student
    × Branch
    × AcademicYear
    × Option AcademicProgramme
    × Option Section
    × Option FeeAccount

abbrev account_joins : Enrollment → FeeAccount → Bool
account_joins e a = e.tenant_id == a.tenant_id && e.id == a.enrollment_id

unfoldable pub enrollment_joins : Db → List EnrollmentJoin
enrollment_joins db =
    let with_student =
      join (λ e st. e.tenant_id == st.tenant_id && e.student_id == st.id) db.enrollments
        db.students in
    let with_branch =
      join (λ r b. r.0.tenant_id == b.tenant_id && r.0.branch_id == b.id) with_student
        db.branches in
    let with_year =
      join (λ r y. r.0.0.tenant_id == y.tenant_id && r.0.0.academic_year_id == y.id) with_branch
        db.academic_years in
    let with_programme = outer_join (λ r p. programme_joins r.0.0.0 p) with_year db.programmes in
    let with_section = outer_join (λ r s. section_joins r.0.0.0.0 s) with_programme db.sections in
    let with_account =
      outer_join (λ r a. account_joins r.0.0.0.0.0 a) with_section db.fee_accounts in
    map (λ r. (r.0.0.0.0.0.0, r.0.0.0.0.0.1, r.0.0.0.0.1, r.0.0.0.1, r.0.0.1, r.0.1, r.1))
      with_account

abbrev pub no_account : Option FeeAccount → Bool
no_account none = true
no_account (some _) = false

unfoldable pub fee_enrollment_row : Env → EnrollmentJoin → FeeEnrollmentRow
fee_enrollment_row env (e, st, b, y, p, s, _) = record {
  enrollment_id = e.id;
  student_id = e.student_id;
  branch_id = e.branch_id;
  academic_year_id = e.academic_year_id;
  admission_number = e.admission_number;
  display_name = st.display_name;
  legal_name = st.legal_name;
  branch_name = b.display_name;
  academic_year = y.name;
  year_level = e.year_level;
  year_level_label = year_level_label e;
  programme_code = code_of p;
  programme_name = name_of p;
  programme_display = programme_display env p;
  section_name = section_name_of s;
  section_display = section_display env p s;
}

-- ORDER BY legal_name, admission_number: NULL comes last in an ascending order
abbrev pub opt_le : Env → Option String → Option String → Bool
opt_le env _ none = true
opt_le env none (some _) = false
opt_le env (some a) (some b) = env.text_le a b

abbrev setup_le : Env → EnrollmentJoin → EnrollmentJoin → Bool
setup_le env r q =
    if env.text_le q.1.legal_name r.1.legal_name
    then env.text_le r.1.legal_name q.1.legal_name
      && opt_le env r.0.admission_number q.0.admission_number
    else true

abbrev setup_open : ℕ → Option ℕ → EnrollmentJoin → Bool
setup_open tenant_id branch_id r =
    r.0.tenant_id == tenant_id
    && r.0.is_current
    && is_active r.0.status
    && no_account r.6
    && in_branch branch_id r.0.branch_id

-- FeeRepository.list_enrollments_without_fee_accounts
unfoldable pub list_enrollments_without_fee_accounts :
    Env → ℕ → Option ℕ → Db → List FeeEnrollmentRow
list_enrollments_without_fee_accounts env tenant_id branch_id db =
    map (fee_enrollment_row env)
      (sort_by (setup_le env) (filter (setup_open tenant_id branch_id) (enrollment_joins db)))

-- the row of `get_active_enrollment_for_fee_setup`
pub record SetupEnrollment : Type 0 where
  pub enrollment_id : ℕ
  pub tenant_id : ℕ
  pub student_id : ℕ
  pub branch_id : ℕ
  pub academic_year_id : ℕ
  pub fee_account_id : Option ℕ

abbrev account_id_of : Option FeeAccount → Option ℕ
account_id_of none = none
account_id_of (some a) = some a.id

abbrev setup_row : (Enrollment × Student) × Option FeeAccount → SetupEnrollment
setup_row r = record {
  enrollment_id = r.0.0.id;
  tenant_id = r.0.0.tenant_id;
  student_id = r.0.0.student_id;
  branch_id = r.0.0.branch_id;
  academic_year_id = r.0.0.academic_year_id;
  fee_account_id = account_id_of r.1;
}

-- FeeRepository.get_active_enrollment_for_fee_setup
unfoldable pub get_active_enrollment_for_fee_setup : ℕ → Option ℕ → ℕ → Db → Option SetupEnrollment
get_active_enrollment_for_fee_setup tenant_id branch_id enrollment_id db =
    let with_student =
      join (λ e st. e.tenant_id == st.tenant_id && e.student_id == st.id) db.enrollments
        db.students in
    let with_account = outer_join (λ r a. account_joins r.0 a) with_student db.fee_accounts in
    first (
      map setup_row (
        filter
          (λ r.
            r.0.0.id == enrollment_id
            && r.0.0.tenant_id == tenant_id
            && r.0.0.is_current
            && is_active r.0.0.status
            && is_active_student r.0.1.current_status
            && in_branch branch_id r.0.0.branch_id)
          with_account))
