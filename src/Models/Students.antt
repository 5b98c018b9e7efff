-- ===== src/Models/Students.antt =====
-- app/modules/students/models.py
use sms_backend.Common.{ℕ, String, Option, Bool, true, false}

-- ck_sms_enrollments_status
pub data EnrollmentStatus : Type 0 where
  draft active promoted transferred withdrawn completed closed : EnrollmentStatus

-- ck_sms_students_current_status
pub data StudentStatus : Type 0 where
  applicant admitted active inactive withdrawn completed : StudentStatus

-- sms_students
pub record Student : Type 0 where
  pub id : ℕ
  pub tenant_id : ℕ
  pub legal_name : String
  pub display_name : Option String
  pub current_status : StudentStatus
  pub created_at : ℕ

-- sms_enrollments
pub record Enrollment : Type 0 where
  pub id : ℕ
  pub tenant_id : ℕ
  pub student_id : ℕ
  pub branch_id : ℕ
  pub academic_year_id : ℕ
  pub programme_id : Option ℕ
  pub batch_id : Option ℕ
  pub section_id : Option ℕ
  pub admission_number : Option String
  pub roll_number : Option String
  pub year_level : String
  pub status : EnrollmentStatus
  pub is_current : Bool

-- status == "ACTIVE"
abbrev pub is_active : EnrollmentStatus → Bool
is_active EnrollmentStatus.active = true
is_active _ = false

-- current_status == "ACTIVE"
abbrev pub is_active_student : StudentStatus → Bool
is_active_student StudentStatus.active = true
is_active_student _ = false
