-- ===== src/Attendance/Schemas.antt =====
-- app/modules/attendance/schemas.py. Identifiers in requests are strings that the service turns into
-- UUIDs: the model starts from the UUIDs.
use sms_backend.Common.{ℕ, String, Option, List}
use sms_backend.Models.{RecordStatus, SessionStatus}

pub record AttendanceSessionCreate : Type 0 where
  pub section_id : ℕ
  pub attendance_date : ℕ

-- Literal["PRESENT", "ABSENT", "LEAVE", "UNMARKED"]
pub data Mark : Type 0 where
  marked : RecordStatus → Mark
  unmarked : Mark

pub record AttendanceRecordUpdate : Type 0 where
  pub enrollment_id : ℕ
  pub attendance_status : Mark
  pub note : Option String

-- a user's name, or the text of the key where there is no name
pub data UserLabel : Type 0 where
  named : String → UserLabel
  by_id : ℕ → UserLabel

pub record AttendanceStudentResponse : Type 0 where
  pub enrollment_id : ℕ
  pub student_id : ℕ
  pub student_name : String
  pub admission_number : Option String
  pub roll_number : Option String
  pub attendance_status : Mark
  pub note : Option String

pub record AttendanceSessionResponse : Type 0 where
  pub id : ℕ
  pub tenant_id : ℕ
  pub branch_id : ℕ
  pub academic_year_id : ℕ
  pub batch_id : ℕ
  pub section_id : ℕ
  pub attendance_date : ℕ
  pub status : SessionStatus
  pub opened_by : UserLabel
  pub submitted_by : Option UserLabel
  pub submitted_at : Option ℕ
  pub finalized_by : Option UserLabel
  pub finalized_at : Option ℕ
  pub revision_reason : Option String
  pub students : List AttendanceStudentResponse
