-- ===== src/Models/Attendance.antt =====
-- app/modules/attendance/models.py
use sms_backend.Common.{ℕ, String, Option, Bool, true, false}

-- ck_sms_attendance_sessions_status
pub data SessionStatus : Type 0 where
  draft submitted finalized : SessionStatus

-- ck_sms_attendance_records_status
pub data RecordStatus : Type 0 where
  present absent leave : RecordStatus

-- sms_attendance_sessions
pub record AttendanceSession : Type 0 where
  pub id : ℕ
  pub tenant_id : ℕ
  pub branch_id : ℕ
  pub academic_year_id : ℕ
  pub batch_id : ℕ
  pub section_id : ℕ
  pub attendance_date : ℕ
  pub status : SessionStatus
  pub opened_by : ℕ
  pub submitted_by : Option ℕ
  pub submitted_at : Option ℕ
  pub finalized_by : Option ℕ
  pub finalized_at : Option ℕ
  pub updated_at : ℕ

-- sms_attendance_records
pub record AttendanceRecord : Type 0 where
  pub tenant_id : ℕ
  pub branch_id : ℕ
  pub session_id : ℕ
  pub enrollment_id : ℕ
  pub attendance_status : RecordStatus
  pub note : Option String
  pub marked_by : ℕ
  pub marked_at : ℕ
  pub updated_at : ℕ

abbrev pub is_draft : SessionStatus → Bool
is_draft SessionStatus.draft = true
is_draft _ = false

abbrev pub is_submitted : SessionStatus → Bool
is_submitted SessionStatus.submitted = true
is_submitted _ = false

abbrev pub is_absent : RecordStatus → Bool
is_absent RecordStatus.absent = true
is_absent _ = false
