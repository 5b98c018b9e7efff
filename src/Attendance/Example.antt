-- ===== src/Attendance/Example.antt =====
-- A small class on which the attendance theorems are applied.
use sms_backend.Common.{ℕ, ◌+◌, ◌≡◌, true, false, [], ◌∷◌, List, some, none}
use sms_backend.Models.{
  AttendanceSession, AttendanceRecord, SessionStatus, RecordStatus, Student, StudentStatus,
  Enrollment, EnrollmentStatus, queued,
}
use sms_backend.Database.{
  Db, Env, Action, ok, err, http, message, Result, Session, raise, continue, ◌>>◌,
}
use sms_backend.Security.Text.{codes}
use sms_backend.Notifications.Repository.{LogEntry}
use sms_backend.Notifications.Commits.{create_log_committed, create_log_committed-elsewhere}
use sms_backend.Security.Context.{RequestContext, ScopeType}
use sms_backend.Attendance.Schemas.{AttendanceSessionCreate}
use sms_backend.Attendance.Service.{AbsentNotice}
use sms_backend.Attendance.Lifecycle.{KeepsSessions}
use sms_backend.Attendance.History.{Request}

abbrev pub env : Env
env = record {
  text_le = λ _ _. true;
  like = λ _ _. false;
  right = λ s _. s;
  now = 500;
  today = 20;
  uuid = λ k. k + 100;
}

abbrev pub session : ℕ → SessionStatus → AttendanceSession
session id status = record {
  id = id;
  tenant_id = 1;
  branch_id = 2;
  academic_year_id = 3;
  batch_id = 4;
  section_id = 5;
  attendance_date = 20;
  status = status;
  opened_by = 7;
  submitted_by = none;
  submitted_at = none;
  finalized_by = none;
  finalized_at = none;
  updated_at = 400;
}

abbrev pub open_session_ : AttendanceSession
open_session_ = session 70 SessionStatus.draft

abbrev pub handed_in : AttendanceSession
handed_in = record (session 70 SessionStatus.submitted) {
  submitted_by = some 7;
  submitted_at = some 450;
}

abbrev pub pupil : Student
pupil = record {
  id = 10;
  tenant_id = 1;
  legal_name = "Asha";
  display_name = none;
  current_status = StudentStatus.active;
  created_at = 0;
}

abbrev pub enrolled : Enrollment
enrolled = record {
  id = 30;
  tenant_id = 1;
  student_id = 10;
  branch_id = 2;
  academic_year_id = 3;
  programme_id = none;
  batch_id = some 4;
  section_id = some 5;
  admission_number = none;
  roll_number = none;
  year_level = "1";
  status = EnrollmentStatus.active;
  is_current = true;
}

abbrev pub mark : AttendanceRecord
mark = record {
  tenant_id = 1;
  branch_id = 2;
  session_id = 70;
  enrollment_id = 30;
  attendance_status = RecordStatus.absent;
  note = none;
  marked_by = 7;
  marked_at = 410;
  updated_at = 410;
}

abbrev pub class : AttendanceSession → List AttendanceRecord → Db
class o marks = record {
  tenants = record { id = 1; display_name = "Trust" } ∷ [];
  branches = record { id = 2; tenant_id = 1; display_name = "North" } ∷ [];
  users = record { id = 7; full_name = "Teacher" } ∷ [];
  audit_events = [];
  academic_years = record { id = 3; tenant_id = 1; code = "AY26"; name = "2026-27" } ∷ [];
  programmes = [];
  batches = [];
  sections = [];
  students = pupil ∷ [];
  enrollments = enrolled ∷ [];
  fee_accounts = [];
  ledger_entries = [];
  attendance_sessions = o ∷ [];
  attendance_records = marks;
  import_batches = [];
  import_rows = [];
  subjects = [];
  notification_logs = [];
  exams = [];
  exam_subjects = [];
  exam_records = [];
}

-- what is logged of the absences of a section
abbrev pub absence_log : AbsentNotice → LogEntry
absence_log n = record {
  tenant_id = n.tenant_id;
  branch_id = some n.branch_id;
  event_type = codes "ATTENDANCE_ABSENT";
  entity_id = n.section_id ∷ [];
  student_id = none;
  recipient_phone = none;
  template_name = codes "attendance_absent";
  idempotency_key = n.section_id ∷ n.attendance_date ∷ [];
  delivery_status = queued;
  error_message = none;
}

-- a notification that writes its log, commits the session of the request, and then fails
abbrev pub failing : AbsentNotice → Action (Unit {0})
failing n =
    create_log_committed 900 500 (absence_log n)
    >> raise (http 503 (message "Provider unavailable."))

pub failing-KeepsSessions : KeepsSessions failing
failing-KeepsSessions n s settled =
    published_log (create_log_committed 900 500 (absence_log n) s)
      ((create_log_committed-elsewhere 900 500 (absence_log n) s settled).2)
  where
    published_log :
        (r : Result (Unit {0}) × Session)
        → r.1.committed.attendance_sessions ≡ s.committed.attendance_sessions
        → (continue r (λ _.
            raise {A = Unit {0}}
              (http 503 (message "Provider unavailable.")))).1.committed.attendance_sessions
          ≡ s.committed.attendance_sessions
    published_log (ok a, s') h = h
    published_log (err e, s') h = h

-- a caller of another tenant with no permission
abbrev pub stranger : RequestContext
stranger = record {
  authenticated_auth_user_id = 9;
  app_user_id = 9;
  assignment_id = 9;
  tenant_id = some 8;
  branch_id = some 8;
  canonical_role_codes = [];
  permission_keys = [];
  enabled_modules = [];
  scope_type = ScopeType.branch;
  correlation_id = none;
}

abbrev pub marked_class : Db
marked_class = class open_session_ (mark ∷ [])

-- from the draft to the finalized session, with a return on the way
abbrev pub term : List Request
term =
    Request.submit env 70 1 2 7
    ∷ Request.return env 70 1 2 7 (some "check again")
    ∷ Request.submit env 70 1 2 7
    ∷ Request.finalize env 70 1 2 7
    ∷ []

abbrev pub teacher : RequestContext
teacher = record stranger {
  app_user_id = 7;
  tenant_id = some 1;
  branch_id = some 2;
  permission_keys = "attendance.mark" ∷ [];
}

-- a section that the teacher may open the attendance of
abbrev pub sectioned : Db
sectioned = record (class open_session_ []) {
  sections =
      record {
        id = 5;
        tenant_id = 1;
        branch_id = 2;
        batch_id = 4;
        section_name = "A";
        status = "ACTIVE";
        created_at = 0;
      }
      ∷ [];
  batches =
      record {
        id = 4;
        tenant_id = 1;
        branch_id = 2;
        academic_year_id = 3;
        programme_id = 6;
        batch_name = "2026";
        year_level = "1";
      }
      ∷ [];
  attendance_sessions = [];
}

abbrev pub today : AttendanceSessionCreate
today = record { section_id = 5; attendance_date = 20 }
