-- ===== src/Attendance/Service.antt =====
-- The operations of app/modules/attendance/service.py.
use sms_backend.Common.{
  ℕ, String, Option, none, some, List, [], ◌∷◌, ◌++◌, ◌==◌, not, any, filter, first, map, ltb,
  length, is_some, if◌then◌else◌,
}
use sms_backend.Models.{
  AttendanceSession, AttendanceRecord, SessionStatus, RecordStatus, AuditEvent, Enrollment, Student,
  Section, Batch, is_draft, is_submitted, is_absent,
}
use sms_backend.Database.{
  Db, Env, Session, Result, err, integrity, multiple_rows, exception, http, message, counted, ok,
  Action, pure, select, or_raise, raise_if, ◌>>=◌, ◌>>◌, commit,
}
use sms_backend.Attendance.Schemas.{
  AttendanceSessionCreate, Mark, marked, unmarked, AttendanceRecordUpdate,
  AttendanceSessionResponse,
}
use sms_backend.Attendance.Repository.{
  get_session_by_section_and_date, create_session, get_records_for_session,
  get_active_enrollments_for_section, upsert_attendance_record, update_session_status,
}
use sms_backend.Attendance.Responses.{
  get_section_or_404, get_session_or_404, record_for, build_session_response,
}

-- the session that `create_daily_session` adds
unfoldable pub new_session : Env → AttendanceSessionCreate → ℕ → ℕ → ℕ → Batch → AttendanceSession
new_session env payload tenant_id branch_id user_id batch = record {
  id = env.uuid 0;
  tenant_id = tenant_id;
  branch_id = branch_id;
  academic_year_id = batch.academic_year_id;
  batch_id = batch.id;
  section_id = payload.section_id;
  attendance_date = payload.attendance_date;
  status = SessionStatus.draft;
  opened_by = user_id;
  submitted_by = none;
  submitted_at = none;
  finalized_by = none;
  finalized_at = none;
  updated_at = env.now;
}

-- the end of `create_daily_session`
unfoldable pub open_or_create :
    Env
    → AttendanceSessionCreate
    → ℕ
    → ℕ
    → ℕ
    → Batch
    → Option AttendanceSession
    → Action AttendanceSessionResponse
open_or_create env payload tenant_id branch_id user_id batch (some existing) =
    build_session_response env existing
open_or_create env payload tenant_id branch_id user_id batch none = do
  created ← create_session (new_session env payload tenant_id branch_id user_id batch)
  commit
  build_session_response env created

-- create_daily_session
unfoldable pub create_daily_session :
    Env → AttendanceSessionCreate → ℕ → ℕ → ℕ → Action AttendanceSessionResponse
create_daily_session env payload tenant_id branch_id user_id = do
  raise_if (ltb env.today payload.attendance_date)
      (http 400 (message "Cannot mark attendance for future dates."))
  section ← get_section_or_404 payload.section_id tenant_id branch_id
  found ← select (λ db. first (filter (λ b. b.id == section.batch_id) db.batches))
  batch ← or_raise found (http 500 (message "Batch configuration missing"))
  existing ← get_session_by_section_and_date payload.section_id payload.attendance_date
  open_or_create env payload tenant_id branch_id user_id batch existing

-- get_session_with_records
unfoldable pub get_session_with_records : Env → ℕ → ℕ → Option ℕ → Action AttendanceSessionResponse
get_session_with_records env session_id tenant_id branch_id = do
  session ← get_session_or_404 session_id tenant_id branch_id
  build_session_response env session

-- the record of one line of the payload
unfoldable pub marked_record :
    Env → ℕ → ℕ → ℕ → ℕ → ℕ → RecordStatus → Option String → AttendanceRecord
marked_record env session_id tenant_id branch_id user_id enrollment_id status note = record {
  tenant_id = tenant_id;
  branch_id = branch_id;
  session_id = session_id;
  enrollment_id = enrollment_id;
  attendance_status = status;
  note = note;
  marked_by = user_id;
  marked_at = env.now;
  updated_at = env.now;
}

-- the body of the loop of `save_draft_records`
unfoldable pub save_mark : Env → ℕ → ℕ → ℕ → ℕ → ℕ → Mark → Option String → Action (Unit {0})
save_mark env session_id tenant_id branch_id user_id enrollment_id unmarked _ = pure tt
save_mark env session_id tenant_id branch_id user_id enrollment_id (marked status) note =
    upsert_attendance_record
      (marked_record env session_id tenant_id branch_id user_id enrollment_id status note)

unfoldable pub save_marks : Env → ℕ → ℕ → ℕ → ℕ → List AttendanceRecordUpdate → Action (Unit {0})
save_marks env session_id tenant_id branch_id user_id [] = pure tt
save_marks env session_id tenant_id branch_id user_id (u ∷ us) = do
  save_mark env session_id tenant_id branch_id user_id u.enrollment_id u.attendance_status u.note
  save_marks env session_id tenant_id branch_id user_id us

-- save_draft_records
unfoldable pub save_draft_records :
    Env → ℕ → List AttendanceRecordUpdate → ℕ → ℕ → ℕ → Action AttendanceSessionResponse
save_draft_records env session_id records tenant_id branch_id user_id = do
  session ← get_session_or_404 session_id tenant_id (some branch_id)
  raise_if (not (is_draft session.status))
      (http 400 (message "Can only save draft records for a DRAFT session."))
  save_marks env session.id tenant_id branch_id user_id records
  commit
  build_session_response env session

-- the students of the section without a record
unfoldable pub missing_students :
    List AttendanceRecord → List (Enrollment × Student) → List (Enrollment × Student)
missing_students records = filter (λ r. not (is_some (record_for r.0.id records)))

-- submit_session
unfoldable pub submit_session : Env → ℕ → ℕ → ℕ → ℕ → Action AttendanceSessionResponse
submit_session env session_id tenant_id branch_id user_id = do
  session ← get_session_or_404 session_id tenant_id (some branch_id)
  raise_if (not (is_draft session.status))
      (http 400 (message "Only DRAFT sessions can be submitted."))
  enrollments ← select (get_active_enrollments_for_section env session.section_id)
  records ← select (get_records_for_session session.id)
  let missing = length (missing_students records enrollments)
  raise_if (ltb 0 missing)
      (http 400 (counted "Cannot submit. Missing attendance for " missing " students."))
  update_session_status session.id SessionStatus.submitted user_id env.now
  commit
  build_session_response env session

-- the audit event of a return
unfoldable pub return_event : Env → ℕ → ℕ → ℕ → ℕ → Option String → AuditEvent
return_event env session_id tenant_id branch_id user_id reason = record {
  tenant_id = tenant_id;
  branch_id = branch_id;
  actor_user_id = user_id;
  module_code = "attendance";
  action_key = "ATTENDANCE_RETURNED_FOR_REVISION";
  target_type = "AttendanceSession";
  target_id = session_id;
  outcome = "SUCCEEDED";
  reason = reason;
  correlation_id = env.uuid 0;
  created_at = env.now;
}

abbrev pub add_event : AuditEvent → Action (Unit {0})
add_event a s = (ok tt, record s { new_events = s.new_events ++ a ∷ [] })

-- return_session_for_revision
unfoldable pub return_session_for_revision :
    Env → ℕ → ℕ → ℕ → ℕ → Option String → Action AttendanceSessionResponse
return_session_for_revision env session_id tenant_id branch_id user_id reason = do
  session ← get_session_or_404 session_id tenant_id (some branch_id)
  raise_if (not (is_submitted session.status))
      (http 400 (message "Only SUBMITTED sessions can be returned for revision."))
  update_session_status session.id SessionStatus.draft user_id env.now
  add_event (return_event env session.id tenant_id branch_id user_id reason)
  commit
  build_session_response env session

-- the arguments of `send_attendance_absent_notifications`
pub record AbsentNotice : Type 0 where
  pub section_id : ℕ
  pub section_name : String
  pub absent_student_ids : List ℕ
  pub attendance_date : ℕ
  pub tenant_id : ℕ
  pub branch_id : ℕ

abbrev section_name_or_default : Option Section → String
section_name_or_default none = "Default"
section_name_or_default (some o) = o.section_name

unfoldable pub absent_notice : AttendanceSession → ℕ → ℕ → Db → AbsentNotice
absent_notice o tenant_id branch_id db =
    let absent = filter (λ r. is_absent r.attendance_status) (get_records_for_session o.id db) in
    record {
      section_id = o.section_id;
      section_name =
          section_name_or_default (first (filter (λ c. c.id == o.section_id) db.sections));
      absent_student_ids =
          map (λ e. e.student_id)
            (filter (λ e. any (λ r. r.enrollment_id == e.id) absent) db.enrollments);
      attendance_date = o.attendance_date;
      tenant_id = tenant_id;
      branch_id = branch_id;
    }

-- `if absent_enrollment_ids: …` in the `try` of `finalize_session`
unfoldable pub notify_absent :
    (AbsentNotice → Action (Unit {0})) → AttendanceSession → ℕ → ℕ → Action (Unit {0})
notify_absent notify o tenant_id branch_id = do
  someone ←
      select (λ db. any (λ r. is_absent r.attendance_status) (get_records_for_session o.id db))
  notice ← select (absent_notice o tenant_id branch_id)
  if someone then notify notice else pure tt

-- After `except Exception: print(…)` the request goes on, but a statement that the database refused has
-- aborted the transaction, so that the next query raises.
abbrev pub go_on : Result (Unit {0}) × Session → Result (Unit {0}) × Session
go_on (ok _, s) = (ok tt, s)
go_on (err integrity, s) = (err integrity, s)
go_on (err (http status detail), s) = (ok tt, s)
go_on (err multiple_rows, s) = (ok tt, s)
go_on (err exception, s) = (ok tt, s)

-- `try: … except Exception: print(…)`
abbrev pub or_print : Action (Unit {0}) → Action (Unit {0})
or_print m s = go_on (m s)

-- finalize_session with the task queue that the router always passes; `notify` is
-- WhatsAppNotificationService.send_attendance_absent_notifications
unfoldable pub finalize_session :
    Env → (AbsentNotice → Action (Unit {0})) → ℕ → ℕ → ℕ → ℕ → Action AttendanceSessionResponse
finalize_session env notify session_id tenant_id branch_id user_id = do
  session ← get_session_or_404 session_id tenant_id (some branch_id)
  raise_if (not (is_submitted session.status))
      (http 400 (message "Only SUBMITTED sessions can be finalized."))
  update_session_status session.id SessionStatus.finalized user_id env.now
  commit
  or_print (notify_absent notify session tenant_id branch_id)
  build_session_response env session
