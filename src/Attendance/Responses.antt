-- ===== src/Attendance/Responses.antt =====
-- What the operations of app/modules/attendance/service.py look up, and the answer that they build.
use text.Mathlib.Text.{◌==◌ as str_eq}
use sms_backend.Common.{
  ℕ, String, Bool, false, Option, none, some, List, [], ◌∷◌, ◌==◌, ◌&&◌, not, filter, first, map,
  sort_by, leb, if◌then◌else◌,
}
use sms_backend.Models.{
  AttendanceSession, AttendanceRecord, AuditEvent, Enrollment, Student, Section, is_draft,
}
use sms_backend.Database.{
  Db, Env, Error, http, message, Action, pure, select, or_raise, raise_if, ◌>>=◌, ◌>>◌,
}
use sms_backend.Attendance.Schemas.{
  Mark, marked, unmarked, UserLabel, named, by_id, AttendanceStudentResponse,
  AttendanceSessionResponse,
}
use sms_backend.Attendance.Repository.{
  get_session_by_id, get_records_for_session, get_active_enrollments_for_section,
}

abbrev pub session_not_found : Error
session_not_found = http 404 (message "Attendance session not found or access denied.")

-- `if branch_id is not None and session.branch_id != branch_id`
abbrev pub other_branch : Option ℕ → ℕ → Bool
other_branch none b = false
other_branch (some wanted) b = not (b == wanted)

-- _get_section_or_404
unfoldable pub get_section_or_404 : ℕ → ℕ → ℕ → Action Section
get_section_or_404 section_id tenant_id branch_id = do
  found ← select (λ db. first (
      filter (λ o. o.id == section_id && o.tenant_id == tenant_id && o.branch_id == branch_id)
        db.sections))
  or_raise found (http 404 (message "Section not found or access denied."))

-- _get_session_or_404
unfoldable pub get_session_or_404 : ℕ → ℕ → Option ℕ → Action AttendanceSession
get_session_or_404 session_id tenant_id branch_id = do
  found ← get_session_by_id session_id
  session ← or_raise found session_not_found
  raise_if (not (session.tenant_id == tenant_id)) session_not_found
  raise_if (other_branch branch_id session.branch_id) session_not_found
  pure session

-- _get_user_name of a key that is not None
unfoldable pub get_user_name : Db → ℕ → UserLabel
get_user_name db id = elim (first (filter (λ u. u.id == id) db.users)) [
  | none ↦ by_id id
  | some u ↦ named u.full_name
]

abbrev optional_name : Db → Option ℕ → Option UserLabel
optional_name db none = none
optional_name db (some id) = some (get_user_name db id)

-- `_get_user_name(…) or str(session.opened_by)`
abbrev name_or_id : UserLabel → ℕ → UserLabel
name_or_id (named n) id = if str_eq n "" then by_id id else named n
name_or_id (by_id i) id = by_id i

-- `{r.enrollment_id: r for r in records}.get(enrollment_id)`: the last entry of a key stays
unfoldable pub record_for : ℕ → List AttendanceRecord → Option AttendanceRecord
record_for enrollment_id [] = none
record_for enrollment_id (r ∷ rs) = elim (record_for enrollment_id rs) [
  | none ↦ if r.enrollment_id == enrollment_id then some r else none
  | some later ↦ some later
]

abbrev mark_of : Option AttendanceRecord → Mark
mark_of none = unmarked
mark_of (some r) = marked r.attendance_status

abbrev note_of : Option AttendanceRecord → Option String
note_of none = none
note_of (some r) = r.note

-- `display_name or legal_name`
abbrev shown_name : Student → String
shown_name st = elim st.display_name [
  | none ↦ st.legal_name
  | some d ↦ if str_eq d "" then st.legal_name else d
]

unfoldable pub student_response :
    List AttendanceRecord → Enrollment × Student → AttendanceStudentResponse
student_response records (e, st) = record {
  enrollment_id = e.id;
  student_id = st.id;
  student_name = shown_name st;
  admission_number = e.admission_number;
  roll_number = e.roll_number;
  attendance_status = mark_of (record_for e.id records);
  note = note_of (record_for e.id records);
}

abbrev returned_event : ℕ → AuditEvent → Bool
returned_event id a = a.target_id == id && str_eq a.action_key "ATTENDANCE_RETURNED_FOR_REVISION"

abbrev reason_of : Option AuditEvent → Option String
reason_of none = none
reason_of (some a) = a.reason

unfoldable pub revision_reason : AttendanceSession → Db → Option String
revision_reason session db =
    let latest = first (
      sort_by (λ a b. leb b.created_at a.created_at)
        (filter (returned_event session.id) db.audit_events)) in
    if is_draft session.status then reason_of latest else none

unfoldable pub session_response : Env → AttendanceSession → Db → AttendanceSessionResponse
session_response env o db = record {
  id = o.id;
  tenant_id = o.tenant_id;
  branch_id = o.branch_id;
  academic_year_id = o.academic_year_id;
  batch_id = o.batch_id;
  section_id = o.section_id;
  attendance_date = o.attendance_date;
  status = o.status;
  opened_by = name_or_id (get_user_name db o.opened_by) o.opened_by;
  submitted_by = optional_name db o.submitted_by;
  submitted_at = o.submitted_at;
  finalized_by = optional_name db o.finalized_by;
  finalized_at = o.finalized_at;
  revision_reason = revision_reason o db;
  students =
      map (student_response (get_records_for_session o.id db))
        (get_active_enrollments_for_section env o.section_id db);
}

-- The attributes of a session object are loaded anew after a commit.
abbrev reloaded : AttendanceSession → Option AttendanceSession → AttendanceSession
reloaded o none = o
reloaded o (some now) = now

-- _build_session_response
unfoldable pub build_session_response : Env → AttendanceSession → Action AttendanceSessionResponse
build_session_response env o = select (λ db.
    session_response env (reloaded o (first (filter (λ r. r.id == o.id) db.attendance_sessions)))
      db)
