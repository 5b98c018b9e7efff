-- ===== src/Attendance/Repository.antt =====
-- app/modules/attendance/repository.py, with the constraints of app/modules/attendance/models.py.
use sms_backend.Common.{
  ℕ, String, Bool, true, false, Option, none, some, List, [], ◌∷◌, ◌++◌, ◌==◌, ◌&&◌, not, any,
  filter, join, sort_by, update_where, eq_opt, if◌then◌else◌,
}
use sms_backend.Models.{
  AttendanceSession, AttendanceRecord, SessionStatus, Enrollment, Student, is_active,
}
use sms_backend.Database.{Db, Env, Action, ok, pure, select, one_or_none, execute, ◌>>=◌, ◌>>◌}

-- get_session_by_id
unfoldable pub get_session_by_id : ℕ → Action (Option AttendanceSession)
get_session_by_id session_id = do
  rows ← select (λ db. filter (λ o. o.id == session_id) db.attendance_sessions)
  one_or_none rows

-- get_session_by_section_and_date: the tenant and the branch are not asked for
unfoldable pub get_session_by_section_and_date : ℕ → ℕ → Action (Option AttendanceSession)
get_session_by_section_and_date section_id date = do
  rows ← select (λ db.
      filter (λ o. o.section_id == section_id && o.attendance_date == date) db.attendance_sessions)
  one_or_none rows

-- uq_sms_attendance_sessions_scope, the primary key and the foreign keys of sms_attendance_sessions
unfoldable pub session_allowed : Db → AttendanceSession → Bool
session_allowed db n =
    not (
      any
        (λ o.
          o.tenant_id == n.tenant_id
          && o.branch_id == n.branch_id
          && o.section_id == n.section_id
          && o.attendance_date == n.attendance_date)
        db.attendance_sessions)
    && not (any (λ o. o.id == n.id) db.attendance_sessions)
    && any (λ t. t.id == n.tenant_id) db.tenants
    && any (λ b. b.id == n.branch_id) db.branches
    && any (λ y. y.id == n.academic_year_id) db.academic_years
    && any (λ b. b.id == n.batch_id) db.batches
    && any (λ o. o.id == n.section_id) db.sections
    && any (λ u. u.id == n.opened_by) db.users

-- create_session: add and flush
unfoldable pub create_session : AttendanceSession → Action AttendanceSession
create_session n =
    execute (λ db. session_allowed db n)
      (λ db. record db { attendance_sessions = db.attendance_sessions ++ n ∷ [] })
    >> pure n

abbrev opt_le : Env → Option String → Option String → Bool
opt_le env _ none = true
opt_le env none (some _) = false
opt_le env (some a) (some b) = env.text_le a b

-- ORDER BY roll_number, legal_name, with NULL last
abbrev roll_le : Env → Enrollment × Student → Enrollment × Student → Bool
roll_le env (e, st) (e', st') =
    if opt_le env e'.roll_number e.roll_number
    then opt_le env e.roll_number e'.roll_number && env.text_le st.legal_name st'.legal_name
    else true

abbrev pub enrolled_in : ℕ → Enrollment × Student → Bool
enrolled_in section_id (e, _) = eq_opt e.section_id section_id && is_active e.status && e.is_current

-- get_active_enrollments_for_section
unfoldable pub get_active_enrollments_for_section : Env → ℕ → Db → List (Enrollment × Student)
get_active_enrollments_for_section env section_id db = sort_by (roll_le env) (
    filter (enrolled_in section_id)
      (join (λ e st. e.student_id == st.id) db.enrollments db.students))

-- get_records_for_session
unfoldable pub get_records_for_session : ℕ → Db → List AttendanceRecord
get_records_for_session session_id db =
    filter (λ r. r.session_id == session_id) db.attendance_records

abbrev pub same_student : AttendanceRecord → AttendanceRecord → Bool
same_student r o = o.session_id == r.session_id && o.enrollment_id == r.enrollment_id

-- what `upsert_attendance_record` sets on a record that is there
abbrev pub with_mark : AttendanceRecord → AttendanceRecord → AttendanceRecord
with_mark r o = record o {
  attendance_status = r.attendance_status;
  note = r.note;
  marked_by = r.marked_by;
  marked_at = r.marked_at;
  updated_at = r.updated_at;
}

-- `Session.add` of a record: it waits for the flush
abbrev pub add_record : AttendanceRecord → Action (Unit {0})
add_record r s = (ok tt, record s { new_records = s.new_records ++ r ∷ [] })

-- The object of an existing row is changed in place; later queries of the session return it.
abbrev pub change_record : AttendanceRecord → Action (Unit {0})
change_record r s = (
  ok tt,
  record s {
    current = record s.current {
      attendance_records = update_where (same_student r) (with_mark r) s.current.attendance_records;
    };
  },
)

abbrev pub add_or_change : AttendanceRecord → Option AttendanceRecord → Action (Unit {0})
add_or_change r none = add_record r
add_or_change r (some _) = change_record r

-- upsert_attendance_record
unfoldable pub upsert_attendance_record : AttendanceRecord → Action (Unit {0})
upsert_attendance_record r = do
  rows ← select (λ db. filter (same_student r) db.attendance_records)
  existing ← one_or_none rows
  add_or_change r existing

-- the SET clause of `update_session_status`
unfoldable pub with_status : SessionStatus → ℕ → ℕ → AttendanceSession → AttendanceSession
with_status SessionStatus.submitted user at_ o = record o {
  status = SessionStatus.submitted;
  submitted_by = some user;
  submitted_at = some at_;
  updated_at = at_;
}
with_status SessionStatus.finalized user at_ o = record o {
  status = SessionStatus.finalized;
  finalized_by = some user;
  finalized_at = some at_;
  updated_at = at_;
}
with_status SessionStatus.draft user at_ o = record o {
  status = SessionStatus.draft;
  submitted_by = none;
  submitted_at = none;
  updated_at = at_;
}

-- the foreign keys submitted_by and finalized_by
abbrev signer_known : SessionStatus → ℕ → Db → Bool
signer_known SessionStatus.draft user db = true
signer_known _ user db = any (λ u. u.id == user) db.users

-- update_session_status
unfoldable pub update_session_status : ℕ → SessionStatus → ℕ → ℕ → Action (Unit {0})
update_session_status session_id status user at_ = execute (signer_known status user) (λ db.
    record db {
      attendance_sessions =
          update_where (λ o. o.id == session_id) (with_status status user at_)
            db.attendance_sessions;
    })
