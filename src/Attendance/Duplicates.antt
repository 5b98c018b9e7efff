-- ===== src/Attendance/Duplicates.antt =====
-- Two marks of one student in one payload.
use sms_backend.Common.{
  ℕ, ◌≡◌, refl, false, ◌||◌, ◌&&◌, [], ◌∷◌, ◌++◌, ◌==◌, inl, inr, Bool-cases, any-append_last,
  ==_refl, arith, ap, Option, some, none, filter, not, String,
}
use sms_backend.Models.{AttendanceSession, AttendanceRecord, RecordStatus, SessionStatus, is_draft}
use sms_backend.Database.{
  Db, Env, Session, integrity, err, run_request, open_session, commit, insert_records,
  record_allowed,
}
use sms_backend.Attendance.Schemas.{AttendanceRecordUpdate, marked}
use sms_backend.Attendance.Repository.{upsert_attendance_record, same_student, add_record}
use sms_backend.Attendance.Responses.{other_branch}
use sms_backend.Attendance.Service.{save_draft_records, save_marks, save_mark, marked_record}
use sms_backend.Attendance.Guards.{get_session_or_404-own}

abbrev pub line : ℕ → RecordStatus → Option String → AttendanceRecordUpdate
line e st text = record { enrollment_id = e; attendance_status = marked st; note = text }

-- A row that was just inserted is in the way of a second one for the same student.
second_refused :
    (db : Db) (r r' : AttendanceRecord)
    → r'.session_id ≡ r.session_id
    → r'.enrollment_id ≡ r.enrollment_id
    → record_allowed (record db { attendance_records = db.attendance_records ++ r ∷ [] }) r' ≡ false
unfolding record_allowed
second_refused db r r' same_session same =
    rw
      (
        any-append_last (λ o. o.session_id == r'.session_id && o.enrollment_id == r'.enrollment_id)
            db.attendance_records r,
        same_session,
        same,
        ==_refl r.session_id,
        ==_refl r.enrollment_id,
      )
      (ground arith)

both_refused :
    (db : Db) (r r' : AttendanceRecord)
    → r'.session_id ≡ r.session_id
    → r'.enrollment_id ≡ r.enrollment_id
    → insert_records (r ∷ r' ∷ []) db ≡ none
unfolding insert_records
both_refused db r r' same_session same = elim (Bool-cases (record_allowed db r)) [
  | inr refused ↦ rw refused refl
  | inl allowed ↦ rw (allowed, second_refused db r r' same_session same) refl
]

upsert_new :
    (r : AttendanceRecord) (s : Session)
    → filter (same_student r) s.current.attendance_records ≡ []
    → upsert_attendance_record r s ≡ add_record r s
unfolding upsert_attendance_record
upsert_new r s e = rw e refl

-- Two marks of one enrollment without a record yet, in one payload for a DRAFT session of the caller,
-- end in a refused flush, in either order of statuses: the request fails with an integrity error, and
-- none of the two marks is stored.
pub duplicate_marks_refused :
    (env : Env) (id t b u : ℕ) (db : Db) (o : AttendanceSession)
    → filter (λ x. x.id == id) db.attendance_sessions ≡ o ∷ []
    → (not (o.tenant_id == t) || other_branch (some b) o.branch_id) ≡ false
    → o.status ≡ SessionStatus.draft
    → (e : ℕ) (st st' : RecordStatus) (text text' : Option String)
    → filter (λ r. r.session_id == o.id && r.enrollment_id == e) db.attendance_records ≡ []
    → run_request (save_draft_records env id (line e st text ∷ line e st' text' ∷ []) t b u) db
      ≡ (err integrity, db)
unfolding run_request save_draft_records save_marks save_mark marked_record commit
duplicate_marks_refused env id t b u db o one own draft e st st' text text' unmarked =
    let r = marked_record env o.id t b u e st text in
    let r' = marked_record env o.id t b u e st' text' in
    let found = get_session_or_404-own id t (some b) (open_session db) o one own in
    let open_ = ap (λ s. not (is_draft s)) draft in
    let s' = record (open_session db) { new_records = r ∷ [] } in
    rw
      (
        found,
        open_,
        upsert_new r (open_session db) unmarked,
        upsert_new r' s' unmarked,
        both_refused db r r' refl refl,
      )
      refl
