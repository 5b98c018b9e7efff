-- ===== src/Attendance/Submission.antt =====
-- Submitting and finalizing a session.
use sms_backend.Common.{
  ℕ, ◌+◌, ◌<◌, ◌≡◌, ◌⊎◌, refl, ap, sym, ◌∙◌, true, false, ◌||◌, List, [], ◌∷◌, ◌==◌, ltb, All, inl,
  inr, Bool-cases, arith, some, filter, update_where, any, not, length, is_some, Option-cases,
  if◌then◌else◌,
}
use sms_backend.Models.{
  AttendanceSession, AttendanceRecord, SessionStatus, Enrollment, Student, is_draft,
}
use sms_backend.Database.{
  Db, Env, Session, http, counted, Result, ok, err, integrity, Action, run_request, open_session,
  commit, insert_records,
}
use sms_backend.Attendance.Schemas.{AttendanceSessionResponse}
use sms_backend.Attendance.Repository.{
  with_status, update_session_status, get_active_enrollments_for_section, get_records_for_session,
}
use sms_backend.Attendance.Responses.{build_session_response, record_for, other_branch}
use sms_backend.Attendance.Service.{
  submit_session, finalize_session, missing_students, AbsentNotice,
}
use sms_backend.Attendance.Sessions.{missing, found, get_session_or_404-Found}
use sms_backend.Attendance.Guards.{get_session_or_404-own}

abbrev pub IsMarked : List AttendanceRecord → Enrollment × Student → Type 0
IsMarked records row = is_some (record_for row.0.id records) ≡ true

none_missing :
    (records : List AttendanceRecord) (rows : List (Enrollment × Student))
    → ltb 0 (length (missing_students records rows)) ≡ false
    → All (IsMarked records) rows
unfolding missing_students
none_missing records [] e = tt
none_missing records (r ∷ rows) e = elim (Bool-cases (is_some (record_for r.0.id records))) [
  | inl has ↦ (has, none_missing records rows (rw has at e))
  | inr without ↦ let e' = rw without at e in absurd (ground arith)
]

-- how many of the rows have no record of their enrollment
abbrev pub unmarked_count : List AttendanceRecord → List (Enrollment × Student) → ℕ
unmarked_count records [] = 0
unmarked_count records (row ∷ rows) =
    let rest = unmarked_count records rows in
    if any (λ r. r.enrollment_id == row.0.id) records then rest else 1 + rest

is_some-record_for :
    (id : ℕ) (records : List AttendanceRecord)
    → is_some (record_for id records) ≡ any (λ r. r.enrollment_id == id) records
unfolding record_for
is_some-record_for id [] = refl
is_some-record_for id (r ∷ records) =
    let later = is_some-record_for id records in
    elim (Option-cases (record_for id records)) [
      | inl without ↦
          let none_later : any (λ q. q.enrollment_id == id) records ≡ false =
            sym later ∙ ap is_some without in
          elim (Bool-cases (r.enrollment_id == id)) [
            | inl same ↦ rw (without, same) refl
            | inr other ↦ rw (without, other, none_later) refl
          ]
      | inr (q, is_q) ↦
          let one_later : any (λ q. q.enrollment_id == id) records ≡ true =
            sym later ∙ ap is_some is_q in
          elim (Bool-cases (r.enrollment_id == id)) [
            | inl same ↦ rw (is_q, same) refl
            | inr other ↦ rw (is_q, other, one_later) refl
          ]
    ]

length-missing_students :
    (records : List AttendanceRecord) (rows : List (Enrollment × Student))
    → length (missing_students records rows) ≡ unmarked_count records rows
unfolding missing_students
length-missing_students records [] = refl
length-missing_students records (row ∷ rows) =
    let has = is_some-record_for row.0.id records in
    elim (Bool-cases (any (λ r. r.enrollment_id == row.0.id) records)) [
      | inl t ↦ rw (has, t) (length-missing_students records rows)
      | inr f ↦ let rest = length-missing_students records rows in rw (has, f, rest) (omega arith)
    ]

module _ (env : Env) (id t b u : ℕ) (db : Db) where
  abbrev pub submitted : Result AttendanceSessionResponse × Db
  submitted = run_request (submit_session env id t b u) db

  abbrev pub class_of : AttendanceSession → List (Enrollment × Student)
  class_of o = get_active_enrollments_for_section env o.section_id db

  -- A submission that is answered with success was that of a DRAFT session of the caller's tenant and
  -- branch in which every active enrollment of the section has a record.
  pub submit_session_complete :
      (r : AttendanceSessionResponse)
      → submitted.0 ≡ ok r
      → (o : AttendanceSession) × (filter (λ x. x.id == id) db.attendance_sessions ≡ o ∷ [])
        × (o.tenant_id ≡ t)
        × (o.branch_id ≡ b)
        × (o.status ≡ SessionStatus.draft)
        × All (IsMarked (get_records_for_session o.id db)) (class_of o)
  unfolding run_request submit_session
  submit_session_complete x succeeded =
      elim (get_session_or_404-Found id t (some b) (open_session db)) [
        | missing e r ↦ absurd (cc (rw r at succeeded))
        | found o r one same ours here ↦ elim (Bool-cases (not (is_draft o.status))) [
          | inl late ↦ absurd (cc (rw (r, late) at succeeded))
          | inr draft ↦
              elim (Bool-cases (
                ltb 0 (length (missing_students (get_records_for_session o.id db) (class_of o))))) [
                  | inl some_left ↦ absurd (cc (rw (r, draft, some_left) at succeeded))
                  | inr full ↦ (
                    o,
                    one,
                    ours,
                    ground arith,
                    draft_of o.status draft,
                    none_missing _ (class_of o) full,
                  )
                ]
        ]
      ]
    where
      draft_of : (st : SessionStatus) → not (is_draft st) ≡ false → st ≡ SessionStatus.draft
      draft_of SessionStatus.draft e = refl
      draft_of SessionStatus.submitted e = absurd (cc e)
      draft_of SessionStatus.finalized e = absurd (cc e)

  module _ (o : AttendanceSession) (one : filter (λ x. x.id == id) db.attendance_sessions ≡ o ∷ [])
      (own : (not (o.tenant_id == t) || other_branch (some b) o.branch_id) ≡ false)
      (draft : o.status ≡ SessionStatus.draft) where
    -- A DRAFT session of the caller, by a user who exists, is submitted or refused. It is submitted
    -- where every active enrollment of the section has a record: the answer is success, the session is
    -- SUBMITTED by that user at the time of the request, and everything else in the session table stays.
    -- Where enrollments have no record, the answer is 400 with their number, and nothing changes.
    pub submit_session-draft :
        any (λ x. x.id == u) db.users ≡ true
        → ((unmarked_count (get_records_for_session o.id db) (class_of o) ≡ 0)
            × ((r : AttendanceSessionResponse) × (submitted.0 ≡ ok r))
            × (submitted.1.attendance_sessions
                ≡ update_where
                    (λ x. x.id == o.id)
                    (λ x. record x {
                      status = SessionStatus.submitted;
                      submitted_by = some u;
                      submitted_at = some env.now;
                      updated_at = env.now;
                    })
                    db.attendance_sessions))
          ⊎ ((0 < unmarked_count (get_records_for_session o.id db) (class_of o))
              × (submitted ≡ (
                err (
                    http 400 (
                      counted "Cannot submit. Missing attendance for "
                        (unmarked_count (get_records_for_session o.id db) (class_of o))
                        " students.")),
                db,
              )))
    unfolding run_request submit_session update_session_status commit insert_records
        build_session_response with_status
    submit_session-draft known =
        let e = get_session_or_404-own id t (some b) (open_session db) o one own in
        let n = unmarked_count (get_records_for_session o.id db) (class_of o) in
        let counts = length-missing_students (get_records_for_session o.id db) (class_of o) in
        elim (Bool-cases (ltb 0 n)) [
          | inl some_left ↦ inr (ground arith, rw (e, draft, counts, some_left) refl)
          | inr none_left ↦
              let marked : n ≡ 0 = ground arith in
              inl (rw (e, draft, counts, marked, known) (refl, (_, refl), refl))
        ]

abbrev finalized :
    Env
    → (AbsentNotice → Action (Unit {0}))
    → ℕ
    → ℕ
    → ℕ
    → ℕ
    → Db
    → Result AttendanceSessionResponse × Db
finalized env notify id t b u db = run_request (finalize_session env notify id t b u) db

-- a statement of the notification that the database refuses
abbrev pub RefusedStatement : (AbsentNotice → Action (Unit {0})) → Type 0
RefusedStatement notify = (n : AbsentNotice) × (s : Session) × ((notify n s).0 ≡ err integrity)
