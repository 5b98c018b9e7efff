-- ===== src/Attendance/Marking.antt =====
-- Saving marks touches no session: `save_draft_records` and what it calls.
use sms_backend.Common.{
  ℕ, ◌≡◌, refl, ap, ◌∙◌, sym, subst, List, [], ◌∷◌, ◌++◌, String, inl, inr, Bool-cases, Option,
  some, none, filter, Option-cases, not,
}
use sms_backend.Models.{AttendanceSession, AttendanceRecord, is_draft}
use sms_backend.Database.{
  Db, Env, Session, Result, ok, err, Action, run_request, open_session, commit, insert_records,
  events_allowed, close_session-committed, continue, record_allowed,
}
use sms_backend.Attendance.Schemas.{
  AttendanceRecordUpdate, AttendanceSessionResponse, Mark, marked, unmarked,
}
use sms_backend.Attendance.Repository.{upsert_attendance_record, same_student}
use sms_backend.Attendance.Responses.{build_session_response}
use sms_backend.Attendance.Service.{save_draft_records, save_marks, save_mark}
use sms_backend.Attendance.Sessions.{
  Evolves, Evolves-refl, missing, found, get_session_or_404-Found,
}

-- A flush inserts records only.
insert_records-sessions :
    (rs : List AttendanceRecord) (db d : Db)
    → insert_records rs db ≡ some d
    → d.attendance_sessions ≡ db.attendance_sessions
unfolding insert_records
insert_records-sessions [] db d e = ap (λ (x : Option Db). sessions_of x) (sym e)
  where
    sessions_of : Option Db → List AttendanceSession
    sessions_of none = []
    sessions_of (some x) = x.attendance_sessions
insert_records-sessions (r ∷ rs) db d e = elim (Bool-cases (record_allowed db r)) [
  | inl good ↦
      insert_records-sessions rs
        (record db { attendance_records = db.attendance_records ++ r ∷ [] }) d (rw good at e)
  | inr bad ↦ absurd (cc (rw bad at e))
]

-- Marking records touches no session, and publishes nothing.
upsert-same :
    (r : AttendanceRecord) (s : Session)
    → ((upsert_attendance_record r s).1.committed ≡ s.committed)
      × ((upsert_attendance_record r s).1.current.attendance_sessions
          ≡ s.current.attendance_sessions)
unfolding upsert_attendance_record
upsert-same r s = go (filter (same_student r) s.current.attendance_records) refl
  where
    go :
        (rows : List AttendanceRecord)
        → filter (same_student r) s.current.attendance_records ≡ rows
        → ((upsert_attendance_record r s).1.committed ≡ s.committed)
          × ((upsert_attendance_record r s).1.current.attendance_sessions
              ≡ s.current.attendance_sessions)
    go [] e = rw e (refl, refl)
    go (x ∷ []) e = rw e (refl, refl)
    go (x ∷ y ∷ rest) e = rw e (refl, refl)

abbrev Untouched : Db → Session → Type 0
Untouched db s = (s.committed ≡ db) × (s.current.attendance_sessions ≡ db.attendance_sessions)

continue-Untouched :
    {A B : Type 0} (db : Db) (r : Result A × Session) (f : A → Action B)
    → Untouched db r.1
    → ((a : A) (s : Session) → Untouched db s → Untouched db (f a s).1)
    → Untouched db (continue r f).1
continue-Untouched db (ok a, s) f h step = step a s h
continue-Untouched db (err e, s) f h step = h

save_mark-same :
    (env : Env) (id t b u e : ℕ) (mark : Mark) (remark : Option String) (db : Db) (s : Session)
    → Untouched db s
    → Untouched db (save_mark env id t b u e mark remark s).1
unfolding save_mark
save_mark-same env id t b u e unmarked remark db s h = h
save_mark-same env id t b u e (marked status) remark db s (pub_, cur) =
    let (p, c) = upsert-same _ s in (p ∙ pub_, c ∙ cur)

save_marks-same :
    (env : Env) (id t b u : ℕ) (us : List AttendanceRecordUpdate) (db : Db) (s : Session)
    → Untouched db s
    → Untouched db (save_marks env id t b u us s).1
unfolding save_marks
save_marks-same env id t b u [] db s h = h
save_marks-same env id t b u (x ∷ us) db s h =
    continue-Untouched db (save_mark env id t b u x.enrollment_id x.attendance_status x.note s) _
      (save_mark-same env id t b u x.enrollment_id x.attendance_status x.note db s h)
      (λ _ s'. save_marks-same env id t b u us db s')

-- a commit publishes the sessions of the request
commit-sessions :
    (db : Db) (s : Session)
    → Untouched db s
    → (commit s).1.committed.attendance_sessions ≡ db.attendance_sessions
unfolding commit
commit-sessions db s (pub_, cur) = elim (Option-cases (insert_records s.new_records s.current)) [
  | inl refused ↦ rw refused (ap (λ (d : Db). d.attendance_sessions) pub_)
  | inr (d, inserted) ↦ elim (Bool-cases (events_allowed s.new_events s.current)) [
    | inl allowed ↦
        rw (inserted, allowed) (insert_records-sessions s.new_records s.current d inserted ∙ cur)
    | inr refused ↦ rw (inserted, refused) (ap (λ (d : Db). d.attendance_sessions) pub_)
  ]
]

pub save-Evolves :
    (env : Env) (id t b u : ℕ) (us : List AttendanceRecordUpdate) (db : Db)
    → Evolves db.attendance_sessions
        (run_request (save_draft_records env id us t b u) db).1.attendance_sessions
unfolding run_request save_draft_records build_session_response
save-Evolves env id t b u us db = elim (get_session_or_404-Found id t (some b) (open_session db)) [
  | missing e r ↦ rw r (Evolves-refl _)
  | found o r one same ours here ↦ elim (Bool-cases (not (is_draft o.status))) [
    | inl late ↦ rw (r, late) (Evolves-refl _)
    | inr draft ↦
        rw (r, draft)
          (subst (Evolves db.attendance_sessions)
            (sym (
              ap (λ (d : Db). d.attendance_sessions) (close_session-committed (rest o))
              ∙ published o))
            (Evolves-refl db.attendance_sessions))
  ]
]
  where
    rest : AttendanceSession → Result AttendanceSessionResponse × Session
    rest o =
        continue (save_marks env o.id t b u us (open_session db))
          (λ _ s. continue (commit s) (λ _. build_session_response env o))

    built :
        (o : AttendanceSession) (r : Result (Unit {0}) × Session)
        → r.1.committed.attendance_sessions ≡ db.attendance_sessions
        → (continue r (λ _. build_session_response env o)).1.committed.attendance_sessions
          ≡ db.attendance_sessions
    built o (ok a, s) h = h
    built o (err e, s) h = h

    ended :
        (o : AttendanceSession) (r : Result (Unit {0}) × Session)
        → Untouched db r.1
        → (continue r (λ _ s.
            continue
              (commit s)
              (λ _. build_session_response env o))).1.committed.attendance_sessions
          ≡ db.attendance_sessions
    ended o (ok a, s) h = built o (commit s) (commit-sessions db s h)
    ended o (err e, s) (h, _) = ap (λ (d : Db). d.attendance_sessions) h

    published :
        (o : AttendanceSession) → (rest o).1.committed.attendance_sessions ≡ db.attendance_sessions
    published o = ended o _ (save_marks-same env o.id t b u us db (open_session db) (refl, refl))
