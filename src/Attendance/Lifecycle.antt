-- ===== src/Attendance/Lifecycle.antt =====
-- The life cycle of an attendance session over the requests of the service.
use sms_backend.Common.{
  ℕ, ◌≡◌, refl, sym, subst, true, false, List, [], ◌∷◌, ◌++◌, String, ◌==◌, ltb, inl, inr,
  Bool-cases, Option, some, filter, update_where, any, not, All-mono, length,
}
use sms_backend.Models.{AttendanceSession, SessionStatus, is_draft, is_submitted, is_absent}
use sms_backend.Database.{
  Db, Env, Session, IsSettled, Result, ok, err, Action, run_request, event_allowed, open_session,
  commit, insert_records, close_session, continue, multiple_rows, exception, integrity, http,
}
use sms_backend.Attendance.Repository.{
  with_status, update_session_status, get_active_enrollments_for_section, get_records_for_session,
}
use sms_backend.Attendance.Responses.{build_session_response}
use sms_backend.Attendance.Service.{
  get_session_with_records, submit_session, return_session_for_revision, return_event,
  finalize_session, missing_students, AbsentNotice, notify_absent, go_on,
}
use sms_backend.Attendance.Sessions.{
  Moves, is_submitted_by, is_returned_by, is_finalized_by, Evolves, Evolves-refl,
  Evolves-update_where, filter-single, missing, found, get_session_or_404-Found,
}

is_draft-true : (st : SessionStatus) → not (is_draft st) ≡ false → st ≡ SessionStatus.draft
is_draft-true SessionStatus.draft e = refl
is_draft-true SessionStatus.submitted e = absurd (cc e)
is_draft-true SessionStatus.finalized e = absurd (cc e)

is_submitted-true :
    (st : SessionStatus) → not (is_submitted st) ≡ false → st ≡ SessionStatus.submitted
is_submitted-true SessionStatus.submitted e = refl
is_submitted-true SessionStatus.draft e = absurd (cc e)
is_submitted-true SessionStatus.finalized e = absurd (cc e)

-- The update of the one session that was found.
pub single-Evolves :
    (f : AttendanceSession → AttendanceSession) (id : ℕ) (xs : List AttendanceSession)
    (o : AttendanceSession)
    → filter (λ x. x.id == id) xs ≡ o ∷ []
    → o.id ≡ id
    → Moves o (f o)
    → Evolves xs (update_where (λ x. x.id == o.id) f xs)
single-Evolves f id xs o one same h =
    Evolves-update_where (λ x. x.id == o.id) f xs
      (All-mono (λ x. x.id == id ≡ true → x ≡ o) _ xs
        (λ x is_o t.
          subst (λ y. Moves y (f y)) (sym (is_o (subst (λ k. x.id == k ≡ true) same t))) h)
        (filter-single (λ x. x.id == id) xs o one))

module _ (env : Env) (id t b u : ℕ) (db : Db) where
  pub submit-Evolves :
      Evolves db.attendance_sessions
        (run_request (submit_session env id t b u) db).1.attendance_sessions
  unfolding run_request submit_session update_session_status commit insert_records
      build_session_response with_status
  submit-Evolves = elim (get_session_or_404-Found id t (some b) (open_session db)) [
    | missing e r ↦ rw r (Evolves-refl _)
    | found o r one same ours here ↦ elim (Bool-cases (not (is_draft o.status))) [
      | inl late ↦ rw (r, late) (Evolves-refl _)
      | inr draft ↦
          elim (Bool-cases (
            ltb 0 (
              length (
                missing_students (get_records_for_session o.id db)
                  (get_active_enrollments_for_section env o.section_id db))))) [
                    | inl unmarked_ ↦ rw (r, draft, unmarked_) (Evolves-refl _)
                    | inr full ↦ elim (Bool-cases (any (λ x. x.id == u) db.users)) [
                      | inr unknown ↦ rw (r, draft, full, unknown) (Evolves-refl _)
                      | inl known ↦
                          rw (r, draft, full, known)
                            (single-Evolves (with_status SessionStatus.submitted u env.now) id
                              db.attendance_sessions o one same
                              (is_submitted_by u env.now (is_draft-true o.status draft) refl))
                    ]
                  ]
    ]
  ]

  -- the tables when the event of a return is inserted
  abbrev returned : AttendanceSession → Db
  returned o = record db {
    attendance_sessions =
        update_where (λ x. x.id == o.id) (with_status SessionStatus.draft u env.now)
          db.attendance_sessions;
  }

  pub return-Evolves :
      (reason : Option String)
      → Evolves db.attendance_sessions
          (run_request (return_session_for_revision env id t b u reason) db).1.attendance_sessions
  unfolding run_request return_session_for_revision update_session_status commit insert_records
      build_session_response with_status
  return-Evolves reason = elim (get_session_or_404-Found id t (some b) (open_session db)) [
    | missing e r ↦ rw r (Evolves-refl _)
    | found o r one same ours here ↦ elim (Bool-cases (not (is_submitted o.status))) [
      | inl early ↦ rw (r, early) (Evolves-refl _)
      | inr handed_in ↦
          elim (Bool-cases (event_allowed (returned o) (return_event env o.id t b u reason))) [
            | inr unknown ↦ rw (r, handed_in, unknown) (Evolves-refl _)
            | inl known ↦
                rw (r, handed_in, known)
                  (single-Evolves (with_status SessionStatus.draft u env.now) id
                    db.attendance_sessions o one same
                    (is_returned_by u env.now (is_submitted-true o.status handed_in) refl))
          ]
    ]
  ]

-- A notification, which may commit: where nothing is pending, it leaves the published table of sessions
-- alone.
abbrev pub KeepsSessions : (AbsentNotice → Action (Unit {0})) → Type 0
KeepsSessions notify =
    (n : AbsentNotice) (s : Session)
    → IsSettled s
    → (notify n s).1.committed.attendance_sessions ≡ s.committed.attendance_sessions

-- the tables that `finalize_session` has committed when it notifies
abbrev pub finalized_tables : Env → ℕ → AttendanceSession → Db → Db
finalized_tables env u o db = record db {
  audit_events = db.audit_events ++ [];
  attendance_sessions =
      update_where (λ x. x.id == o.id) (with_status SessionStatus.finalized u env.now)
        db.attendance_sessions;
}

module _ (env : Env) (notify : AbsentNotice → Action (Unit {0}))
    (quiet : KeepsSessions notify) where
  pub notify_absent-same :
      (o : AttendanceSession) (t b : ℕ) (s : Session)
      → IsSettled s
      → (notify_absent notify o t b s).1.committed.attendance_sessions
        ≡ s.committed.attendance_sessions
  unfolding notify_absent
  notify_absent-same o t b s settled =
      elim (Bool-cases
        (any (λ r. is_absent r.attendance_status) (get_records_for_session o.id s.current))) [
          | inl someone ↦ rw someone (quiet _ s settled)
          | inr nobody ↦ rw nobody refl
        ]

  -- what was published when the response is built
  pub go_on-published :
      (r : Result (Unit {0}) × Session) (o : AttendanceSession)
      → (close_session (continue (go_on r) (λ _. build_session_response env o))).1 ≡ r.1.committed
  unfolding build_session_response
  go_on-published (ok a, s) o = refl
  go_on-published (err integrity, s) o = refl
  go_on-published (err (http status detail), s) o = refl
  go_on-published (err multiple_rows, s) o = refl
  go_on-published (err exception, s) o = refl

  pub finalize-Evolves :
      (id t b u : ℕ) (db : Db)
      → Evolves db.attendance_sessions
          (run_request (finalize_session env notify id t b u) db).1.attendance_sessions
  unfolding run_request finalize_session update_session_status commit insert_records with_status
  finalize-Evolves id t b u db = elim (get_session_or_404-Found id t (some b) (open_session db)) [
    | missing e r ↦ rw r (Evolves-refl _)
    | found o r one same ours here ↦ elim (Bool-cases (not (is_submitted o.status))) [
      | inl early ↦ rw (r, early) (Evolves-refl _)
      | inr handed_in ↦ elim (Bool-cases (any (λ x. x.id == u) db.users)) [
        | inr unknown ↦ rw (r, handed_in, unknown) (Evolves-refl _)
        | inl known ↦
            rw
              (
                r,
                handed_in,
                known,
                go_on-published (notify_absent notify o t b _) o,
                notify_absent-same o t b (open_session (finalized_tables env u o db))
                    (refl, refl, refl),
              )
              (single-Evolves (with_status SessionStatus.finalized u env.now) id
                db.attendance_sessions o one same
                (is_finalized_by u env.now (is_submitted-true o.status handed_in) refl))
      ]
    ]
  ]

pub view-Evolves :
    (env : Env) (id t : ℕ) (b : Option ℕ) (db : Db)
    → Evolves db.attendance_sessions
        (run_request (get_session_with_records env id t b) db).1.attendance_sessions
unfolding run_request get_session_with_records build_session_response
view-Evolves env id t b db = elim (get_session_or_404-Found id t b (open_session db)) [
  | missing e r ↦ rw r (Evolves-refl _)
  | found o r one same ours here ↦ rw r (Evolves-refl _)
]
