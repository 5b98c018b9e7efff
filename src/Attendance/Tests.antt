-- ===== src/Attendance/Tests.antt =====
-- The attendance theorems applied to the class of Attendance/Example.
use sms_backend.Common.{
  ◌≡◌, refl, [], ◌∷◌, List, some, none, All, update_where, ◌==◌, filter, ◌<◌, ◌⊎◌, inl, inr, arith,
}
use sms_backend.Models.{AttendanceSession, SessionStatus, RecordStatus, Student, Enrollment}
use sms_backend.Database.{
  commit, insert_records, event_allowed, ok, err, http, counted, integrity, run_request,
}
use sms_backend.Notifications.Repository.{create_log}
use sms_backend.Notifications.Commits.{create_log_committed}
use sms_backend.Security.Context.{has_any_permission, has_permission}
use sms_backend.Attendance.Schemas.{AttendanceSessionResponse}
use sms_backend.Attendance.Repository.{
  get_session_by_section_and_date, create_session, session_allowed, get_session_by_id,
  update_session_status, with_status, get_active_enrollments_for_section, get_records_for_session,
}
use sms_backend.Attendance.Responses.{
  get_session_or_404, build_session_response, record_for, session_not_found, get_section_or_404,
}
use sms_backend.Attendance.Service.{
  create_daily_session, open_or_create, new_session, return_event, notify_absent, missing_students,
  get_session_with_records, save_draft_records, submit_session, return_session_for_revision,
  finalize_session,
}
use sms_backend.Attendance.Routes.{
  create_session_route, branch_scope_dependency, branch_scope, require_any_permission,
  create_in_scope, route_existing,
}
use sms_backend.Attendance.Sessions.{Evolves}
use sms_backend.Attendance.History.{
  Request, handle, handle_all, handle-Evolves, handle_all-WellSigned, handle_all_keeps, WellSigned,
  AllKept,
}
use sms_backend.Attendance.Guards.{foreign_session_refused}
use sms_backend.Attendance.Submission.{
  submit_session_complete, submit_session-draft, submitted, class_of, IsMarked, unmarked_count,
}
use sms_backend.Attendance.Duplicates.{duplicate_marks_refused, line}
use sms_backend.Attendance.Opening.{create_session_route-adds, created, Added}
use sms_backend.Attendance.Example.{
  env, open_session_, class, failing, stranger, marked_class, term, teacher, sectioned, today,
  failing-KeepsSessions,
}

handle-Evolves_example :
    Evolves marked_class.attendance_sessions
      (handle failing (Request.submit env 70 1 2 7) marked_class).attendance_sessions
handle-Evolves_example =
    handle-Evolves failing failing-KeepsSessions (Request.submit env 70 1 2 7) marked_class

handle_all-WellSigned_example :
    All WellSigned (handle_all failing term marked_class).attendance_sessions
handle_all-WellSigned_example =
    handle_all-WellSigned failing failing-KeepsSessions term marked_class
      ((refl, refl, refl, refl), tt)

handle_all_keeps_example :
    AllKept marked_class.attendance_sessions
      (handle_all failing term marked_class).attendance_sessions
handle_all_keeps_example = handle_all_keeps failing failing-KeepsSessions term marked_class

foreign_session_refused_example :
    (run_request (get_session_with_records env 70 8 none) marked_class
      ≡ (err session_not_found, marked_class))
    × (run_request (save_draft_records env 70 [] 8 2 7) marked_class
        ≡ (err session_not_found, marked_class))
    × (run_request (submit_session env 70 8 2 7) marked_class
        ≡ (err session_not_found, marked_class))
    × (run_request (return_session_for_revision env 70 8 2 7 none) marked_class
        ≡ (err session_not_found, marked_class))
    × (run_request (finalize_session env failing 70 8 2 7) marked_class
        ≡ (err session_not_found, marked_class))
foreign_session_refused_example =
    foreign_session_refused env failing 70 8 2 7 none [] none marked_class open_session_ refl refl

duplicate_marks_refused_example :
    run_request
      (save_draft_records env 70
        (line 30 RecordStatus.present none ∷ line 30 RecordStatus.absent none ∷ [])
        1
        2
        7)
      (class open_session_ [])
    ≡ (err integrity, class open_session_ [])
duplicate_marks_refused_example =
    duplicate_marks_refused env 70 1 2 7 (class open_session_ []) open_session_ refl refl refl 30
      RecordStatus.present RecordStatus.absent none none refl

create_session_route-adds_example :
    (created env today teacher sectioned).attendance_sessions ≡ sectioned.attendance_sessions
    ⊎ Added env today teacher sectioned
create_session_route-adds_example = create_session_route-adds env today teacher sectioned

-- The teacher has the session opened, and the stranger does not.
teacher_opens :
    ((created env today teacher sectioned).attendance_sessions
      ≡ record open_session_ { id = 100; updated_at = 500 } ∷ [])
    × ((created env today stranger sectioned).attendance_sessions ≡ [])
unfolding run_request create_session_route branch_scope_dependency branch_scope
    require_any_permission has_any_permission create_in_scope get_session_by_section_and_date
    route_existing has_permission create_daily_session get_section_or_404 open_or_create
    create_session session_allowed new_session commit insert_records build_session_response
teacher_opens = (refl, refl)

abbrev class_rows : List (Enrollment × Student)
class_rows = get_active_enrollments_for_section env 5 marked_class

submit_session-draft_example :
    ((unmarked_count (get_records_for_session 70 marked_class) class_rows ≡ 0)
      × ((r : AttendanceSessionResponse) × ((submitted env 70 1 2 7 marked_class).0 ≡ ok r))
      × ((submitted env 70 1 2 7 marked_class).1.attendance_sessions
          ≡ update_where
              (λ x. x.id == 70)
              (λ x. record x {
                status = SessionStatus.submitted;
                submitted_by = some 7;
                submitted_at = some 500;
                updated_at = 500;
              })
              marked_class.attendance_sessions))
    ⊎ ((0 < unmarked_count (get_records_for_session 70 marked_class) class_rows)
        × (submitted env 70 1 2 7 marked_class ≡ (
          err (
              http 400 (
                counted "Cannot submit. Missing attendance for "
                  (unmarked_count (get_records_for_session 70 marked_class) class_rows)
                  " students.")),
          marked_class,
        )))
submit_session-draft_example =
    submit_session-draft env 70 1 2 7 marked_class open_session_ refl refl refl refl

none_unmarked : unmarked_count (get_records_for_session 70 marked_class) class_rows ≡ 0
unfolding get_active_enrollments_for_section get_records_for_session
none_unmarked = refl

submission : (r : AttendanceSessionResponse) × ((submitted env 70 1 2 7 marked_class).0 ≡ ok r)
submission =
    elim (submit_session-draft env 70 1 2 7 marked_class open_session_ refl refl refl refl) [
      | inl (none_left, answered, rows) ↦ answered
      | inr (some_left, refused) ↦ let none_left = none_unmarked in absurd (omega arith)
    ]

submit_session_complete_example :
    (o : AttendanceSession) × (filter (λ x. x.id == 70) marked_class.attendance_sessions ≡ o ∷ [])
    × (o.tenant_id ≡ 1)
    × (o.branch_id ≡ 2)
    × (o.status ≡ SessionStatus.draft)
    × All
        (IsMarked (get_records_for_session o.id marked_class))
        (class_of env 70 1 2 7 marked_class o)
submit_session_complete_example =
    submit_session_complete env 70 1 2 7 marked_class submission.0 submission.1

-- The requests of the term go through: the session ends FINALIZED with both signatures.
term_goes_through :
    (handle_all failing term marked_class).attendance_sessions
    ≡ record open_session_ {
      status = SessionStatus.finalized;
      submitted_by = some 7;
      submitted_at = some 500;
      finalized_by = some 7;
      finalized_at = some 500;
      updated_at = 500;
    }
      ∷ []
unfolding handle_all handle run_request submit_session return_session_for_revision finalize_session
    get_session_or_404 get_session_by_id get_active_enrollments_for_section get_records_for_session
    missing_students record_for update_session_status with_status commit insert_records
    event_allowed return_event build_session_response notify_absent create_log_committed create_log
term_goes_through = refl
