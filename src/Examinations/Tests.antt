-- ===== src/Examinations/Tests.antt =====
-- A school with one section, one student and one exam: the theorems at this input, and tests
-- (app/modules/examinations).
use sms_backend.Common.{
  false, ◌+◌, ◌≤◌, ◌≡◌, refl, String, true, none, some, [], ◌∷◌, ◌==◌, filter, All, length, arith,
}
use sms_backend.Common.Int.{pos, ◌≤ℤ◌}
use sms_backend.Models.{Exam, ExamStatus, StudentExamRecord}
use sms_backend.Database.{Db}
use sms_backend.Security.Text.{codes}
use sms_backend.Notifications.Repository.{get_progress}
use sms_backend.Examinations.Work.{done, pure}
use sms_backend.Examinations.Texts.{
  to_uuid, without_year, without_prefixes, before, starts_with, drop_prefixes, remove_from,
}
use sms_backend.Examinations.Targets.{
  target_sections, target_prog_ids, is_target, target_branch_ids, excluded_branch_ids, not_excluded,
  of_programmes, stream_codes, in_batch, student_count, submitted_count, students_in,
  is_unsubmitted,
}
use sms_backend.Examinations.Repository.{
  get_exam_by_id, changed, update_exam, write_exam, get_student_exam_records,
}
use sms_backend.Examinations.Service.{
  publish_exam, publication, is_ongoing, unsubmitted_sections, all_submitted, OverlapResponse,
  check_date_overlap,
}
use sms_backend.Examinations.Marks.{
  RecordSave, new_record, upsert_student_exam_record, record_references, status_allowed,
  resolve_student, resolve_enrollment, resolve_section,
}
use sms_backend.Examinations.Scores.{
  figures, final_status, subject_map, info_of, exam_subject_map, master_subject_map,
}
use sms_backend.Examinations.Requests.{Notifications, publish, return_, exempt, serve_all}
use sms_backend.Examinations.Kept.{IsKept}
use sms_backend.Examinations.KeepingCreation.{serve_all-IsKept}
use sms_backend.Examinations.Publication.{
  MarksAreIn, AreOfSection, publish_exam_complete, publish_exam_succeeds,
}
use sms_backend.Examinations.Figures.{
  AreWithin, figures_bounds, clears_all, is_pass, final_status-is_pass,
}
use sms_backend.Examinations.Storing.{upsert_unsaved, upsert-get}
use sms_backend.Examinations.Overlap.{IsRight, check_date_overlap-IsRight}
use sms_backend.Examinations.Example.{zeros, platform, exam, marks, school_of, school}

abbrev quiet : Notifications
quiet = record { published = λ e last. pure tt; corrected = λ exam_id student. pure tt }

school-IsKept : IsKept school
unfolding status_allowed
school-IsKept = record {
  signed = (tt, tt);
  unique = (tt, tt);
  allowed = (refl, tt);
  owned = (refl, tt);
}

serve_all-IsKept_example : IsKept (
    serve_all quiet
      ((platform, publish 70 1 7)
        ∷ (platform, return_ 70 1 (codes "check"))
        ∷ (platform, exempt 70 1 (2 ∷ zeros 35) (codes "flood"))
        ∷ [])
      school)
serve_all-IsKept_example =
    serve_all-IsKept quiet (λ e last db. (refl, refl)) (λ id student db. (refl, refl))
      ((platform, publish 70 1 7)
        ∷ (platform, return_ 70 1 (codes "check"))
        ∷ (platform, exempt 70 1 (2 ∷ zeros 35) (codes "flood"))
        ∷ [])
      school school-IsKept

found : get_exam_by_id 70 1 school ≡ (done (some exam), school)
unfolding get_exam_by_id
found = refl

own_records : All (AreOfSection school 70) school.sections
unfolding students_in
own_records = ((refl, tt), tt)

publishes : publish_exam platform quiet.published 70 1 7 school ≡ (
  done (some (changed (publication platform 7) exam)),
  school_of (changed (publication platform 7) exam ∷ []),
)
unfolding publish_exam get_exam_by_id update_exam write_exam is_ongoing unsubmitted_sections
    target_sections is_target target_branch_ids target_prog_ids excluded_branch_ids not_excluded
    of_programmes stream_codes in_batch student_count submitted_count students_in is_unsubmitted
    all_submitted changed get_progress
publishes = refl

publish_exam_complete_example :
    All
      (MarksAreIn school 70)
      (target_sections platform school 1 exam (target_prog_ids platform exam))
publish_exam_complete_example =
    publish_exam_complete platform quiet.published 70 1 7 school found own_records publishes

abbrev save_as : String → RecordSave
save_as status = record {
  enrollment_id = 30 ∷ zeros 35;
  student_id = 10 ∷ zeros 35;
  section_id = 40 ∷ zeros 35;
  subject_marks = (80 ∷ zeros 35, pos 300) ∷ [];
  status = some status;
}

ready : unsubmitted_sections platform 70 1 exam school ≡ []
unfolding unsubmitted_sections target_sections is_target target_branch_ids target_prog_ids
    excluded_branch_ids not_excluded of_programmes stream_codes in_batch student_count
    submitted_count students_in is_unsubmitted
ready = refl

idle : is_ongoing platform 70 school ≡ false
unfolding is_ongoing get_progress
idle = refl

publish_exam_succeeds_example :
    (x : Exam) × (db' : Db) × (publish_exam platform quiet.published 70 1 7 school
      ≡ (done (some x), db'))
    × (get_exam_by_id 70 1 db' ≡ (done (some x), db'))
    × (x.status ≡ ExamStatus.published)
    × (x.published_by ≡ some 7)
    × (x.published_at ≡ some 1000)
publish_exam_succeeds_example =
    publish_exam_succeeds platform quiet.published 70 1 7 school found idle ready refl

within : AreWithin platform (subject_map platform 1 70 school) marks
unfolding info_of subject_map exam_subject_map master_subject_map
within = (omega arith, tt)

figures_bounds_example :
    (pos 0 ≤ℤ (figures platform 1 70 school marks).total_obtained)
    × ((figures platform 1 70 school marks).total_obtained
        ≤ℤ (figures platform 1 70 school marks).total_max)
    × (length (figures platform 1 70 school marks).failed_subs
        ≤ (figures platform 1 70 school marks).attempted_count)
    × ((figures platform 1 70 school marks).attempted_count
          + length (figures platform 1 70 school marks).absent_subs
        ≤ length marks)
figures_bounds_example = figures_bounds platform 1 70 school marks within

final_status-is_pass_example :
    is_pass (final_status (figures platform 1 70 school marks))
    ≡ clears_all platform (subject_map platform 1 70 school) marks
final_status-is_pass_example = final_status-is_pass platform 1 70 school marks

-- 50 of 100 is a pass
is_passed_test : clears_all platform (subject_map platform 1 70 school) marks ≡ true
unfolding info_of subject_map exam_subject_map master_subject_map
is_passed_test = refl

upsert_unsaved_example :
    (r : StudentExamRecord) × (upsert_student_exam_record platform 1 1 70 7
        (save_as "APPROVED")
        school
      ≡ (done r, school))
upsert_unsaved_example =
    upsert_unsaved platform 1 1 70 7 (save_as "APPROVED") school school-IsKept refl refl

references :
    record_references (new_record platform 1 1 70 7 (save_as "SUBMITTED") school) school ≡ true
unfolding record_references new_record resolve_student resolve_enrollment resolve_section to_uuid
    drop_prefixes starts_with
references = refl

names_student : to_uuid platform (save_as "SUBMITTED").student_id ≡ some 10
unfolding to_uuid drop_prefixes starts_with
names_student = refl

upsert-get_example :
    (r : StudentExamRecord) × (db' : Db) × (upsert_student_exam_record platform 1 1 70 7
        (save_as "SUBMITTED")
        school
      ≡ (done r, db'))
    × (r.subject_marks ≡ (save_as "SUBMITTED").subject_marks)
    × (filter (λ o. o.student_id == 10) (get_student_exam_records 1 (some 70) none db') ≡ r ∷ [])
upsert-get_example =
    upsert-get platform 1 1 70 7 (save_as "SUBMITTED") school school-IsKept 10 names_student refl
      refl references (refl, tt)

check_date_overlap-IsRight_example :
    (r : OverlapResponse) × (check_date_overlap platform 1 300
        ((2 ∷ zeros 35) ∷ [])
        (60 ∷ zeros 35)
        none
        school
      ≡ (done r, school))
    × IsRight platform 1 300 60 ((2 ∷ zeros 35) ∷ []) none school r
check_date_overlap-IsRight_example =
    check_date_overlap-IsRight platform 1 300 60 ((2 ∷ zeros 35) ∷ []) none (60 ∷ zeros 35) school
      refl refl

-- the texts of identifiers lose their year
without_year_test : without_year (codes "abc-second-year") ≡ codes "abc"
unfolding without_year before starts_with
without_year_test = refl

without_prefixes_test : without_prefixes (codes "stu-7ser-") ≡ codes "7"
unfolding without_prefixes remove_from starts_with
without_prefixes_test = refl
