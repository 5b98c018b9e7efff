-- ===== src/Examinations/Entry.antt =====
-- bulk_save_student_exam_records of app/modules/examinations/service.py: the marks of a section, and the
-- step of the exam to SUBMITTED.
use sms_backend.Common.{
  ℕ, ◌+◌, Bool, true, false, not, ◌&&◌, Option, none, some, List, [], ◌∷◌, ◌==◌, any, filter, first,
  update_where, if◌then◌else◌, length,
}
use sms_backend.Models.{Exam, ExamStatus, MarksStatus, Section, StudentExamRecord, Marks}
use sms_backend.Database.{Db}
use sms_backend.Security.Text.{Text, is_empty, text_eq}
use sms_backend.Examinations.Work.{Work, done, pure, query, save, ◌>>=◌, ◌>>◌}
use sms_backend.Examinations.Texts.{Platform, without_prefixes}
use sms_backend.Examinations.Targets.{
  is_active_row, attends, target_prog_ids, not_excluded, of_programmes, of_section,
}
use sms_backend.Examinations.Repository.{get_exam_by_id, get_student_exam_records}
use sms_backend.Examinations.Marks.{RecordSave, same_marks, upsert_student_exam_record}

-- `existing_map.get(st_id_clean) or existing_map.get(str(rec.student_id))`, as the keys of records
abbrev known_as : Platform → Text → List StudentExamRecord → Option StudentExamRecord
known_as p t rs = first (filter (λ r. text_eq (p.uuid_text r.student_id) t) rs)

abbrev or_other : Option StudentExamRecord → Option StudentExamRecord → Option StudentExamRecord
or_other (some r) _ = some r
or_other none other = other

unfoldable pub existing_record :
    Platform → List StudentExamRecord → RecordSave → Option StudentExamRecord
existing_record p known rec =
    or_other (known_as p (without_prefixes rec.student_id) known) (known_as p rec.student_id known)

abbrev marks_now : Option StudentExamRecord → List StudentExamRecord → Marks
marks_now none rs = []
marks_now (some r) [] = r.subject_marks
marks_now (some r) (o ∷ rs) = if o.id == r.id then o.subject_marks else marks_now (some r) rs

-- The known records are objects of the session, so that their marks are those of the table by now.
unfoldable pub marks_changed : Platform → List StudentExamRecord → RecordSave → Db → Bool
marks_changed p known rec db =
    not (same_marks (marks_now (existing_record p known rec) db.exam_records) rec.subject_marks)

abbrev pub when : Bool → Work Unit → Work Unit
when true m db = m db
when false m db = (done tt, db)

-- The loop of `bulk_save_student_exam_records`; `notify` is
-- send_single_student_correction_notification, and `fresh` numbers the new keys.
unfoldable pub save_records :
    Platform
    → (Text → Work Unit)
    → ℕ
    → ℕ
    → ℕ
    → Bool
    → List StudentExamRecord
    → ℕ
    → List RecordSave
    → Work (List StudentExamRecord)
save_records p notify tenant_id exam_id user_id published known fresh [] = pure []
save_records p notify tenant_id exam_id user_id published known fresh (rec ∷ recs) = do
  changed ← query (marks_changed p known rec)
  r ← upsert_student_exam_record p fresh tenant_id exam_id user_id rec
  when (published && changed && not (is_empty rec.student_id)) (notify rec.student_id)
  rs ← save_records p notify tenant_id exam_id user_id published known (fresh + 1) recs
  pure (r ∷ rs)

abbrev on_branch : Option ℕ → ℕ → Bool
on_branch none b = true
on_branch (some x) b = b == x

abbrev is_draft_marks : MarksStatus → Bool
is_draft_marks MarksStatus.draft = true
is_draft_marks _ = false

-- r.sec_status IS NULL OR r.sec_status = 'DRAFT', where sec_status is MAX(status): DRAFT is the least of
-- the allowed texts, so that no other status stands in the section
unfoldable pub is_draft_section : Db → ℕ → Section → Bool
is_draft_section db exam_id s =
    not (any (λ r. of_section exam_id s r && not (is_draft_marks r.status)) db.exam_records)

-- WHERE of the query that counts the sections without submitted marks
unfoldable pub is_waiting : Platform → Db → ℕ → Exam → Section → Bool
is_waiting p db tenant_id e s =
    s.tenant_id == tenant_id
    && is_active_row s.status
    && any (attends s) db.enrollments
    && on_branch e.branch_id s.branch_id
    && not_excluded p e s
    && of_programmes p db (target_prog_ids p e) s
    && is_draft_section db e.id s

abbrev pub is_open_exam : ExamStatus → Bool
is_open_exam ExamStatus.published = false
is_open_exam ExamStatus.submitted = false
is_open_exam _ = true

-- UPDATE sms_exams SET status = 'SUBMITTED', updated_at = NOW() WHERE id = … AND tenant_id = …
unfoldable pub set_submitted : Platform → ℕ → ℕ → Work Unit
set_submitted p exam_id tenant_id =
    save (λ db. true)
      (λ db. record db {
        exams =
            update_where (λ o. o.id == exam_id && o.tenant_id == tenant_id)
              (λ o. record o { status = ExamStatus.submitted; updated_at = p.now }) db.exams;
      })

-- the end of `bulk_save_student_exam_records`
unfoldable pub submit_if_complete : Platform → ℕ → Option Exam → Work Unit
submit_if_complete p tenant_id none = pure tt
submit_if_complete p tenant_id (some e) = do
  waiting ← query λ db. length (filter (is_waiting p db tenant_id e) db.sections)
  when (is_open_exam e.status && waiting == 0) (set_submitted p e.id tenant_id)

abbrev pub is_published_exam : Option Exam → Bool
is_published_exam none = false
is_published_exam (some e) = elim e.status [ ExamStatus.published ↦ true | _ ↦ false ]

-- bulk_save_student_exam_records; nothing that the loop does changes the exam's row
unfoldable pub bulk_save_student_exam_records :
    Platform → (Text → Work Unit) → ℕ → ℕ → ℕ → List RecordSave → Work (List StudentExamRecord)
bulk_save_student_exam_records p notify tenant_id exam_id user_id records = do
  found ← get_exam_by_id exam_id tenant_id
  known ← query (get_student_exam_records tenant_id (some exam_id) none)
  saved ← save_records p notify tenant_id exam_id user_id (is_published_exam found) known 1 records
  submit_if_complete p tenant_id found
  pure saved
