-- ===== src/Examinations/KeepingMarks.antt =====
-- The entry of marks and the lists keep the tables of exams and marks in order
-- (app/modules/examinations/service.py).
use sms_backend.Common.{
  ℕ, ◌+◌, Bool, true, false, not, ◌&&◌, Option, none, some, List, [], ◌∷◌, filter,
}
use sms_backend.Models.{Exam, ExamStatus, StudentExamRecord}
use sms_backend.Security.Text.{Text, is_empty}
use sms_backend.Examinations.Work.{Work, one_or_none}
use sms_backend.Examinations.Texts.{Platform}
use sms_backend.Examinations.Repository.{
  list_exams as query_exams, get_exam_by_id, get_student_exam_records,
}
use sms_backend.Examinations.Marks.{RecordSave, new_record, at_key, upsert_student_exam_record}
use sms_backend.Examinations.Entry.{
  marks_changed, when, save_records, submit_if_complete, bulk_save_student_exam_records,
  set_submitted, is_published_exam,
}
use sms_backend.Examinations.Listing.{promote_if, promote, promote_all, list_exams}
use sms_backend.Examinations.Kept.{Keeps, Keeps-continue, Keeps-set_submitted, Keeps-get_exam}
use sms_backend.Examinations.KeptRecords.{Keeps-store_record}
use sms_backend.Examinations.Keeping.{one_or_none-state, LeavesExams, Keeps-LeavesExams}

module _ (p : Platform) where
  Keeps-upsert :
      (fresh tenant_id exam_id entered_by : ℕ) (rec : RecordSave)
      → Keeps (upsert_student_exam_record p fresh tenant_id exam_id entered_by rec)
  unfolding upsert_student_exam_record
  Keeps-upsert fresh tenant_id exam_id entered_by rec db h =
      let r = new_record p fresh tenant_id exam_id entered_by rec db in
      let rows = filter (at_key tenant_id exam_id r.student_id) db.exam_records in
      Keeps-continue (one_or_none rows db) _ (rw (one_or_none-state rows db) h)
        (λ existing db1 h1. Keeps-store_record existing r db1 h1)

  Keeps-when : (b : Bool) (m : Work Unit) → Keeps m → Keeps (when b m)
  Keeps-when true m k db h = k db h
  Keeps-when false m k db h = h

  Keeps-save_records :
      (notify : Text → Work Unit) (tenant_id exam_id user_id : ℕ) (published : Bool)
      (known : List StudentExamRecord) (fresh : ℕ) (recs : List RecordSave)
      → ((student : Text) → LeavesExams (notify student))
      → Keeps (save_records p notify tenant_id exam_id user_id published known fresh recs)
  unfolding save_records
  Keeps-save_records notify tenant_id exam_id user_id published known fresh [] leaves db h = h
  Keeps-save_records notify tenant_id exam_id user_id published known fresh (rec ∷ recs) leaves db
        h =
      let wanted = published && marks_changed p known rec db && not (is_empty rec.student_id) in
      let later =
        Keeps-save_records notify tenant_id exam_id user_id published known (fresh + 1) recs
          leaves in
      Keeps-continue (upsert_student_exam_record p fresh tenant_id exam_id user_id rec db) _
        (Keeps-upsert fresh tenant_id exam_id user_id rec db h)
        (λ r db1 h1.
          Keeps-continue (when wanted (notify rec.student_id) db1) _
            (Keeps-when wanted (notify rec.student_id)
              (Keeps-LeavesExams (notify rec.student_id) (leaves rec.student_id)) db1 h1)
            (λ v db2 h2.
              Keeps-continue
                (save_records p notify tenant_id exam_id user_id published known (fresh + 1) recs
                  db2)
                _ (later db2 h2) (λ rs db3 h3. h3)))

  Keeps-submit_if_complete :
      (tenant_id : ℕ) (found : Option Exam) → Keeps (submit_if_complete p tenant_id found)
  unfolding submit_if_complete
  Keeps-submit_if_complete tenant_id none db h = h
  Keeps-submit_if_complete tenant_id (some e) db h =
      Keeps-when _ (set_submitted p e.id tenant_id) (Keeps-set_submitted p e.id tenant_id) db h

  pub Keeps-bulk_save :
      (notify : Text → Work Unit) (tenant_id exam_id user_id : ℕ) (recs : List RecordSave)
      → ((student : Text) → LeavesExams (notify student))
      → Keeps (bulk_save_student_exam_records p notify tenant_id exam_id user_id recs)
  unfolding bulk_save_student_exam_records
  Keeps-bulk_save notify tenant_id exam_id user_id recs leaves db h =
      Keeps-continue (get_exam_by_id exam_id tenant_id db) _ (Keeps-get_exam exam_id tenant_id db h)
        (λ found db1 h1.
          let known = get_student_exam_records tenant_id (some exam_id) none db1 in
          Keeps-continue
            (save_records p notify tenant_id exam_id user_id (is_published_exam found) known 1 recs
              db1)
            _
            (Keeps-save_records notify tenant_id exam_id user_id (is_published_exam found) known 1
              recs leaves db1 h1)
            (λ saved db2 h2.
              Keeps-continue (submit_if_complete p tenant_id found db2) _
                (Keeps-submit_if_complete tenant_id found db2 h2) (λ v db3 h3. h3)))

  Keeps-promote_if : (tenant_id : ℕ) (e : Exam) (b : Bool) → Keeps (promote_if p tenant_id e b)
  Keeps-promote_if tenant_id e true db h =
      Keeps-continue (set_submitted p e.id tenant_id db) _
        (Keeps-set_submitted p e.id tenant_id db h) (λ v db1 h1. h1)
  Keeps-promote_if tenant_id e false db h = h

  Keeps-promote_all : (tenant_id : ℕ) (es : List Exam) → Keeps (promote_all p tenant_id es)
  unfolding promote_all promote
  Keeps-promote_all tenant_id [] db h = h
  Keeps-promote_all tenant_id (e ∷ es) db h =
      Keeps-continue (promote p tenant_id e db) _ (Keeps-promote_if tenant_id e _ db h)
        (λ e' db1 h1.
          Keeps-continue (promote_all p tenant_id es db1) _ (Keeps-promote_all tenant_id es db1 h1)
            (λ es' db2 h2. h2))

  pub Keeps-list_exams :
      (tenant_id : ℕ) (branch_id : Option ℕ) (status : Option ExamStatus)
      → Keeps (list_exams p tenant_id branch_id status)
  unfolding list_exams
  Keeps-list_exams tenant_id branch_id status db h =
      Keeps-continue (promote_all p tenant_id (query_exams p tenant_id branch_id status db) db) _
        (Keeps-promote_all tenant_id (query_exams p tenant_id branch_id status db) db h)
        (λ es db1 h1. h1)
