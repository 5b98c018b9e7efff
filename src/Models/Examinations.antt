-- ===== src/Models/Examinations.antt =====
-- app/modules/examinations/models.py and the subjects of app/modules/academic_structure/models.py.
-- A mark is a float in the source: it is a whole number of quarters of a mark here. Texts that the examinations compare or parse are lists of code points.
use sms_backend.Common.{ℕ, Option, List}
use sms_backend.Common.Int.{ℤ}
use sms_backend.Security.Text.{Text}

-- sms_exams_scope_check
pub data ExamScope : Type 0 where
  single_branch all_branches selected_branches : ExamScope

-- sms_exams_status_check
pub data ExamStatus : Type 0 where
  draft submitted returned_for_correction published : ExamStatus

-- sms_exams; a JSON list or dict that is NULL is read as an empty one everywhere
pub record Exam : Type 0 where
  pub id : ℕ
  pub tenant_id : ℕ
  pub branch_id : Option ℕ
  pub scope : ExamScope
  pub branch_ids : List Text
  pub excluded_branch_ids : List Text
  pub exemption_reasons : List (Text × Text)
  pub academic_year_id : ℕ
  pub programme_id : ℕ
  pub programme_ids : List Text
  pub name : Text
  pub type_ : Text
  pub exam_date : ℕ
  pub marks_entry_deadline : Option ℕ
  pub status : ExamStatus
  pub return_reason : Option Text
  pub published_at : Option ℕ
  pub published_by : Option ℕ
  pub created_by : ℕ
  pub created_at : ℕ
  pub updated_at : ℕ

-- sms_exam_subjects
pub record ExamSubject : Type 0 where
  pub id : ℕ
  pub tenant_id : ℕ
  pub exam_id : ℕ
  pub subject_id : ℕ
  pub subject_name : Text
  pub subject_code : Text
  pub maximum_marks : ℕ
  pub pass_marks : ℕ

-- The statuses that the code gives to the marks of a student. sms_student_exam_records_status_check
-- allows the first four.
pub data MarksStatus : Type 0 where
  draft submitted returned_for_correction published approved passed failed : MarksStatus

-- subject_marks, a dict of one entry to a key
abbrev pub Marks : Type 0
Marks = List (Text × ℤ)

-- sms_student_exam_records; an object that is not inserted yet may lack its section
pub record StudentExamRecord : Type 0 where
  pub id : ℕ
  pub tenant_id : ℕ
  pub exam_id : ℕ
  pub enrollment_id : ℕ
  pub student_id : ℕ
  pub section_id : Option ℕ
  pub subject_marks : Marks
  pub status : MarksStatus
  pub entered_by : ℕ
  pub created_at : ℕ
  pub updated_at : ℕ

-- sms_subjects
pub record Subject : Type 0 where
  pub id : ℕ
  pub tenant_id : ℕ
  pub subject_code : Text
  pub subject_name : Text
