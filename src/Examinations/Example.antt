-- ===== src/Examinations/Example.antt =====
-- A school with one section, one student and one exam, on which the theorems on
-- app/modules/examinations are applied.
use sms_backend.Common.{ℕ, ◌+◌, true, Option, none, some, List, [], ◌∷◌}
use sms_backend.Common.Int.{pos}
use sms_backend.Models.{
  Student, StudentStatus, Enrollment, EnrollmentStatus, Section, Batch, Exam, ExamScope, ExamStatus,
  ExamSubject, MarksStatus, Marks, StudentExamRecord,
}
use sms_backend.Database.{Db}
use sms_backend.Security.Text.{Text, codes, text_eq}
use sms_backend.Examinations.Texts.{Platform, member}

abbrev pub zeros : ℕ → Text
zeros ℕ.zero = []
zeros (ℕ.suc n) = b'0' ∷ zeros n

abbrev pub key_of : Text → Option ℕ
key_of [] = none
key_of (c ∷ t) = some c

-- keys are written as one code point and zeros
abbrev pub platform : Platform
platform = record {
  uuid_text = λ n. n ∷ zeros 35;
  parse_uuid = key_of;
  strip = λ t. t;
  upper = λ t. t;
  ilike = λ s t. text_eq s t;
  json_contains = λ ts t. member t ts;
  now = 1000;
  uuid = λ k. k + 500;
}

abbrev pub pupil : Student
pupil = record {
  id = 10;
  tenant_id = 1;
  legal_name = "Asha";
  display_name = none;
  current_status = StudentStatus.active;
  created_at = 0;
}

abbrev pub enrolled : Enrollment
enrolled = record {
  id = 30;
  tenant_id = 1;
  student_id = 10;
  branch_id = 2;
  academic_year_id = 3;
  programme_id = none;
  batch_id = none;
  section_id = some 40;
  admission_number = none;
  roll_number = none;
  year_level = "1";
  status = EnrollmentStatus.active;
  is_current = true;
}

abbrev pub section : Section
section = record {
  id = 40;
  tenant_id = 1;
  branch_id = 2;
  batch_id = 50;
  section_name = "A";
  status = "ACTIVE";
  created_at = 0;
}

abbrev pub batch : Batch
batch = record {
  id = 50;
  tenant_id = 1;
  branch_id = 2;
  academic_year_id = 3;
  programme_id = 60;
  batch_name = "B";
  year_level = "1";
}

abbrev pub exam : Exam
exam = record {
  id = 70;
  tenant_id = 1;
  branch_id = some 2;
  scope = ExamScope.single_branch;
  branch_ids = [];
  excluded_branch_ids = [];
  exemption_reasons = [];
  academic_year_id = 3;
  programme_id = 60;
  programme_ids = [];
  name = codes "Unit test";
  type_ = codes "UNIT";
  exam_date = 300;
  marks_entry_deadline = none;
  status = ExamStatus.submitted;
  return_reason = none;
  published_at = none;
  published_by = none;
  created_by = 7;
  created_at = 100;
  updated_at = 100;
}

abbrev pub paper : ExamSubject
paper = record {
  id = 81;
  tenant_id = 1;
  exam_id = 70;
  subject_id = 80;
  subject_name = codes "Maths";
  subject_code = codes "MAT";
  maximum_marks = 100;
  pass_marks = 35;
}

abbrev pub marks : Marks
marks = (80 ∷ zeros 35, pos 200) ∷ []

abbrev pub entry : StudentExamRecord
entry = record {
  id = 90;
  tenant_id = 1;
  exam_id = 70;
  enrollment_id = 30;
  student_id = 10;
  section_id = some 40;
  subject_marks = marks;
  status = MarksStatus.submitted;
  entered_by = 7;
  created_at = 200;
  updated_at = 200;
}

abbrev pub school_of : List Exam → Db
school_of exams = record {
  tenants = record { id = 1; display_name = "Trust" } ∷ [];
  branches = record { id = 2; tenant_id = 1; display_name = "North" } ∷ [];
  users = record { id = 7; full_name = "Principal" } ∷ [];
  audit_events = [];
  academic_years = record { id = 3; tenant_id = 1; code = "AY26"; name = "2026-27" } ∷ [];
  programmes = [];
  batches = batch ∷ [];
  sections = section ∷ [];
  students = pupil ∷ [];
  enrollments = enrolled ∷ [];
  fee_accounts = [];
  ledger_entries = [];
  attendance_sessions = [];
  attendance_records = [];
  import_batches = [];
  import_rows = [];
  subjects = [];
  notification_logs = [];
  exams = exams;
  exam_subjects = paper ∷ [];
  exam_records = entry ∷ [];
}

abbrev pub school : Db
school = school_of (exam ∷ [])
