-- ===== src/Imports/Example.antt =====
-- A school with one enrollment without a fee account, and a file with fees for it: the data of the
-- tests.
use text.Mathlib.Text.{◌==◌ as str_eq}
use sms_backend.Common.{◌+◌, true, false, some, none, List, [], ◌∷◌, if◌then◌else◌}
use sms_backend.Models.{
  Student, StudentStatus, Enrollment, EnrollmentStatus, ImportBatch, ImportRow,
}
use sms_backend.Database.{Db, Env}
use sms_backend.Imports.Values.{TextLibrary, unreadable, hundredths, Cell, words, blank, other}

-- texts without spaces and capitals, and two amounts
abbrev pub lib : TextLibrary
lib = record {
  strip = λ s. s;
  lower = λ s. s;
  upper = λ s. s;
  decimal = λ s.
      if str_eq s "900"
      then hundredths 90000
      else if str_eq s "100"
      then hundredths 10000
      else unreadable;
  without_commas = λ s. s;
  pg_lower = λ s. s;
  ilike = λ _ _. false;
}

abbrev pub env : Env
env = record {
  text_le = λ _ _. true;
  like = λ _ _. false;
  right = λ s _. s;
  now = 500;
  today = 20;
  uuid = λ k. k + 100;
}

abbrev pub pupil : Student
pupil = record {
  id = 10;
  tenant_id = 1;
  legal_name = "asha";
  display_name = none;
  current_status = StudentStatus.active;
  created_at = 0;
}

abbrev pub enrolled : Enrollment
enrolled = record {
  id = 30;
  tenant_id = 1;
  student_id = 10;
  branch_id = 2;
  academic_year_id = 3;
  programme_id = none;
  batch_id = none;
  section_id = none;
  admission_number = some "a1";
  roll_number = none;
  year_level = "1";
  status = EnrollmentStatus.active;
  is_current = true;
}

abbrev pub school_with : List ImportBatch → List ImportRow → Db
school_with batches rows = record {
  tenants = record { id = 1; display_name = "trust" } ∷ [];
  branches = record { id = 2; tenant_id = 1; display_name = "north" } ∷ [];
  users = record { id = 7; full_name = "clerk" } ∷ [];
  audit_events = [];
  academic_years = record { id = 3; tenant_id = 1; code = "ay26"; name = "2026" } ∷ [];
  programmes = [];
  batches = [];
  sections = [];
  students = pupil ∷ [];
  enrollments = enrolled ∷ [];
  fee_accounts = [];
  ledger_entries = [];
  attendance_sessions = [];
  attendance_records = [];
  import_batches = batches;
  import_rows = rows;
  subjects = [];
  notification_logs = [];
  exams = [];
  exam_subjects = [];
  exam_records = [];
}

abbrev pub headers : List Cell
headers =
    words "Admission No"
    ∷ words "Student Name"
    ∷ words "Academic Year"
    ∷ words "Assigned Fee"
    ∷ words "Government Scholarship"
    ∷ words "Payment Schedule Type"
    ∷ []

-- a fee of 900 with a scholarship of 100
abbrev pub fee_row : List Cell
fee_row =
    words "a1"
    ∷ words "asha"
    ∷ words "2026"
    ∷ other "900" "900" "900" true
    ∷ words "100"
    ∷ words "ONE_TIME"
    ∷ []

-- the row below the headers of a template
abbrev pub marker_row : List Cell
marker_row = words "required" ∷ blank ∷ blank ∷ blank ∷ blank ∷ blank ∷ []

-- the headers, the marker row, and the same row twice
abbrev pub sheet : List (List Cell)
sheet = headers ∷ marker_row ∷ fee_row ∷ fee_row ∷ []
