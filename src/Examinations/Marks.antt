-- ===== src/Examinations/Marks.antt =====
-- The marks of one student in one exam: `upsert_student_exam_record` of
-- app/modules/examinations/repository.py.
use text.Mathlib.Text.{◌==◌ as str_eq}
use sms_backend.Common.{
  ℕ, ◌*◌, String, Bool, true, false, not, ◌&&◌, Option, none, some, List, [], ◌∷◌, ◌++◌, ◌==◌, any,
  filter, first, sort_by, update_where, leb, length, if◌then◌else◌,
}
use sms_backend.Common.Int.{ℤ, pos, negsuc, leb_ℤ, ltb_ℤ, eqb_ℤ}
use sms_backend.Models.{
  Student, Section, Enrollment, ExamSubject, StudentExamRecord, Marks, MarksStatus,
}
use sms_backend.Database.{Db}
use sms_backend.Security.Text.{Text, text_eq}
use sms_backend.Examinations.Work.{Work, Outcome, done, raised, query, one_or_none, save, ◌>>=◌}
use sms_backend.Examinations.Texts.{Platform, to_uuid}
use sms_backend.Examinations.Repository.{list_exam_subjects}

-- StudentExamRecordSave
pub record RecordSave : Type 0 where
  pub enrollment_id : Text
  pub student_id : Text
  pub section_id : Text
  pub subject_marks : Marks
  pub status : Option String

abbrev key_or : {A : Type 0} → (A → ℕ) → Option A → ℕ → ℕ
key_or key none k = k
key_or key (some a) _ = key a

-- ORDER BY created_at ASC LIMIT 1
unfoldable pub oldest_student : ℕ → Db → Option Student
oldest_student tenant_id db = first (
    sort_by (λ a b. leb a.created_at b.created_at)
      (filter (λ s. s.tenant_id == tenant_id) db.students))

-- the student that the marks are stored under
unfoldable pub resolve_student : Platform → ℕ → Option ℕ → Db → ℕ
resolve_student p tenant_id none db = key_or (λ s. s.id) (oldest_student tenant_id db) (p.uuid 0)
resolve_student p tenant_id (some sid) db =
    if any (λ s. s.id == sid && s.tenant_id == tenant_id) db.students
    then sid
    else key_or (λ s. s.id) (oldest_student tenant_id db) sid

abbrev enrollment_of : ℕ → ℕ → Db → Option Enrollment
enrollment_of tenant_id student db =
    first (filter (λ e. e.student_id == student && e.tenant_id == tenant_id) db.enrollments)

unfoldable pub resolve_enrollment : ℕ → ℕ → Option ℕ → Db → ℕ
resolve_enrollment tenant_id student none db =
    key_or (λ e. e.id) (enrollment_of tenant_id student db) student
resolve_enrollment tenant_id student (some eid) db =
    if any (λ e. e.id == eid && e.tenant_id == tenant_id) db.enrollments
    then eid
    else key_or (λ e. e.id) (enrollment_of tenant_id student db) student

abbrev oldest_section : ℕ → Db → Option Section
oldest_section tenant_id db = first (
    sort_by (λ a b. leb a.created_at b.created_at)
      (filter (λ s. s.tenant_id == tenant_id) db.sections))

abbrev is_section : ℕ → Db → Option ℕ → Bool
is_section tenant_id db none = false
is_section tenant_id db (some k) = any (λ s. s.id == k && s.tenant_id == tenant_id) db.sections

abbrev section_or : Option Section → Option ℕ → Option ℕ
section_or none given = given
section_or (some s) given = some s.id

unfoldable pub resolve_section : ℕ → Option ℕ → Db → Option ℕ
resolve_section tenant_id given db =
    if is_section tenant_id db given then given else section_or (oldest_section tenant_id db) given

abbrev pub score_of : Text → Marks → Option ℤ
score_of k [] = none
score_of k ((j, v) ∷ m) = if text_eq j k then some v else score_of k m

abbrev or_no_score : Option ℤ → ℤ
or_no_score none = pos 0
or_no_score (some v) = v

-- `float(marks or preset)`, in quarters
abbrev pub marks_or : ℕ → ℕ → ℤ
marks_or marks preset = pos (4 * (if marks == 0 then preset else marks))

-- what one subject means for `is_passed`: a mark below 0 that is not -1 is left out
unfoldable pub subject_passed : Marks → Platform → ExamSubject → Bool
subject_passed marks p es =
    let score = or_no_score (score_of (p.uuid_text es.subject_id) marks) in
    if leb_ℤ (pos 0) score
    then not (ltb_ℤ score (marks_or es.pass_marks 35))
    else not (eqb_ℤ score (negsuc 3))

-- `is_passed` after the loop over the exam's subjects
unfoldable pub is_passed : Platform → Marks → List ExamSubject → Bool
is_passed p marks [] = true
is_passed p marks (es ∷ subjects) = subject_passed marks p es && is_passed p marks subjects

-- calc_status
unfoldable pub calc_status : String → Bool → MarksStatus
calc_status status passed =
    if str_eq status "DRAFT"
    then MarksStatus.draft
    else if str_eq status "SUBMITTED"
    then MarksStatus.submitted
    else if str_eq status "APPROVED"
    then MarksStatus.approved
    else if passed
    then MarksStatus.passed
    else MarksStatus.failed

abbrev has_mark : Marks → Text × ℤ → Bool
has_mark m (k, v) = elim (score_of k m) [ none ↦ false | some w ↦ eqb_ℤ w v ]

abbrev all_marks : Marks → Marks → Bool
all_marks [] m = true
all_marks (e ∷ es) m = has_mark m e && all_marks es m

-- `old_marks == new_marks`: dicts are equal whatever the order of their entries
unfoldable pub same_marks : Marks → Marks → Bool
same_marks old new = length old == length new && all_marks old new

-- sms_student_exam_records_status_check
unfoldable pub status_allowed : MarksStatus → Bool
status_allowed MarksStatus.approved = false
status_allowed MarksStatus.passed = false
status_allowed MarksStatus.failed = false
status_allowed _ = true

abbrev section_known : Option ℕ → Db → Bool
section_known none db = false
section_known (some k) db = any (λ s. s.id == k) db.sections

-- uq_sms_student_exam_records_exam_student
unfoldable pub record_unique : StudentExamRecord → Db → Bool
record_unique r db =
    not (any (λ o. o.exam_id == r.exam_id && o.student_id == r.student_id) db.exam_records)

-- the foreign keys of sms_student_exam_records
unfoldable pub record_references : StudentExamRecord → Db → Bool
record_references r db =
    any (λ t. t.id == r.tenant_id) db.tenants
    && any (λ e. e.id == r.exam_id) db.exams
    && any (λ e. e.id == r.enrollment_id) db.enrollments
    && any (λ s. s.id == r.student_id) db.students
    && section_known r.section_id db
    && any (λ u. u.id == r.entered_by) db.users

-- the object after the assignments of `if existing:`
unfoldable pub revised : StudentExamRecord → StudentExamRecord → StudentExamRecord
revised old new = record old {
  subject_marks = new.subject_marks;
  status = new.status;
  entered_by = new.entered_by;
  updated_at =
      if same_marks old.subject_marks new.subject_marks then old.updated_at else new.updated_at;
}

-- `try: commit, refresh; except Exception: rollback`, with the record in each case
abbrev pub or_unsaved :
    Outcome Unit × Db → StudentExamRecord → StudentExamRecord → Outcome StudentExamRecord × Db
or_unsaved (done _, db) saved unsaved = (done saved, db)
or_unsaved (raised _, db) saved unsaved = (done unsaved, db)

unfoldable pub insert_record : StudentExamRecord → Work Unit
insert_record r =
    save (λ db. status_allowed r.status && record_unique r db && record_references r db)
      (λ db. record db { exam_records = db.exam_records ++ r ∷ [] })

-- UPDATE of the row with the primary key of `old`
unfoldable pub replace_record : StudentExamRecord → StudentExamRecord → Work Unit
replace_record old r =
    save (λ db. status_allowed r.status && any (λ u. u.id == r.entered_by) db.users)
      (λ db. record db {
        exam_records = update_where (λ o. o.id == old.id) (λ o. revised o r) db.exam_records;
      })

-- A new object keeps its values after a rollback; an object of the table is read again.
unfoldable pub store_record : Option StudentExamRecord → StudentExamRecord → Work StudentExamRecord
store_record none r db = or_unsaved (insert_record r db) r r
store_record (some old) r db = or_unsaved (replace_record old r db) (revised old r) old

-- `rec.status or "DRAFT"`
abbrev pub status_or : Option String → String
status_or none = "DRAFT"
status_or (some s) = if str_eq s "" then "DRAFT" else s

-- the record of a request; `fresh` is the key of a new one
unfoldable pub new_record : Platform → ℕ → ℕ → ℕ → ℕ → RecordSave → Db → StudentExamRecord
new_record p fresh tenant_id exam_id entered_by rec db =
    let student = resolve_student p tenant_id (to_uuid p rec.student_id) db in
    let passed = is_passed p rec.subject_marks (list_exam_subjects exam_id tenant_id db) in
    record {
      id = p.uuid fresh;
      tenant_id = tenant_id;
      exam_id = exam_id;
      enrollment_id = resolve_enrollment tenant_id student (to_uuid p rec.enrollment_id) db;
      student_id = student;
      section_id = resolve_section tenant_id (to_uuid p rec.section_id) db;
      subject_marks = rec.subject_marks;
      status = calc_status (status_or rec.status) passed;
      entered_by = entered_by;
      created_at = p.now;
      updated_at = p.now;
    }

-- the record of a student in an exam
abbrev pub at_key : ℕ → ℕ → ℕ → StudentExamRecord → Bool
at_key tenant_id exam_id student r =
    r.tenant_id == tenant_id && r.exam_id == exam_id && r.student_id == student

-- upsert_student_exam_record
unfoldable pub upsert_student_exam_record :
    Platform → ℕ → ℕ → ℕ → ℕ → RecordSave → Work StudentExamRecord
upsert_student_exam_record p fresh tenant_id exam_id entered_by rec = do
  r ← query (new_record p fresh tenant_id exam_id entered_by rec)
  rows ← query λ db. filter (at_key tenant_id exam_id r.student_id) db.exam_records
  existing ← one_or_none rows
  store_record existing r
