-- ===== src/Examinations/Creation.antt =====
-- create_exam of app/modules/examinations/service.py and repository.py: a new exam with its subjects and
-- an empty record for each student that it is for.
use sms_backend.Common.{
  ℕ, Bool, true, not, ◌&&◌, Option, none, some, List, [], ◌∷◌, ◌++◌, ◌==◌, any, ltb,
}
use sms_backend.Models.{Exam, ExamScope, ExamStatus, ExamSubject, StudentExamRecord}
use sms_backend.Database.{Db}
use sms_backend.Security.Text.{Text}
use sms_backend.Examinations.Work.{
  Work, done, raised, pure, raise_if, query, save, value_error, database_error, ◌>>=◌, ◌>>◌,
}
use sms_backend.Examinations.Texts.{Platform}
use sms_backend.Examinations.Provision.{
  ExamSubjectCreate, ExamCreate, lacks, is_single, programme_given, clean_pids, resolve_programme,
  resolve_year, subject_rows, enrolled_rows, provisioned,
}

abbrev known_branch : Option ℕ → Db → Bool
known_branch none db = true
known_branch (some b) db = any (λ o. o.id == b) db.branches

-- the foreign keys of sms_exams
unfoldable pub exam_references : Exam → Db → Bool
exam_references e db =
    any (λ t. t.id == e.tenant_id) db.tenants
    && known_branch e.branch_id db
    && any (λ y. y.id == e.academic_year_id) db.academic_years
    && any (λ pr. pr.id == e.programme_id) db.programmes
    && any (λ u. u.id == e.created_by) db.users

-- uq_sms_exam_subjects_exam_subject, sms_exam_subjects_maximum_marks_check and the foreign key of the
-- subject, among the rows of one new exam
unfoldable pub subjects_allowed : List ExamSubject → Db → Bool
subjects_allowed [] db = true
subjects_allowed (s ∷ ss) db =
    not (any (λ o. o.subject_id == s.subject_id) ss)
    && ltb 0 s.maximum_marks
    && any (λ o. o.id == s.subject_id) db.subjects
    && subjects_allowed ss db

-- uq_sms_student_exam_records_exam_student among the rows of one new exam
unfoldable pub records_allowed : List StudentExamRecord → Bool
records_allowed [] = true
records_allowed (r ∷ rs) = not (any (λ o. o.student_id == r.student_id) rs) && records_allowed rs

-- the flush and the commit of `create_exam`
unfoldable pub insert_exam : Exam → List ExamSubject → List StudentExamRecord → Work Unit
insert_exam e subjects records =
    save
      (λ db.
        not (any (λ o. o.id == e.id) db.exams)
        && exam_references e db
        && subjects_allowed subjects db
        && records_allowed records)
      (λ db. record db {
        exams = db.exams ++ e ∷ [];
        exam_subjects = db.exam_subjects ++ subjects;
        exam_records = db.exam_records ++ records;
      })

-- a value that the statement needs, or else the database refuses it
abbrev pub needed : {A : Type 0} → Option A → Work A
needed none db = (raised database_error, db)
needed (some a) db = (done a, db)

-- the key of the branch, as the database reads its text
abbrev pub branch_key : Platform → Option Text → Work (Option ℕ)
branch_key p none db = (done none, db)
branch_key p (some t) db = elim (p.parse_uuid t) [
  | none ↦ (raised database_error, db)
  | some b ↦ (done (some b), db)
]

-- Exam(**exam_data)
unfoldable pub new_exam : Platform → ℕ → ℕ → ExamCreate → ℕ → ℕ → ExamScope → Option ℕ → Exam
new_exam p tenant_id user_id payload programme_id year scope branch = record {
  id = p.uuid 0;
  tenant_id = tenant_id;
  branch_id = branch;
  scope = scope;
  branch_ids = payload.branch_ids;
  excluded_branch_ids = payload.excluded_branch_ids;
  exemption_reasons = payload.exemption_reasons;
  academic_year_id = year;
  programme_id = programme_id;
  programme_ids = clean_pids p payload.programme_ids;
  name = payload.name;
  type_ = payload.type_;
  exam_date = payload.exam_date;
  marks_entry_deadline = payload.marks_entry_deadline;
  status = ExamStatus.draft;
  return_reason = none;
  published_at = none;
  published_by = none;
  created_by = user_id;
  created_at = p.now;
  updated_at = p.now;
}

-- ExaminationsRepository.create_exam
unfoldable pub add_exam : Platform → List ExamSubjectCreate → Exam → Work Exam
add_exam p exam_subjects e = do
  subjects ← needed (subject_rows p e.tenant_id e.id 1 exam_subjects)
  rows ← query (enrolled_rows p e)
  insert_exam e subjects (provisioned p e 1000 rows)
  pure e

abbrev pub lacks_branch : ExamCreate → Bool
lacks_branch payload = is_single payload.scope && lacks payload.branch_id

-- ExaminationsService.create_exam
unfoldable pub create_exam : Platform → ℕ → ℕ → ExamCreate → Work Exam
create_exam p tenant_id user_id payload = do
  raise_if (lacks_branch payload)
      (value_error "branch_id is required for SINGLE_BRANCH scope assessments.")
  programme ← query (resolve_programme tenant_id (programme_given p payload.programme_id))
  year ← resolve_year p payload.academic_year_id
  scope ← needed payload.scope
  programme_id ← needed programme
  branch ← branch_key p payload.branch_id
  add_exam p payload.exam_subjects
      (new_exam p tenant_id user_id payload programme_id year scope branch)
