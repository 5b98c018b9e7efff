-- ===== src/Examinations/Repository.antt =====
-- ExaminationsRepository of app/modules/examinations/repository.py: exams, their subjects and the
-- records of the students' marks, with the constraints of app/modules/examinations/models.py.
use sms_backend.Common.{
  ℕ, Bool, true, false, not, ◌&&◌, ◌||◌, Option, none, some, List, ◌==◌, any, filter, first,
  sort_by, update_where, leb, if◌then◌else◌, length, eq_opt,
}
use sms_backend.Models.{ExamScope, Exam, ExamStatus, ExamSubject, StudentExamRecord}
use sms_backend.Database.{Db}
use sms_backend.Security.Text.{Text}
use sms_backend.Examinations.Work.{
  Work, done, raised, pure, query, one_or_none, save, value_error, ◌>>=◌, ◌>>◌,
}
use sms_backend.Examinations.Texts.{Platform, member}

-- get_exam_by_id
unfoldable pub get_exam_by_id : ℕ → ℕ → Work (Option Exam)
get_exam_by_id exam_id tenant_id db =
    one_or_none (filter (λ e. e.id == exam_id && e.tenant_id == tenant_id) db.exams) db

abbrev pub is_all : ExamScope → Bool
is_all ExamScope.all_branches = true
is_all _ = false

abbrev same_status : ExamStatus → ExamStatus → Bool
same_status ExamStatus.draft ExamStatus.draft = true
same_status ExamStatus.submitted ExamStatus.submitted = true
same_status ExamStatus.returned_for_correction ExamStatus.returned_for_correction = true
same_status ExamStatus.published ExamStatus.published = true
same_status _ _ = false

-- `if branch_id: …`, `if status: …`
abbrev wanted_branch : Platform → Option ℕ → Exam → Bool
wanted_branch p none e = true
wanted_branch p (some b) e =
    eq_opt e.branch_id b || is_all e.scope || p.json_contains e.branch_ids (p.uuid_text b)

abbrev wanted_status : Option ExamStatus → Exam → Bool
wanted_status none e = true
wanted_status (some st) e = same_status e.status st

-- list_exams
unfoldable pub list_exams : Platform → ℕ → Option ℕ → Option ExamStatus → Db → List Exam
list_exams p tenant_id branch_id status db =
    sort_by (λ a b. leb b.created_at a.created_at)
      (filter
        (λ e. e.tenant_id == tenant_id && wanted_branch p branch_id e && wanted_status status e)
        db.exams)

-- `update_data`, with none for a key that is left out
pub record ExamChange : Type 0 where
  pub excluded_branch_ids : Option (List Text)
  pub exemption_reasons : Option (List (Text × Text))
  pub status : Option ExamStatus
  pub return_reason : Option Text
  pub published_at : Option ℕ
  pub published_by : Option ℕ
  pub updated_at : Option ℕ

abbrev set : {A : Type 0} → A → Option A → A
set old none = old
set old (some new) = new

abbrev set_some : {A : Type 0} → Option A → Option A → Option A
set_some old none = old
set_some old (some new) = some new

-- the loop of `setattr`
unfoldable pub changed : ExamChange → Exam → Exam
changed c e = record e {
  excluded_branch_ids = set e.excluded_branch_ids c.excluded_branch_ids;
  exemption_reasons = set e.exemption_reasons c.exemption_reasons;
  status = set e.status c.status;
  return_reason = set_some e.return_reason c.return_reason;
  published_at = set_some e.published_at c.published_at;
  published_by = set_some e.published_by c.published_by;
  updated_at = set e.updated_at c.updated_at;
}

-- fk_sms_exams_published_by
abbrev publisher_known : Option ℕ → Db → Bool
publisher_known none db = true
publisher_known (some u) db = any (λ o. o.id == u) db.users

-- UPDATE of the row with this primary key, and the commit
unfoldable pub write_exam : ExamChange → Exam → Work Unit
write_exam c e =
    save (publisher_known (set_some e.published_by c.published_by))
      (λ db. record db { exams = update_where (λ o. o.id == e.id) (changed c) db.exams })

abbrev pub if_found : {A B : Type 0} → Option A → (A → Work B) → Work (Option B)
if_found none f db = (done none, db)
if_found (some a) f db = (f a >>= λ b. pure (some b)) db

-- update_exam
unfoldable pub update_exam : ℕ → ℕ → ExamChange → Work (Option Exam)
update_exam exam_id tenant_id c = do
  found ← get_exam_by_id exam_id tenant_id
  if_found found λ e. do write_exam c e; pure (changed c e)

abbrev pub is_returned : ExamStatus → Bool
is_returned ExamStatus.returned_for_correction = true
is_returned _ = false

abbrev pub branch_in : Platform → List Text → Option ℕ → Bool
branch_in p targets none = false
branch_in p targets (some b) = member (p.uuid_text b) targets

-- the branches of an exam and the branches asked for
unfoldable pub meets_branches : Platform → List Text → Exam → Bool
meets_branches p targets e =
    is_all e.scope || branch_in p targets e.branch_id || any (λ b. member b targets) e.branch_ids

abbrev pub or_any : Platform → Option Text → ℕ → Bool
or_any p none id = true
or_any p (some t) id = elim (p.parse_uuid t) [ none ↦ true | some x ↦ not (id == x) ]

-- `UUID(programme_id) if len(programme_id) == 36 else None`, in a comparison: NULL selects no row
abbrev programme_key : Platform → Text → Work (Option ℕ)
programme_key p t db =
    if length t == 36
    then elim (p.parse_uuid t) [
      | none ↦ (raised (value_error "badly formed hexadecimal UUID string"), db)
      | some id ↦ (done (some id), db)
    ]
    else (done none, db)

-- check_exam_date_overlap
unfoldable pub check_exam_date_overlap :
    Platform → ℕ → ℕ → List Text → Text → Option Text → Work (Option Exam)
check_exam_date_overlap p tenant_id exam_date targets programme_id exclude = do
  key ← programme_key p programme_id
  query λ db. first (
      filter (meets_branches p targets) (
        filter
          (λ e.
            e.tenant_id == tenant_id
            && e.exam_date == exam_date
            && eq_opt key e.programme_id
            && not (is_returned e.status)
            && or_any p exclude e.id)
          db.exams))

-- list_exam_subjects
unfoldable pub list_exam_subjects : ℕ → ℕ → Db → List ExamSubject
list_exam_subjects exam_id tenant_id db =
    filter (λ s. s.exam_id == exam_id && s.tenant_id == tenant_id) db.exam_subjects

abbrev or_every : Option ℕ → ℕ → Bool
or_every none id = true
or_every (some x) id = id == x

abbrev in_section : Option ℕ → Option ℕ → Bool
in_section none id = true
in_section (some x) id = eq_opt id x

-- get_student_exam_records
unfoldable pub get_student_exam_records : ℕ → Option ℕ → Option ℕ → Db → List StudentExamRecord
get_student_exam_records tenant_id exam_id section_id db =
    filter
      (λ r.
        r.tenant_id == tenant_id
        && or_every exam_id r.exam_id
        && in_section section_id r.section_id)
      db.exam_records
