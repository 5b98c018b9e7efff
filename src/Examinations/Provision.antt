-- ===== src/Examinations/Provision.antt =====
-- The values of a new exam, and the students that it is for: `create_exam` of
-- app/modules/examinations/service.py and repository.py before the exam is inserted.
use sms_backend.Common.{
  ℕ, ◌+◌, Bool, true, false, ◌&&◌, ◌||◌, Option, none, some, List, [], ◌∷◌, ◌==◌, any, filter,
  first, join, if◌then◌else◌, eq_opt,
}
use sms_backend.Models.{
  AcademicProgramme, Batch, Section, Enrollment, is_active, Exam, ExamScope, ExamSubject,
  MarksStatus, StudentExamRecord,
}
use sms_backend.Database.{Db}
use sms_backend.Security.Text.{Text, codes, is_empty}
use sms_backend.Examinations.Work.{Work, done, raised, database_error}
use sms_backend.Examinations.Texts.{Platform, without_year}
use sms_backend.Examinations.Targets.{is_active_row}
use sms_backend.Examinations.Repository.{is_all}

-- ExamSubjectCreate
pub record ExamSubjectCreate : Type 0 where
  pub subject_id : Text
  pub subject_name : Text
  pub subject_code : Text
  pub maximum_marks : ℕ
  pub pass_marks : ℕ

-- ExamCreate; the scope is none for a text that the table does not allow
pub record ExamCreate : Type 0 where
  pub name : Text
  pub type_ : Text
  pub scope : Option ExamScope
  pub branch_id : Option Text
  pub branch_ids : List Text
  pub excluded_branch_ids : List Text
  pub exemption_reasons : List (Text × Text)
  pub academic_year_id : Text
  pub programme_id : Text
  pub programme_ids : List Text
  pub exam_date : ℕ
  pub marks_entry_deadline : Option ℕ
  pub exam_subjects : List ExamSubjectCreate

abbrev pub lacks : Option Text → Bool
lacks none = true
lacks (some t) = is_empty t

abbrev pub is_single : Option ExamScope → Bool
is_single (some ExamScope.single_branch) = true
is_single _ = false

-- the programme's key after its cleaning
abbrev pub programme_given : Platform → Text → Option ℕ
programme_given p t = if is_empty t then none else p.parse_uuid (without_year t)

-- `clean_pids`
unfoldable pub clean_pids : Platform → List Text → List Text
clean_pids p [] = []
clean_pids p (t ∷ ts) =
    let rest = clean_pids p ts in
    elim (programme_given p t) [ none ↦ rest | some id ↦ p.uuid_text id ∷ rest ]

abbrev programme_or : Option AcademicProgramme → Option ℕ → Option ℕ
programme_or none given = given
programme_or (some pr) given = some pr.id

abbrev any_programme : ℕ → Option ℕ → Db → Option ℕ
any_programme tenant_id given db =
    programme_or
      (first (filter (λ pr. pr.tenant_id == tenant_id && is_active_row pr.status) db.programmes))
      given

abbrev batch_programme : Option Batch → Option ℕ → Option ℕ
batch_programme none other = other
batch_programme (some b) other = some b.programme_id

-- FK Resolution 1
unfoldable pub resolve_programme : ℕ → Option ℕ → Db → Option ℕ
resolve_programme tenant_id none db = any_programme tenant_id none db
resolve_programme tenant_id (some id) db =
    if any (λ pr. pr.id == id) db.programmes
    then some id
    else batch_programme (first (filter (λ b. b.id == id) db.batches))
        (any_programme tenant_id (some id) db)

-- FK Resolution 2: the query of its last step names a column is_current, which sms_academic_years does
-- not have
unfoldable pub resolve_year : Platform → Text → Work ℕ
resolve_year p t db = elim (if is_empty t then none else p.parse_uuid t) [
  | none ↦ (raised database_error, db)
  | some id ↦
      if any (λ y. y.id == id) db.academic_years then (done id, db) else (raised database_error, db)
]

abbrev text_or : Text → Text → Text
text_or [] preset = preset
text_or (c ∷ t) preset = c ∷ t

abbrev number_or : ℕ → ℕ → ℕ
number_or n preset = if n == 0 then preset else n

-- The rows for the subjects; for a subject without a key the code asks a table that does not exist.
unfoldable pub subject_rows :
    Platform → ℕ → ℕ → ℕ → List ExamSubjectCreate → Option (List ExamSubject)
subject_rows p tenant_id exam_id fresh [] = some []
subject_rows p tenant_id exam_id fresh (s ∷ ss) =
    let rest = subject_rows p tenant_id exam_id (fresh + 1) ss in
    elim (if is_empty s.subject_id then none else p.parse_uuid s.subject_id) [
      | none ↦ none
      | some id ↦ elim rest [
        | none ↦ none
        | some rows ↦ some (
            record {
              id = p.uuid fresh;
              tenant_id = tenant_id;
              exam_id = exam_id;
              subject_id = id;
              subject_name = text_or s.subject_name (codes "Subject");
              subject_code = text_or s.subject_code (codes "SUB");
              maximum_marks = number_or s.maximum_marks 100;
              pass_marks = number_or s.pass_marks 35;
            }
            ∷ rows)
      ]
    ]

-- `target_branch_ids` of the provisioning: the entries of branch_ids are texts, never UUIDs, so that
-- only the branch of the exam itself is taken
abbrev provision_branches : Exam → List ℕ
provision_branches e = elim e.branch_id [ none ↦ [] | some b ↦ b ∷ [] ]

-- `target_prog_uuids`
abbrev parsed : Platform → List Text → List ℕ
parsed p [] = []
parsed p (t ∷ ts) =
    let rest = parsed p ts in elim (programme_given p t) [ none ↦ rest | some id ↦ id ∷ rest ]

abbrev provision_programmes : Platform → List Text → ℕ → List ℕ
provision_programmes p [] id = id ∷ []
provision_programmes p (t ∷ ts) id = parsed p (t ∷ ts)

abbrev is_one_of : ℕ → List ℕ → Bool
is_one_of k = any (λ x. x == k)

abbrev no_keys : List ℕ → Bool
no_keys [] = true
no_keys (k ∷ ks) = false

-- the condition on programmes, over the batch of the section
abbrev in_programmes : List ℕ → Option Batch → Bool
in_programmes ids none = no_keys ids
in_programmes ids (some b) = no_keys ids || is_one_of b.id ids || is_one_of b.programme_id ids

-- WHERE of `enrolled_rows`
unfoldable pub is_provisioned : Platform → Exam → Db → Enrollment → Section → Bool
is_provisioned p e db en s =
    en.tenant_id == e.tenant_id
    && is_active en.status
    && is_active_row s.status
    && (no_keys (provision_branches e)
        || is_all e.scope
        || is_one_of s.branch_id (provision_branches e))
    && in_programmes (provision_programmes p e.programme_ids e.programme_id)
        (first (filter (λ b. b.id == s.batch_id) db.batches))

-- `enrolled_rows`
unfoldable pub enrolled_rows : Platform → Exam → Db → List (Enrollment × Section)
enrolled_rows p e db =
    filter (λ (en, s). is_provisioned p e db en s)
      (join (λ en s. eq_opt en.section_id s.id) db.enrollments db.sections)

unfoldable pub provisioned :
    Platform → Exam → ℕ → List (Enrollment × Section) → List StudentExamRecord
provisioned p e fresh [] = []
provisioned p e fresh ((en, s) ∷ rows) =
    record {
      id = p.uuid fresh;
      tenant_id = e.tenant_id;
      exam_id = e.id;
      enrollment_id = en.id;
      student_id = en.student_id;
      section_id = some s.id;
      subject_marks = [];
      status = MarksStatus.draft;
      entered_by = e.created_by;
      created_at = p.now;
      updated_at = p.now;
    }
    ∷ provisioned p e (fresh + 1) rows
