-- ===== src/Examinations/Listing.antt =====
-- list_exams and _attach_marks_summary of app/modules/examinations/service.py: a list of exams, of which
-- the drafts whose marks are in become SUBMITTED, with the counts of their sections.
use sms_backend.Common.{
  ℕ, ◌+◌, Bool, true, false, not, ◌&&◌, ◌||◌, Option, none, some, List, [], ◌∷◌, ◌==◌, any, filter,
  map, leb, if◌then◌else◌, length,
}
use sms_backend.Models.{Exam, ExamScope, ExamStatus, MarksStatus, Section}
use sms_backend.Database.{Db}
use sms_backend.Security.Text.{Text}
use sms_backend.Examinations.Work.{Work, pure, query, ◌>>=◌, ◌>>◌}
use sms_backend.Examinations.Texts.{Platform, member, nonempty}
use sms_backend.Examinations.Targets.{
  has, is_active_row, clean_prog_ids, not_excluded, in_batch, of_section, student_count, distinct,
  submitted_count, target_sections, is_unsubmitted,
}
use sms_backend.Examinations.Repository.{list_exams as query_exams}
use sms_backend.Examinations.Entry.{set_submitted}

abbrev selected : Platform → ExamScope → Exam → List Text
selected p ExamScope.single_branch e = elim e.branch_id [ none ↦ [] | some b ↦ p.uuid_text b ∷ [] ]
selected p ExamScope.selected_branches e = nonempty e.branch_ids
selected p ExamScope.all_branches e = []

-- `branch_ids` of `_attach_marks_summary`
abbrev summary_branches : Platform → Option ℕ → Exam → List Text
summary_branches p (some b) e = p.uuid_text b ∷ []
summary_branches p none e = selected p e.scope e

-- WHERE of target_sections in `_attach_marks_summary`
unfoldable pub is_summarised : Platform → Db → ℕ → Option ℕ → Exam → Section → Bool
is_summarised p db tenant_id branch_id e s =
    s.tenant_id == tenant_id
    && is_active_row s.status
    && (not (has (summary_branches p branch_id e))
        || member (p.uuid_text s.branch_id) (summary_branches p branch_id e))
    && not_excluded p e s
    && (not (has (clean_prog_ids p e))
        || in_batch db s (λ b.
          member (p.uuid_text b.id) (clean_prog_ids p e)
          || member (p.uuid_text b.programme_id) (clean_prog_ids p e)))

abbrev is_published_marks : MarksStatus → Bool
is_published_marks MarksStatus.published = true
is_published_marks _ = false

unfoldable pub published_count : Db → ℕ → Section → ℕ
published_count db exam_id s = length (
    distinct (
      map (λ r. r.student_id)
        (filter (λ r. of_section exam_id s r && is_published_marks r.status) db.exam_records)))

pub data SectionStatus : Type 0 where
  exempted published submitted draft pending : SectionStatus

-- the CASE of section_statuses
unfoldable pub marks_status : Db → ℕ → Section → SectionStatus
marks_status db exam_id s =
    if student_count db s == 0
    then exempted
    else if leb (student_count db s) (published_count db exam_id s)
    then published
    else if leb (student_count db s) (submitted_count db exam_id s)
    then submitted
    else if any (of_section exam_id s) db.exam_records
    then draft
    else pending

-- `summary`
pub record MarksSummary : Type 0 where
  pub pending : ℕ
  pub draft : ℕ
  pub submitted : ℕ
  pub published : ℕ
  pub exempted : ℕ
  pub total : ℕ

-- one section more under its status, and in the total
unfoldable pub counted : SectionStatus → MarksSummary → MarksSummary
counted SectionStatus.exempted m = record m { exempted = m.exempted + 1; total = m.total + 1 }
counted SectionStatus.published m = record m { published = m.published + 1; total = m.total + 1 }
counted SectionStatus.submitted m = record m { submitted = m.submitted + 1; total = m.total + 1 }
counted SectionStatus.draft m = record m { draft = m.draft + 1; total = m.total + 1 }
counted SectionStatus.pending m = record m { pending = m.pending + 1; total = m.total + 1 }

abbrev no_sections : MarksSummary
no_sections = record {
  pending = 0;
  draft = 0;
  submitted = 0;
  published = 0;
  exempted = 0;
  total = 0;
}

unfoldable pub summary_of : List SectionStatus → MarksSummary
summary_of [] = no_sections
summary_of (st ∷ sts) = counted st (summary_of sts)

-- _attach_marks_summary
unfoldable pub marks_summary : Platform → ℕ → Option ℕ → Exam → Db → MarksSummary
marks_summary p tenant_id branch_id e db =
    summary_of
      (map (marks_status db e.id) (filter (is_summarised p db tenant_id branch_id e) db.sections))

abbrev pub is_draft_exam : ExamStatus → Bool
is_draft_exam ExamStatus.draft = true
is_draft_exam _ = false

abbrev has_rows : List Section → Bool
has_rows [] = false
has_rows (s ∷ ss) = true

-- `target_sections and all(…)`
unfoldable pub is_complete : Platform → ℕ → Exam → Db → Bool
is_complete p tenant_id e db =
    let rows = target_sections p db tenant_id e (clean_prog_ids p e) in
    has_rows rows && not (any (is_unsubmitted db e.id) rows)

abbrev pub promote_if : Platform → ℕ → Exam → Bool → Work Exam
promote_if p tenant_id e true = do
  set_submitted p e.id tenant_id
  pure (record e { status = ExamStatus.submitted; updated_at = p.now })
promote_if p tenant_id e false = pure e

-- the body of the first loop of `list_exams`
unfoldable pub promote : Platform → ℕ → Exam → Work Exam
promote p tenant_id e = do
  complete ← query (is_complete p tenant_id e)
  promote_if p tenant_id e (is_draft_exam e.status && complete)

unfoldable pub promote_all : Platform → ℕ → List Exam → Work (List Exam)
promote_all p tenant_id [] = pure []
promote_all p tenant_id (e ∷ es) = do
  e' ← promote p tenant_id e
  es' ← promote_all p tenant_id es
  pure (e' ∷ es')

-- list_exams
unfoldable pub list_exams :
    Platform → ℕ → Option ℕ → Option ExamStatus → Work (List (Exam × MarksSummary))
list_exams p tenant_id branch_id status = do
  exams ← query (query_exams p tenant_id branch_id status)
  exams' ← promote_all p tenant_id exams
  query λ db. map (λ e. (e, marks_summary p tenant_id branch_id e db)) exams'
