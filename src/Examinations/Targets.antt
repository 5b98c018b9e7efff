-- ===== src/Examinations/Targets.antt =====
-- The sections that an exam is for, with their students and the marks that are in: what
-- `publish_exam`, `list_exams` and `bulk_save_student_exam_records` of
-- app/modules/examinations/service.py ask the database.
use text.Mathlib.Text.{◌==◌ as str_eq}
use sms_backend.Common.{
  ℕ, String, Bool, true, false, not, ◌&&◌, ◌||◌, Option, none, some, List, [], ◌∷◌, ◌++◌, ◌==◌, any,
  filter, first, map, length, ltb, if◌then◌else◌, eq_opt,
}
use sms_backend.Models.{
  AcademicProgramme, Batch, Section, Enrollment, is_active, Exam, MarksStatus, StudentExamRecord,
}
use sms_backend.Database.{Db}
use sms_backend.Security.Text.{Text, codes, is_empty}
use sms_backend.Examinations.Work.{SectionCount}
use sms_backend.Examinations.Texts.{Platform, member, nonempty, without_year}

abbrev pub is_active_row : String → Bool
is_active_row status = str_eq status "ACTIVE"

abbrev text_of : Platform → Option ℕ → List Text
text_of p none = []
text_of p (some id) = p.uuid_text id ∷ []

-- `target_branch_ids`: the scope is not read
unfoldable pub target_branch_ids : Platform → Exam → List Text
target_branch_ids p e = text_of p e.branch_id ++ nonempty e.branch_ids

abbrev or_programme : Platform → List Text → ℕ → List Text
or_programme p [] id = p.uuid_text id ∷ []
or_programme p (t ∷ ts) id = nonempty (t ∷ ts)

-- `target_prog_ids` of `publish_exam` and `bulk_save_student_exam_records`
unfoldable pub target_prog_ids : Platform → Exam → List Text
target_prog_ids p e = or_programme p e.programme_ids e.programme_id

-- the same with the year cut off, in `list_exams` and `_attach_marks_summary`
unfoldable pub clean_prog_ids : Platform → Exam → List Text
clean_prog_ids p e = map without_year (or_programme p e.programme_ids e.programme_id)

abbrev code_or_nothing : Platform → Option String → List Text
code_or_nothing p none = []
code_or_nothing p (some s) = if str_eq s "" then [] else p.upper (codes s) ∷ []

abbrev codes_of : Platform → List AcademicProgramme → List Text
codes_of p [] = []
codes_of p (pr ∷ prs) =
    code_or_nothing p pr.stream_code
    ++ (code_or_nothing p (some pr.programme_code) ++ codes_of p prs)

-- `stream_codes`
unfoldable pub stream_codes : Platform → List Text → Db → List Text
stream_codes p ids db = codes_of p (filter (λ pr. member (p.uuid_text pr.id) ids) db.programmes)

abbrev add_exempted : List Text → List (Text × Text) → List Text
add_exempted ids [] = ids
add_exempted ids ((k, _) ∷ reasons) =
    add_exempted (if not (is_empty k) && not (member k ids) then ids ++ k ∷ [] else ids) reasons

-- `excluded_branch_ids`
unfoldable pub excluded_branch_ids : Exam → List Text
excluded_branch_ids e = add_exempted (nonempty e.excluded_branch_ids) e.exemption_reasons

abbrev pub has : List Text → Bool
has [] = false
has (t ∷ ts) = true

abbrev of_batch : Option Batch → (Batch → Bool) → Bool
of_batch none f = false
of_batch (some b) f = f b

-- LEFT JOIN sms_batches b ON b.id = s.batch_id, as a test on b
unfoldable pub in_batch : Db → Section → (Batch → Bool) → Bool
in_batch db s f = of_batch (first (filter (λ b. b.id == s.batch_id) db.batches)) f

-- section_name ILIKE code || '-%' OR section_name ILIKE code || '%'
abbrev named_after : Platform → Section → Text → Bool
named_after p s code =
    not (is_empty code)
    && (p.ilike (codes s.section_name) (code ++ codes "-%")
        || p.ilike (codes s.section_name) (code ++ codes "%"))

-- the condition on programmes and streams
unfoldable pub of_programmes : Platform → Db → List Text → Section → Bool
of_programmes p db ids s =
    not (has ids)
    || in_batch db s (λ b. member (p.uuid_text b.programme_id) ids)
    || (has (stream_codes p ids db) && any (named_after p s) (stream_codes p ids db))

-- the condition on the excluded branches
unfoldable pub not_excluded : Platform → Exam → Section → Bool
not_excluded p e s =
    not (has (excluded_branch_ids e))
    || not (member (p.uuid_text s.branch_id) (excluded_branch_ids e))

-- WHERE of the query of the target sections, for the given programmes
unfoldable pub is_target : Platform → Db → ℕ → Exam → List Text → Section → Bool
is_target p db tenant_id e ids s =
    s.tenant_id == tenant_id
    && is_active_row s.status
    && (not (has (target_branch_ids p e))
        || member (p.uuid_text s.branch_id) (target_branch_ids p e))
    && not_excluded p e s
    && of_programmes p db ids s

-- e.section_id = s.id AND e.status = 'ACTIVE'
abbrev pub attends : Section → Enrollment → Bool
attends s e = eq_opt e.section_id s.id && is_active e.status

-- COUNT(DISTINCT e.id): `id` is the primary key, so these are the rows
unfoldable pub student_count : Db → Section → ℕ
student_count db s = length (filter (attends s) db.enrollments)

abbrev pub distinct : List ℕ → List ℕ
distinct [] = []
distinct (x ∷ xs) = let rest = distinct xs in if any (λ y. y == x) xs then rest else x ∷ rest

-- r.section_id = s.id AND r.exam_id = :exam_id
abbrev pub of_section : ℕ → Section → StudentExamRecord → Bool
of_section exam_id s r = eq_opt r.section_id s.id && r.exam_id == exam_id

-- r.status IN ('SUBMITTED', 'PUBLISHED', 'EXEMPTED'), of which no record has the last
abbrev pub is_in : MarksStatus → Bool
is_in MarksStatus.submitted = true
is_in MarksStatus.published = true
is_in _ = false

-- the students whose marks are in
unfoldable pub students_in : Db → ℕ → Section → List ℕ
students_in db exam_id s =
    map (λ r. r.student_id) (filter (λ r. of_section exam_id s r && is_in r.status) db.exam_records)

-- COUNT(DISTINCT CASE WHEN … THEN r.student_id END)
unfoldable pub submitted_count : Db → ℕ → Section → ℕ
submitted_count db exam_id s = length (distinct (students_in db exam_id s))

-- the rows of the query: a section with no active enrollment is left out
unfoldable pub target_sections : Platform → Db → ℕ → Exam → List Text → List Section
target_sections p db tenant_id e ids =
    filter (λ s. is_target p db tenant_id e ids s && ltb 0 (student_count db s)) db.sections

-- sec.student_count > 0 and sec.submitted_count < sec.student_count
unfoldable pub is_unsubmitted : Db → ℕ → Section → Bool
is_unsubmitted db exam_id s =
    ltb 0 (student_count db s) && ltb (submitted_count db exam_id s) (student_count db s)

-- an entry of `unsubmitted_sections`
unfoldable pub section_count : Db → ℕ → Section → SectionCount
section_count db exam_id s = record {
  name = codes s.section_name;
  submitted_count = submitted_count db exam_id s;
  student_count = student_count db s;
}
