-- ===== src/Examinations/Routes.antt =====
-- app/modules/examinations/router.py: the answers of the routes. The guards of a route are in Security
-- and Authentication.
use sms_backend.Common.{ℕ, Option, none, some, List, []}
use sms_backend.Models.{Exam, ExamStatus, ExamSubject, StudentExamRecord}
use sms_backend.Database.{Db}
use sms_backend.Security.Text.{Text}
use sms_backend.Examinations.Work.{Work, Outcome, done, raised, Fault, value_error, unsubmitted}
use sms_backend.Examinations.Texts.{Platform}
use sms_backend.Examinations.Repository.{
  get_exam_by_id, list_exam_subjects, get_student_exam_records,
}
use sms_backend.Examinations.Service.{
  OverlapResponse, check_date_overlap, exempt_branch, return_for_correction, publish_exam,
}
use sms_backend.Examinations.Marks.{RecordSave}
use sms_backend.Examinations.Entry.{bulk_save_student_exam_records}
use sms_backend.Examinations.Listing.{MarksSummary, list_exams}
use sms_backend.Examinations.Provision.{ExamCreate}
use sms_backend.Examinations.Creation.{create_exam}

pub data Response (A : Type 0) : Type 0 where
  answered : A → Response A
  -- HTTPException(404, "Exam not found.")
  not_found : Response A
  -- HTTPException(400) with the text of an exception
  bad_request : Fault → Response A
  -- an exception that no handler takes: 500
  unhandled : Fault → Response A

module _ {A : Type 0} where
  -- no handler
  abbrev pub plain : Outcome A × Db → Response A × Db
  plain (done a, db) = (answered a, db)
  plain (raised e, db) = (unhandled e, db)

  -- `if not exam: raise HTTPException(404)`
  abbrev pub or_404 : Outcome (Option A) × Db → Response A × Db
  or_404 (done none, db) = (not_found, db)
  or_404 (done (some a), db) = (answered a, db)
  or_404 (raised e, db) = (unhandled e, db)

  -- `except ValueError`
  abbrev pub value_400 : Response A × Db → Response A × Db
  value_400 (unhandled (value_error m), db) = (bad_request (value_error m), db)
  value_400 (unhandled (unsubmitted ss), db) = (bad_request (unsubmitted ss), db)
  value_400 r = r

  -- `except Exception`
  abbrev pub any_400 : Response A × Db → Response A × Db
  any_400 (unhandled e, db) = (bad_request e, db)
  any_400 r = r

abbrev or_own : Option ℕ → Option ℕ → Option ℕ
or_own (some own) asked = some own
or_own none asked = asked

-- list_exams: the caller's branch comes before the branch asked for
unfoldable pub list_exams_route :
    Platform
    → ℕ
    → Option ℕ
    → Option ℕ
    → Option ExamStatus
    → Db
    → Response (List (Exam × MarksSummary)) × Db
list_exams_route p tenant_id own asked status db =
    plain (list_exams p tenant_id (or_own own asked) status db)

unfoldable pub create_exam_route : Platform → ℕ → ℕ → ExamCreate → Db → Response Exam × Db
create_exam_route p tenant_id user_id payload db =
    any_400 (plain (create_exam p tenant_id user_id payload db))

unfoldable pub get_exam_route : ℕ → ℕ → Db → Response Exam × Db
get_exam_route exam_id tenant_id db = or_404 (get_exam_by_id exam_id tenant_id db)

unfoldable pub check_overlap_route :
    Platform → ℕ → ℕ → List Text → Text → Option Text → Db → Response OverlapResponse × Db
check_overlap_route p tenant_id exam_date targets programme_id exclude db =
    plain (check_date_overlap p tenant_id exam_date targets programme_id exclude db)

unfoldable pub exempt_branch_route : Platform → ℕ → ℕ → Text → Text → Db → Response Exam × Db
exempt_branch_route p exam_id tenant_id branch_id reason db =
    or_404 (exempt_branch p exam_id tenant_id branch_id reason db)

unfoldable pub return_exam_route : Platform → ℕ → ℕ → Text → Db → Response Exam × Db
return_exam_route p exam_id tenant_id reason db =
    or_404 (return_for_correction p exam_id tenant_id reason db)

unfoldable pub publish_exam_route :
    Platform → (Exam → Option ℕ → Work Unit) → ℕ → ℕ → ℕ → Db → Response Exam × Db
publish_exam_route p notify exam_id tenant_id user_id db =
    value_400 (or_404 (publish_exam p notify exam_id tenant_id user_id db))

unfoldable pub bulk_save_route :
    Platform
    → (Text → Work Unit)
    → ℕ
    → ℕ
    → ℕ
    → List RecordSave
    → Db
    → Response (List StudentExamRecord) × Db
bulk_save_route p notify tenant_id exam_id user_id records db =
    any_400 (plain (bulk_save_student_exam_records p notify tenant_id exam_id user_id records db))

-- `UUID(exam_id)`, or an empty list
unfoldable pub exam_subjects_route : Platform → Text → ℕ → Db → List ExamSubject
exam_subjects_route p exam_id tenant_id db = elim (p.parse_uuid exam_id) [
  | none ↦ []
  | some id ↦ list_exam_subjects id tenant_id db
]

unfoldable pub exam_records_route : Platform → Text → ℕ → Option ℕ → Db → List StudentExamRecord
exam_records_route p exam_id tenant_id section_id db = elim (p.parse_uuid exam_id) [
  | none ↦ []
  | some id ↦ get_student_exam_records tenant_id (some id) section_id db
]
