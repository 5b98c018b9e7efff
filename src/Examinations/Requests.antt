-- ===== src/Examinations/Requests.antt =====
-- The requests that change exams or marks, one after the other, each with the clock and the keys of its
-- own time (app/modules/examinations/router.py).
use sms_backend.Common.{ℕ, Option, List, [], ◌∷◌}
use sms_backend.Models.{Exam, ExamStatus}
use sms_backend.Database.{Db}
use sms_backend.Security.Text.{Text}
use sms_backend.Examinations.Work.{Work}
use sms_backend.Examinations.Texts.{Platform}
use sms_backend.Examinations.Marks.{RecordSave}
use sms_backend.Examinations.Provision.{ExamCreate}
use sms_backend.Examinations.Routes.{
  list_exams_route, create_exam_route, exempt_branch_route, return_exam_route, publish_exam_route,
  bulk_save_route,
}

-- what the notification service does after a publication, and after a correction
pub record Notifications : Type 0 where
  pub published : Exam → Option ℕ → Work Unit
  pub corrected : ℕ → Text → Work Unit

pub data ExamRequest : Type 0 where
  list : (tenant_id : ℕ) (own asked : Option ℕ) (status : Option ExamStatus) → ExamRequest
  create : (tenant_id user_id : ℕ) → ExamCreate → ExamRequest
  exempt : (exam_id tenant_id : ℕ) (branch_id reason : Text) → ExamRequest
  return_ : (exam_id tenant_id : ℕ) (reason : Text) → ExamRequest
  publish : (exam_id tenant_id user_id : ℕ) → ExamRequest
  bulk_save : (tenant_id exam_id user_id : ℕ) → List RecordSave → ExamRequest

-- the committed tables after a request
unfoldable pub serve : Notifications → Platform → ExamRequest → Db → Db
serve n p (list tenant_id own asked status) db =
    (list_exams_route p tenant_id own asked status db).1
serve n p (create tenant_id user_id payload) db =
    (create_exam_route p tenant_id user_id payload db).1
serve n p (exempt exam_id tenant_id branch_id reason) db =
    (exempt_branch_route p exam_id tenant_id branch_id reason db).1
serve n p (return_ exam_id tenant_id reason) db =
    (return_exam_route p exam_id tenant_id reason db).1
serve n p (publish exam_id tenant_id user_id) db =
    (publish_exam_route p n.published exam_id tenant_id user_id db).1
serve n p (bulk_save tenant_id exam_id user_id records) db =
    (bulk_save_route p (n.corrected exam_id) tenant_id exam_id user_id records db).1

unfoldable pub serve_all : Notifications → List (Platform × ExamRequest) → Db → Db
serve_all n [] db = db
serve_all n ((p, r) ∷ rs) db = serve_all n rs (serve n p r db)
