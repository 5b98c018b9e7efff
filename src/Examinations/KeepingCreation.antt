-- ===== src/Examinations/KeepingCreation.antt =====
-- The creation of exams keeps the tables of exams and marks in order, and with it every request does
-- (app/modules/examinations/router.py).
use sms_backend.Common.{
  ℕ, ◌≡◌, refl, Option, none, some, List, [], ◌∷◌, Bool-cases, inl, inr, arith,
}
use sms_backend.Models.{Exam}
use sms_backend.Database.{Db}
use sms_backend.Security.Text.{Text}
use sms_backend.Examinations.Work.{
  Outcome, done, raised, value_error, unsubmitted, database_error, multiple_rows,
}
use sms_backend.Examinations.Texts.{Platform}
use sms_backend.Examinations.Routes.{
  Response, answered, not_found, bad_request, unhandled, plain, or_404, value_400, any_400,
  list_exams_route, create_exam_route, exempt_branch_route, return_exam_route, publish_exam_route,
  bulk_save_route,
}
use sms_backend.Examinations.Provision.{
  ExamCreate, ExamSubjectCreate, resolve_year, resolve_programme, programme_given, subject_rows,
  enrolled_rows, provisioned,
}
use sms_backend.Examinations.Creation.{
  create_exam, add_exam, new_exam, needed, branch_key, insert_exam, lacks_branch,
}
use sms_backend.Examinations.Requests.{
  Notifications, ExamRequest, list, create, exempt, return_, publish, bulk_save, serve, serve_all,
}
use sms_backend.Examinations.Kept.{IsSigned, IsKept, Keeps, Keeps-continue}
use sms_backend.Examinations.KeptRecords.{Keeps-insert_exam}
use sms_backend.Examinations.Keeping.{
  LeavesExams, Keeps-exempt_branch, Keeps-return_for_correction, Keeps-publish_exam,
}
use sms_backend.Examinations.KeepingMarks.{Keeps-bulk_save, Keeps-list_exams}

needed-state : {A : Type 0} (o : Option A) (db : Db) → (needed o db).1 ≡ db
needed-state none db = refl
needed-state (some a) db = refl

branch_key-state : (p : Platform) (t : Option Text) (db : Db) → (branch_key p t db).1 ≡ db
branch_key-state p none db = refl
branch_key-state p (some t) db = ground arith

resolve_year-state : (p : Platform) (t : Text) (db : Db) → (resolve_year p t db).1 ≡ db
unfolding resolve_year
resolve_year-state p t db = ground arith

Keeps-add_exam :
    (p : Platform) (subs : List ExamSubjectCreate) (e : Exam)
    → IsSigned e
    → Keeps (add_exam p subs e)
unfolding add_exam
Keeps-add_exam p subs e sg db h =
    let wanted = subject_rows p e.tenant_id e.id 1 subs in
    Keeps-continue (needed wanted db) _ (rw (needed-state wanted db) h) (λ subjects db1 h1.
      let records = provisioned p e 1000 (enrolled_rows p e db1) in
      Keeps-continue (insert_exam e subjects records db1) _
        (Keeps-insert_exam p e subjects 1000 (enrolled_rows p e db1) sg db1 h1) (λ v db2 h2. h2))

Keeps-create_exam :
    (p : Platform) (tenant_id user_id : ℕ) (payload : ExamCreate)
    → Keeps (create_exam p tenant_id user_id payload)
unfolding create_exam
Keeps-create_exam p tenant_id user_id payload db h = elim (Bool-cases (lacks_branch payload)) [
  | inl t ↦ rw t h
  | inr f ↦ rw f (
      Keeps-continue (resolve_year p payload.academic_year_id db) _
        (rw (resolve_year-state p payload.academic_year_id db) h)
        (λ year db1 h1.
          Keeps-continue (needed payload.scope db1) _ (rw (needed-state payload.scope db1) h1)
            (λ scope db2 h2.
              let programme =
                resolve_programme tenant_id (programme_given p payload.programme_id) db in
              Keeps-continue (needed programme db2) _ (rw (needed-state programme db2) h2)
                (λ programme_id db3 h3.
                  Keeps-continue (branch_key p payload.branch_id db3) _
                    (rw (branch_key-state p payload.branch_id db3) h3)
                    (λ branch db4 h4.
                      Keeps-add_exam p payload.exam_subjects
                        (new_exam p tenant_id user_id payload programme_id year scope branch)
                        (unfold new_exam in tt) db4 h4)))))
]

module _ {A : Type 0} where
  plain-state : (r : Outcome A × Db) → (plain r).1 ≡ r.1
  plain-state (done a, db) = refl
  plain-state (raised e, db) = refl

  or_404-state : (r : Outcome (Option A) × Db) → (or_404 r).1 ≡ r.1
  or_404-state (done none, db) = refl
  or_404-state (done (some a), db) = refl
  or_404-state (raised e, db) = refl

  any_400-state : (r : Response A × Db) → (any_400 r).1 ≡ r.1
  any_400-state (answered a, db) = refl
  any_400-state (not_found, db) = refl
  any_400-state (bad_request e, db) = refl
  any_400-state (unhandled e, db) = refl

  value_400-state : (r : Response A × Db) → (value_400 r).1 ≡ r.1
  value_400-state (answered a, db) = refl
  value_400-state (not_found, db) = refl
  value_400-state (bad_request e, db) = refl
  value_400-state (unhandled (value_error m), db) = refl
  value_400-state (unhandled (unsubmitted ss), db) = refl
  value_400-state (unhandled database_error, db) = refl
  value_400-state (unhandled multiple_rows, db) = refl

module _ (n : Notifications)
    (published : (e : Exam) (last : Option ℕ) → LeavesExams (n.published e last))
    (corrected : (exam_id : ℕ) (student : Text) → LeavesExams (n.corrected exam_id student)) where
  serve-IsKept : (p : Platform) (r : ExamRequest) (db : Db) → IsKept db → IsKept (serve n p r db)
  unfolding serve list_exams_route create_exam_route exempt_branch_route return_exam_route
      publish_exam_route bulk_save_route
  serve-IsKept p (list t own asked st) db h = rw (plain-state _) (Keeps-list_exams p t _ st db h)
  serve-IsKept p (create t u payload) db h =
      rw (any_400-state _, plain-state _) (Keeps-create_exam p t u payload db h)
  serve-IsKept p (exempt e t b reason) db h =
      rw (or_404-state _) (Keeps-exempt_branch p e t b reason db h)
  serve-IsKept p (return_ e t reason) db h =
      rw (or_404-state _) (Keeps-return_for_correction p e t reason db h)
  serve-IsKept p (publish e t u) db h =
      rw (value_400-state _, or_404-state _) (Keeps-publish_exam p n.published e t u published db h)
  serve-IsKept p (bulk_save t e u recs) db h =
      rw (any_400-state _, plain-state _)
        (Keeps-bulk_save p (n.corrected e) t e u recs (corrected e) db h)

  -- If the notification service leaves exams and records alone, then every sequence of requests keeps
  -- this: a PUBLISHED exam says when and by whom it was published, no student has two records in one
  -- exam, every record has a status that the table allows, and the exam of every record exists.
  pub serve_all-IsKept :
      (rs : List (Platform × ExamRequest)) (db : Db) → IsKept db → IsKept (serve_all n rs db)
  unfolding serve_all
  serve_all-IsKept [] db h = h
  serve_all-IsKept ((p, r) ∷ rs) db h = serve_all-IsKept rs (serve n p r db) (serve-IsKept p r db h)
