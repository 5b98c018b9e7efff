-- ===== src/Examinations/Keeping.antt =====
-- Every request on exams keeps the tables of exams and marks in order (app/modules/examinations).
use sms_backend.Common.{
  ℕ, ◌≡◌, refl, sym, subst, true, Option, none, some, List, [], ◌∷◌, All, Bool-cases, inl, inr,
}
use sms_backend.Models.{Exam, Section}
use sms_backend.Database.{Db}
use sms_backend.Security.Text.{Text}
use sms_backend.Examinations.Work.{Work, done, continue, one_or_none}
use sms_backend.Examinations.Texts.{Platform}
use sms_backend.Examinations.Repository.{
  get_exam_by_id, ExamChange, changed, write_exam, if_found, update_exam,
}
use sms_backend.Examinations.Service.{
  exemption, publication, exempt_branch, return_for_correction, publish_found, publish_exam,
  exam_or_error, if_exam, unsubmitted_sections, all_submitted, is_ongoing,
}
use sms_backend.Examinations.Kept.{
  IsSigned, HasUniqueRecords, has_exam, IsKept, Keeps, Keeps-continue, KeepsSigned,
  Keeps-write_exam, Keeps-get_exam,
}

-- an action that leaves exams and records alone, as the notification service does
abbrev pub LeavesExams : {A : Type 0} → Work A → Type 0
LeavesExams m = (db : Db) → ((m db).1.exams ≡ db.exams) × ((m db).1.exam_records ≡ db.exam_records)

pub Keeps-LeavesExams : {A : Type 0} (m : Work A) → LeavesExams m → Keeps m
Keeps-LeavesExams m same db h =
    let (es, rs) = same db in
    record {
      signed = subst (All IsSigned) (sym es) h.signed;
      unique = subst HasUniqueRecords (sym rs) h.unique;
      allowed = subst (All _) (sym rs) h.allowed;
      owned =
          subst (λ x. All (λ r. has_exam x r.exam_id ≡ true) (m db).1.exam_records) (sym es)
            (subst (All (λ r. has_exam db.exams r.exam_id ≡ true)) (sym rs) h.owned);
    }

pub one_or_none-state : {A : Type 0} (as' : List A) (db : Db) → (one_or_none as' db).1 ≡ db
one_or_none-state [] db = refl
one_or_none-state (a ∷ []) db = refl
one_or_none-state (a ∷ b ∷ rest) db = refl

Keeps-update_exam :
    (exam_id tenant_id : ℕ) (c : ExamChange)
    → KeepsSigned c
    → Keeps (update_exam exam_id tenant_id c)
unfolding update_exam
Keeps-update_exam exam_id tenant_id c k db h =
    Keeps-continue (get_exam_by_id exam_id tenant_id db) _ (Keeps-get_exam exam_id tenant_id db h)
      (λ found db1 h1. write found db1 h1)
  where
    write :
        (found : Option Exam)
        → Keeps (
            if_found found
              (λ e db. continue (write_exam c e db) (λ v db'. (done (changed c e), db'))))
    write none db1 h1 = h1
    write (some e) db1 h1 =
        Keeps-continue _ _
          (Keeps-continue (write_exam c e db1) _ (Keeps-write_exam c e k db1 h1) (λ v db2 h2. h2))
          (λ v db2 h2. h2)

-- a change without a status leaves the signature
pub Keeps-exempt_branch :
    (p : Platform) (exam_id tenant_id : ℕ) (branch_id reason : Text)
    → Keeps (exempt_branch p exam_id tenant_id branch_id reason)
unfolding exempt_branch
Keeps-exempt_branch p exam_id tenant_id branch_id reason db h =
    Keeps-continue (get_exam_by_id exam_id tenant_id db) _ (Keeps-get_exam exam_id tenant_id db h)
      exempt
  where
    exempt :
        (found : Option Exam)
        → Keeps
            (if_exam found (λ e. update_exam exam_id tenant_id (exemption p branch_id reason e)))
    exempt none db1 h1 = h1
    exempt (some e) db1 h1 =
        Keeps-update_exam exam_id tenant_id (exemption p branch_id reason e)
          (λ o s. unfold changed in s) db1 h1

pub Keeps-return_for_correction :
    (p : Platform) (exam_id tenant_id : ℕ) (reason : Text)
    → Keeps (return_for_correction p exam_id tenant_id reason)
unfolding return_for_correction
Keeps-return_for_correction p exam_id tenant_id reason =
    Keeps-update_exam exam_id tenant_id _ (λ o s. unfold changed in tt)

all_submitted-state :
    (seen : Db) (exam_id : ℕ) (ss : List Section) (db : Db)
    → (all_submitted seen exam_id ss db).1 ≡ db
unfolding all_submitted
all_submitted-state seen exam_id [] db = refl
all_submitted-state seen exam_id (s ∷ ss) db = refl

Keeps-publish_found :
    (p : Platform) (notify : Exam → Option ℕ → Work Unit) (exam_id tenant_id user_id : ℕ) (e : Exam)
    → ((e : Exam) (last : Option ℕ) → LeavesExams (notify e last))
    → Keeps (publish_found p notify exam_id tenant_id user_id e)
unfolding publish_found
Keeps-publish_found p notify exam_id tenant_id user_id e leaves db h =
    let waiting = unsubmitted_sections p exam_id tenant_id e db in
    elim (Bool-cases (is_ongoing p exam_id db)) [
      | inl t ↦ rw t h
      | inr f ↦ rw f (
          Keeps-continue (all_submitted db exam_id waiting db) _
            (rw (all_submitted-state db exam_id waiting db) h) written)
    ]
  where
    written :
        (v : Unit {0}) (db2 : Db)
        → IsKept db2
        → IsKept
            (continue
              (update_exam exam_id tenant_id (publication p user_id) db2)
              (λ published db3. (done published, (notify e e.published_at db3).1))).1
    written v db2 h2 =
        Keeps-continue (update_exam exam_id tenant_id (publication p user_id) db2) _
          (Keeps-update_exam exam_id tenant_id (publication p user_id)
            (λ o s. unfold changed in (refl, refl)) db2 h2)
          (λ published db3 h3.
            Keeps-LeavesExams (notify e e.published_at) (leaves e e.published_at) db3 h3)

pub Keeps-publish_exam :
    (p : Platform) (notify : Exam → Option ℕ → Work Unit) (exam_id tenant_id user_id : ℕ)
    → ((e : Exam) (last : Option ℕ) → LeavesExams (notify e last))
    → Keeps (publish_exam p notify exam_id tenant_id user_id)
unfolding publish_exam
Keeps-publish_exam p notify exam_id tenant_id user_id leaves db h =
    Keeps-continue (get_exam_by_id exam_id tenant_id db) _ (Keeps-get_exam exam_id tenant_id db h)
      publish
  where
    publish :
        (found : Option Exam) (db1 : Db)
        → IsKept db1
        → IsKept
            (continue
              (exam_or_error found db1)
              (publish_found p notify exam_id tenant_id user_id)).1
    publish none db1 h1 = h1
    publish (some e) db1 h1 = Keeps-publish_found p notify exam_id tenant_id user_id e leaves db1 h1
