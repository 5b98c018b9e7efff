-- ===== src/Examinations/Kept.antt =====
-- What holds of the tables of exams and marks after every request, and the writes of
-- app/modules/examinations/repository.py and service.py that keep it.
use sms_backend.Common.{
  ℕ, ◌≡◌, refl, ◌∙◌, Bool, true, false, ◌&&◌, Option, List, [], ◌∷◌, ◌++◌, ◌==◌, any, filter,
  update_where, All, All-append, All-mono, All-update_where, any-update_where, Bool-cases, is_some,
  inl, inr, if◌then◌else◌, arith,
}
use sms_backend.Models.{Exam, ExamStatus, StudentExamRecord}
use sms_backend.Database.{Db}
use sms_backend.Examinations.Work.{Work, Outcome, done, raised, continue, save, one_or_none}
use sms_backend.Examinations.Texts.{Platform}
use sms_backend.Examinations.Repository.{ExamChange, changed, write_exam, get_exam_by_id}
use sms_backend.Examinations.Marks.{status_allowed}
use sms_backend.Examinations.Entry.{set_submitted}

abbrev SignedAs : ExamStatus → Option ℕ → Option ℕ → Type 0
SignedAs ExamStatus.published at by = (is_some at ≡ true) × (is_some by ≡ true)
SignedAs _ at by = Unit

-- a PUBLISHED exam says when and by whom it was published
abbrev pub IsSigned : Exam → Type 0
IsSigned e = SignedAs e.status e.published_at e.published_by

abbrev pub clashes_with : StudentExamRecord → StudentExamRecord → Bool
clashes_with r o = o.exam_id == r.exam_id && o.student_id == r.student_id

-- one record for a student in an exam
abbrev pub HasUniqueRecords : List StudentExamRecord → Type 0
HasUniqueRecords [] = Unit
HasUniqueRecords (r ∷ rs) = All (λ o. clashes_with o r ≡ false) rs × HasUniqueRecords rs

abbrev pub has_exam : List Exam → ℕ → Bool
has_exam exams id = any (λ e. e.id == id) exams

pub record IsKept (db : Db) : Type 0 where
  pub signed : All IsSigned db.exams
  pub unique : HasUniqueRecords db.exam_records
  pub allowed : All (λ r. status_allowed r.status ≡ true) db.exam_records
  pub owned : All (λ r. has_exam db.exams r.exam_id ≡ true) db.exam_records

-- an action that keeps it
abbrev pub Keeps : {A : Type 0} → Work A → Type 0
Keeps m = (db : Db) → IsKept db → IsKept (m db).1

pub Keeps-continue :
    {A B : Type 0} (r : Outcome A × Db) (f : A → Work B)
    → IsKept r.1
    → ((a : A) → Keeps (f a))
    → IsKept (continue r f).1
Keeps-continue (done a, db) f h k = k a db h
Keeps-continue (raised e, db) f h k = h

pub Keeps-save :
    (allowed : Db → Bool) (change : Db → Db)
    → ((db : Db) → allowed db ≡ true → IsKept db → IsKept (change db))
    → Keeps (save allowed change)
Keeps-save allowed change k db h = elim (Bool-cases (allowed db)) [
  | inl t ↦ rw t (k db t h)
  | inr f ↦ rw f h
]

-- the tables with other exams of the same keys
pub IsKept-exams :
    (db : Db) (change : Exam → Exam) (which : Exam → Bool)
    → ((e : Exam) (id : ℕ) → ((change e).id == id) ≡ (e.id == id))
    → ((e : Exam) → IsSigned e → IsSigned (change e))
    → IsKept db
    → IsKept (record db { exams = update_where which change db.exams })
IsKept-exams db change which same k h = record {
  signed = All-update_where IsSigned which change db.exams (All-mono _ _ db.exams each h.signed);
  unique = h.unique;
  allowed = h.allowed;
  owned =
      All-mono _ _ db.exam_records
        (λ r o.
          any-update_where (λ e. e.id == r.exam_id) which change db.exams (λ e. same e r.exam_id)
          ∙ o)
        h.owned;
}
  where
    each : (e : Exam) → IsSigned e → IsSigned (if which e then change e else e)
    each e s = elim (Bool-cases (which e)) [ inl t ↦ rw t (k e s) | inr f ↦ rw f s ]

pub Keeps-set_submitted :
    (p : Platform) (exam_id tenant_id : ℕ) → Keeps (set_submitted p exam_id tenant_id)
unfolding set_submitted
Keeps-set_submitted p exam_id tenant_id db h =
    IsKept-exams db (λ o. record o { status = ExamStatus.submitted; updated_at = p.now }) _
      (λ e id. refl) (λ e s. tt) h

-- `update_data` that leaves a signed exam signed
abbrev pub KeepsSigned : ExamChange → Type 0
KeepsSigned c = (e : Exam) → IsSigned e → IsSigned (changed c e)

pub Keeps-write_exam : (c : ExamChange) (e : Exam) → KeepsSigned c → Keeps (write_exam c e)
unfolding write_exam
Keeps-write_exam c e k =
    Keeps-save _ _ (λ db t h.
      IsKept-exams db (changed c) (λ o. o.id == e.id) (λ o id. unfold changed in refl) k h)

pub Keeps-get_exam : (exam_id tenant_id : ℕ) → Keeps (get_exam_by_id exam_id tenant_id)
unfolding get_exam_by_id
Keeps-get_exam exam_id tenant_id db h =
    found (filter (λ e. e.id == exam_id && e.tenant_id == tenant_id) db.exams)
  where
    found : (es : List Exam) → IsKept (one_or_none es db).1
    found [] = h
    found (e ∷ []) = h
    found (e ∷ o ∷ es) = h

pub HasUniqueRecords-append_last :
    (rs : List StudentExamRecord) (r : StudentExamRecord)
    → All (λ o. clashes_with r o ≡ false) rs
    → HasUniqueRecords rs
    → HasUniqueRecords (rs ++ r ∷ [])
HasUniqueRecords-append_last [] r n u = (tt, tt)
HasUniqueRecords-append_last (o ∷ rs) r (n, ns) (h, u) =
    (All-append _ rs (r ∷ []) h (ground (arith), tt), HasUniqueRecords-append_last rs r ns u)
