-- ===== src/Examinations/KeptRecords.antt =====
-- The writes of records, and the new exams, keep the tables of exams and marks in order: `store_record`
-- and `create_exam` of app/modules/examinations/repository.py.
use sms_backend.Common.{
  ℕ, ◌+◌, ◌≡◌, refl, sym, ap, ◌∙◌, Bool, true, false, not, ◌&&◌, ◌||◌, Option, none, some, List, [],
  ◌∷◌, ◌++◌, ◌==◌, any, update_where, All, All-append, All-mono, All-none, All-update_where,
  any-append_last, Bool-cases, inl, inr, if◌then◌else◌, arith, ==→eq,
}
use sms_backend.Models.{Exam, StudentExamRecord, ExamSubject, Enrollment, Section}
use sms_backend.Database.{Db}
use sms_backend.Examinations.Work.{Outcome, done, raised}
use sms_backend.Examinations.Texts.{Platform}
use sms_backend.Examinations.Marks.{
  status_allowed, record_unique, record_references, revised, insert_record, replace_record,
  store_record, or_unsaved,
}
use sms_backend.Examinations.Provision.{provisioned}
use sms_backend.Examinations.Creation.{
  insert_exam, exam_references, subjects_allowed, records_allowed,
}
use sms_backend.Examinations.Kept.{
  IsSigned, clashes_with, HasUniqueRecords, HasUniqueRecords-append_last, has_exam, IsKept, Keeps,
  Keeps-save,
}

record_references-exam :
    (r : StudentExamRecord) (db : Db)
    → record_references r db ≡ true
    → has_exam db.exams r.exam_id ≡ true
unfolding record_references
record_references-exam r db h = ground arith

inserted :
    (r : StudentExamRecord) (db : Db)
    → status_allowed r.status && record_unique r db && record_references r db ≡ true
    → IsKept db
    → IsKept (record db { exam_records = db.exam_records ++ r ∷ [] })
unfolding record_unique
inserted r db t h =
    let ok : status_allowed r.status ≡ true = ground arith in
    let new : any (clashes_with r) db.exam_records ≡ false = ground arith in
    let refs : record_references r db ≡ true = ground arith in
    record {
      signed = h.signed;
      unique =
          HasUniqueRecords-append_last db.exam_records r
            (All-none (λ o. clashes_with r o ≡ false) (clashes_with r) db.exam_records new
              (λ o e. e))
            h.unique;
      allowed = All-append _ db.exam_records (r ∷ []) h.allowed (ok, tt);
      owned = All-append _ db.exam_records (r ∷ []) h.owned (record_references-exam r db refs, tt);
    }

Keeps-insert_record : (r : StudentExamRecord) → Keeps (insert_record r)
unfolding insert_record
Keeps-insert_record r = Keeps-save _ _ (inserted r)

-- the keys of the rows stay when one of them is revised
HasUniqueRecords-update_where :
    (which : StudentExamRecord → Bool) (new : StudentExamRecord) (rs : List StudentExamRecord)
    → HasUniqueRecords rs
    → HasUniqueRecords (update_where which (λ o. revised o new) rs)
unfolding revised
HasUniqueRecords-update_where which new [] u = tt
HasUniqueRecords-update_where which new (r ∷ rs) (h, u) = (
  elim (Bool-cases (which r)) [ inl t ↦ rw t (later r rs h) | inr f ↦ rw f (later r rs h) ],
  HasUniqueRecords-update_where which new rs u,
)
  where
    later :
        (r : StudentExamRecord) (os : List StudentExamRecord)
        → All (λ o. clashes_with o r ≡ false) os
        → All (λ o. clashes_with o r ≡ false) (update_where which (λ o. revised o new) os)
    later r [] a = tt
    later r (o ∷ os) (e, a) =
        (elim (Bool-cases (which o)) [ inl t ↦ rw t e | inr f ↦ rw f e ], later r os a)

replaced :
    (old r : StudentExamRecord) (db : Db)
    → status_allowed r.status && any (λ u. u.id == r.entered_by) db.users ≡ true
    → IsKept db
    → IsKept (record db {
      exam_records = update_where (λ o. o.id == old.id) (λ o. revised o r) db.exam_records;
    })
unfolding revised
replaced old r db t h =
    let ok : status_allowed r.status ≡ true = ground arith in
    record {
      signed = h.signed;
      unique = HasUniqueRecords-update_where (λ o. o.id == old.id) r db.exam_records h.unique;
      allowed =
          All-update_where (λ o. status_allowed o.status ≡ true) (λ o. o.id == old.id)
            (λ o. revised o r) db.exam_records
            (All-mono _ _ db.exam_records (λ o s. choose o ok s) h.allowed);
      owned =
          All-update_where (λ o. has_exam db.exams o.exam_id ≡ true) (λ o. o.id == old.id)
            (λ o. revised o r) db.exam_records
            (All-mono _ _ db.exam_records (λ o s. owner o s) h.owned);
    }
  where
    choose :
        (o : StudentExamRecord)
        → status_allowed r.status ≡ true
        → status_allowed o.status ≡ true
        → status_allowed (if o.id == old.id then revised o r else o).status ≡ true
    choose o ok s = elim (Bool-cases (o.id == old.id)) [ inl t ↦ rw t ok | inr f ↦ rw f s ]

    owner :
        (o : StudentExamRecord)
        → has_exam db.exams o.exam_id ≡ true
        → has_exam db.exams (if o.id == old.id then revised o r else o).exam_id ≡ true
    owner o s = elim (Bool-cases (o.id == old.id)) [ inl t ↦ rw t s | inr f ↦ rw f s ]

Keeps-replace_record : (old r : StudentExamRecord) → Keeps (replace_record old r)
unfolding replace_record
Keeps-replace_record old r = Keeps-save _ _ (replaced old r)

or_unsaved-state : (r : Outcome Unit × Db) (a b : StudentExamRecord) → (or_unsaved r a b).1 ≡ r.1
or_unsaved-state (done _, db) a b = refl
or_unsaved-state (raised _, db) a b = refl

pub Keeps-store_record :
    (old : Option StudentExamRecord) (r : StudentExamRecord) → Keeps (store_record old r)
unfolding store_record
Keeps-store_record none r db h =
    rw (or_unsaved-state (insert_record r db) r r) (Keeps-insert_record r db h)
Keeps-store_record (some old) r db h =
    rw (or_unsaved-state (replace_record old r db) (revised old r) old)
      (Keeps-replace_record old r db h)

-- the records of a new exam
record AreNew (e : Exam) (r : StudentExamRecord) : Type 0 where
  of_exam : r.exam_id ≡ e.id
  empty : status_allowed r.status ≡ true

provisioned-AreNew :
    (p : Platform) (e : Exam) (fresh : ℕ) (rows : List (Enrollment × Section))
    → All (AreNew e) (provisioned p e fresh rows)
unfolding provisioned status_allowed
provisioned-AreNew p e fresh [] = tt
provisioned-AreNew p e fresh ((en, s) ∷ rows) =
    (record { of_exam = refl; empty = refl }, provisioned-AreNew p e (fresh + 1) rows)

-- records of an exam that has none so far, each of another student
HasUniqueRecords-append :
    (e : Exam) (rs new : List StudentExamRecord)
    → All (λ r. (r.exam_id == e.id) ≡ false) rs
    → All (AreNew e) new
    → records_allowed new ≡ true
    → HasUniqueRecords rs
    → HasUniqueRecords (rs ++ new)
unfolding records_allowed
HasUniqueRecords-append e [] [] other n d u = tt
HasUniqueRecords-append e [] (r ∷ new) other (n, ns) d u = (
  All-none (λ o. clashes_with o r ≡ false) (λ o. o.student_id == r.student_id) new (ground arith)
      (λ o f. ground arith),
  HasUniqueRecords-append e [] new tt ns (ground arith) tt,
)
HasUniqueRecords-append e (r ∷ rs) new (o, os) n d (h, u) = (
  All-append _ rs new h (All-mono (AreNew e) _ new (λ x a. ground (arith, a.of_exam)) n),
  HasUniqueRecords-append e rs new os n d u,
)

added :
    (e : Exam) (new : List StudentExamRecord) (subjects : List ExamSubject) (db : Db)
    → IsSigned e
    → All (AreNew e) new
    → any (λ o. o.id == e.id) db.exams ≡ false
    → records_allowed new ≡ true
    → IsKept db
    → IsKept (record db {
      exams = db.exams ++ e ∷ [];
      exam_subjects = db.exam_subjects ++ subjects;
      exam_records = db.exam_records ++ new;
    })
added e new subjects db sg n free d h = record {
  signed = All-append IsSigned db.exams (e ∷ []) h.signed (sg, tt);
  unique =
      HasUniqueRecords-append e db.exam_records new
        (All-mono _ _ db.exam_records (λ r o. other r o) h.owned) n d h.unique;
  allowed =
      All-append _ db.exam_records new h.allowed (All-mono (AreNew e) _ new (λ r a. a.empty) n);
  owned =
      All-append _ db.exam_records new
        (All-mono _ _ db.exam_records
          (λ r o.
            any-append_last (λ x. x.id == r.exam_id) db.exams e
            ∙ ap (λ b. b || e.id == r.exam_id) o)
          h.owned)
        (All-mono (AreNew e) _ new (λ r a. own r a) n);
}
  where
    other :
        (r : StudentExamRecord) → has_exam db.exams r.exam_id ≡ true → (r.exam_id == e.id) ≡ false
    other r o = elim (Bool-cases (r.exam_id == e.id)) [
      | inl t ↦ absurd (cc (sym o ∙ ap (has_exam db.exams) (==→eq r.exam_id e.id t) ∙ free))
      | inr f ↦ f
    ]

    own : (r : StudentExamRecord) → AreNew e r → has_exam (db.exams ++ e ∷ []) r.exam_id ≡ true
    own r a = any-append_last (λ x. x.id == r.exam_id) db.exams e ∙ ground (arith, a.of_exam)

pub Keeps-insert_exam :
    (p : Platform) (e : Exam) (subjects : List ExamSubject) (fresh : ℕ)
    (rows : List (Enrollment × Section))
    → IsSigned e
    → Keeps (insert_exam e subjects (provisioned p e fresh rows))
unfolding insert_exam
Keeps-insert_exam p e subjects fresh rows sg = Keeps-save _ _ (λ db t h.
    let (free, d) =
      ends (any (λ o. o.id == e.id) db.exams) (exam_references e db) (subjects_allowed subjects db)
        (records_allowed (provisioned p e fresh rows)) t in
    added e (provisioned p e fresh rows) subjects db sg (provisioned-AreNew p e fresh rows) free d
      h)
  where
    ends : (a b c d : Bool) → not a && b && c && d ≡ true → (a ≡ false) × (d ≡ true)
    ends a b c d t = (ground arith, ground arith)
