-- ===== src/Examinations/Storing.antt =====
-- Saving the marks of one student: what is stored is what is read, and what is lost without an error
-- (`upsert_student_exam_record` of app/modules/examinations/repository.py).
use text.Mathlib.Text.{◌==◌ as str_eq}
use sms_backend.Common.{
  ℕ, String, ◌||◌, ◌≡◌, refl, ◌∙◌, Bool, true, false, ◌&&◌, Option, none, some, List, [], ◌∷◌, ◌++◌,
  ◌==◌, any, filter, update_where, filter-append_last, filter-update_where, ==_refl, All,
  Bool-cases, inl, inr, arith,
}
use sms_backend.Models.{StudentExamRecord}
use sms_backend.Database.{Db}
use sms_backend.Examinations.Work.{done}
use sms_backend.Examinations.Texts.{Platform, to_uuid}
use sms_backend.Examinations.Repository.{list_exam_subjects, get_student_exam_records}
use sms_backend.Examinations.Marks.{
  RecordSave, resolve_student, is_passed, calc_status, status_or, status_allowed, record_unique,
  record_references, revised, insert_record, replace_record, store_record, new_record, at_key,
  upsert_student_exam_record,
}
use sms_backend.Examinations.Kept.{clashes_with, HasUniqueRecords, IsKept}

-- at most one row
data OneOrNone (rs : List StudentExamRecord) : Type 0 where
  empty : rs ≡ [] → OneOrNone rs
  single : (r : StudentExamRecord) → rs ≡ r ∷ [] → OneOrNone rs

filter-nothing :
    (q : StudentExamRecord → Bool) (rs : List StudentExamRecord)
    → All (λ r. q r ≡ false) rs
    → filter q rs ≡ []
filter-nothing q [] h = refl
filter-nothing q (r ∷ rs) (h, hs) = rw (h, filter-nothing q rs hs) refl

unique_row :
    (tenant_id exam_id student : ℕ) (rs : List StudentExamRecord)
    → HasUniqueRecords rs
    → OneOrNone (filter (at_key tenant_id exam_id student) rs)
unique_row tenant_id exam_id student [] u = empty refl
unique_row tenant_id exam_id student (r ∷ rs) (h, u) =
    elim (Bool-cases (at_key tenant_id exam_id student r)) [
      | inr f ↦ rw f (unique_row tenant_id exam_id student rs u)
      | inl t ↦
          rw (t, filter-nothing (at_key tenant_id exam_id student) rs (others rs h t))
            (single r refl)
    ]
  where
    others :
        (os : List StudentExamRecord)
        → All (λ o. clashes_with o r ≡ false) os
        → at_key tenant_id exam_id student r ≡ true
        → All (λ o. at_key tenant_id exam_id student o ≡ false) os
    others [] a t = tt
    others (o ∷ os) (e, a) t = (ground arith, others os a t)

refused :
    (old : Option StudentExamRecord) (r : StudentExamRecord) (db : Db)
    → status_allowed r.status ≡ false
    → (x : StudentExamRecord) × (store_record old r db ≡ (done x, db))
unfolding store_record insert_record replace_record
refused none r db h = (r, rw h refl)
refused (some old) r db h = (old, rw h refl)

calc_status-refused :
    (status : String) (passes : Bool)
    → str_eq status "DRAFT" ≡ false
    → str_eq status "SUBMITTED" ≡ false
    → status_allowed (calc_status status passes) ≡ false
unfolding calc_status status_allowed
calc_status-refused status passes d s = rw (d, s) (ground arith)

calc_status-accepted :
    (status : String) (passes : Bool)
    → str_eq status "DRAFT" || str_eq status "SUBMITTED" ≡ true
    → status_allowed (calc_status status passes) ≡ true
unfolding calc_status status_allowed
calc_status-accepted status passes h = ground arith

-- the records of the exam that are read, and of them those of the student
read_key :
    (tenant_id exam_id student : ℕ) (rs : List StudentExamRecord)
    → filter
        (λ o. o.student_id == student)
        (filter (λ o. o.tenant_id == tenant_id && o.exam_id == exam_id && true) rs)
      ≡ filter (at_key tenant_id exam_id student) rs
read_key tenant_id exam_id student [] = refl
read_key tenant_id exam_id student (r ∷ rs) = ground (arith, read_key tenant_id exam_id student rs)

-- no record at the key, and the exam's records are of the tenant
key_is_free :
    (tenant_id exam_id student : ℕ) (rs : List StudentExamRecord)
    → All (λ o. (o.tenant_id == tenant_id) ≡ true) (filter (λ o. o.exam_id == exam_id) rs)
    → filter (at_key tenant_id exam_id student) rs ≡ []
    → any (λ o. o.exam_id == exam_id && o.student_id == student) rs ≡ false
key_is_free tenant_id exam_id student [] own e = refl
key_is_free tenant_id exam_id student (r ∷ rs) own e =
    elim (Bool-cases (at_key tenant_id exam_id student r)) [
      | inl t ↦ absurd (cc (rw t at e))
      | inr f ↦ elim (Bool-cases (r.exam_id == exam_id)) [
        | inl x ↦
            let (here, rest) = rw x at own in
            rw (x, other x f here) (key_is_free tenant_id exam_id student rs rest (rw f at e))
        | inr x ↦ rw x (key_is_free tenant_id exam_id student rs (rw x at own) (rw f at e))
      ]
    ]
  where
    other :
        (r.exam_id == exam_id) ≡ true
        → at_key tenant_id exam_id student r ≡ false
        → (r.tenant_id == tenant_id) ≡ true
        → (r.student_id == student) ≡ false
    other x f t = ground arith

-- a stored record is the one that is read at its key
abbrev Stored : Option StudentExamRecord → StudentExamRecord → Db → Type 0
Stored old r db =
    (x : StudentExamRecord) × (db' : Db) × (store_record old r db ≡ (done x, db'))
    × (x.subject_marks ≡ r.subject_marks)
    × (filter (λ o. o.student_id == r.student_id)
          (get_student_exam_records r.tenant_id (some r.exam_id) none db')
        ≡ x ∷ [])

Stored-insert_record :
    (r : StudentExamRecord) (db : Db)
    → status_allowed r.status ≡ true
    → record_references r db ≡ true
    → All
        (λ o. (o.tenant_id == r.tenant_id) ≡ true)
        (filter (λ o. o.exam_id == r.exam_id) db.exam_records)
    → filter (at_key r.tenant_id r.exam_id r.student_id) db.exam_records ≡ []
    → Stored none r db
unfolding store_record insert_record record_unique get_student_exam_records
Stored-insert_record r db good refs own free =
    let unique = key_is_free r.tenant_id r.exam_id r.student_id db.exam_records own free in
    let here : at_key r.tenant_id r.exam_id r.student_id r ≡ true = ground arith in
    (
      r,
      record db { exam_records = db.exam_records ++ r ∷ [] },
      rw (good, unique, refs) refl,
      refl,
      read_key r.tenant_id r.exam_id r.student_id (db.exam_records ++ r ∷ [])
          ∙ filter-append_last (at_key r.tenant_id r.exam_id r.student_id) db.exam_records r
          ∙ rw (here, free) refl,
    )

Stored-replace_record :
    (o r : StudentExamRecord) (db : Db)
    → status_allowed r.status ≡ true
    → record_references r db ≡ true
    → filter (at_key r.tenant_id r.exam_id r.student_id) db.exam_records ≡ o ∷ []
    → Stored (some o) r db
unfolding store_record replace_record record_references get_student_exam_records
Stored-replace_record o r db good refs one =
    let known : any (λ u. u.id == r.entered_by) db.users ≡ true = ground arith in
    let rows = update_where (λ x. x.id == o.id) (λ x. revised x r) db.exam_records in
    let key = at_key r.tenant_id r.exam_id r.student_id in
    (
      revised o r,
      record db { exam_records = rows },
      rw (good, known) refl,
      unfold revised in refl,
      read_key r.tenant_id r.exam_id r.student_id rows
          ∙ filter-update_where key (λ x. x.id == o.id) (λ x. revised x r) db.exam_records
              (λ x. unfold revised in refl)
          ∙ rw (one, ==_refl o.id) refl,
    )

module _ (p : Platform) (fresh tenant_id exam_id entered_by : ℕ) (rec : RecordSave) (db : Db)
    (kept : IsKept db) where
  -- On tables in order, if the status of the request is neither DRAFT nor SUBMITTED (so APPROVED, or any
  -- other text), then the marks are not saved: the tables stay as they are, and no exception says so.
  pub upsert_unsaved :
      str_eq (status_or rec.status) "DRAFT" ≡ false
      → str_eq (status_or rec.status) "SUBMITTED" ≡ false
      → (r : StudentExamRecord) × (upsert_student_exam_record p fresh tenant_id exam_id entered_by
            rec db
          ≡ (done r, db))
  unfolding upsert_student_exam_record
  upsert_unsaved d s =
      let r = new_record p fresh tenant_id exam_id entered_by rec db in
      let bad : status_allowed r.status ≡ false =
        unfold new_record in
        calc_status-refused (status_or rec.status)
          (is_passed p rec.subject_marks (list_exam_subjects exam_id tenant_id db)) d s in
      elim (unique_row tenant_id exam_id r.student_id db.exam_records kept.unique) [
        | empty e ↦ rw e (refused none r db bad)
        | single o e ↦ rw e (refused (some o) r db bad)
      ]

  -- On tables in order, if the status is DRAFT or SUBMITTED, the student is one of the tenant's, the
  -- rows that the record refers to exist, and the exam's records are of the tenant, then the marks are
  -- saved: of the exam's records that are read afterwards, the student's is the one that the call
  -- returned, with the marks of the request.
  pub upsert-get :
      (sid : ℕ)
      → to_uuid p rec.student_id ≡ some sid
      → any (λ s. s.id == sid && s.tenant_id == tenant_id) db.students ≡ true
      → str_eq (status_or rec.status) "DRAFT" || str_eq (status_or rec.status) "SUBMITTED" ≡ true
      → record_references (new_record p fresh tenant_id exam_id entered_by rec db) db ≡ true
      → All
          (λ o. (o.tenant_id == tenant_id) ≡ true)
          (filter (λ o. o.exam_id == exam_id) db.exam_records)
      → (r : StudentExamRecord) × (db' : Db) × (upsert_student_exam_record p fresh tenant_id exam_id
            entered_by rec db
          ≡ (done r, db'))
        × (r.subject_marks ≡ rec.subject_marks)
        × (filter
              (λ o. o.student_id == sid)
              (get_student_exam_records tenant_id (some exam_id) none db')
            ≡ r ∷ [])
  unfolding upsert_student_exam_record new_record
  upsert-get sid e known st refs own =
      let r = new_record p fresh tenant_id exam_id entered_by rec db in
      let good : status_allowed r.status ≡ true =
        calc_status-accepted (status_or rec.status)
          (is_passed p rec.subject_marks (list_exam_subjects exam_id tenant_id db)) st in
      let same : sid ≡ r.student_id = unfold resolve_student in rw (e, known) refl in
      rw same (elim (unique_row tenant_id exam_id r.student_id db.exam_records kept.unique) [
        | empty none_yet ↦ rw none_yet (Stored-insert_record r db good refs own none_yet)
        | single o one ↦ rw one (Stored-replace_record o r db good refs one)
      ])
