-- ===== src/Examinations/Publication.antt =====
-- What a published exam has behind it: `publish_exam` of app/modules/examinations/service.py.
use sms_backend.Common.{
  ℕ, ◌≤◌, ◌≡◌, refl, sym, ap, ◌∙◌, Bool, true, false, ◌&&◌, Option, some, List, [], ◌∷◌, ◌==◌, any,
  filter, map, update_where, filter-update_where, ==_refl, length, All, All-mono, All-zip,
  All-filter, Bool-cases, inl, inr, arith, suc,
}
use sms_backend.Models.{Exam, ExamStatus, Section, Enrollment, StudentExamRecord}
use sms_backend.Database.{Db}
use sms_backend.Examinations.Work.{Work, done, continue, one_or_none}
use sms_backend.Examinations.Texts.{Platform}
use sms_backend.Examinations.Targets.{
  attends, of_section, is_in, student_count, students_in, submitted_count, is_unsubmitted,
  target_sections, target_prog_ids,
}
use sms_backend.Examinations.Repository.{
  ExamChange, get_exam_by_id, changed, update_exam, write_exam,
}
use sms_backend.Examinations.Service.{
  publish_exam, is_ongoing, unsubmitted_sections, all_submitted, publication,
}
use sms_backend.Examinations.Counting.{key_in, AreIn, counted_in}

-- the students with an active enrollment in a section
abbrev pub students_of : Db → Section → List ℕ
students_of db s = map (λ en. en.student_id) (filter (attends s) db.enrollments)

-- a submitted or published record of the exam in the section
abbrev pub has_marks_in : Db → ℕ → Section → ℕ → Bool
has_marks_in db exam_id s student =
    any (λ r. (of_section exam_id s r && is_in r.status) && r.student_id == student) db.exam_records

-- every student of the section has one
abbrev pub MarksAreIn : Db → ℕ → Section → Type 0
MarksAreIn db exam_id s =
    All (λ en. has_marks_in db exam_id s en.student_id ≡ true) (filter (attends s) db.enrollments)

-- the submitted records of the section are of its students
abbrev pub AreOfSection : Db → ℕ → Section → Type 0
AreOfSection db exam_id s = AreIn (students_in db exam_id s) (students_of db s)

length-map {ℓ κ} :
    {A : Type ℓ} {B : Type κ} (f : A → B) (xs : List A) → length (map f xs) ≡ length xs
length-map f [] = refl
length-map f (x ∷ xs) = ap suc (length-map f xs)

key_in-map :
    (k : ℕ) (f : StudentExamRecord → Bool) (rs : List StudentExamRecord)
    → key_in k (map (λ r. r.student_id) (filter f rs)) ≡ any (λ r. f r && r.student_id == k) rs
key_in-map k f [] = refl
key_in-map k f (r ∷ rs) = ground (arith, key_in-map k f rs)

own_keys :
    (ens : List Enrollment)
    → All (λ en. key_in en.student_id (map (λ x. x.student_id) ens) ≡ true) ens
own_keys [] = tt
own_keys (en ∷ ens) = (ground arith, All-mono _ _ ens (λ x h. ground arith) (own_keys ens))

submitted-MarksAreIn :
    (db : Db) (exam_id : ℕ) (s : Section)
    → AreOfSection db exam_id s
    → is_unsubmitted db exam_id s ≡ false
    → MarksAreIn db exam_id s
unfolding is_unsubmitted submitted_count student_count students_in
submitted-MarksAreIn db exam_id s h full =
    let enough : length (students_of db s) ≤ submitted_count db exam_id s = ground (
      arith,
      length-map (λ (en : Enrollment). en.student_id) (filter (attends s) db.enrollments),
    ) in
    All-mono _ _ (filter (attends s) db.enrollments)
      (λ en inside.
        sym (key_in-map en.student_id _ db.exam_records)
        ∙ counted_in (students_in db exam_id s) (students_of db s) en.student_id h enough inside)
      (own_keys (filter (attends s) db.enrollments))

none_kept {ℓ} :
    {A : Type ℓ} (p : A → Bool) (xs : List A) → filter p xs ≡ [] → All (λ x. p x ≡ false) xs
none_kept p [] e = tt
none_kept p (x ∷ xs) e = elim (Bool-cases (p x)) [
  | inl t ↦ absurd (cc (rw t at e))
  | inr f ↦ (f, none_kept p xs (rw f at e))
]

nothing_waits :
    {A : Type 0} (seen : Db) (exam_id : ℕ) (ss : List Section) (k : Unit {0} → Work A) (db : Db)
    {a : A} {db' : Db}
    → continue (all_submitted seen exam_id ss db) k ≡ (done a, db')
    → ss ≡ []
unfolding all_submitted
nothing_waits seen exam_id [] k db e = refl
nothing_waits seen exam_id (s ∷ ss) k db e = absurd (cc e)

module _ (p : Platform) (notify : Exam → Option ℕ → Work Unit) (exam_id tenant_id user_id : ℕ)
    (db : Db) {e : Exam} (found : get_exam_by_id exam_id tenant_id db ≡ (done (some e), db)) where
  published_waits :
      {r : Option Exam} {db' : Db}
      → publish_exam p notify exam_id tenant_id user_id db ≡ (done r, db')
      → unsubmitted_sections p exam_id tenant_id e db ≡ []
  unfolding publish_exam
  published_waits h = elim (Bool-cases (is_ongoing p exam_id db)) [
    | inl t ↦ absurd (cc (rw (found, t) at h))
    | inr f ↦
        nothing_waits db exam_id (unsubmitted_sections p exam_id tenant_id e db) _ db
          (rw (found, f) at h)
  ]

  -- If `publish_exam` succeeds for an exam whose submitted records all belong to active students of
  -- their sections, then every student with an active enrollment in a section that the exam is for has
  -- a submitted or published record of the exam in that section.
  pub publish_exam_complete :
      {r : Option Exam} {db' : Db}
      → All (AreOfSection db exam_id) db.sections
      → publish_exam p notify exam_id tenant_id user_id db ≡ (done r, db')
      → All (MarksAreIn db exam_id) (target_sections p db tenant_id e (target_prog_ids p e))
  unfolding unsubmitted_sections target_sections
  publish_exam_complete own h =
      All-zip _ _ _ (target_sections p db tenant_id e (target_prog_ids p e))
        (λ s of full. submitted-MarksAreIn db exam_id s of full) (All-filter _ _ db.sections own)
        (none_kept (is_unsubmitted db exam_id) _ (published_waits h))

-- the one row of a query that found it
found_row :
    (es : List Exam) (db : Db) {e : Exam} → one_or_none es db ≡ (done (some e), db) → es ≡ e ∷ []
found_row [] db h = absurd (cc h)
found_row (a ∷ []) db h = cc h
found_row (a ∷ b ∷ es) db h = absurd (cc h)

found_again :
    (exam_id tenant_id : ℕ) (c : ExamChange) (db : Db) (e : Exam)
    → get_exam_by_id exam_id tenant_id db ≡ (done (some e), db)
    → get_exam_by_id exam_id tenant_id
        (record db { exams = update_where (λ o. o.id == e.id) (changed c) db.exams })
      ≡ (
        done (some (changed c e)),
        record db { exams = update_where (λ o. o.id == e.id) (changed c) db.exams },
      )
unfolding get_exam_by_id
found_again exam_id tenant_id c db e h =
    let q : Exam → Bool = λ o. o.id == exam_id && o.tenant_id == tenant_id in
    rw
      (
        filter-update_where q (λ o. o.id == e.id) (changed c) db.exams
            (λ o. unfold changed in refl),
        found_row (filter q db.exams) db h,
        ==_refl e.id,
      )
      refl

module _ (p : Platform) (notify : Exam → Option ℕ → Work Unit) (exam_id tenant_id user_id : ℕ)
    (db : Db) {e : Exam} (found : get_exam_by_id exam_id tenant_id db ≡ (done (some e), db)) where
  -- If the exam is found by its keys, no dispatch of its messages is waiting, no section that it is for
  -- has missing marks, and the caller is a known user, then `publish_exam` succeeds whatever the
  -- notification service does: the exam that it answers, and that is found by the same keys in the
  -- tables that the notification service is given, is PUBLISHED, by the caller and at this time.
  pub publish_exam_succeeds :
      is_ongoing p exam_id db ≡ false
      → unsubmitted_sections p exam_id tenant_id e db ≡ []
      → any (λ u. u.id == user_id) db.users ≡ true
      → (x : Exam) × (db' : Db) × (publish_exam p notify exam_id tenant_id user_id db
          ≡ (done (some x), (notify e e.published_at db').1))
        × (get_exam_by_id exam_id tenant_id db' ≡ (done (some x), db'))
        × (x.status ≡ ExamStatus.published)
        × (x.published_by ≡ some user_id)
        × (x.published_at ≡ some p.now)
  unfolding publish_exam update_exam write_exam all_submitted
  publish_exam_succeeds idle ready user = (
    changed (publication p user_id) e,
    record db {
      exams = update_where (λ o. o.id == e.id) (changed (publication p user_id)) db.exams;
    },
    rw (found, idle, ready, found, user) refl,
    found_again exam_id tenant_id (publication p user_id) db e found,
    unfold changed in refl,
    unfold changed in refl,
    unfold changed in refl,
  )
