-- ===== src/Examinations/Overlap.antt =====
-- The check of an exam's date against the other exams: `check_date_overlap` of
-- app/modules/examinations/service.py against a description of what a clash is.
use sms_backend.Common.{
  ℕ, ◌≡◌, ◌≢◌, refl, sym, ap, subst, ◌∙◌, Bool, true, false, not, ◌&&◌, Option, none, some, List,
  [], ◌∷◌, ◌==◌, ◌⊎◌, any, filter, first, length, All, All-mono, Bool-cases, Option-cases, inl, inr,
  arith, eq_opt, ==→eq, IsIn, here, later,
}
use sms_backend.Models.{Exam, ExamScope, ExamStatus}
use sms_backend.Database.{Db}
use sms_backend.Security.Text.{Text}
use sms_backend.Examinations.Work.{done}
use sms_backend.Examinations.Texts.{Platform, member}
use sms_backend.Examinations.Repository.{
  meets_branches, branch_in, is_all, is_returned, or_any, check_exam_date_overlap,
}
use sms_backend.Examinations.Service.{OverlapResponse, no_overlap, overlap, check_date_overlap}

abbrev pub Wanted : Platform → Option Text → ℕ → Type 0
Wanted p none id = Unit
Wanted p (some t) id = (p.parse_uuid t) ≢ some id

-- An exam of the tenant on that day for that programme, which is not returned for correction, not the
-- exam that is left out, and for all branches or for one of those asked for.
pub record Clashes (p : Platform) (tenant_id exam_date programme : ℕ) (targets : List Text)
    (exclude : Option Text) (e : Exam) : Type 0 where
  pub of_tenant : e.tenant_id ≡ tenant_id
  pub same_day : e.exam_date ≡ exam_date
  pub same_programme : e.programme_id ≡ programme
  pub not_returned : e.status ≢ ExamStatus.returned_for_correction
  pub wanted : Wanted p exclude e.id
  pub meets :
      (e.scope ≡ ExamScope.all_branches)
      ⊎ ((b : ℕ) × (e.branch_id ≡ some b) × (member (p.uuid_text b) targets ≡ true))
      ⊎ (any (λ b. member b targets) e.branch_ids ≡ true)

first_kept :
    (q : Exam → Bool) (es : List Exam) {e : Exam}
    → first (filter q es) ≡ some e
    → IsIn e es × (q e ≡ true)
first_kept q [] h = absurd (cc h)
first_kept q (o ∷ es) {e} h = elim (Bool-cases (q o)) [
  | inl t ↦
      let same : o ≡ e = cc (rw t at h) in
      subst (λ x. IsIn x (o ∷ es) × (q x ≡ true)) same (here es, t)
  | inr f ↦ let (i, y) = first_kept q es (rw f at h) in (later o es i, y)
]

first_of_both :
    (m q : Exam → Bool) (es : List Exam) {e : Exam}
    → first (filter m (filter q es)) ≡ some e
    → IsIn e es × (q e ≡ true) × (m e ≡ true)
first_of_both m q [] h = absurd (cc h)
first_of_both m q (o ∷ es) {e} h = elim (Bool-cases (q o)) [
  | inl t ↦ elim (Bool-cases (m o)) [
    | inl y ↦
        let same : o ≡ e = cc (rw (t, y) at h) in
        subst (λ x. IsIn x (o ∷ es) × (q x ≡ true) × (m x ≡ true)) same (here es, t, y)
    | inr n ↦ let (i, a, b) = first_of_both m q es (rw (t, n) at h) in (later o es i, a, b)
  ]
  | inr f ↦ let (i, a, b) = first_of_both m q es (rw f at h) in (later o es i, a, b)
]

none_of_both :
    (m q : Exam → Bool) (es : List Exam)
    → first (filter m (filter q es)) ≡ none
    → All (λ e. (q e && m e) ≡ false) es
none_of_both m q [] h = tt
none_of_both m q (o ∷ es) h = elim (Bool-cases (q o)) [
  | inl t ↦ elim (Bool-cases (m o)) [
    | inl y ↦ absurd (cc (rw (t, y) at h))
    | inr n ↦ (rw (t, n) refl, none_of_both m q es (rw (t, n) at h))
  ]
  | inr f ↦ (rw f refl, none_of_both m q es (rw f at h))
]

module _ (p : Platform) (tenant_id exam_date programme : ℕ) (targets : List Text)
    (exclude : Option Text) where
  -- the conditions of the statement
  abbrev selects : Exam → Bool
  selects e =
      e.tenant_id == tenant_id
      && e.exam_date == exam_date
      && eq_opt (some programme) e.programme_id
      && not (is_returned e.status)
      && or_any p exclude e.id

  scope_is_all : (sc : ExamScope) → is_all sc ≡ true → sc ≡ ExamScope.all_branches
  scope_is_all ExamScope.all_branches h = refl
  scope_is_all ExamScope.single_branch h = absurd (cc h)
  scope_is_all ExamScope.selected_branches h = absurd (cc h)

  branch_is :
      (o : Option ℕ)
      → branch_in p targets o ≡ true
      → (b : ℕ) × (o ≡ some b) × (member (p.uuid_text b) targets ≡ true)
  branch_is none h = absurd (cc h)
  branch_is (some b) h = (b, refl, h)

  is_not_returned :
      (st : ExamStatus) → is_returned st ≡ false → st ≢ ExamStatus.returned_for_correction
  is_not_returned st h e = cc (h, ap is_returned e)

  or_any-Wanted : (x : Option Text) (id : ℕ) → or_any p x id ≡ true → Wanted p x id
  or_any-Wanted none id h = tt
  or_any-Wanted (some t) id h = λ e. not_self (rw (e, or_any) at h)
    where
      not_self : not (id == id) ≡ true → ⊥
      not_self k = ground arith

  selects-Clashes :
      (e : Exam)
      → selects e ≡ true
      → meets_branches p targets e ≡ true
      → Clashes p tenant_id exam_date programme targets exclude e
  unfolding meets_branches
  selects-Clashes e h m = record {
    of_tenant = ground arith;
    same_day = ground arith;
    same_programme = ground arith;
    not_returned = is_not_returned e.status (ground arith);
    wanted = or_any-Wanted exclude e.id (ground arith);
    meets = elim (Bool-cases (is_all e.scope)) [
      | inl a ↦ inl (scope_is_all e.scope a)
      | inr n ↦ elim (Bool-cases (branch_in p targets e.branch_id)) [
        | inl b ↦ inr (inl (branch_is e.branch_id b))
        | inr k ↦ inr (inr (rw (n, k) at m))
      ]
    ];
  }

  returned_not :
      (st : ExamStatus) → st ≢ ExamStatus.returned_for_correction → is_returned st ≡ false
  returned_not ExamStatus.draft h = refl
  returned_not ExamStatus.submitted h = refl
  returned_not ExamStatus.published h = refl
  returned_not ExamStatus.returned_for_correction h = absurd (h refl)

  Wanted-or_any : (x : Option Text) (id : ℕ) → Wanted p x id → or_any p x id ≡ true
  Wanted-or_any none id h = refl
  Wanted-or_any (some t) id h = elim (Option-cases (p.parse_uuid t)) [
    | inl n ↦ rw (n, or_any) refl
    | inr (x, e) ↦
        rw (e, or_any)
          (elim (Bool-cases (id == x)) [
            | inl y ↦ absurd (h (e ∙ ap some (sym (==→eq id x y))))
            | inr n ↦ rw n refl
          ])
  ]

  Clashes-selects :
      (e : Exam)
      → Clashes p tenant_id exam_date programme targets exclude e
      → (selects e && meets_branches p targets e) ≡ true
  unfolding meets_branches
  Clashes-selects e c =
      let met : meets_branches p targets e ≡ true = elim c.meets [
        | inl a ↦ rw a refl
        | inr (inl (b, is_b, t)) ↦ rw is_b (ground (arith, t))
        | inr (inr t) ↦ ground (arith, t)
      ] in
      ground (
        arith,
        c.of_tenant,
        c.same_day,
        c.same_programme,
        returned_not e.status c.not_returned,
        Wanted-or_any exclude e.id c.wanted,
        met,
      )

  -- what an answer says of the exams
  abbrev pub IsRight : Db → OverlapResponse → Type 0
  IsRight db no_overlap =
      All (λ e. ¬ Clashes p tenant_id exam_date programme targets exclude e) db.exams
  IsRight db (overlap id name) =
      (e : Exam) × IsIn e db.exams
      × Clashes p tenant_id exam_date programme targets exclude e
      × (e.id ≡ id)
      × (e.name ≡ name)

-- For a programme whose text is a UUID of 36 characters, the check changes nothing and answers: that
-- there is no overlap only if no exam of the tenant on that day for that programme clashes, and that
-- there is one only with the key and the name of an exam that does. An exam clashes if it is not
-- returned for correction, not the one left out, and for all branches or for one of those asked for.
pub check_date_overlap-IsRight :
    (p : Platform) (tenant_id exam_date programme : ℕ) (targets : List Text) (exclude : Option Text)
    (t : Text) (db : Db)
    → (length t == 36) ≡ true
    → p.parse_uuid t ≡ some programme
    → (r : OverlapResponse) × (check_date_overlap p tenant_id exam_date targets t exclude db
        ≡ (done r, db))
      × IsRight p tenant_id exam_date programme targets exclude db r
unfolding check_date_overlap check_exam_date_overlap
check_date_overlap-IsRight p tenant_id exam_date programme targets exclude t db long parsed =
    let q = selects p tenant_id exam_date programme targets exclude in
    rw (long, parsed)
      (elim (Option-cases (first (filter (meets_branches p targets) (filter q db.exams)))) [
        | inl e ↦ (
          no_overlap,
          rw e refl,
          All-mono _ _ db.exams
              (λ o f c. cc (f, Clashes-selects p tenant_id exam_date programme targets exclude o c))
              (none_of_both (meets_branches p targets) q db.exams e),
        )
        | inr (o, e) ↦
            let (i, a, b) = first_of_both (meets_branches p targets) q db.exams e in
            (
              overlap o.id o.name,
              rw e refl,
              (
                o,
                i,
                selects-Clashes p tenant_id exam_date programme targets exclude o a b,
                refl,
                refl,
              ),
            )
      ])
