-- ===== src/Imports/Ledger.antt =====
-- The commit of a fee file and the ledger: `commit_fee_import` of app/modules/imports/service.py over
-- the accounts and entries of the fees component.
use sms_backend.Common.{
  ℕ, ◌+◌, ◌≡◌, refl, ap, subst, ◌∙◌, Bool, true, not, ◌||◌, Option, List, [], ◌∷◌, All, inl, inr,
  Bool-cases, Option-cases, is_some, arith, length, filter, length-append_last,
}
use sms_backend.Common.Int.{ℤ, int_laws}
use sms_backend.Models.{
  FeeAccount, ImportRow, RowData, no_data, fee_data, student_data, FeeRowData, PaymentScheduleType,
  is_rejected,
}
use sms_backend.Database.{
  Db, Env, Session, Error, Result, ok, err, integrity, exception, Action, continue,
}
use sms_backend.Fees.Repository.{
  SetupEnrollment, fee_account_allowed, get_active_enrollment_for_fee_setup, insert_fee_account,
}
use sms_backend.Fees.Service.{new_account}
use sms_backend.Fees.Ledger.{OtherId, Reconciles}
use sms_backend.Fees.Payments.{Consistent}
use sms_backend.Fees.Stages.{Stage, Step, failed, staged}
use sms_backend.Fees.Opening.{
  Stage-balanced, opening_entries-Step, fee_account_unique-OtherId, fee_account_checks-facts,
  fee_account_allowed-parts, Stage-IsConsistent, first-Stage,
}
use sms_backend.Imports.Repository.{update_row}
use sms_backend.Imports.Commit.{
  schedule_type_of, request_of, create_fee_import_ledger_entries, import_account, open_account,
  commit_data, commit_row, commit_rows, drawn, has_data,
}

-- A transaction in progress whose fee tables are consistent and hold `size` accounts, with nothing
-- published.
pub record Ready (db : Db) (size : ℕ) (s : Session) : Type 0 where
  pub consistent : Consistent s.current
  pub sized : length s.current.fee_accounts ≡ size
  pub published : s.committed ≡ db
  pub clean : s.new_records ≡ []
  pub quiet : s.new_events ≡ []

-- what a step of the transaction leaves: an error, or a transaction in progress
pub data Kept {A : Type 0} (db : Db) (size : A → ℕ) (r : Result A × Session) : Type 0 where
  broken : (e : Error) → r.0 ≡ err e → r.1.committed ≡ db → Kept db size r
  kept : (a : A) → r.0 ≡ ok a → Ready db (size a) r.1 → Kept db size r

pub Kept-bind :
    {A B : Type 0} (db : Db) (size : A → ℕ) (size' : B → ℕ) (r : Result A × Session)
    (f : A → Action B)
    → Kept db size r
    → ((a : A) (s : Session) → Ready db (size a) s → Kept db size' (f a s))
    → Kept db size' (continue r f)
Kept-bind db size size' r f (broken e raised same) h = broken e (rw raised) (rw raised same)
Kept-bind db size size' r f (kept a done ready) h = rw done (h a r.1 ready)

-- a change of other tables than those of the fees
with_fees :
    (db : Db) (size : ℕ) (s : Session) (d : Db)
    → d.fee_accounts ≡ s.current.fee_accounts
    → d.ledger_entries ≡ s.current.ledger_entries
    → Ready db size s
    → Ready db size (record s { current = d })
with_fees db size s d accounts entries h = record {
  consistent = rw (accounts, entries) h.consistent;
  sized = ap length accounts ∙ h.sized;
  published = h.published;
  clean = h.clean;
  quiet = h.quiet;
}

update_row-Kept :
    (db : Db) (size id : ℕ) (change : ImportRow → ImportRow) (s : Session)
    → Ready db size s
    → Kept db (λ _. size) (update_row id change s)
unfolding update_row
update_row-Kept db size id change s h = kept tt refl (with_fees db size s _ refl refl h)

-- After the entries of a new account the fee tables are consistent.
Step-Kept :
    (db : Db) (s : Session) (a : FeeAccount) (raised lowered : ℤ)
    (new : All (OtherId a.id) s.current.fee_accounts) (w : Result (Unit {0}) × Session)
    → s.committed ≡ db
    → Consistent s.current
    → ((s2 : Session)
        → Stage s.current.fee_accounts a raised lowered s.committed s2
        → Reconciles s2.current.ledger_entries a)
    → Step s.current.fee_accounts a new s.committed raised lowered w
    → Kept db (λ _. length s.current.fee_accounts + 1) w
Step-Kept db s a raised lowered new w same_db c agrees (failed e r same) =
    broken e r (same ∙ same_db)
Step-Kept db s a raised lowered new w same_db c agrees (staged done st) = kept tt done (record {
  consistent =
      Stage-IsConsistent s.current.fee_accounts a raised lowered s.committed w.1 new c.unique st
        (agrees w.1 st);
  sized = ap length st.accounts ∙ length-append_last s.current.fee_accounts a;
  published = st.published ∙ same_db;
  clean = st.clean;
  quiet = st.quiet;
})

module _ (env : Env) (tenant_id user : ℕ) (db : Db) where
  open_account-Kept :
      (size : ℕ) (d : FeeRowData) (e : SetupEnrollment) (schedule : PaymentScheduleType)
      (s : Session)
      → Ready db size s
      → Kept db (λ _. size + 1) (open_account env tenant_id user d e schedule s)
  unfolding open_account insert_fee_account new_account create_fee_import_ledger_entries
  open_account-Kept size d e schedule s h =
      let a = new_account env tenant_id user (request_of e d schedule) e in
      elim (Bool-cases (fee_account_allowed s.current a)) [
        | inr f ↦ rw f (broken integrity refl h.published)
        | inl allowed ↦
            let (checks, unique) = fee_account_allowed-parts s.current a allowed in
            let (pa, ps, pc, positive) = fee_account_checks-facts a checks in
            let new = fee_account_unique-OtherId s.current.fee_accounts a unique in
            rw (allowed, ← h.sized)
              (Kept-bind db _ _ _ _
                (Step-Kept db s a _ _ new _ h.published h.consistent
                  (λ s2 st.
                    Stage-balanced s.current.fee_accounts a _ _ s.committed s2 refl refl refl
                      (omega int_laws) positive st)
                  (opening_entries-Step s.current.fee_accounts a new s.committed env tenant_id user
                    e d.assigned_fee_amount d.scholarship_amount d.concession_amount _ _ _ _ pa ps
                    pc (first-Stage s a new h.consistent h.clean h.quiet)))
                (λ u s3 ready. kept a.id refl ready))
      ]

  import_account-Kept :
      (size : ℕ) (row : ImportRow) (d : FeeRowData) (e : SetupEnrollment) (s : Session)
      → Ready db size s
      → Kept db (λ _. size + 1) (import_account env tenant_id user row d e s)
  unfolding import_account
  import_account-Kept size row d e s h =
      elim (Option-cases (schedule_type_of d.payment_schedule_type)) [
        | inl n ↦ rw n (broken integrity refl h.published)
        | inr (schedule, y) ↦ rw y (
            Kept-bind db (λ _. size + 1) _ _ _ (open_account-Kept size d e schedule s h)
              (λ id s2 ready. update_row-Kept db (size + 1) _ _ s2 ready))
      ]

  commit_data-Kept :
      (size : ℕ) (branch_id : Option ℕ) (row : ImportRow) (d : FeeRowData) (s : Session)
      → Ready db size s
      → Kept db (λ _. size + 1) (commit_data env tenant_id user branch_id row d s)
  unfolding commit_data
  commit_data-Kept size branch_id row d s h = elim (Option-cases d.enrollment_id) [
    | inl n ↦ rw n (broken exception refl h.published)
    | inr (id, y) ↦
        elim (Option-cases (get_active_enrollment_for_fee_setup tenant_id branch_id id s.current)) [
          | inl n ↦ rw (y, n) (broken _ refl h.published)
          | inr (e, z) ↦ elim (Bool-cases (is_some e.fee_account_id)) [
            | inl t ↦ rw (y, z, t) (broken _ refl h.published)
            | inr f ↦ simp (y, z, f) (import_account-Kept size row d e s h)
          ]
        ]
  ]

  commit_row-Kept :
      (size : ℕ) (branch_id : Option ℕ) (row : ImportRow) (d : RowData) (s : Session)
      → has_data d ≡ true
      → Ready db size s
      → Kept db (λ _. size + 1) (commit_row env tenant_id user branch_id row d s)
  unfolding commit_row
  commit_row-Kept size branch_id row no_data s t h = absurd (cc t)
  commit_row-Kept size branch_id row (student_data d) s t h = broken exception refl h.published
  commit_row-Kept size branch_id row (fee_data d) s t h = commit_data-Kept size branch_id row d s h

-- the rows that the loop does not pass over
abbrev pub is_taken : ImportRow → Bool
is_taken r = not (is_rejected r.validation_status || not (has_data r.normalized_data))

-- The loop opens an account for each row that it counts.
pub commit_rows-Kept :
    (env : Env) (tenant_id user : ℕ) (db : Db) (base : ℕ) (branch_id : Option ℕ) (k n : ℕ)
    (rows : List ImportRow) (s : Session)
    → Ready db (base + n) s
    → Kept db (λ m. base + m) (commit_rows env tenant_id user branch_id k n rows s)
unfolding commit_rows
commit_rows-Kept env t u db base b k n [] s h = kept n refl h
commit_rows-Kept env t u db base b k n (row ∷ rows) s h =
    elim (Bool-cases (is_rejected row.validation_status || not (has_data row.normalized_data))) [
      | inl skipped ↦ rw skipped (commit_rows-Kept env t u db base b k n rows s h)
      | inr taken ↦ rw taken (
          Kept-bind db (λ _. base + n + 1) _ _ _
            (commit_row-Kept (drawn env k) t u db (base + n) b row row.normalized_data s
              (ground arith) h)
            (λ v s2 ready.
              commit_rows-Kept env t u db base b (k + 4) (n + 1) rows s2
                (subst (λ m. Ready db m s2) (omega arith) ready)))
    ]

continue-eq-ok :
    {A B : Type 0} (r : Result A × Session) (f : A → Action B) {b : B}
    → (continue r f).0 ≡ ok b
    → (a : A) × ((f a r.1).0 ≡ ok b)
continue-eq-ok (ok a, s) f h = (a, h)
continue-eq-ok (err e, s) f h = absurd (cc h)

-- The answer of the loop counts those rows.
pub commit_rows_count :
    (env : Env) (tenant_id user : ℕ) (branch_id : Option ℕ) (k n m : ℕ) (rows : List ImportRow)
    (s : Session)
    → (commit_rows env tenant_id user branch_id k n rows s).0 ≡ ok m
    → m ≡ n + length (filter is_taken rows)
unfolding commit_rows
commit_rows_count env t u b k n m [] s e = let same : n ≡ m = cc e in omega arith
commit_rows_count env t u b k n m (row ∷ rows) s e =
    elim (Bool-cases (is_rejected row.validation_status || not (has_data row.normalized_data))) [
      | inl skipped ↦ rw skipped (commit_rows_count env t u b k n m rows s (rw skipped at e))
      | inr taken ↦
          let (a, rest) =
            continue-eq-ok (commit_row (drawn env k) t u b row row.normalized_data s) _
              (rw taken at e) in
          rw taken (omega (arith, commit_rows_count env t u b (k + 4) (n + 1) m rows _ rest))
    ]
