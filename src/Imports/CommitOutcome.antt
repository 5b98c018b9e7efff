-- ===== src/Imports/CommitOutcome.antt =====
-- The outcomes of a request to commit a fee file: `commit_fee_import` of
-- app/modules/imports/service.py, from the body of its `try` outwards.
use text.Mathlib.Text.{◌==◌ as str_eq}
use sms_backend.Common.{
  ℕ, ◌+◌, ◌≡◌, refl, ap, ◌∙◌, subst, not, ◌&&◌, Option, none, some, List, ◌==◌, inl, inr,
  Bool-cases, Option-cases, any, arith, length, filter, update_where, ==→eq, All-filter_where,
  first-All,
}
use sms_backend.Models.{ImportBatch, ImportRow, is_rejected}
use sms_backend.Database.{
  Db, Env, Session, Error, Result, ok, err, integrity, multiple_rows, exception, http, Action,
  continue, ◌>>◌, pure, run_request, open_session, commit, close_session,
}
use sms_backend.Fees.Payments.{Consistent}
use sms_backend.Fees.Opening.{commit-publishes}
use sms_backend.Imports.Repository.{get_batch, get_rows, update_batch, batch_references}
use sms_backend.Imports.Commit.{
  commit_rows, write_import, commit_fee_import, fee_batch_of, foreign_branch, is_ready, branch_or,
  committed_batch, recover_http,
}
use sms_backend.Imports.Ledger.{
  Ready, Kept, broken, kept, commit_rows-Kept, commit_rows_count, is_taken,
}

-- the table of batches once the batch has been written
abbrev pub written : Env → ℕ → ℕ → List ImportBatch → List ImportBatch
written env id n batches = update_where (λ o. o.id == id) (committed_batch env n) batches

-- what the body of the `try` leaves
data Finished (env : Env) (b : ImportBatch) (count : ℕ) (db : Db) (size : ℕ)
    (r : Result ℕ × Session) : Type 0 where
  broken_off : (e : Error) → r.0 ≡ err e → r.1.committed ≡ db → Finished env b count db size r
  finished :
      (n : ℕ) (batches : List ImportBatch)
      → r.0 ≡ ok n
      → n ≡ count
      → Consistent r.1.committed
      → length r.1.committed.fee_accounts ≡ size + n
      → r.1.committed.import_batches ≡ written env b.id n batches
      → Finished env b count db size r

-- the two last steps of the `try`
close_batch : Env → ImportBatch → ℕ → Action ℕ
close_batch env b n = do update_batch b.id (committed_batch env n); commit; pure n

close_batch-Finished :
    (env : Env) (b : ImportBatch) (count n : ℕ) (db : Db) (size : ℕ) (s : Session)
    → n ≡ count
    → Ready db (size + n) s
    → Finished env b count db size (close_batch env b n s)
unfolding close_batch update_batch
close_batch-Finished env b count n db size s same h =
    elim (Bool-cases (
      any (λ o. o.id == b.id && not (batch_references s.current (committed_batch env n o)))
        s.current.import_batches)) [
          | inl f ↦ rw f (broken_off integrity refl h.published)
          | inr t ↦
              let s2 : Session = record s {
                current = record s.current {
                  import_batches = written env b.id n s.current.import_batches;
                };
              } in
              let (done, accounts, entries, batches) = commit-publishes s2 h.clean h.quiet in
              rw (t, done)
                (finished n s.current.import_batches refl same (rw (accounts, entries) h.consistent)
                  (ap length accounts ∙ h.sized) batches)
        ]

write_import-Finished :
    (env : Env) (tenant_id user : ℕ) (branch_id : Option ℕ) (b : ImportBatch)
    (rows : List ImportRow) (db : Db) (size : ℕ) (s : Session)
    → Ready db size s
    → Finished env b
        (length (filter is_taken rows))
        db
        size
        (write_import env tenant_id user branch_id b rows s)
unfolding write_import close_batch
write_import-Finished env t u branch b rows db size s h =
    after_rows (length (filter is_taken rows)) (commit_rows env t u branch 0 0 rows s)
      (λ n e. commit_rows_count env t u branch 0 0 n rows s e ∙ omega arith)
      (commit_rows-Kept env t u db size branch 0 0 rows s
        (subst (λ m. Ready db m s) (omega arith) h))
  where
    after_rows :
        (count : ℕ) (w : Result ℕ × Session)
        → ((n : ℕ) → w.0 ≡ ok n → n ≡ count)
        → Kept db (λ m. size + m) w
        → Finished env b count db size (continue w (close_batch env b))
    after_rows count w counts (broken e raised same) = rw raised (broken_off e refl same)
    after_rows count w counts (kept n done ready) =
        rw done (close_batch-Finished env b count n db size w.1 (counts n done) ready)

-- what a request leaves
pub data Outcome (env : Env) (batch_id : ℕ) (db : Db) (r : Result ℕ × Db) : Type 0 where
  refused : (e : Error) → r.0 ≡ err e → r.1 ≡ db → Outcome env batch_id db r
  done_ :
      (n : ℕ) (b : ImportBatch) (batches : List ImportBatch)
      → r.0 ≡ ok n
      → b.id ≡ batch_id
      → n ≡ length (filter is_taken (get_rows batch_id db))
      → Consistent r.1
      → length r.1.fee_accounts ≡ length db.fee_accounts + n
      → r.1.import_batches ≡ written env b.id n batches
      → Outcome env batch_id db r

recovered-Outcome :
    (env : Env) (b : ImportBatch) (batch_id : ℕ) (db : Db) (w : Result ℕ × Session) (e : Error)
    → b.id ≡ batch_id
    → Finished env b (length (filter is_taken (get_rows batch_id db))) db (length db.fee_accounts) w
    → Outcome env batch_id db (close_session (recover_http w e))
recovered-Outcome env b id db w e known (broken_off (http c d) raised same) =
    rw raised (refused _ refl same)
recovered-Outcome env b id db w e known (broken_off integrity raised same) =
    rw raised (refused _ refl same)
recovered-Outcome env b id db w e known (broken_off multiple_rows raised same) =
    rw raised (refused _ refl same)
recovered-Outcome env b id db w e known (broken_off exception raised same) =
    rw raised (refused _ refl same)
recovered-Outcome env b id db w e known (finished n batches done counts c sized changed) =
    rw done (done_ n b batches refl known counts c sized changed)

pub fee_batch_of-found :
    (tenant_id : ℕ) (o : Option ImportBatch) (b : ImportBatch)
    → fee_batch_of tenant_id o ≡ some b
    → o ≡ some b
fee_batch_of-found t none b e = absurd (cc e)
fee_batch_of-found t (some o) b e =
    elim (Bool-cases (o.tenant_id == t && str_eq o.module_code "fees")) [
      | inl mine ↦ rw mine at e
      | inr other ↦ absurd (cc (rw other at e))
    ]

pub get_batch-id :
    (batch_id : ℕ) (db : Db) (b : ImportBatch) → get_batch batch_id db ≡ some b → b.id ≡ batch_id
unfolding get_batch
get_batch-id id db b e =
    first-All (λ o. o.id ≡ id) _
      (All-filter_where (λ o. o.id ≡ id) (λ o. o.id == id) db.import_batches
        (λ o h. ==→eq o.id id h))
      e

pub commit_fee_import-Outcome :
    (env : Env) (batch_id tenant_id user : ℕ) (branch_id : Option ℕ) (db : Db)
    → Consistent db
    → Outcome env batch_id db
        (run_request (commit_fee_import env batch_id tenant_id user branch_id) db)
unfolding run_request commit_fee_import
commit_fee_import-Outcome env id t u branch db c =
    elim (Option-cases (fee_batch_of t (get_batch id db))) [
      | inl none_found ↦ rw none_found (refused _ refl refl)
      | inr (b, found) ↦ elim (Bool-cases (foreign_branch branch b.branch_id)) [
        | inl f ↦ rw (found, f) (refused _ refl refl)
        | inr mine ↦ elim (Bool-cases (not (is_ready b.status))) [
          | inl f ↦ rw (found, mine, f) (refused _ refl refl)
          | inr ready ↦
              elim (Bool-cases (any (λ r. is_rejected r.validation_status) (get_rows id db))) [
                | inl f ↦ rw (found, mine, ready, f) (refused _ refl refl)
                | inr clean ↦
                    rw (found, mine, ready, clean)
                      (recovered-Outcome env b id db _ _
                        (get_batch-id id db b (fee_batch_of-found t _ b found))
                        (write_import-Finished env t u (branch_or branch b.branch_id) b
                          (get_rows id db) db (length db.fee_accounts) (open_session db)
                          (record {
                            consistent = c;
                            sized = refl;
                            published = refl;
                            clean = refl;
                            quiet = refl;
                          })))
              ]
        ]
      ]
    ]
