-- ===== src/Imports/Committed.antt =====
-- What a request to commit a fee file leaves: `commit_fee_import` of app/modules/imports/service.py.
use sms_backend.Common.{
  ℕ, ◌+◌, ◌≡◌, refl, Option, some, List, [], ◌∷◌, ◌==◌, All, inl, inr, Bool-cases, Option-cases,
  length, filter, first, first-All,
}
use sms_backend.Models.{ImportBatch, BatchStatus}
use sms_backend.Database.{Db, Env, Error, ok, err, http, message, run_request}
use sms_backend.Fees.Payments.{Consistent}
use sms_backend.Imports.Repository.{get_batch, get_rows}
use sms_backend.Imports.Commit.{commit_fee_import, fee_batch_of, foreign_branch}
use sms_backend.Imports.Ledger.{is_taken}
use sms_backend.Imports.CommitOutcome.{
  written, refused, done_, fee_batch_of-found, commit_fee_import-Outcome,
}

-- A request to commit a fee file, whether it succeeds or fails, keeps the fee tables consistent: every
-- account, those that the file opens included, agrees with the entries of its ledger.
pub commit_fee_import-Consistent :
    (env : Env) (batch_id tenant_id user : ℕ) (branch_id : Option ℕ) (db : Db)
    → Consistent db
    → Consistent (run_request (commit_fee_import env batch_id tenant_id user branch_id) db).1
commit_fee_import-Consistent env id t u branch db c =
    elim (commit_fee_import-Outcome env id t u branch db c) [
      | refused e raised same ↦ rw same c
      | done_ n b batches answered known counts consistent sized changed ↦ consistent
    ]

-- On consistent fee tables, a request to commit a fee file that is answered with an error leaves the
-- database as it was, whatever row it stops at.
pub commit_fee_import_atomic :
    (env : Env) (batch_id tenant_id user : ℕ) (branch_id : Option ℕ) (db : Db) (e : Error)
    → Consistent db
    → (run_request (commit_fee_import env batch_id tenant_id user branch_id) db).0 ≡ err e
    → (run_request (commit_fee_import env batch_id tenant_id user branch_id) db).1 ≡ db
commit_fee_import_atomic env id t u branch db e c failed =
    elim (commit_fee_import-Outcome env id t u branch db c) [
      | refused e' raised same ↦ same
      | done_ n b batches answered known counts consistent sized changed ↦
          absurd (cc (failed, answered))
    ]

-- On consistent fee tables, a request to commit a fee file that is answered with a count has opened
-- that many accounts: one for each row of the file that is not rejected and has data.
pub commit_fee_import_opens :
    (env : Env) (batch_id tenant_id user : ℕ) (branch_id : Option ℕ) (db : Db) (n : ℕ)
    → Consistent db
    → (run_request (commit_fee_import env batch_id tenant_id user branch_id) db).0 ≡ ok n
    → (length
          (run_request (commit_fee_import env batch_id tenant_id user branch_id) db).1.fee_accounts
        ≡ length db.fee_accounts + n)
      × (n ≡ length (filter is_taken (get_rows batch_id db)))
commit_fee_import_opens env id t u branch db n c succeeded =
    elim (commit_fee_import-Outcome env id t u branch db c) [
      | refused e raised same ↦ absurd (cc (succeeded, raised))
      | done_ m b batches answered known counts consistent sized changed ↦
          let same : n ≡ m = cc (succeeded, answered) in rw same (sized, counts)
    ]

first-written :
    (env : Env) (id n : ℕ) (batches : List ImportBatch) (o : ImportBatch)
    → first (filter (λ a. a.id == id) (written env id n batches)) ≡ some o
    → o.status ≡ BatchStatus.committed
first-written env id n batches o e =
    first-All (λ a. a.status ≡ BatchStatus.committed) _ (all batches) e
  where
    all :
        (bs : List ImportBatch)
        → All
            (λ a. a.status ≡ BatchStatus.committed)
            (filter (λ a. a.id == id) (written env id n bs))
    all [] = tt
    all (a ∷ bs) = elim (Bool-cases (a.id == id)) [
      | inl t ↦ rw (t, t) (refl, all bs)
      | inr f ↦ rw (f, f) (all bs)
    ]

-- Once a request to commit a batch has succeeded, whatever is found under its key is COMMITTED.
pub found_committed :
    (env : Env) (batch_id tenant_id user : ℕ) (branch_id : Option ℕ) (db : Db) (n : ℕ)
    → Consistent db
    → (run_request (commit_fee_import env batch_id tenant_id user branch_id) db).0 ≡ ok n
    → (o : ImportBatch)
    → get_batch batch_id
        (run_request (commit_fee_import env batch_id tenant_id user branch_id) db).1
      ≡ some o
    → o.status ≡ BatchStatus.committed
unfolding get_batch
found_committed env id t u branch db n c succeeded o found =
    elim (commit_fee_import-Outcome env id t u branch db c) [
      | refused e raised same ↦ absurd (cc (succeeded, raised))
      | done_ m b batches answered known counts consistent sized changed ↦
          first-written env id m batches o (rw (changed, known) at found)
    ]

-- A batch that is COMMITTED is not committed again.
not_ready :
    (env : Env) (batch_id tenant_id user : ℕ) (branch_id : Option ℕ) (db : Db)
    → ((o : ImportBatch) → get_batch batch_id db ≡ some o → o.status ≡ BatchStatus.committed)
    → (e : Error) × (run_request (commit_fee_import env batch_id tenant_id user branch_id) db
        ≡ (err e, db))
unfolding run_request commit_fee_import
not_ready env id t u branch db h = elim (Option-cases (fee_batch_of t (get_batch id db))) [
  | inl none_found ↦ (http 404 (message "Fee import batch not found."), rw none_found refl)
  | inr (b, found) ↦ elim (Bool-cases (foreign_branch branch b.branch_id)) [
    | inl f ↦ (http 403 (message "Not authorized for this batch."), rw (found, f) refl)
    | inr mine ↦ (
      http 400 (message "Batch is not ready to commit."),
      rw (found, mine, h b (fee_batch_of-found t _ b found)) refl,
    )
  ]
]

-- On consistent fee tables, once a fee file is committed, the next request, if it is to commit the file
-- again, by any caller and with any clock, is answered with an error and changes nothing.
pub commit_fee_import_once :
    (env : Env) (batch_id tenant_id user : ℕ) (branch_id : Option ℕ) (db : Db) (n : ℕ) (env' : Env)
    (tenant_id' user' : ℕ) (branch_id' : Option ℕ)
    → Consistent db
    → (run_request (commit_fee_import env batch_id tenant_id user branch_id) db).0 ≡ ok n
    → (e : Error) × (run_request
          (commit_fee_import env' batch_id tenant_id' user' branch_id')
          (run_request (commit_fee_import env batch_id tenant_id user branch_id) db).1
        ≡ (err e, (run_request (commit_fee_import env batch_id tenant_id user branch_id) db).1))
commit_fee_import_once env id t u branch db n env' t' u' branch' c succeeded =
    not_ready env' id t' u' branch' _ (found_committed env id t u branch db n c succeeded)
