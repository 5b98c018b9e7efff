-- ===== src/Imports/Corrected.antt =====
-- What a correction of a fee file may change: `correct_fee_import_row` and `correct_fee_import_rows` of
-- app/modules/imports/service.py.
use sms_backend.Common.{
  ℕ, ◌≡◌, refl, String, not, ◌==◌, Option, some, List, [], ◌∷◌, inl, inr, Bool-cases, Option-cases,
  filter, first,
}
use sms_backend.Models.{ImportBatch, ImportRow, BatchStatus}
use sms_backend.Database.{
  Db, Env, Session, Error, ok, err, http, message, commit, run_request, open_session,
  close_session-committed,
}
use sms_backend.Fees.Payments.{Consistent, SameFees}
use sms_backend.Imports.Values.{TextLibrary, Cell}
use sms_backend.Imports.FeeFile.{RowResult, Validation, validated, value_error, decimal_error}
use sms_backend.Imports.Repository.{get_batch, get_rows, update_batch, update_row}
use sms_backend.Imports.Commit.{commit_fee_import, fee_batch_of, foreign_branch}
use sms_backend.Imports.CommitOutcome.{fee_batch_of-found}
use sms_backend.Imports.Committed.{found_committed}
use sms_backend.Imports.Upload.{previewed, get_import_preview, batch_of}
use sms_backend.Imports.Harmless.{
  HasUniqueKeys, IsHarmless, IsHarmless-continue, IsHarmless-commit, IsHarmless-update_batch,
  with_tables,
}
use sms_backend.Imports.Corrections.{
  RawData, RowCorrection, is_correctable, store_results, store_preview, revalidate_fee_preview_rows,
  correct_row, correct_rows, correctable_batch, is_empty_list, correct_fee_import_rows,
  correct_fee_import_row,
}

get_import_preview-IsHarmless :
    (db : Db) (id t : ℕ) (branch : Option ℕ) (expected : Option String) (s : Session)
    → IsHarmless db s
    → IsHarmless db (get_import_preview id t branch expected s).1
unfolding get_import_preview
get_import_preview-IsHarmless db id t branch expected s h =
    elim (Option-cases (batch_of t expected (get_batch id s.current))) [
      | inl e ↦ rw e h
      | inr (b, e) ↦ elim (Bool-cases (foreign_branch branch b.branch_id)) [
        | inl f ↦ rw (e, f) h
        | inr f ↦ rw (e, f) h
      ]
    ]

correctable_batch-IsHarmless :
    (db : Db) (id t : ℕ) (branch : Option ℕ) (s : Session)
    → IsHarmless db s
    → IsHarmless db (correctable_batch id t branch s).1
unfolding correctable_batch
correctable_batch-IsHarmless db id t branch s h =
    elim (Option-cases (fee_batch_of t (get_batch id s.current))) [
      | inl e ↦ rw e h
      | inr (b, e) ↦ elim (Bool-cases (foreign_branch branch b.branch_id)) [
        | inl f ↦ rw (e, f) h
        | inr f ↦ elim (Bool-cases (not (is_correctable b.status))) [
          | inl g ↦ rw (e, f, g) h
          | inr g ↦ rw (e, f, g) h
        ]
      ]
    ]

store_results-IsHarmless :
    (db : Db) (os : List ImportRow) (rs : List RowResult) (s : Session)
    → IsHarmless db s
    → IsHarmless db (store_results os rs s).1
unfolding store_results update_row
store_results-IsHarmless db [] rs s h = h
store_results-IsHarmless db (o ∷ os) [] s h = h
store_results-IsHarmless db (o ∷ os) (r ∷ rs) s h =
    store_results-IsHarmless db os rs _ (with_tables db _ s h.current h)

store_preview-IsHarmless :
    (db : Db) (b : ImportBatch) (rows : List ImportRow) (t : ℕ) (branch : Option ℕ) (v : Validation)
    (s : Session)
    → IsHarmless db s
    → IsHarmless db (store_preview b rows t branch v s).1
unfolding store_preview
store_preview-IsHarmless db b rows t branch (value_error m) s h = h
store_preview-IsHarmless db b rows t branch decimal_error s h = h
store_preview-IsHarmless db b rows t branch (validated rs n) s h =
    IsHarmless-continue db (store_results rows rs s) _ (store_results-IsHarmless db rows rs s h)
      (λ v s1 h1.
        IsHarmless-continue db (update_batch b.id (previewed n) s1) _
          (IsHarmless-update_batch db b.id (previewed n) s1
            (record { same_clash = λ o c. refl; same_clash_right = λ o c. refl }) h1)
          (λ v s2 h2.
            IsHarmless-continue db (commit s2) _ (IsHarmless-commit db s2 h2)
              (λ v s3 h3. get_import_preview-IsHarmless db b.id t branch (some "fees") s3 h3)))

correct_row-IsHarmless :
    (db : Db) (c : RowCorrection) (rows : List ImportRow) (s : Session)
    → IsHarmless db s
    → IsHarmless db (correct_row c rows s).1
unfolding correct_row update_row
correct_row-IsHarmless db c rows s h =
    elim (Option-cases (first (filter (λ o. o.id == c.row_id) rows))) [
      | inl e ↦ rw e h
      | inr (o, e) ↦ rw e (with_tables db _ s h.current h)
    ]

correct_rows-IsHarmless :
    (db : Db) (cs : List RowCorrection) (rows : List ImportRow) (s : Session)
    → IsHarmless db s
    → IsHarmless db (correct_rows cs rows s).1
unfolding correct_rows
correct_rows-IsHarmless db [] rows s h = h
correct_rows-IsHarmless db (c ∷ cs) rows s h =
    IsHarmless-continue db (correct_row c rows s) _ (correct_row-IsHarmless db c rows s h)
      (λ rows' s1 h1. correct_rows-IsHarmless db cs rows' s1 h1)

-- A request to correct several rows of a fee file, whether it succeeds or fails, changes no fee
-- account and no entry of a ledger, and leaves the table of batches without two rows of one primary
-- key or of one tenant and idempotency key, where it had none before.
pub correct_fee_import_rows-HasUniqueKeys :
    (lib : TextLibrary) (reread : String → Cell) (batch_id tenant_id : ℕ)
    (corrections : List RowCorrection) (branch_id : Option ℕ) (db : Db)
    → HasUniqueKeys db.import_batches
    → HasUniqueKeys
        (run_request
          (correct_fee_import_rows lib reread batch_id tenant_id corrections branch_id)
          db).1.import_batches
      × SameFees
          (run_request
            (correct_fee_import_rows lib reread batch_id tenant_id corrections branch_id)
            db).1
          db
unfolding run_request correct_fee_import_rows revalidate_fee_preview_rows
correct_fee_import_rows-HasUniqueKeys lib reread id t cs branch db unique =
    let start : IsHarmless db (open_session db) = record {
      current = (unique, (refl, refl));
      committed = (unique, (refl, refl));
      clean = refl;
      quiet = refl;
    } in
    rw
      (close_session-committed
        (correct_fee_import_rows lib reread id t cs branch (open_session db)))
      ((IsHarmless-continue db (correctable_batch id t branch (open_session db)) _
        (correctable_batch-IsHarmless db id t branch (open_session db) start)
        (λ b s1 h1. elim (Bool-cases (is_empty_list cs)) [
          | inl e ↦ rw e h1
          | inr f ↦ rw f (
              IsHarmless-continue db (correct_rows cs (get_rows id s1.current) s1) _
                (correct_rows-IsHarmless db cs (get_rows id s1.current) s1 h1)
                (λ rows s2 h2. store_preview-IsHarmless db b rows t branch _ s2 h2))
        ])).committed)

-- A COMMITTED batch is not corrected.
committed_refused :
    (id t row : ℕ) (raw : RawData) (cs : List RowCorrection) (branch : Option ℕ) (lib : TextLibrary)
    (reread : String → Cell) (after : Db)
    → ((o : ImportBatch) → get_batch id after ≡ some o → o.status ≡ BatchStatus.committed)
    → (e : Error) × (run_request (correct_fee_import_rows lib reread id t cs branch) after
        ≡ (err e, after))
      × (run_request (correct_fee_import_row lib reread id row t raw branch) after ≡ (err e, after))
unfolding run_request correct_fee_import_rows correct_fee_import_row correctable_batch
committed_refused id t row raw cs branch lib reread after h =
    elim (Option-cases (fee_batch_of t (get_batch id after))) [
      | inl e ↦ (http 404 (message "Fee import batch not found."), rw e refl, rw e refl)
      | inr (b, e) ↦ elim (Bool-cases (foreign_branch branch b.branch_id)) [
        | inl f ↦
            (http 403 (message "Not authorized for this batch."), rw (e, f) refl, rw (e, f) refl)
        | inr f ↦
            let status = h b (fee_batch_of-found t _ b e) in
            (
              http 400 (message "Only preview batches can be corrected."),
              rw (e, f, status) refl,
              rw (e, f, status) refl,
            )
      ]
    ]

-- On consistent fee tables, once a fee file is committed, a correction of its rows, one or several, by
-- anyone is answered with an error and changes nothing.
pub committed_not_corrected :
    (env : Env) (batch_id tenant_id user : ℕ) (branch_id : Option ℕ) (db : Db) (n : ℕ)
    (lib : TextLibrary) (reread : String → Cell) (tenant_id' row_id : ℕ) (raw : RawData)
    (corrections : List RowCorrection) (branch_id' : Option ℕ)
    → Consistent db
    → (run_request (commit_fee_import env batch_id tenant_id user branch_id) db).0 ≡ ok n
    → (e : Error) × (run_request
          (correct_fee_import_rows lib reread batch_id tenant_id' corrections branch_id')
          (run_request (commit_fee_import env batch_id tenant_id user branch_id) db).1
        ≡ (err e, (run_request (commit_fee_import env batch_id tenant_id user branch_id) db).1))
      × (run_request
            (correct_fee_import_row lib reread batch_id row_id tenant_id' raw branch_id')
            (run_request (commit_fee_import env batch_id tenant_id user branch_id) db).1
          ≡ (err e, (run_request (commit_fee_import env batch_id tenant_id user branch_id) db).1))
committed_not_corrected env id t u branch db n lib reread t' row raw cs branch' c succeeded =
    committed_refused id t' row raw cs branch' lib reread
      (run_request (commit_fee_import env id t u branch) db).1
      (found_committed env id t u branch db n c succeeded)
