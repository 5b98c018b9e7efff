-- ===== src/Imports/Counts.antt =====
-- The counts in the summary of a fee file against its rows (the variable `summary` of
-- FeeImportValidator.parse_and_validate, app/modules/imports/validators.py).
use sms_backend.Common.{
  ℕ, ◌+◌, ◌≡◌, refl, String, Bool, Option, some, List, [], ◌∷◌, filter, length, arith,
}
use sms_backend.Models.{RowStatus, Summary, is_valid, is_warning, is_rejected}
use sms_backend.Database.{Db}
use sms_backend.Imports.Values.{TextLibrary, Cell}
use sms_backend.Imports.FeeCells.{FeeColumns, read_cells}
use sms_backend.Imports.FeeRows.{FileKey}
use sms_backend.Imports.FeeFile.{
  RowResult, validated, validate_fee_rows, parse_and_validate_fees, zero_summary, seen_after,
  fee_row_result, count_row, count_total,
}
use sms_backend.Imports.FeeLoop.{validated-LoopRun, validate_fee_rows-Round}

-- the rows whose status passes a test
abbrev pub rows_with : (RowStatus → Bool) → List RowResult → ℕ
rows_with p rs = length (filter (λ r. p r.validation_status) rs)

-- what the rows `rs` add to the counts `n`
pub record Adds (n : Summary) (rs : List RowResult) (m : Summary) : Type 0 where
  pub total : m.total_rows ≡ n.total_rows + length rs
  pub valid : m.valid_rows ≡ n.valid_rows + rows_with is_valid rs
  pub warning : m.warning_rows ≡ n.warning_rows + rows_with is_warning rs
  pub rejected : m.rejected_rows ≡ n.rejected_rows + rows_with is_rejected rs

Adds-none : (n : Summary) → Adds n [] n
Adds-none n = record {
  total = omega arith;
  valid = omega arith;
  warning = omega arith;
  rejected = omega arith;
}

Adds-row :
    (n : Summary) (r : RowResult) (rs : List RowResult) (m : Summary) (s : RowStatus)
    → r.validation_status ≡ s
    → Adds (count_row s (count_total n)) rs m
    → Adds n (r ∷ rs) m
unfolding count_row
Adds-row n r rs m RowStatus.valid e h = record {
  total = omega (arith, h.total);
  valid = rw e (omega (arith, h.valid));
  warning = rw e h.warning;
  rejected = rw e h.rejected;
}
Adds-row n r rs m RowStatus.warning e h = record {
  total = omega (arith, h.total);
  valid = rw e h.valid;
  warning = rw e (omega (arith, h.warning));
  rejected = rw e h.rejected;
}
Adds-row n r rs m RowStatus.rejected e h = record {
  total = omega (arith, h.total);
  valid = rw e h.valid;
  warning = rw e h.warning;
  rejected = rw e (omega (arith, h.rejected));
}

module _ (lib : TextLibrary) (tenant_id : ℕ) (branch_id : Option ℕ) (db : Db) where
  validate_fee_rows-Adds :
      (columns : FeeColumns) (headers : List (String × ℕ)) (seen : List FileKey) (n : Summary)
      (rows : List (ℕ × List Cell)) (rs : List RowResult) (m : Summary)
      → validate_fee_rows lib tenant_id branch_id db columns headers seen n rows ≡ some (rs, m)
      → Adds n rs m
  unfolding validate_fee_rows
  validate_fee_rows-Adds columns headers seen n [] rs m e =
      let same_rows : [] ≡ rs = cc e in
      let same_counts : n ≡ m = cc e in rw (← same_rows, ← same_counts) (Adds-none n)
  validate_fee_rows-Adds columns headers seen n ((i, row) ∷ rows) rs m e =
      let r = fee_row_result lib tenant_id branch_id db columns headers seen i row in
      let round =
        validate_fee_rows-Round lib tenant_id branch_id db columns headers seen n (i, row) rows rs m
          e in
      rw round.results (
        Adds-row n r round.later m r.validation_status refl (
          validate_fee_rows-Adds columns headers
            (seen_after lib tenant_id branch_id db (read_cells lib columns row) seen)
            (count_row r.validation_status (count_total n)) rows round.later m round.rest))

-- Filters by the three statuses split a list.
three_statuses :
    (rs : List RowResult)
    → rows_with is_valid rs + rows_with is_warning rs + rows_with is_rejected rs ≡ length rs
three_statuses [] = refl
three_statuses (r ∷ rs) = ground (arith, three_statuses rs)

-- For a file that validates, the summary tells what the rows are: `total_rows` is the number of
-- results, and the valid, warning and rejected counts are the numbers of results with those
-- statuses, which add up to the total.
pub summary_counts :
    (lib : TextLibrary) (tenant_id : ℕ) (branch_id : Option ℕ) (db : Db)
    (sheet : Option (List (List Cell))) (rs : List RowResult) (n : Summary)
    → parse_and_validate_fees lib tenant_id branch_id db sheet ≡ validated rs n
    → (n.total_rows ≡ length rs)
      × (n.valid_rows ≡ rows_with is_valid rs)
      × (n.warning_rows ≡ rows_with is_warning rs)
      × (n.rejected_rows ≡ rows_with is_rejected rs)
      × (n.valid_rows + n.warning_rows + n.rejected_rows ≡ n.total_rows)
summary_counts lib t b db sheet rs n e =
    let run = validated-LoopRun lib t b db sheet rs n e in
    let h =
      validate_fee_rows-Adds lib t b db run.columns run.headers [] zero_summary run.rows rs n
        run.ran in
    (
      omega (arith, h.total),
      omega (arith, h.valid),
      omega (arith, h.warning),
      omega (arith, h.rejected),
      omega (arith, h.total, h.valid, h.warning, h.rejected, three_statuses rs),
    )
