-- ===== src/Imports/FeeLoop.antt =====
-- The loop of FeeImportValidator.parse_and_validate, taken apart: what a validated file is made of,
-- and one round of the loop.
use sms_backend.Common.{
  ℕ, ◌≡◌, String, false, Option, none, some, List, [], ◌∷◌, inl, inr, Bool-cases,
}
use sms_backend.Models.{Summary}
use sms_backend.Database.{Db}
use sms_backend.Imports.Values.{TextLibrary, Cell, header_map}
use sms_backend.Imports.FeeCells.{FeeColumns, read_cells, is_unreadable}
use sms_backend.Imports.FeeRows.{FileKey}
use sms_backend.Imports.FeeFile.{
  RowResult, validated, validate_fee_rows, parse_and_validate_fees, fee_columns, numbered_rows,
  zero_summary, seen_after, fee_row_result, count_row, count_total, outcome, validate_columns,
  prepend,
}

module _ (lib : TextLibrary) (tenant_id : ℕ) (branch_id : Option ℕ) (db : Db) where
  -- a run of the loop over all rows of a file
  pub record LoopRun (rs : List RowResult) (n : Summary) : Type 0 where
    pub columns : FeeColumns
    pub headers : List (String × ℕ)
    pub rows : List (ℕ × List Cell)
    pub ran :
        validate_fee_rows lib tenant_id branch_id db columns headers [] zero_summary rows
        ≡ some (rs, n)

  pub outcome-validated :
      (o : Option (List RowResult × Summary)) (rs : List RowResult) (n : Summary)
      → outcome o ≡ validated rs n
      → o ≡ some (rs, n)
  outcome-validated none rs n e = absurd (cc e)
  outcome-validated (some (qs, m)) rs n e = cc e

  validate_columns-LoopRun :
      (headers : List (String × ℕ)) (titles : List String) (rows : List (List Cell))
      (rs : List RowResult) (n : Summary)
      → validate_columns lib tenant_id branch_id db headers titles rows ≡ validated rs n
      → LoopRun rs n
  validate_columns-LoopRun headers (t ∷ ts) rows rs n e = absurd (cc e)
  validate_columns-LoopRun headers [] rows rs n e = record {
    columns = fee_columns lib headers;
    headers = headers;
    rows = numbered_rows lib 2 rows;
    ran = outcome-validated _ rs n e;
  }

  pub validated-LoopRun :
      (sheet : Option (List (List Cell))) (rs : List RowResult) (n : Summary)
      → parse_and_validate_fees lib tenant_id branch_id db sheet ≡ validated rs n
      → LoopRun rs n
  unfolding parse_and_validate_fees
  validated-LoopRun none rs n e = absurd (cc e)
  validated-LoopRun (some []) rs n e = absurd (cc e)
  validated-LoopRun (some ([] ∷ rows)) rs n e = absurd (cc e)
  validated-LoopRun (some ((h ∷ hs) ∷ rows)) rs n e =
      validate_columns-LoopRun (header_map lib (h ∷ hs)) _ rows rs n e

  -- one round of the loop
  pub record Round (columns : FeeColumns) (headers : List (String × ℕ)) (seen : List FileKey)
      (n : Summary) (row : ℕ × List Cell) (rows : List (ℕ × List Cell)) (rs : List RowResult)
      (m : Summary) : Type 0 where
    pub readable : is_unreadable (read_cells lib columns row.1) ≡ false
    pub later : List RowResult
    pub results :
        rs ≡ fee_row_result lib tenant_id branch_id db columns headers seen row.0 row.1 ∷ later
    pub rest :
        validate_fee_rows lib tenant_id branch_id db columns headers
          (seen_after lib tenant_id branch_id db (read_cells lib columns row.1) seen)
          (count_row
            (fee_row_result lib tenant_id branch_id db columns headers seen row.0
              row.1).validation_status
            (count_total n))
          rows
        ≡ some (later, m)

  prepend-some :
      (r : RowResult) (o : Option (List RowResult × Summary)) (rs : List RowResult) (m : Summary)
      → prepend lib tenant_id branch_id db r o ≡ some (rs, m)
      → (later : List RowResult) × (rs ≡ r ∷ later) × (o ≡ some (later, m))
  prepend-some r none rs m e = absurd (cc e)
  prepend-some r (some (qs, k)) rs m e = (qs, cc e, cc e)

  pub validate_fee_rows-Round :
      (columns : FeeColumns) (headers : List (String × ℕ)) (seen : List FileKey) (n : Summary)
      (row : ℕ × List Cell) (rows : List (ℕ × List Cell)) (rs : List RowResult) (m : Summary)
      → validate_fee_rows lib tenant_id branch_id db columns headers seen n (row ∷ rows)
        ≡ some (rs, m)
      → Round columns headers seen n row rows rs m
  unfolding validate_fee_rows
  validate_fee_rows-Round columns headers seen n (i, row) rows rs m e =
      elim (Bool-cases (is_unreadable (read_cells lib columns row))) [
        | inl t ↦ absurd (cc (rw t at e))
        | inr f ↦
            let (later, results, rest) = prepend-some _ _ rs m (rw f at e) in
            record { readable = f; later = later; results = results; rest = rest }
      ]
