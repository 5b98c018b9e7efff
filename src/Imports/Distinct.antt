-- ===== src/Imports/Distinct.antt =====
-- The duplicates inside a fee file: `seen_fee_keys` of FeeImportValidator.parse_and_validate
-- (app/modules/imports/validators.py).
use sms_backend.Common.{
  ℕ, ◌≡◌, refl, String, true, false, Option, some, List, [], ◌∷◌, filter, any, inl, inr, Bool-cases,
  All, All-mono,
}
use sms_backend.Models.{RowData, no_data, fee_data, student_data, Summary, is_rejected}
use sms_backend.Database.{Db}
use sms_backend.Imports.Values.{TextLibrary, Cell}
use sms_backend.Imports.FeeCells.{FeeColumns, FeeCells, read_cells}
use sms_backend.Imports.FeeRows.{FileKey, file_key, same_key, is_keyed, fee_row_data}
use sms_backend.Imports.FeeFile.{
  RowResult, validated, validate_fee_rows, parse_and_validate_fees, zero_summary, seen_after,
  fee_row_result, count_row, count_total, matches_of,
}
use sms_backend.Imports.FeeLoop.{validated-LoopRun, validate_fee_rows-Round}
use sms_backend.Imports.Checks.{fee_row_report-Passed}
use sms_backend.Imports.Accepted.{is_accepted}

abbrev data_key : TextLibrary → RowData → FileKey
data_key lib (fee_data d) = (lib.lower d.admission_number, lib.lower d.academic_year)
data_key lib (student_data d) = (lib.lower d.admission_number, "")
data_key lib no_data = ("", "")

-- the admission number and the year of a result, in lower case
abbrev pub row_key : TextLibrary → RowResult → FileKey
row_key lib r = data_key lib r.normalized_data

-- No row has the key of one before it.
abbrev pub HasDistinctKeys : TextLibrary → List RowResult → Type 0
HasDistinctKeys lib [] = Unit
HasDistinctKeys lib (r ∷ rs) =
    All (λ q. same_key (row_key lib q) (row_key lib r) ≡ false) rs × HasDistinctKeys lib rs

abbrev IsNew : TextLibrary → List FileKey → RowResult → Type 0
IsNew lib seen r = any (same_key (row_key lib r)) seen ≡ false

module _ (lib : TextLibrary) (tenant_id : ℕ) (branch_id : Option ℕ) (db : Db) where
  IsNew-after :
      (c : FeeCells) (seen : List FileKey) (q : RowResult)
      → IsNew lib (seen_after lib tenant_id branch_id db c seen) q
      → IsNew lib seen q
  IsNew-after c seen q h = elim (Bool-cases (is_keyed c)) [
    | inr k ↦ rw k at h
    | inl k ↦ elim (Bool-cases (same_key (row_key lib q) (file_key lib c))) [
      | inl t ↦ absurd (cc (rw (k, t) at h))
      | inr f ↦ rw (k, f) at h
    ]
  ]

  other_key :
      (c : FeeCells) (seen : List FileKey) (q : RowResult)
      → is_keyed c ≡ true
      → IsNew lib (seen_after lib tenant_id branch_id db c seen) q
      → same_key (row_key lib q) (file_key lib c) ≡ false
  other_key c seen q k h = elim (Bool-cases (same_key (row_key lib q) (file_key lib c))) [
    | inl t ↦ absurd (cc (rw (k, t) at h))
    | inr f ↦ f
  ]

  validate_fee_rows-HasDistinctKeys :
      (columns : FeeColumns) (headers : List (String × ℕ)) (seen : List FileKey) (n : Summary)
      (rows : List (ℕ × List Cell)) (rs : List RowResult) (m : Summary)
      → validate_fee_rows lib tenant_id branch_id db columns headers seen n rows ≡ some (rs, m)
      → All (IsNew lib seen) (filter is_accepted rs) × HasDistinctKeys lib (filter is_accepted rs)
  unfolding validate_fee_rows fee_row_result fee_row_data
  validate_fee_rows-HasDistinctKeys columns headers seen n [] rs m e =
      let same_rows : [] ≡ rs = cc e in rw (← same_rows) (tt, tt)
  validate_fee_rows-HasDistinctKeys columns headers seen n ((i, row) ∷ rows) rs m e =
      let r = fee_row_result lib tenant_id branch_id db columns headers seen i row in
      let c = read_cells lib columns row in
      let after = seen_after lib tenant_id branch_id db c seen in
      let round =
        validate_fee_rows-Round lib tenant_id branch_id db columns headers seen n (i, row) rows rs m
          e in
      let (new, distinct) =
        validate_fee_rows-HasDistinctKeys columns headers after
          (count_row r.validation_status (count_total n)) rows round.later m round.rest in
      let still_new = All-mono (IsNew lib after) (IsNew lib seen) _ (IsNew-after c seen) new in
      elim (Bool-cases (is_rejected r.validation_status)) [
        | inl t ↦ rw (round.results, t) (still_new, distinct)
        | inr f ↦
            let p =
              fee_row_report-Passed lib seen c (matches_of lib tenant_id branch_id db c)
                (record { accepted = f }) in
            rw (round.results, f)
              (
                (p.fresh, still_new),
                (
                  All-mono (IsNew lib after) _ _
                      (λ q h. other_key c seen q (rw (p.numbered, p.dated) refl) h) new,
                  distinct,
                ),
              )
      ]

-- No two rows of a validated fee file that are not REJECTED have the same admission number and
-- academic year, in lower case.
pub accepted_rows-HasDistinctKeys :
    (lib : TextLibrary) (tenant_id : ℕ) (branch_id : Option ℕ) (db : Db)
    (sheet : Option (List (List Cell))) (rs : List RowResult) (n : Summary)
    → parse_and_validate_fees lib tenant_id branch_id db sheet ≡ validated rs n
    → HasDistinctKeys lib (filter is_accepted rs)
accepted_rows-HasDistinctKeys lib t b db sheet rs n e =
    let run = validated-LoopRun lib t b db sheet rs n e in
    (validate_fee_rows-HasDistinctKeys lib t b db run.columns run.headers [] zero_summary run.rows
      rs n run.ran).1
