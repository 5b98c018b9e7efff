-- ===== src/Imports/FeeCells.antt =====
-- The cells of a row of a fee file as FeeImportValidator reads them (app/modules/imports/validators.py).
-- Amounts are whole hundredths.
use sms_backend.Common.{ℕ, String, Bool, true, false, ◌||◌, Option, List, if◌then◌else◌}
use sms_backend.Imports.Values.{
  TextLibrary, DecimalText, unreadable, special, below_zero, hundredths, Cell, blank, words, other,
  is_empty, clean_string, cell_at,
}

-- what `_parse_money` ends with: the exception of `parsed < 0` or `quantize`, None, or an amount
pub data Money : Type 0 where
  invalid_operation refused : Money
  amount : ℕ → Money

abbrev pub read_decimal : DecimalText → Money
read_decimal unreadable = refused
read_decimal special = invalid_operation
read_decimal below_zero = refused
read_decimal (hundredths n) = amount n

-- FeeImportValidator._parse_money
unfoldable pub parse_money : TextLibrary → Cell → Money
parse_money lib blank = amount 0
parse_money lib (words s) =
    if is_empty s then amount 0 else read_decimal (lib.decimal (lib.without_commas (lib.strip s)))
parse_money lib (other _ _ cleaned _) = read_decimal (lib.decimal (lib.without_commas cleaned))

abbrev pub is_invalid : Money → Bool
is_invalid invalid_operation = true
is_invalid _ = false

abbrev pub is_refused : Money → Bool
is_refused refused = true
is_refused _ = false

-- `amount or Decimal("0")`
abbrev pub or_zero : Money → ℕ
or_zero (amount n) = n
or_zero _ = 0

-- `columns`
pub record FeeColumns : Type 0 where
  pub admission_number : Option ℕ
  pub academic_year : Option ℕ
  pub assigned_fee : Option ℕ
  pub payment_schedule_type : Option ℕ
  pub student_name : Option ℕ
  pub programme : Option ℕ
  pub section : Option ℕ
  pub government_scholarship : Option ℕ
  pub concession : Option ℕ
  pub notes : Option ℕ

-- the values that the loop reads from a row
pub record FeeCells : Type 0 where
  pub admission_number : String
  pub student_name : String
  pub academic_year : String
  pub programme : String
  pub section : String
  pub assigned_fee : Money
  pub scholarship : Money
  pub concession : Money
  pub schedule_type : String
  pub notes : String

unfoldable pub read_cells : TextLibrary → FeeColumns → List Cell → FeeCells
read_cells lib columns row =
    let cleaned = λ (i : Option ℕ). clean_string lib (cell_at row i) in
    let money = λ (i : Option ℕ). parse_money lib (cell_at row i) in
    record {
      admission_number = cleaned columns.admission_number;
      student_name = cleaned columns.student_name;
      academic_year = cleaned columns.academic_year;
      programme = cleaned columns.programme;
      section = cleaned columns.section;
      assigned_fee = money columns.assigned_fee;
      scholarship = money columns.government_scholarship;
      concession = money columns.concession;
      schedule_type = lib.upper (cleaned columns.payment_schedule_type);
      notes = cleaned columns.notes;
    }

-- the exception of `_parse_money` ends the whole validation
abbrev pub is_unreadable : FeeCells → Bool
is_unreadable c = is_invalid c.assigned_fee || is_invalid c.scholarship || is_invalid c.concession
