-- ===== src/Imports/Tests.antt =====
-- The theorems on imports applied to the school of Imports/Example.
use sms_backend.Common.{◌+◌, ◌≡◌, refl, some, List, [], filter, length, All}
use sms_backend.Models.{Summary, is_valid, is_warning, is_rejected}
use sms_backend.Imports.Values.{
  normalize_programme_match_value, squeeze, clean_string, header_map, header_map_from, find_column,
  lowered, first_alias, cell_at, raw_data,
}
use sms_backend.Imports.Reports.{reject_if, warn_if}
use sms_backend.Imports.Matches.{
  find_fee_import_enrollments, fee_enrollment, fee_enrollment_wanted, programme_label,
}
use sms_backend.Imports.FeeCells.{parse_money, read_cells}
use sms_backend.Imports.FeeRows.{
  check_required, check_amounts, check_enrollment, check_matches, programme_matches,
  section_matches, fee_row_report, found_enrollment, fee_row_data,
}
use sms_backend.Imports.FeeFile.{
  RowResult, Validation, validated, parse_and_validate_fees, validate_fee_rows, fee_row_result,
  numbered_rows, is_skipped, count_row, fee_columns, missing_fee_headers,
}
use sms_backend.Imports.Counts.{rows_with, summary_counts}
use sms_backend.Imports.Accepted.{AcceptedRow, accepted_rows, is_accepted}
use sms_backend.Imports.Distinct.{HasDistinctKeys, accepted_rows-HasDistinctKeys}
use sms_backend.Security.Text.{codes}
use sms_backend.Imports.Example.{lib, school_with, sheet}

abbrev results_of : Validation → List RowResult
results_of (validated rs n) = rs
results_of _ = []

abbrev no_summary : Summary
no_summary = record { total_rows = 0; valid_rows = 0; warning_rows = 0; rejected_rows = 0 }

abbrev summary_of : Validation → Summary
summary_of (validated rs n) = n
summary_of _ = no_summary

abbrev pub results : List RowResult
results = results_of (parse_and_validate_fees lib 1 (some 2) (school_with [] []) (some sheet))

abbrev pub summary : Summary
summary = summary_of (parse_and_validate_fees lib 1 (some 2) (school_with [] []) (some sheet))

pub sheet_validated :
    parse_and_validate_fees lib 1 (some 2) (school_with [] []) (some sheet)
    ≡ validated results summary
unfolding clean_string header_map header_map_from find_column lowered first_alias cell_at raw_data
    reject_if warn_if find_fee_import_enrollments fee_enrollment fee_enrollment_wanted
    programme_label parse_money read_cells check_required check_amounts check_enrollment
    check_matches fee_row_report found_enrollment fee_row_data parse_and_validate_fees
    validate_fee_rows fee_row_result numbered_rows is_skipped count_row fee_columns
    missing_fee_headers programme_matches section_matches
sheet_validated = refl

sheet_statuses :
    summary ≡ record { total_rows = 2; valid_rows = 0; warning_rows = 1; rejected_rows = 1 }
unfolding clean_string header_map header_map_from find_column lowered first_alias cell_at raw_data
    reject_if warn_if find_fee_import_enrollments fee_enrollment fee_enrollment_wanted
    programme_label parse_money read_cells check_required check_amounts check_enrollment
    check_matches fee_row_report found_enrollment fee_row_data parse_and_validate_fees
    validate_fee_rows fee_row_result numbered_rows is_skipped count_row fee_columns
    missing_fee_headers programme_matches section_matches
sheet_statuses = refl

summary_counts_example :
    (summary.total_rows ≡ length results)
    × (summary.valid_rows ≡ rows_with is_valid results)
    × (summary.warning_rows ≡ rows_with is_warning results)
    × (summary.rejected_rows ≡ rows_with is_rejected results)
    × (summary.valid_rows + summary.warning_rows + summary.rejected_rows ≡ summary.total_rows)
summary_counts_example =
    summary_counts lib 1 (some 2) (school_with [] []) (some sheet) results summary sheet_validated

accepted_rows_example :
    All (AcceptedRow lib 1 (some 2) (school_with [] [])) (filter is_accepted results)
accepted_rows_example =
    accepted_rows lib 1 (some 2) (school_with [] []) (some sheet) results summary sheet_validated

accepted_rows-HasDistinctKeys_example : HasDistinctKeys lib (filter is_accepted results)
accepted_rows-HasDistinctKeys_example =
    accepted_rows-HasDistinctKeys lib 1 (some 2) (school_with [] []) (some sheet) results summary
      sheet_validated

label_normalized : normalize_programme_match_value (codes " MPC - Maths ") ≡ codes "mpc maths"
unfolding normalize_programme_match_value squeeze
label_normalized = refl
