-- ===== src/Imports/CorrectionTests.antt =====
-- The theorem on corrections applied to the school of Imports/Example.
use sms_backend.Common.{◌≡◌, some, none, []}
use sms_backend.Database.{Error, err, run_request}
use sms_backend.Imports.Values.{words}
use sms_backend.Imports.Commit.{commit_fee_import}
use sms_backend.Imports.Corrections.{correct_fee_import_rows, correct_fee_import_row}
use sms_backend.Imports.Corrected.{committed_not_corrected}
use sms_backend.Imports.Example.{env, lib}
use sms_backend.Imports.CommitTests.{school, school-Consistent, import_committed}

committed_not_corrected_example :
    (e : Error) × (run_request
        (correct_fee_import_rows lib words 80 1 [] none)
        (run_request (commit_fee_import env 80 1 7 (some 2)) school).1
      ≡ (err e, (run_request (commit_fee_import env 80 1 7 (some 2)) school).1))
    × (run_request
          (correct_fee_import_row lib words 80 81 1 [] none)
          (run_request (commit_fee_import env 80 1 7 (some 2)) school).1
        ≡ (err e, (run_request (commit_fee_import env 80 1 7 (some 2)) school).1))
committed_not_corrected_example =
    committed_not_corrected env 80 1 7 (some 2) school 1 lib words 1 81 [] [] none school-Consistent
      import_committed
