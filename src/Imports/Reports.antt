-- ===== src/Imports/Reports.antt =====
-- The findings on one row of a file: the variables `errors` and `status` of the validators in
-- app/modules/imports/validators.py, and the two ways in which they change.
use sms_backend.Common.{◌≡◌, refl, String, Bool, true, false, List, [], ◌∷◌, ◌++◌, if◌then◌else◌}
use sms_backend.Models.{RowStatus, RowError, is_rejected, is_valid}

pub record Report : Type 0 where
  pub errors : List RowError
  pub status : RowStatus

-- `errors = []; status = "VALID"`
abbrev pub no_errors : Report
no_errors = record { errors = []; status = RowStatus.valid }

-- `if c: errors.append({…}); status = "REJECTED"`
unfoldable pub reject_if : Bool → String → String → Report → Report
reject_if c field message r =
    if c
    then record {
      errors = r.errors ++ record { field = field; message = message } ∷ [];
      status = RowStatus.rejected;
    }
    else r

-- `if c: errors.append({…})`, and `if status == "VALID": status = "WARNING"`
unfoldable pub warn_if : Bool → String → String → Report → Report
warn_if c field message r =
    if c
    then record {
      errors = r.errors ++ record { field = field; message = message } ∷ [];
      status = if is_valid r.status then RowStatus.warning else r.status;
    }
    else r

abbrev pub no_findings : List RowError → Bool
no_findings [] = true
no_findings (e ∷ es) = false

-- A row is VALID as long as nothing was found.
pub record IsFair (r : Report) : Type 0 where
  pub fair : is_valid r.status ≡ no_findings r.errors

no_findings-append : (es : List RowError) (e : RowError) → no_findings (es ++ e ∷ []) ≡ false
no_findings-append [] e = refl
no_findings-append (x ∷ es) e = refl

pub no_errors-IsFair : IsFair no_errors
no_errors-IsFair = record { fair = refl }

pub reject_if-IsFair :
    (c : Bool) (field message : String) (r : Report)
    → IsFair r
    → IsFair (reject_if c field message r)
unfolding reject_if
reject_if-IsFair false field message r h = h
reject_if-IsFair true field message r h = record {
  fair = rw (no_findings-append r.errors (record { field = field; message = message })) refl;
}

demoted : (s : RowStatus) → is_valid (if is_valid s then RowStatus.warning else s) ≡ false
demoted RowStatus.valid = refl
demoted RowStatus.warning = refl
demoted RowStatus.rejected = refl

pub warn_if-IsFair :
    (c : Bool) (field message : String) (r : Report) → IsFair r → IsFair (warn_if c field message r)
unfolding warn_if
warn_if-IsFair false field message r h = h
warn_if-IsFair true field message r h = record {
  fair =
      rw (no_findings-append r.errors (record { field = field; message = message }))
        (demoted r.status);
}

-- A row that is not REJECTED in the end never was.
pub record IsAccepted (r : Report) : Type 0 where
  pub accepted : is_rejected r.status ≡ false

pub IsAccepted-reject_if :
    (c : Bool) (field message : String) (r : Report)
    → IsAccepted (reject_if c field message r)
    → (c ≡ false) × IsAccepted r
unfolding reject_if
IsAccepted-reject_if false field message r h = (refl, h)
IsAccepted-reject_if true field message r h = absurd (cc h.accepted)

kept : (s : RowStatus) → is_rejected (if is_valid s then RowStatus.warning else s) ≡ is_rejected s
kept RowStatus.valid = refl
kept RowStatus.warning = refl
kept RowStatus.rejected = refl

pub IsAccepted-warn_if :
    (c : Bool) (field message : String) (r : Report)
    → IsAccepted (warn_if c field message r)
    → IsAccepted r
unfolding warn_if
IsAccepted-warn_if false field message r h = h
IsAccepted-warn_if true field message r h = record { accepted = rw (kept r.status) at h.accepted }
