-- ===== src/Imports/Checks.antt =====
-- The checks on one row of a fee file, taken apart (FeeImportValidator in
-- app/modules/imports/validators.py).
use sms_backend.Common.{
  ◌≡◌, refl, any, true, false, List, [], ◌∷◌, ◌+◌, arith, inl, inr, Bool-cases, is_some, ltb,
}
use sms_backend.Imports.Values.{TextLibrary, is_empty}
use sms_backend.Imports.Reports.{
  Report, IsFair, IsAccepted, no_errors-IsFair, reject_if-IsFair, warn_if-IsFair,
  IsAccepted-reject_if, IsAccepted-warn_if,
}
use sms_backend.Imports.Matches.{FeeEnrollment}
use sms_backend.Imports.FeeCells.{FeeCells, or_zero}
use sms_backend.Imports.FeeRows.{
  FileKey, is_schedule_type, check_required, check_amounts, check_enrollment, check_matches,
  is_keyed, same_key, file_key, fee_row_report,
}

check_required-IsFair : (c : FeeCells) → IsFair (check_required c)
unfolding check_required
check_required-IsFair c = reject_if-IsFair _ _ _ _ (
    reject_if-IsFair _ _ _ _ (
      reject_if-IsFair _ _ _ _ (
        reject_if-IsFair _ _ _ _
          (reject_if-IsFair _ _ _ _ (reject_if-IsFair _ _ _ _ no_errors-IsFair)))))

check_amounts-IsFair : (c : FeeCells) (r : Report) → IsFair r → IsFair (check_amounts c r)
unfolding check_amounts
check_amounts-IsFair c r h =
    reject_if-IsFair _ _ _ _
      (warn_if-IsFair _ _ _ _ (warn_if-IsFair _ _ _ _ (warn_if-IsFair _ _ _ _ h)))

check_matches-IsFair :
    (lib : TextLibrary) (c : FeeCells) (es : List FeeEnrollment) (r : Report)
    → IsFair r
    → IsFair (check_matches lib c es r)
unfolding check_matches check_enrollment
check_matches-IsFair lib c [] r h = reject_if-IsFair _ _ _ _ h
check_matches-IsFair lib c (e ∷ []) r h =
    warn_if-IsFair _ _ _ _
      (warn_if-IsFair _ _ _ _ (warn_if-IsFair _ _ _ _ (reject_if-IsFair _ _ _ _ h)))
check_matches-IsFair lib c (e ∷ f ∷ es) r h = reject_if-IsFair _ _ _ _ h

pub fee_row_report-IsFair :
    (lib : TextLibrary) (seen : List FileKey) (c : FeeCells) (es : List FeeEnrollment)
    → IsFair (fee_row_report lib seen c es)
unfolding fee_row_report
fee_row_report-IsFair lib seen c es =
    let fields = check_amounts-IsFair c _ (check_required-IsFair c) in
    elim (Bool-cases (is_keyed c)) [
      | inl k ↦ rw k (check_matches-IsFair lib c es _ (reject_if-IsFair _ _ _ _ fields))
      | inr k ↦ rw k fields
    ]

-- what the checks of the fields establish
record SoundFields (c : FeeCells) : Type 0 where
  numbered : is_empty c.admission_number ≡ false
  dated : is_empty c.academic_year ≡ false
  scheduled : is_schedule_type c.schedule_type ≡ true

check_required-SoundFields : (c : FeeCells) → IsAccepted (check_required c) → SoundFields c
unfolding check_required
check_required-SoundFields c h =
    let (schedule, h5) = IsAccepted-reject_if _ _ _ _ h in
    let (concession, h4) = IsAccepted-reject_if _ _ _ _ h5 in
    let (scholarship, h3) = IsAccepted-reject_if _ _ _ _ h4 in
    let (assigned, h2) = IsAccepted-reject_if _ _ _ _ h3 in
    let (year, h1) = IsAccepted-reject_if _ _ _ _ h2 in
    let (number, h0) = IsAccepted-reject_if _ _ _ _ h1 in
    record { numbered = number; dated = year; scheduled = ground arith }

IsAccepted-check_amounts :
    (c : FeeCells) (r : Report)
    → IsAccepted (check_amounts c r)
    → (ltb (or_zero c.assigned_fee) (or_zero c.scholarship + or_zero c.concession) ≡ false)
      × IsAccepted r
unfolding check_amounts
IsAccepted-check_amounts c r h =
    let (covered, h3) = IsAccepted-reject_if _ _ _ _ h in
    (
      covered,
      IsAccepted-warn_if _ _ _ _ (IsAccepted-warn_if _ _ _ _ (IsAccepted-warn_if _ _ _ _ h3)),
    )

-- the single enrollment that an accepted row is for
pub record IsFor (es : List FeeEnrollment) (e : FeeEnrollment) : Type 0 where
  pub single : es ≡ e ∷ []
  pub open_ : is_some e.fee_account_id ≡ false

IsAccepted-check_matches :
    (lib : TextLibrary) (c : FeeCells) (es : List FeeEnrollment) (r : Report)
    → IsAccepted (check_matches lib c es r)
    → ((e : FeeEnrollment) × IsFor es e) × IsAccepted r
unfolding check_matches check_enrollment
IsAccepted-check_matches lib c [] r h = absurd (cc ((IsAccepted-reject_if _ _ _ _ h).0))
IsAccepted-check_matches lib c (e ∷ []) r h =
    let (free, before) =
      IsAccepted-reject_if _ _ _ _
        (IsAccepted-warn_if _ _ _ _ (IsAccepted-warn_if _ _ _ _ (IsAccepted-warn_if _ _ _ _ h))) in
    ((e, record { single = refl; open_ = free }), before)
IsAccepted-check_matches lib c (e ∷ f ∷ es) r h = absurd (cc ((IsAccepted-reject_if _ _ _ _ h).0))

-- all that an accepted report establishes
pub record Passed (lib : TextLibrary) (seen : List FileKey) (c : FeeCells) (es : List FeeEnrollment)
    : Type 0 where
  pub numbered : is_empty c.admission_number ≡ false
  pub dated : is_empty c.academic_year ≡ false
  pub scheduled : is_schedule_type c.schedule_type ≡ true
  pub covered : ltb (or_zero c.assigned_fee) (or_zero c.scholarship + or_zero c.concession) ≡ false
  pub fresh : any (same_key (file_key lib c)) seen ≡ false
  pub enrollment : FeeEnrollment
  pub is_for : IsFor es enrollment

pub fee_row_report-Passed :
    (lib : TextLibrary) (seen : List FileKey) (c : FeeCells) (es : List FeeEnrollment)
    → IsAccepted (fee_row_report lib seen c es)
    → Passed lib seen c es
unfolding fee_row_report
fee_row_report-Passed lib seen c es h = elim (Bool-cases (is_keyed c)) [
  | inr k ↦
      let (covered, required) = IsAccepted-check_amounts c _ (rw k at h) in
      let fields = check_required-SoundFields c required in
      absurd (cc (k, fields.numbered, fields.dated))
  | inl k ↦
      let ((e, is_for), before) = IsAccepted-check_matches lib c es _ (rw k at h) in
      let (fresh, fields_accepted) = IsAccepted-reject_if _ _ _ _ before in
      let (covered, required) = IsAccepted-check_amounts c _ fields_accepted in
      let fields = check_required-SoundFields c required in
      record {
        numbered = fields.numbered;
        dated = fields.dated;
        scheduled = fields.scheduled;
        covered = covered;
        fresh = fresh;
        enrollment = e;
        is_for = is_for;
      }
]
