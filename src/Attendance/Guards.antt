-- ===== src/Attendance/Guards.antt =====
-- What the attendance operations refuse: sessions of others, and the wrong status.
use sms_backend.Common.{
  ℕ, ◌≡◌, refl, true, false, ◌||◌, List, [], ◌∷◌, String, ◌==◌, inl, inr, Bool-cases, Option, none,
  some, filter, not,
}
use sms_backend.Models.{AttendanceSession, is_draft, is_submitted}
use sms_backend.Database.{
  Db, Env, Session, Error, http, message, ok, err, Action, run_request, open_session,
}
use sms_backend.Attendance.Schemas.{AttendanceRecordUpdate}
use sms_backend.Attendance.Repository.{get_session_by_id}
use sms_backend.Attendance.Responses.{get_session_or_404, session_not_found, other_branch}
use sms_backend.Attendance.Service.{
  get_session_with_records, submit_session, return_session_for_revision, finalize_session,
  save_draft_records, AbsentNotice,
}

-- the session of another tenant, or of a branch that is not the caller's
abbrev pub IsForeign : ℕ → Option ℕ → AttendanceSession → Type 0
IsForeign t b o = (not (o.tenant_id == t) || other_branch b o.branch_id) ≡ true

-- the branch in which a caller changes a session
abbrev pub acting_branch : Option ℕ → ℕ → ℕ
acting_branch none b = b
acting_branch (some own) b = own

get_session_or_404-foreign :
    (id t : ℕ) (b : Option ℕ) (s : Session) (o : AttendanceSession)
    → filter (λ x. x.id == id) s.current.attendance_sessions ≡ o ∷ []
    → IsForeign t b o
    → get_session_or_404 id t b s ≡ (err session_not_found, s)
unfolding get_session_or_404 get_session_by_id
get_session_or_404-foreign id t b s o one foreign = elim (Bool-cases (o.tenant_id == t)) [
  | inr others ↦ rw (one, others) refl
  | inl ours ↦ rw (one, ours, (rw ours at foreign)) refl
]

pub get_session_or_404-own :
    (id t : ℕ) (b : Option ℕ) (s : Session) (o : AttendanceSession)
    → filter (λ x. x.id == id) s.current.attendance_sessions ≡ o ∷ []
    → (not (o.tenant_id == t) || other_branch b o.branch_id) ≡ false
    → get_session_or_404 id t b s ≡ (ok o, s)
unfolding get_session_or_404 get_session_by_id
get_session_or_404-own id t b s o one own = elim (Bool-cases (o.tenant_id == t)) [
  | inr others ↦ absurd (cc (rw others at own))
  | inl ours ↦ rw (one, ours, (rw ours at own)) refl
]

abbrev refusal : String → Error
refusal text = http 400 (message text)

module _ (env : Env) (notify : AbsentNotice → Action (Unit {0})) (id t b u : ℕ) (scope : Option ℕ)
    (records : List AttendanceRecordUpdate) (reason : Option String) (db : Db)
    (o : AttendanceSession) (one : filter (λ x. x.id == id) db.attendance_sessions ≡ o ∷ []) where
  -- A session of another tenant, or of another branch than the caller's where the caller has one, is
  -- answered with 404 by every operation on a session, as if it did not exist, and nothing changes. A
  -- caller without a branch views sessions of the whole tenant; the other operations have a branch,
  -- the caller's or, of a caller without one, any.
  pub foreign_session_refused :
      IsForeign t scope o
      → (run_request (get_session_with_records env id t scope) db ≡ (err session_not_found, db))
        × (run_request (save_draft_records env id records t (acting_branch scope b) u) db
            ≡ (err session_not_found, db))
        × (run_request (submit_session env id t (acting_branch scope b) u) db
            ≡ (err session_not_found, db))
        × (run_request (return_session_for_revision env id t (acting_branch scope b) u reason) db
            ≡ (err session_not_found, db))
        × (run_request (finalize_session env notify id t (acting_branch scope b) u) db
            ≡ (err session_not_found, db))
  unfolding run_request get_session_with_records save_draft_records submit_session
      return_session_for_revision finalize_session
  foreign_session_refused foreign =
      let e = get_session_or_404-foreign id t scope (open_session db) o one foreign in
      let acting =
        get_session_or_404-foreign id t (some (acting_branch scope b)) (open_session db) o one
          (still_foreign scope foreign) in
      (rw e refl, rw acting refl, rw acting refl, rw acting refl, rw acting refl)
    where
      still_foreign :
          (scope : Option ℕ) → IsForeign t scope o → IsForeign t (some (acting_branch scope b)) o
      still_foreign (some b') foreign = foreign
      still_foreign none foreign = elim (Bool-cases (o.tenant_id == t)) [
        | inl ours ↦ absurd (cc (rw ours at foreign))
        | inr others ↦ rw others refl
      ]

  -- A session of the caller is saved and submitted only while it is a DRAFT, and returned and finalized
  -- only while it is SUBMITTED: in any other status the answer is 400, and nothing changes.
  pub wrong_status_refused :
      (not (o.tenant_id == t) || other_branch (some b) o.branch_id) ≡ false
      → (is_draft o.status ≡ false
          → (run_request (save_draft_records env id records t b u) db
              ≡ (err (refusal "Can only save draft records for a DRAFT session."), db))
            × (run_request (submit_session env id t b u) db
                ≡ (err (refusal "Only DRAFT sessions can be submitted."), db)))
        × (is_submitted o.status ≡ false
            → (run_request (return_session_for_revision env id t b u reason) db
                ≡ (err (refusal "Only SUBMITTED sessions can be returned for revision."), db))
              × (run_request (finalize_session env notify id t b u) db
                  ≡ (err (refusal "Only SUBMITTED sessions can be finalized."), db)))
  unfolding run_request save_draft_records submit_session return_session_for_revision
      finalize_session
  wrong_status_refused own =
      let e = get_session_or_404-own id t (some b) (open_session db) o one own in
      (
        λ late. (rw (e, late) refl, rw (e, late) refl),
        λ early. (rw (e, early) refl, rw (e, early) refl),
      )
