-- ===== src/Attendance/Sessions.antt =====
-- Looking a session up, and what each operation does to the table of sessions.
use sms_backend.Common.{
  ℕ, ◌≡◌, refl, subst, Bool, true, false, List, [], ◌∷◌, ◌++◌, ◌==◌, All, inl, inr, Bool-cases,
  arith, Option, some, none, filter, update_where, All-mono, All-filter_where,
}
use sms_backend.Models.{AttendanceSession, SessionStatus}
use sms_backend.Database.{Session, Error, Result, ok, err, multiple_rows}
use sms_backend.Attendance.Repository.{get_session_by_id}
use sms_backend.Attendance.Responses.{get_session_or_404, session_not_found, other_branch}

-- One row changes to another by an operation of the service: the status moves along
-- DRAFT → SUBMITTED → FINALIZED, which sets the user and the time of that move, or back from SUBMITTED
-- to DRAFT, which clears those of the submission. No other column changes but the time of the update.
pub data Moves (x y : AttendanceSession) : Type 0 where
  stays : y ≡ x → Moves x y
  is_submitted_by :
      (user at_ : ℕ)
      → x.status ≡ SessionStatus.draft
      → y ≡ record x {
        status = SessionStatus.submitted;
        submitted_by = some user;
        submitted_at = some at_;
        updated_at = at_;
      }
      → Moves x y
  is_returned_by :
      (user at_ : ℕ)
      → x.status ≡ SessionStatus.submitted
      → y ≡ record x {
        status = SessionStatus.draft;
        submitted_by = none;
        submitted_at = none;
        updated_at = at_;
      }
      → Moves x y
  is_finalized_by :
      (user at_ : ℕ)
      → x.status ≡ SessionStatus.submitted
      → y ≡ record x {
        status = SessionStatus.finalized;
        finalized_by = some user;
        finalized_at = some at_;
        updated_at = at_;
      }
      → Moves x y

-- a session as `create_daily_session` opens it
abbrev pub IsOpened : AttendanceSession → Type 0
IsOpened o =
    (o.status ≡ SessionStatus.draft)
    × (o.submitted_by ≡ none)
    × (o.submitted_at ≡ none)
    × (o.finalized_by ≡ none)
    × (o.finalized_at ≡ none)

-- The table after a request: row by row a move, and behind the rows only opened sessions.
abbrev pub Evolves : List AttendanceSession → List AttendanceSession → Type 0
Evolves [] ys = All IsOpened ys
Evolves (x ∷ xs) [] = ⊥
Evolves (x ∷ xs) (y ∷ ys) = Moves x y × Evolves xs ys

pub Evolves-refl : (xs : List AttendanceSession) → Evolves xs xs
Evolves-refl [] = tt
Evolves-refl (x ∷ xs) = (stays refl, Evolves-refl xs)

pub Evolves-append :
    (xs : List AttendanceSession) (y : AttendanceSession) → IsOpened y → Evolves xs (xs ++ y ∷ [])
Evolves-append [] y h = (h, tt)
Evolves-append (x ∷ xs) y h = (stays refl, Evolves-append xs y h)

-- An update of rows that move.
pub Evolves-update_where :
    (p : AttendanceSession → Bool) (f : AttendanceSession → AttendanceSession)
    (xs : List AttendanceSession)
    → All (λ x. p x ≡ true → Moves x (f x)) xs
    → Evolves xs (update_where p f xs)
Evolves-update_where p f [] h = tt
Evolves-update_where p f (x ∷ xs) (h, hs) = elim (Bool-cases (p x)) [
  | inl t ↦ rw t (h t, Evolves-update_where p f xs hs)
  | inr e ↦ rw e (stays refl, Evolves-update_where p f xs hs)
]

filter-nil :
    {A : Type 0} (p : A → Bool) (xs : List A) → filter p xs ≡ [] → All (λ x. p x ≡ false) xs
filter-nil p [] h = tt
filter-nil p (x ∷ xs) h = elim (Bool-cases (p x)) [
  | inl t ↦ absurd (cc (rw t at h))
  | inr e ↦ (e, filter-nil p xs (rw e at h))
]

-- The single row that a WHERE selects is the only one that passes its test.
pub filter-single :
    {A : Type 0} (p : A → Bool) (xs : List A) (a : A)
    → filter p xs ≡ a ∷ []
    → All (λ x. p x ≡ true → x ≡ a) xs
filter-single p [] a h = tt
filter-single p (x ∷ xs) a h = elim (Bool-cases (p x)) [
  | inl t ↦
      let h' = rw t at h in
      (
        λ _. cc,
        All-mono (λ x. p x ≡ false) _ xs (λ y f t'. absurd (cc (f, t'))) (filter-nil p xs (cc)),
      )
  | inr e ↦ (λ t. absurd (cc (e, t)), filter-single p xs a (rw e at h))
]

-- What `_get_session_or_404` finds: an error, or the one session of that key, in the caller's scope.
pub data Found (id t : ℕ) (b : Option ℕ) (s : Session) (r : Result AttendanceSession × Session)
    : Type 0 where
  missing : (e : Error) → r ≡ (err e, s) → Found id t b s r
  found :
      (o : AttendanceSession)
      → r ≡ (ok o, s)
      → filter (λ x. x.id == id) s.current.attendance_sessions ≡ o ∷ []
      → o.id ≡ id
      → o.tenant_id ≡ t
      → other_branch b o.branch_id ≡ false
      → Found id t b s r

pub get_session_or_404-Found :
    (id t : ℕ) (b : Option ℕ) (s : Session) → Found id t b s (get_session_or_404 id t b s)
unfolding get_session_or_404 get_session_by_id
get_session_or_404-Found id t b s = go (filter (λ x. x.id == id) s.current.attendance_sessions) refl
  where
    kept :
        {o : AttendanceSession}
        → filter (λ x. x.id == id) s.current.attendance_sessions ≡ o ∷ []
        → o.id ≡ id
    kept e =
        (subst (All (λ x. x.id ≡ id)) e (
          All-filter_where (λ x. x.id ≡ id) (λ x. x.id == id) s.current.attendance_sessions
            (λ x t. ground arith))).0

    go :
        (rows : List AttendanceSession)
        → filter (λ x. x.id == id) s.current.attendance_sessions ≡ rows
        → Found id t b s (get_session_or_404 id t b s)
    go [] e = missing session_not_found (rw e)
    go (o ∷ o' ∷ rest) e = missing multiple_rows (rw e)
    go (o ∷ []) e = elim (Bool-cases (o.tenant_id == t)) [
      | inr foreign ↦ missing session_not_found (rw (e, foreign))
      | inl ours ↦ elim (Bool-cases (other_branch b o.branch_id)) [
        | inl away ↦ missing session_not_found (rw (e, ours, away))
        | inr here ↦ found o (rw (e, ours, here)) e (kept e) (ground arith) here
      ]
    ]
