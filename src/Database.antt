-- ===== src/Database.antt =====
-- The database and the SQLAlchemy session that one request works in (app/core/database/session.py),
-- and the actions of the services: state, HTTP errors and refused statements.
--
-- `committed` is what other requests see. Statements that are executed at once act on `current`.
-- Objects given to `Session.add` wait in `new_records` and `new_events` until the next flush, and
-- queries do not see them, since the factory sets `autoflush=False`.
use sms_backend.Common.{
  ℕ, ◌≡◌, refl, String, Bool, true, Option, none, some, List, [], ◌∷◌, ◌++◌, ◌==◌, ◌&&◌, any, not,
  if◌then◌else◌,
}
use sms_backend.Models.{
  Tenant, Branch, AppUser, AuditEvent, AcademicYear, AcademicProgramme, Batch, Section, Student,
  Enrollment, FeeAccount, FeeLedgerEntry, AttendanceSession, AttendanceRecord, ImportBatch,
  ImportRow, Subject, NotificationLog, Exam, ExamSubject, StudentExamRecord,
}

-- the tables
pub record Db : Type 0 where
  pub tenants : List Tenant
  pub branches : List Branch
  pub users : List AppUser
  pub audit_events : List AuditEvent
  pub academic_years : List AcademicYear
  pub programmes : List AcademicProgramme
  pub batches : List Batch
  pub sections : List Section
  pub students : List Student
  pub enrollments : List Enrollment
  pub fee_accounts : List FeeAccount
  pub ledger_entries : List FeeLedgerEntry
  pub attendance_sessions : List AttendanceSession
  pub attendance_records : List AttendanceRecord
  pub import_batches : List ImportBatch
  pub import_rows : List ImportRow
  pub subjects : List Subject
  pub notification_logs : List NotificationLog
  pub exams : List Exam
  pub exam_subjects : List ExamSubject
  pub exam_records : List StudentExamRecord

pub record Session : Type 0 where
  pub committed : Db
  pub current : Db
  pub new_records : List AttendanceRecord
  pub new_events : List AuditEvent

-- What PostgreSQL and the process supply: the collation, `LIKE`, `right`, the clock, `date.today`
-- and the stream of generated UUIDs.
pub record Env : Type 0 where
  pub text_le : String → String → Bool
  pub like : String → String → Bool
  pub right : String → ℕ → String
  pub now : ℕ
  pub today : ℕ
  pub uuid : ℕ → ℕ

-- `detail` of an HTTPException: a fixed text, or a text with one number formatted into it
pub data Detail : Type 0 where
  message : String → Detail
  counted : String → ℕ → String → Detail

pub data Error : Type 0 where
  -- HTTPException(status_code, detail)
  http : ℕ → Detail → Error
  -- a statement or a flush that the database refuses (sqlalchemy.exc.IntegrityError, DataError)
  integrity : Error
  -- `scalar_one_or_none` on two rows or more (sqlalchemy.exc.MultipleResultsFound)
  multiple_rows : Error
  -- any other exception of Python's
  exception : Error

pub data Result {ℓ} (A : Type ℓ) : Type ℓ where
  ok : A → Result A
  err : Error → Result A

-- What was done before a raise stays done, so the session comes back beside the error too.
abbrev pub Action : Type 0 → Type 0
Action A = Session → Result A × Session

module _ {A : Type 0} where
  abbrev pub pure : A → Action A
  pure a s = (ok a, s)

  abbrev pub raise : Error → Action A
  raise e s = (err e, s)

  -- a read of the tables
  abbrev pub select : (Db → A) → Action A
  select f s = (ok (f s.current), s)

  -- `if row is None: raise …`
  abbrev pub or_raise : Option A → Error → Action A
  or_raise none e = raise e
  or_raise (some a) _ = pure a

-- Result.scalar_one_or_none()
abbrev pub one_or_none : {A : Type 0} → List A → Action (Option A)
one_or_none [] = pure none
one_or_none (a ∷ []) = pure (some a)
one_or_none (a ∷ b ∷ rest) = raise multiple_rows

abbrev pub continue : {A B : Type 0} → Result A × Session → (A → Action B) → Result B × Session
continue (ok a, s) f = f a s
continue (err e, s) f = (err e, s)

infixl 5 ◌>>=◌ ◌>>◌
abbrev pub ◌>>=◌ : {A B : Type 0} → Action A → (A → Action B) → Action B
◌>>=◌ m f s = continue (m s) f

abbrev pub ◌>>◌ : {A B : Type 0} → Action A → Action B → Action B
m >> k = m >>= λ _. k

abbrev pub raise_if : Bool → Error → Action Unit
raise_if c e s = (if c then err e else ok tt, s)

-- a statement executed at once, which the database refuses if a constraint would break
abbrev pub execute : (Db → Bool) → (Db → Db) → Action Unit
execute allowed change s =
    if allowed s.current
    then (ok tt, record s { current = change s.current })
    else (err integrity, s)

-- uq_sms_attendance_records_session_enrollment and the foreign keys of sms_attendance_records
unfoldable pub record_allowed : Db → AttendanceRecord → Bool
record_allowed db r =
    not (
      any (λ o. o.session_id == r.session_id && o.enrollment_id == r.enrollment_id)
        db.attendance_records)
    && any (λ t. t.id == r.tenant_id) db.tenants
    && any (λ b. b.id == r.branch_id) db.branches
    && any (λ o. o.id == r.session_id) db.attendance_sessions
    && any (λ e. e.id == r.enrollment_id) db.enrollments
    && any (λ u. u.id == r.marked_by) db.users

-- the INSERTs of a flush, one by one
unfoldable pub insert_records : List AttendanceRecord → Db → Option Db
insert_records [] db = some db
insert_records (r ∷ rs) db =
    let rest =
      insert_records rs (record db { attendance_records = db.attendance_records ++ r ∷ [] }) in
    if record_allowed db r then rest else none

-- the foreign keys of sms_audit_events
unfoldable pub event_allowed : Db → AuditEvent → Bool
event_allowed db a =
    any (λ t. t.id == a.tenant_id) db.tenants
    && any (λ b. b.tenant_id == a.tenant_id && b.id == a.branch_id) db.branches
    && any (λ u. u.id == a.actor_user_id) db.users

abbrev pub events_allowed : List AuditEvent → Db → Bool
events_allowed [] db = true
events_allowed (a ∷ as') db = event_allowed db a && events_allowed as' db

flushed : Option Db → Action Unit
flushed none s = (err integrity, s)
flushed (some db) s =
    if events_allowed s.new_events s.current
    then (
      ok tt,
      record s {
        current = record db { audit_events = db.audit_events ++ s.new_events };
        new_records = [];
        new_events = [];
      },
    )
    else (err integrity, s)

-- Session.flush(): what was added is inserted.
unfoldable pub flush : Action Unit
unfolding flushed
flush s = flushed (insert_records s.new_records s.current) s

abbrev publish : Session → Session
publish s = record s { committed = s.current }

-- Session.commit(): a flush, and then the changes are there for others.
unfoldable pub commit : Action Unit
unfolding flush
commit = do flush; λ s. (ok tt, publish s)

-- Session.rollback(): back to the last commit, and nothing is pending
abbrev pub rollback : Session → Session
rollback s = record s { current = s.committed; new_records = []; new_events = [] }

-- Nothing is pending: what the session sees is what is committed.
abbrev pub IsSettled : Session → Type 0
IsSettled s = (s.current ≡ s.committed) × (s.new_records ≡ []) × (s.new_events ≡ [])

-- a new session of the factory, as a request receives it
abbrev pub open_session : Db → Session
open_session db = record { committed = db; current = db; new_records = []; new_events = [] }

-- `get_db_session` around a request: a raise rolls back, and `close` drops what is not committed.
abbrev pub close_session : {A : Type 0} → Result A × Session → Result A × Db
close_session (ok a, s) = (ok a, s.committed)
close_session (err e, s) = (err e, (rollback s).committed)

unfoldable pub run_request : {A : Type 0} → Action A → Db → Result A × Db
run_request m db = close_session (m (open_session db))

-- A raise does not take back what was committed before it.
pub close_session-committed :
    {A : Type 0} (r : Result A × Session) → (close_session r).1 ≡ r.1.committed
close_session-committed (ok a, s) = refl
close_session-committed (err e, s) = refl
