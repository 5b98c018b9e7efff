-- ===== src/Examinations/Work.antt =====
-- The actions of app/modules/examinations. Every write of the module is committed before the next
-- statement of its request, so the state is the committed tables: a transaction changes them as a
-- whole, or is refused and rolled back.
use sms_backend.Common.{ℕ, Bool, String, Option, none, some, List, [], ◌∷◌, if◌then◌else◌}
use sms_backend.Database.{Db}
use sms_backend.Security.Text.{Text}

-- a section in the message of `publish_exam`: its name, and the students submitted and enrolled
pub record SectionCount : Type 0 where
  pub name : Text
  pub submitted_count : ℕ
  pub student_count : ℕ

pub data Fault : Type 0 where
  -- ValueError(message)
  value_error : String → Fault
  -- the ValueError of `publish_exam`, with the sections that its message lists
  unsubmitted : List SectionCount → Fault
  -- a statement that the database refuses
  database_error : Fault
  -- sqlalchemy.exc.MultipleResultsFound
  multiple_rows : Fault

pub data Outcome (A : Type 0) : Type 0 where
  done : A → Outcome A
  raised : Fault → Outcome A

abbrev pub Work : Type 0 → Type 0
Work A = Db → Outcome A × Db

module _ {A : Type 0} where
  abbrev pub pure : A → Work A
  pure a db = (done a, db)

  abbrev pub raise : Fault → Work A
  raise e db = (raised e, db)

  abbrev pub query : (Db → A) → Work A
  query f db = (done (f db), db)

-- Result.scalar_one_or_none()
abbrev pub one_or_none : {A : Type 0} → List A → Work (Option A)
one_or_none [] = pure none
one_or_none (a ∷ []) = pure (some a)
one_or_none (a ∷ b ∷ rest) = raise multiple_rows

abbrev pub continue : {A B : Type 0} → Outcome A × Db → (A → Work B) → Outcome B × Db
continue (done a, db) f = f a db
continue (raised e, db) f = (raised e, db)

infixl 5 ◌>>=◌ ◌>>◌
abbrev pub ◌>>=◌ : {A B : Type 0} → Work A → (A → Work B) → Work B
◌>>=◌ m f db = continue (m db) f

abbrev pub ◌>>◌ : {A B : Type 0} → Work A → Work B → Work B
m >> k = m >>= λ _. k

abbrev pub raise_if : Bool → Fault → Work Unit
raise_if c e db = (if c then raised e else done tt, db)

-- statements and the commit after them: all of it, or nothing
abbrev pub save : (Db → Bool) → (Db → Db) → Work Unit
save allowed change db = if allowed db then (done tt, change db) else (raised database_error, db)

-- `try: … except Exception: …` where the handler only rolls back or prints
abbrev pub swallowed : {A : Type 0} → Outcome A × Db → Work Unit
swallowed (_, db') db = (done tt, db')
