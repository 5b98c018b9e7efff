-- ===== src/Notifications/Commits.antt =====
-- `create_log` of app/modules/notifications/repository.py on the session of a request: it commits that
-- session, before the look-up by `ensure_table_exists` and behind the new row.
use sms_backend.Common.{ℕ, ◌≡◌, refl, [], ◌++◌, filter, first, Option-cases, inl, inr}
use sms_backend.Database.{Db, Session, Action, ok, IsSettled, ◌>>◌, commit, insert_records}
use sms_backend.Notifications.Repository.{LogEntry, create_log, has_key}

-- the statements of `create_log` between the commits
abbrev change_log : ℕ → ℕ → LogEntry → Action (Unit {0})
change_log id now e s = (ok tt, record s { current = (create_log id now e s.current).1 })

-- create_log with both of its commits
unfoldable pub create_log_committed : ℕ → ℕ → LogEntry → Action (Unit {0})
create_log_committed id now e = do commit; change_log id now e; commit

-- The tables of the other modules.
abbrev pub SameElsewhere : Db → Db → Type 0
SameElsewhere d e =
    (d.fee_accounts ≡ e.fee_accounts)
    × (d.ledger_entries ≡ e.ledger_entries)
    × (d.attendance_sessions ≡ e.attendance_sessions)

create_log-elsewhere :
    (id now : ℕ) (e : LogEntry) (db : Db) → SameElsewhere (create_log id now e db).1 db
unfolding create_log
create_log-elsewhere id now e db =
    elim (Option-cases (first (filter (has_key e.idempotency_key) db.notification_logs))) [
      | inl new ↦ rw new (refl, refl, refl)
      | inr (l, old) ↦ rw old (refl, refl, refl)
    ]

-- Where nothing is pending, the commits of a log publish nothing of the other modules.
pub create_log_committed-elsewhere :
    (id now : ℕ) (e : LogEntry) (s : Session)
    → IsSettled s
    → SameElsewhere (create_log_committed id now e s).1.committed s.committed
unfolding create_log_committed commit insert_records
create_log_committed-elsewhere id now e s (same, records, events) =
    rw (records, events, same)
      (create_log-elsewhere id now e
        (record s.committed { audit_events = s.committed.audit_events ++ [] }))
