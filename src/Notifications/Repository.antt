-- ===== src/Notifications/Repository.antt =====
-- NotificationsRepository of app/modules/notifications/repository.py. Every write is committed at once,
-- so that an operation maps the committed tables. `ensure_table_exists` changes no row.
use sms_backend.Common.{
  ℕ, ◌+◌, Bool, true, false, Option, none, some, [], ◌∷◌, ◌++◌, ◌==◌, any, filter, first, length,
  ltb, if◌then◌else◌, update_where,
}
use sms_backend.Models.{
  DeliveryStatus, queued, sent, delivered, read, failed, failed_missing_phone, NotificationLog,
}
use sms_backend.Database.{Db}
use sms_backend.Security.Text.{Text, codes, text_eq}

-- the arguments of `create_log`
pub record LogEntry : Type 0 where
  pub tenant_id : ℕ
  pub branch_id : Option ℕ
  pub event_type : Text
  pub entity_id : Text
  pub student_id : Option ℕ
  pub recipient_phone : Option Text
  pub template_name : Text
  pub idempotency_key : Text
  pub delivery_status : DeliveryStatus
  pub error_message : Option Text

abbrev pub has_key : Text → NotificationLog → Bool
has_key k l = text_eq l.idempotency_key k

unfoldable pub new_log : ℕ → ℕ → LogEntry → NotificationLog
new_log id now e = record {
  id = id;
  tenant_id = e.tenant_id;
  branch_id = e.branch_id;
  event_type = e.event_type;
  entity_id = e.entity_id;
  student_id = e.student_id;
  recipient_phone = e.recipient_phone;
  template_name = e.template_name;
  idempotency_key = e.idempotency_key;
  provider_message_id = none;
  delivery_status = e.delivery_status;
  error_message = e.error_message;
  sent_at = none;
  delivered_at = none;
  read_at = none;
  created_at = now;
}

abbrev pub add_unless : Option NotificationLog → NotificationLog → Db → NotificationLog × Db
add_unless (some old) l db = (old, db)
add_unless none l db = (l, record db { notification_logs = db.notification_logs ++ l ∷ [] })

-- create_log, with the generated key of a new row and the time
unfoldable pub create_log : ℕ → ℕ → LogEntry → Db → NotificationLog × Db
create_log id now e db =
    add_unless (first (filter (has_key e.idempotency_key) db.notification_logs)) (new_log id now e)
      db

abbrev pub key_of : Option NotificationLog → Option ℕ
key_of none = none
key_of (some l) = some l.id

abbrev pub is_key : Option ℕ → NotificationLog → Bool
is_key none l = false
is_key (some id) l = l.id == id

-- a change of the row that `.first()` finds
unfoldable pub change_first :
    (NotificationLog → Bool) → (NotificationLog → NotificationLog) → Db → Db
change_first which change db = record db {
  notification_logs =
      update_where (is_key (key_of (first (filter which db.notification_logs)))) change
        db.notification_logs;
}

unfoldable pub as_sent : ℕ → Text → NotificationLog → NotificationLog
as_sent now wamid l = record l {
  provider_message_id = some wamid;
  delivery_status = sent;
  sent_at = some now;
}

-- update_wamid_and_sent, which is only called with the status SENT
unfoldable pub update_wamid_and_sent : ℕ → ℕ → Text → Db → Db
update_wamid_and_sent now log_id wamid = change_first (λ l. l.id == log_id) (as_sent now wamid)

-- the texts that the table allows
unfoldable pub status_of_text : Text → Option DeliveryStatus
status_of_text t =
    if text_eq t (codes "QUEUED")
    then some queued
    else if text_eq t (codes "SENT")
    then some sent
    else if text_eq t (codes "DELIVERED")
    then some delivered
    else if text_eq t (codes "READ")
    then some read
    else if text_eq t (codes "FAILED")
    then some failed
    else if text_eq t (codes "FAILED_MISSING_PHONE")
    then some failed_missing_phone
    else none

-- the assignments after `log.delivery_status = status.upper()`
unfoldable pub after_report : ℕ → DeliveryStatus → NotificationLog → NotificationLog
after_report now delivered l = record l { delivery_status = delivered; delivered_at = some now }
after_report now read l = record l { delivery_status = read; read_at = some now }
after_report now failed l = record l {
  delivery_status = failed;
  error_message = some (codes "Delivery failed reported by Meta");
}
after_report now queued l = record l { delivery_status = queued }
after_report now sent l = record l { delivery_status = sent }
after_report now failed_missing_phone l = record l { delivery_status = failed_missing_phone }

abbrev pub has_wamid : Text → NotificationLog → Bool
has_wamid wamid l = elim l.provider_message_id [ none ↦ false | some w ↦ text_eq w wamid ]

abbrev pub reported : ℕ → Text → Option DeliveryStatus → Db → Db
reported now wamid none db = db
reported now wamid (some st) db = change_first (has_wamid wamid) (after_report now st) db

-- update_status_by_wamid, of a status by its text in upper case: where the table does not allow the
-- text, the commit is refused and nothing changes
unfoldable pub update_status_by_wamid : ℕ → Text → Text → Db → Db
update_status_by_wamid now wamid status db = reported now wamid (status_of_text status) db

abbrev is_completed : DeliveryStatus → Bool
is_completed queued = false
is_completed _ = true

abbrev is_failed : DeliveryStatus → Bool
is_failed failed = true
is_failed _ = false

abbrev is_missing : DeliveryStatus → Bool
is_missing failed_missing_phone = true
is_missing _ = false

abbrev is_queued : DeliveryStatus → Bool
is_queued queued = true
is_queued _ = false

-- the answer of `get_progress`, without the percentage
pub record Progress : Type 0 where
  pub total_notifications : ℕ
  pub completed_notifications : ℕ
  pub failed_notifications : ℕ
  pub missing_phone_notifications : ℕ
  pub is_ongoing : Bool

-- get_progress: times are seconds, and an entry is stale after five minutes
unfoldable pub get_progress : ℕ → Text → Db → Progress
get_progress now entity_id db =
    let logs = filter (λ l. text_eq l.entity_id entity_id) db.notification_logs in
    record {
      total_notifications = length logs;
      completed_notifications = length (filter (λ l. is_completed l.delivery_status) logs);
      failed_notifications = length (filter (λ l. is_failed l.delivery_status) logs);
      missing_phone_notifications = length (filter (λ l. is_missing l.delivery_status) logs);
      is_ongoing =
          any (λ l. ltb now (l.created_at + 300)) (filter (λ l. is_queued l.delivery_status) logs);
    }
