-- ===== src/Models/Notifications.antt =====
-- sms_notification_logs of app/modules/notifications/models.py.
use sms_backend.Common.{ℕ, Option}
use sms_backend.Security.Text.{Text}

-- sms_notification_logs_status_check
pub data DeliveryStatus : Type 0 where
  queued sent delivered read failed failed_missing_phone : DeliveryStatus

pub record NotificationLog : Type 0 where
  pub id : ℕ
  pub tenant_id : ℕ
  pub branch_id : Option ℕ
  pub event_type : Text
  pub entity_id : Text
  pub student_id : Option ℕ
  pub recipient_phone : Option Text
  pub template_name : Text
  pub idempotency_key : Text
  pub provider_message_id : Option Text
  pub delivery_status : DeliveryStatus
  pub error_message : Option Text
  pub sent_at : Option ℕ
  pub delivered_at : Option ℕ
  pub read_at : Option ℕ
  pub created_at : ℕ
