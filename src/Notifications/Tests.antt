-- ===== src/Notifications/Tests.antt =====
-- A message that is logged, sent, reported and logged again (app/modules/notifications).
use sms_backend.Common.{ℕ, ◌≡◌, ◌≤◌, refl, none, some, List, [], ◌∷◌, length, All, arith}
use sms_backend.Models.{DeliveryStatus, NotificationLog}
use sms_backend.Security.Text.{codes}
use sms_backend.Imports.Example.{school_with}
use sms_backend.Notifications.Repository.{
  LogEntry, create_log, get_progress, new_log, change_first, as_sent, update_wamid_and_sent,
  update_status_by_wamid, status_of_text, after_report,
}
use sms_backend.Notifications.Dispatch.{normalise_phone, chunks, concat, chunks_total, take, drop}
use sms_backend.Notifications.Once.{
  LogRequest, sent_as, status, perform, perform_all, create_log_once,
}

abbrev entry : LogEntry
entry = record {
  tenant_id = 1;
  branch_id = none;
  event_type = codes "EXAM_PUBLISHED";
  entity_id = codes "70";
  student_id = some 10;
  recipient_phone = some (codes "+911");
  template_name = codes "exam";
  idempotency_key = codes "exam-70-10";
  delivery_status = DeliveryStatus.queued;
  error_message = none;
}

abbrev reports : List LogRequest
reports = sent_as 20 5 (codes "w1") ∷ status 30 (codes "w1") (codes "READ") ∷ []

create_log_once_example :
    (l : NotificationLog) × (create_log 6 40 entry
        (perform_all reports (create_log 5 10 entry (school_with [] [])).1)
      ≡ (l, perform_all reports (create_log 5 10 entry (school_with [] [])).1))
    × (l.id ≡ (create_log 5 10 entry (school_with [] [])).0.id)
    × (l.student_id ≡ (create_log 5 10 entry (school_with [] [])).0.student_id)
    × (l.recipient_phone ≡ (create_log 5 10 entry (school_with [] [])).0.recipient_phone)
create_log_once_example = create_log_once 5 10 6 40 entry entry reports (school_with [] []) refl

-- the log is READ after the reports, and counts as completed
progress_test :
    (get_progress 40
      (codes "70")
      (perform_all reports (create_log 5 10 entry (school_with [] [])).1)).completed_notifications
    ≡ 1
unfolding get_progress perform_all perform create_log new_log update_wamid_and_sent change_first
    as_sent update_status_by_wamid status_of_text after_report
progress_test = refl

chunks_total_example :
    (cs : List (List ℕ)) × (chunks 3 2 (1 ∷ 2 ∷ 3 ∷ []) ≡ some cs)
    × (concat cs ≡ 1 ∷ 2 ∷ 3 ∷ [])
    × All (λ c. length c ≤ 2) cs
chunks_total_example = chunks_total 3 1 (1 ∷ 2 ∷ 3 ∷ []) (omega arith)

chunks_test : chunks {A = ℕ} 3 2 (1 ∷ 2 ∷ 3 ∷ []) ≡ some ((1 ∷ 2 ∷ []) ∷ (3 ∷ []) ∷ [])
unfolding chunks take drop
chunks_test = refl

phone_test : normalise_phone (some (codes "98765 43210")) ≡ some (codes "+919876543210")
unfolding normalise_phone
phone_test = refl
