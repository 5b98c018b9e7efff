-- ===== src/Notifications/Once.antt =====
-- A message is logged once: the idempotency keys of `create_log` in
-- app/modules/notifications/repository.py, whatever happens to the log in between.
use sms_backend.Common.{
  ℕ, ◌≡◌, refl, ap, ◌∙◌, Bool, Option, none, some, List, [], ◌∷◌, ◌++◌, filter, first, update_where,
  filter-update_where, filter-append_last, Bool-cases, inl, inr, if◌then◌else◌, Option-cases,
}
use sms_backend.Models.{
  DeliveryStatus, queued, sent, delivered, read, failed, failed_missing_phone, NotificationLog,
}
use sms_backend.Database.{Db}
use sms_backend.Security.Text.{Text, text_eq_refl}
use sms_backend.Notifications.Repository.{
  LogEntry, has_key, new_log, key_of, is_key, create_log, change_first, as_sent,
  update_wamid_and_sent, after_report, has_wamid, reported, status_of_text, update_status_by_wamid,
}

-- the writes to the log, each with its time
pub data LogRequest : Type 0 where
  create : (id now : ℕ) → LogEntry → LogRequest
  sent_as : (now log_id : ℕ) (wamid : Text) → LogRequest
  status : (now : ℕ) (wamid text : Text) → LogRequest

unfoldable pub perform : LogRequest → Db → Db
perform (create id now e) db = (create_log id now e db).1
perform (sent_as now log_id wamid) db = update_wamid_and_sent now log_id wamid db
perform (status now wamid text) db = update_status_by_wamid now wamid text db

unfoldable pub perform_all : List LogRequest → Db → Db
perform_all [] db = db
perform_all (r ∷ rs) db = perform_all rs (perform r db)

-- the log that `create_log` finds for a key has this primary key, student and recipient
abbrev IsLogged : Text → ℕ → Option ℕ → Option Text → Db → Type 0
IsLogged k id student phone db =
    (l : NotificationLog) × (first (filter (has_key k) db.notification_logs) ≡ some l)
    × (l.id ≡ id)
    × (l.student_id ≡ student)
    × (l.recipient_phone ≡ phone)

-- a change that leaves the identity of a log alone
record KeepsLog (change : NotificationLog → NotificationLog) : Type 0 where
  same_key : (k : Text) (l : NotificationLog) → has_key k (change l) ≡ has_key k l
  same_id : (l : NotificationLog) → (change l).id ≡ l.id
  same_student : (l : NotificationLog) → (change l).student_id ≡ l.student_id
  same_phone : (l : NotificationLog) → (change l).recipient_phone ≡ l.recipient_phone

same_log :
    {f : NotificationLog → NotificationLog}
    → ((k : Text) (l : NotificationLog) → has_key k (f l) ≡ has_key k l)
    → ((l : NotificationLog) → (f l).id ≡ l.id)
    → ((l : NotificationLog) → (f l).student_id ≡ l.student_id)
    → ((l : NotificationLog) → (f l).recipient_phone ≡ l.recipient_phone)
    → KeepsLog f
same_log a b c d = record { same_key = a; same_id = b; same_student = c; same_phone = d }

first-update_where :
    (which : NotificationLog → Bool) (f : NotificationLog → NotificationLog)
    (ls : List NotificationLog) {l : NotificationLog}
    → first ls ≡ some l
    → first (update_where which f ls) ≡ some (if which l then f l else l)
first-update_where which f [] h = absurd (cc h)
first-update_where which f (x ∷ ls) h = cc h

first-append_last :
    (ls : List NotificationLog) (x : NotificationLog) {l : NotificationLog}
    → first ls ≡ some l
    → first (ls ++ x ∷ []) ≡ some l
first-append_last [] x h = absurd (cc h)
first-append_last (y ∷ ls) x h = h

after_report-KeepsLog : (now : ℕ) (st : DeliveryStatus) → KeepsLog (after_report now st)
unfolding after_report
after_report-KeepsLog now queued = same_log (λ k l. refl) (λ l. refl) (λ l. refl) (λ l. refl)
after_report-KeepsLog now sent = same_log (λ k l. refl) (λ l. refl) (λ l. refl) (λ l. refl)
after_report-KeepsLog now delivered = same_log (λ k l. refl) (λ l. refl) (λ l. refl) (λ l. refl)
after_report-KeepsLog now read = same_log (λ k l. refl) (λ l. refl) (λ l. refl) (λ l. refl)
after_report-KeepsLog now failed = same_log (λ k l. refl) (λ l. refl) (λ l. refl) (λ l. refl)
after_report-KeepsLog now failed_missing_phone =
    same_log (λ k l. refl) (λ l. refl) (λ l. refl) (λ l. refl)

as_sent-KeepsLog : (now : ℕ) (wamid : Text) → KeepsLog (as_sent now wamid)
unfolding as_sent
as_sent-KeepsLog now wamid = same_log (λ k l. refl) (λ l. refl) (λ l. refl) (λ l. refl)

module _ (k : Text) (id : ℕ) (student : Option ℕ) (phone : Option Text) where
  IsLogged-change_first :
      (which : NotificationLog → Bool) (change : NotificationLog → NotificationLog) (db : Db)
      → KeepsLog change
      → IsLogged k id student phone db
      → IsLogged k id student phone (change_first which change db)
  unfolding change_first
  IsLogged-change_first which change db keeps (l, e, i, s, r) =
      let w = is_key (key_of (first (filter which db.notification_logs))) in
      (
        (if w l then change l else l),
        ap first (
              filter-update_where (has_key k) w change db.notification_logs
                (λ x. keeps.same_key k x))
            ∙ first-update_where w change (filter (has_key k) db.notification_logs) e,
        elim (Bool-cases (w l)) [ inl t ↦ rw t (keeps.same_id l ∙ i) | inr f ↦ rw f i ],
        elim (Bool-cases (w l)) [ inl t ↦ rw t (keeps.same_student l ∙ s) | inr f ↦ rw f s ],
        elim (Bool-cases (w l)) [ inl t ↦ rw t (keeps.same_phone l ∙ r) | inr f ↦ rw f r ],
      )

  IsLogged-append_last :
      (x : NotificationLog) (db : Db)
      → IsLogged k id student phone db
      → IsLogged k id student phone
          (record db { notification_logs = db.notification_logs ++ x ∷ [] })
  IsLogged-append_last x db (l, e, i, s, r) = (
    l,
    ap first (filter-append_last (has_key k) db.notification_logs x)
        ∙ elim (Bool-cases (has_key k x)) [
          | inl t ↦ rw t (first-append_last (filter (has_key k) db.notification_logs) x e)
          | inr f ↦ rw f e
        ],
    i,
    s,
    r,
  )

  IsLogged-create_log :
      (fresh now : ℕ) (e : LogEntry) (db : Db)
      → IsLogged k id student phone db
      → IsLogged k id student phone (create_log fresh now e db).1
  unfolding create_log
  IsLogged-create_log fresh now e db h =
      elim (Option-cases (first (filter (has_key e.idempotency_key) db.notification_logs))) [
        | inl n ↦ rw n (IsLogged-append_last (new_log fresh now e) db h)
        | inr (old, o) ↦ rw o h
      ]

  IsLogged-update_status :
      (now : ℕ) (wamid text : Text) (db : Db)
      → IsLogged k id student phone db
      → IsLogged k id student phone (update_status_by_wamid now wamid text db)
  unfolding update_status_by_wamid
  IsLogged-update_status now wamid text db h = change (status_of_text text)
    where
      change : (o : Option DeliveryStatus) → IsLogged k id student phone (reported now wamid o db)
      change none = h
      change (some st) =
          IsLogged-change_first (has_wamid wamid) (after_report now st) db
            (after_report-KeepsLog now st) h

  IsLogged-perform :
      (r : LogRequest) (db : Db)
      → IsLogged k id student phone db
      → IsLogged k id student phone (perform r db)
  unfolding perform update_wamid_and_sent
  IsLogged-perform (create fresh now e) db h = IsLogged-create_log fresh now e db h
  IsLogged-perform (sent_as now log_id wamid) db h =
      IsLogged-change_first _ (as_sent now wamid) db (as_sent-KeepsLog now wamid) h
  IsLogged-perform (status now wamid text) db h = IsLogged-update_status now wamid text db h

  IsLogged-perform_all :
      (rs : List LogRequest) (db : Db)
      → IsLogged k id student phone db
      → IsLogged k id student phone (perform_all rs db)
  unfolding perform_all
  IsLogged-perform_all [] db h = h
  IsLogged-perform_all (r ∷ rs) db h =
      IsLogged-perform_all rs (perform r db) (IsLogged-perform r db h)

first-none : (ls : List NotificationLog) → first ls ≡ none → ls ≡ []
first-none [] h = refl
first-none (l ∷ ls) h = absurd (cc h)

-- what `create_log` answers is logged under its key
create_log-IsLogged :
    (id now : ℕ) (e : LogEntry) (db : Db)
    → IsLogged e.idempotency_key
        (create_log id now e db).0.id
        (create_log id now e db).0.student_id
        (create_log id now e db).0.recipient_phone
        (create_log id now e db).1
unfolding create_log new_log
create_log-IsLogged id now e db =
    elim (Option-cases (first (filter (has_key e.idempotency_key) db.notification_logs))) [
      | inl n ↦ rw n (
        new_log id now e,
        ap first (
              filter-append_last (has_key e.idempotency_key) db.notification_logs
                (new_log id now e))
            ∙ rw
                (
                  text_eq_refl e.idempotency_key,
                  first-none (filter (has_key e.idempotency_key) db.notification_logs) n,
                )
                refl,
        refl,
        refl,
        refl,
      )
      | inr (old, o) ↦ rw o (old, o, refl, refl, refl)
    ]

-- After a message is logged under a key, whatever is logged and reported in between, to log a message
-- under the same key again adds and changes nothing, and answers the log of the first time: with its
-- primary key, its student and its recipient.
pub create_log_once :
    (id now id' now' : ℕ) (e e' : LogEntry) (rs : List LogRequest) (db : Db)
    → e'.idempotency_key ≡ e.idempotency_key
    → (l : NotificationLog) × (create_log id' now' e' (perform_all rs (create_log id now e db).1)
        ≡ (l, perform_all rs (create_log id now e db).1))
      × (l.id ≡ (create_log id now e db).0.id)
      × (l.student_id ≡ (create_log id now e db).0.student_id)
      × (l.recipient_phone ≡ (create_log id now e db).0.recipient_phone)
create_log_once id now id' now' e e' rs db same =
    let (l, found, i, s, r) =
      IsLogged-perform_all e.idempotency_key _ _ _ rs (create_log id now e db).1
        (create_log-IsLogged id now e db) in
    (l, unfold create_log in rw (same, found) refl, i, s, r)
