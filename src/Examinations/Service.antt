-- ===== src/Examinations/Service.antt =====
-- ExaminationsService of app/modules/examinations/service.py: the check of a date, exemption, return and
-- publication. The texts that `publish_exam` prints are in Scores.
use sms_backend.Common.{
  ℕ, Bool, Option, none, some, List, [], ◌∷◌, ◌++◌, filter, map, if◌then◌else◌,
}
use sms_backend.Models.{Exam, ExamStatus, Section}
use sms_backend.Database.{Db}
use sms_backend.Security.Text.{Text, text_eq}
use sms_backend.Notifications.Repository.{get_progress}
use sms_backend.Examinations.Work.{
  Work, done, raised, pure, raise_if, query, swallowed, SectionCount, value_error, unsubmitted,
  ◌>>=◌, ◌>>◌,
}
use sms_backend.Examinations.Texts.{Platform, member}
use sms_backend.Examinations.Targets.{
  target_prog_ids, target_sections, is_unsubmitted, section_count,
}
use sms_backend.Examinations.Repository.{
  get_exam_by_id, ExamChange, update_exam, check_exam_date_overlap,
}

-- ExamDateOverlapCheckResponse
pub data OverlapResponse : Type 0 where
  no_overlap : OverlapResponse
  overlap : ℕ → Text → OverlapResponse

abbrev response_of : Option Exam → OverlapResponse
response_of none = no_overlap
response_of (some e) = overlap e.id e.name

-- check_date_overlap
unfoldable pub check_date_overlap :
    Platform → ℕ → ℕ → List Text → Text → Option Text → Work OverlapResponse
check_date_overlap p tenant_id exam_date targets programme_id exclude = do
  conflict ← check_exam_date_overlap p tenant_id exam_date targets programme_id exclude
  pure (response_of conflict)

-- `d[k] = v`
abbrev pub assign : Text → Text → List (Text × Text) → List (Text × Text)
assign k v [] = (k, v) ∷ []
assign k v ((j, w) ∷ d) = if text_eq j k then (j, v) ∷ d else (j, w) ∷ assign k v d

abbrev no_change : ExamChange
no_change = record {
  excluded_branch_ids = none;
  exemption_reasons = none;
  status = none;
  return_reason = none;
  published_at = none;
  published_by = none;
  updated_at = none;
}

abbrev pub exemption : Platform → Text → Text → Exam → ExamChange
exemption p branch_id reason e = record no_change {
  excluded_branch_ids = some (
      if member branch_id e.excluded_branch_ids
      then e.excluded_branch_ids
      else e.excluded_branch_ids ++ branch_id ∷ []);
  exemption_reasons = some (assign branch_id reason e.exemption_reasons);
  updated_at = some p.now;
}

abbrev pub if_exam : Option Exam → (Exam → Work (Option Exam)) → Work (Option Exam)
if_exam none f db = (done none, db)
if_exam (some e) f db = f e db

-- exempt_branch
unfoldable pub exempt_branch : Platform → ℕ → ℕ → Text → Text → Work (Option Exam)
exempt_branch p exam_id tenant_id branch_id reason = do
  found ← get_exam_by_id exam_id tenant_id
  if_exam found λ e. update_exam exam_id tenant_id (exemption p branch_id reason e)

-- return_for_correction
unfoldable pub return_for_correction : Platform → ℕ → ℕ → Text → Work (Option Exam)
return_for_correction p exam_id tenant_id reason = update_exam exam_id tenant_id (record no_change {
  status = some ExamStatus.returned_for_correction;
  return_reason = some reason;
  updated_at = some p.now;
})

-- `prog["is_ongoing"]`
unfoldable pub is_ongoing : Platform → ℕ → Db → Bool
is_ongoing p exam_id db = (get_progress p.now (p.uuid_text exam_id) db).is_ongoing

-- `unsubmitted_sections`
unfoldable pub unsubmitted_sections : Platform → ℕ → ℕ → Exam → Db → List Section
unsubmitted_sections p exam_id tenant_id e db =
    filter (is_unsubmitted db exam_id) (target_sections p db tenant_id e (target_prog_ids p e))

abbrev first_three : List SectionCount → List SectionCount
first_three (a ∷ b ∷ c ∷ rest) = a ∷ b ∷ c ∷ []
first_three few = few

unfoldable pub all_submitted : Db → ℕ → List Section → Work Unit
all_submitted seen exam_id [] db = (done tt, db)
all_submitted seen exam_id (s ∷ ss) db =
    (raised (unsubmitted (first_three (map (section_count seen exam_id) (s ∷ ss)))), db)

abbrev pub publication : Platform → ℕ → ExamChange
publication p user_id = record no_change {
  status = some ExamStatus.published;
  published_at = some p.now;
  published_by = some user_id;
  updated_at = some p.now;
}

abbrev pub exam_or_error : Option Exam → Work Exam
exam_or_error none db = (raised (value_error "Exam not found."), db)
exam_or_error (some e) db = (done e, db)

-- publish_exam after the exam is found
unfoldable pub publish_found :
    Platform → (Exam → Option ℕ → Work Unit) → ℕ → ℕ → ℕ → Exam → Work (Option Exam)
publish_found p notify exam_id tenant_id user_id e = do
  ongoing ← query (is_ongoing p exam_id)
  raise_if ongoing (
      value_error
        "WhatsApp dispatches are currently in progress for this assessment. Duplicate publishing is locked.")
  waiting ← query (unsubmitted_sections p exam_id tenant_id e)
  seen ← query λ db. db
  all_submitted seen exam_id waiting
  published ← update_exam exam_id tenant_id (publication p user_id)
  λ db. swallowed (notify e e.published_at db) db
  pure published

-- publish_exam; `notify` is send_exam_published_notifications, with the time of the last publication
unfoldable pub publish_exam :
    Platform → (Exam → Option ℕ → Work Unit) → ℕ → ℕ → ℕ → Work (Option Exam)
unfolding publish_found
publish_exam p notify exam_id tenant_id user_id = do
  found ← get_exam_by_id exam_id tenant_id
  e ← exam_or_error found
  publish_found p notify exam_id tenant_id user_id e
