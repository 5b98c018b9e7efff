-- ===== src/Examinations/Scores.antt =====
-- The figures of a message about marks in app/modules/examinations/service.py: the loops over
-- `subject_marks` of `publish_exam` and of `notify_single_student_correction` are the same.
use sms_backend.Common.{
  ℕ, ◌+◌, ◌*◌, Option, none, some, List, [], ◌∷◌, ◌++◌, ◌==◌, filter, length, if◌then◌else◌, ltb,
}
use sms_backend.Common.Int.{ℤ, pos, negsuc, ltb_ℤ, eqb_ℤ, ◌+ℤ◌}
use sms_backend.Models.{ExamSubject, Subject, Marks}
use sms_backend.Database.{Db}
use sms_backend.Security.Text.{Text, text_eq, is_empty}
use sms_backend.Examinations.Texts.{Platform}

-- an entry of `sub_map`
pub record SubjectInfo : Type 0 where
  pub name : Text
  pub max : ℕ
  pub pass : ℕ

abbrev pub SubjectMap : Type 0
SubjectMap = List (Text × SubjectInfo)

-- `d[k] = v`
abbrev store : Text → SubjectInfo → SubjectMap → SubjectMap
store k v [] = (k, v) ∷ []
store k v ((j, w) ∷ d) = if text_eq j k then (j, v) ∷ d else (j, w) ∷ store k v d

abbrev pub find : Text → SubjectMap → Option SubjectInfo
find k [] = none
find k ((j, w) ∷ d) = if text_eq j k then some w else find k d

abbrev store_new : Text → SubjectInfo → SubjectMap → SubjectMap
store_new k v d = elim (find k d) [ none ↦ store k v d | some w ↦ d ]

-- the loop over `sub_rows`
unfoldable pub exam_subject_map : Platform → List ExamSubject → SubjectMap → SubjectMap
exam_subject_map p [] d = d
exam_subject_map p (s ∷ ss) d =
    let info : SubjectInfo = record {
      name = s.subject_name;
      max = s.maximum_marks;
      pass = s.pass_marks;
    } in
    exam_subject_map p ss (
      store (p.uuid_text s.subject_id) info
        (store s.subject_code info (store (p.uuid_text s.id) info d)))

-- the loop over `master_subs`
unfoldable pub master_subject_map : Platform → List Subject → SubjectMap → SubjectMap
master_subject_map p [] d = d
master_subject_map p (s ∷ ss) d =
    let info : SubjectInfo = record { name = s.subject_name; max = 100; pass = 35 } in
    let by_id = store_new (p.uuid_text s.id) info d in
    master_subject_map p ss
      (if is_empty s.subject_code then by_id else store_new s.subject_code info by_id)

-- `sub_map`
unfoldable pub subject_map : Platform → ℕ → ℕ → Db → SubjectMap
subject_map p tenant_id exam_id db =
    master_subject_map p (filter (λ s. s.tenant_id == tenant_id) db.subjects)
      (exam_subject_map p (filter (λ s. s.exam_id == exam_id) db.exam_subjects) [])

abbrev found_or : Option SubjectInfo → Option SubjectInfo → Text → SubjectInfo
found_or (some i) _ key = i
found_or none (some i) key = i
found_or none none key = record { name = key; max = 100; pass = 35 }

-- `sub_info`, with the presets where there is none
unfoldable pub info_of : Platform → SubjectMap → Text → SubjectInfo
info_of p d key = found_or (find key d) (find (p.upper key) d) key

-- the variables of the loop; the sums count quarters of a mark
pub record Figures : Type 0 where
  pub total_obtained : ℤ
  pub total_max : ℤ
  pub absent_subs : List Text
  pub failed_subs : List Text
  pub attempted_count : ℕ

abbrev pub no_figures : Figures
no_figures = record {
  total_obtained = pos 0;
  total_max = pos 0;
  absent_subs = [];
  failed_subs = [];
  attempted_count = 0;
}

-- `score < 0`: absent for -1, exempted for any other
unfoldable pub add_missing : SubjectInfo → ℤ → Figures → Figures
add_missing i score f =
    if eqb_ℤ score (negsuc 3) then record f { absent_subs = f.absent_subs ++ i.name ∷ [] } else f

unfoldable pub add_attempt : SubjectInfo → ℤ → Figures → Figures
add_attempt i score f = record f {
  attempted_count = f.attempted_count + 1;
  failed_subs =
      if ltb_ℤ score (pos (4 * i.pass)) then f.failed_subs ++ i.name ∷ [] else f.failed_subs;
  total_obtained = f.total_obtained +ℤ score;
  total_max = f.total_max +ℤ pos (4 * i.max);
}

unfoldable pub add_score : SubjectInfo → ℤ → Figures → Figures
unfolding add_missing add_attempt
add_score i score f = if ltb_ℤ score (pos 0) then add_missing i score f else add_attempt i score f

-- the loop over `subject_marks`
unfoldable pub score_loop : Platform → SubjectMap → Marks → Figures → Figures
score_loop p d [] f = f
score_loop p d ((key, score) ∷ marks) f = score_loop p d marks (add_score (info_of p d key) score f)

unfoldable pub figures : Platform → ℕ → ℕ → Db → Marks → Figures
figures p tenant_id exam_id db marks =
    score_loop p (subject_map p tenant_id exam_id db) marks no_figures

-- `final_status`, with the names or the number that its text shows
pub data FinalStatus : Type 0 where
  absent_in failed_in : List Text → FinalStatus
  absent_count failed_count : ℕ → FinalStatus
  passed_all : ℕ → FinalStatus
  passed : FinalStatus

abbrev pub status_of : List Text → List Text → ℕ → FinalStatus
status_of (a ∷ absent) failed attempted =
    if ltb 2 (length (a ∷ absent))
    then absent_count (length (a ∷ absent))
    else absent_in (a ∷ absent)
status_of [] (b ∷ failed) attempted =
    if ltb 2 (length (b ∷ failed))
    then failed_count (length (b ∷ failed))
    else failed_in (b ∷ failed)
status_of [] [] attempted = if ltb 0 attempted then passed_all attempted else passed

unfoldable pub final_status : Figures → FinalStatus
final_status f = status_of f.absent_subs f.failed_subs f.attempted_count
