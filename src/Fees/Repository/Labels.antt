-- ===== src/Fees/Repository/Labels.antt =====
-- The CASE expressions of the fee queries. NULL is `none`; `like` and `right` are PostgreSQL's.
use Prim.Native.String.{◌++◌}
use text.Mathlib.Text.{◌==◌ as str_eq}
use sms_backend.Common.{String, Option, none, some, if◌then◌else◌}
use sms_backend.Models.{AcademicProgramme, Section, Enrollment}
use sms_backend.Database.{Env}

stream_display : Env → AcademicProgramme → Option String → Option String → Option String
stream_display env p (some stream) (some track) = some (stream ++ (" - " ++ track))
stream_display env p _ _ =
    if env.like p.programme_name (p.programme_code ++ " - %")
    then some p.programme_name
    else some (p.programme_code ++ (" - " ++ p.programme_name))

-- _programme_display, on the programme of an outer join
unfoldable pub programme_display : Env → Option AcademicProgramme → Option String
unfolding stream_display
programme_display env none = none
programme_display env (some p) = stream_display env p p.stream_code p.coaching_track

-- _section_display
unfoldable pub section_display : Env → Option AcademicProgramme → Option Section → Option String
section_display env _ none = none
section_display env none (some s) = some s.section_name
section_display env (some p) (some s) =
    if env.like s.section_name (p.programme_code ++ "-1_")
    then some (p.programme_code ++ ("-" ++ env.right s.section_name 1))
    else if env.like s.section_name (p.programme_code ++ "-2_")
    then some (p.programme_code ++ ("-" ++ env.right s.section_name 1))
    else some s.section_name

-- _year_level_label
unfoldable pub year_level_label : Enrollment → String
year_level_label e =
    if str_eq e.year_level "1"
    then "First Year"
    else if str_eq e.year_level "2"
    then "Second Year"
    else e.year_level
