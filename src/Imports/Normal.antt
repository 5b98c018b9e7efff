-- ===== src/Imports/Normal.antt =====
-- `normalize_programme_match_value` of app/modules/academic_structure/constants.py, by which fee files
-- are compared with programmes and sections.
use sms_backend.Security.Text.{Text}
