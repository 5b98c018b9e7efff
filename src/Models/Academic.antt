-- ===== src/Models/Academic.antt =====
-- app/modules/academic_structure/models.py
use sms_backend.Common.{ℕ, String, Option}

-- sms_academic_years
pub record AcademicYear : Type 0 where
  pub id : ℕ
  pub tenant_id : ℕ
  pub code : String
  pub name : String

-- sms_academic_programmes
pub record AcademicProgramme : Type 0 where
  pub id : ℕ
  pub tenant_id : ℕ
  pub programme_code : String
  pub programme_name : String
  pub stream_code : Option String
  pub coaching_track : Option String
  pub status : String

-- sms_batches
pub record Batch : Type 0 where
  pub id : ℕ
  pub tenant_id : ℕ
  pub branch_id : ℕ
  pub academic_year_id : ℕ
  pub programme_id : ℕ
  pub batch_name : String
  pub year_level : String

-- sms_sections
pub record Section : Type 0 where
  pub id : ℕ
  pub tenant_id : ℕ
  pub branch_id : ℕ
  pub batch_id : ℕ
  pub section_name : String
  pub status : String
  pub created_at : ℕ
