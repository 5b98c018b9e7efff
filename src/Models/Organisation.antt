-- ===== src/Models/Organisation.antt =====
-- Tenants, branches, users and the audit trail (app/modules/platform_admin/models.py,
-- app/modules/branches/models.py, app/modules/users/models.py, app/modules/audit/models.py).
use sms_backend.Common.{ℕ, String, Option}

-- sms_tenants
pub record Tenant : Type 0 where
  pub id : ℕ
  pub display_name : String

-- sms_branches
pub record Branch : Type 0 where
  pub id : ℕ
  pub tenant_id : ℕ
  pub display_name : String

-- sms_users
pub record AppUser : Type 0 where
  pub id : ℕ
  pub full_name : String

-- sms_audit_events, as the attendance service writes them
pub record AuditEvent : Type 0 where
  pub tenant_id : ℕ
  pub branch_id : ℕ
  pub actor_user_id : ℕ
  pub module_code : String
  pub action_key : String
  pub target_type : String
  pub target_id : ℕ
  pub outcome : String
  pub reason : Option String
  pub correlation_id : ℕ
  pub created_at : ℕ
