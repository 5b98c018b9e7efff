-- ===== src/Models/Access.antt =====
-- The tables that the access context of a caller is read from: app/modules/users/models.py and the
-- tenant tables of app/modules/platform_admin/models.py. Columns with a fixed set of texts stay texts.
use text.Mathlib.Text.{◌==◌ as str_eq}
use sms_backend.Common.{ℕ, String, Option, Bool, List}

-- sms_users
pub record UserRecord : Type 0 where
  pub id : ℕ
  pub auth_user_id : Option ℕ
  pub full_name : String
  pub status : String
  pub login_enabled : Bool

-- sms_roles
pub record Role : Type 0 where
  pub id : ℕ
  pub role_code : String
  pub default_name : String
  pub status : String

-- sms_tenants
pub record TenantAccount : Type 0 where
  pub id : ℕ
  pub display_name : String
  pub status : String

-- sms_branches
pub record BranchAccount : Type 0 where
  pub id : ℕ
  pub tenant_id : ℕ
  pub display_name : String
  pub status : String

-- sms_permissions
pub record Permission : Type 0 where
  pub id : ℕ
  pub permission_key : String
  pub status : String

-- sms_role_permissions
pub record RolePermission : Type 0 where
  pub role_id : ℕ
  pub permission_id : ℕ
  pub effect : String

-- a JSON value under the key of the modules: "*", a list, a value that counts as false, any other
pub data ModuleValue : Type 0 where
  every : ModuleValue
  names : List String → ModuleValue
  nothing : ModuleValue
  other_value : ModuleValue

-- the JSON of entitlements: a dict with its keys `modules` and `enabled_modules`, a list, any other that counts as true (what counts as false is a dict with neither key)
pub data Entitlements : Type 0 where
  dict : Option ModuleValue → Option ModuleValue → Entitlements
  listed : List String → Entitlements
  scalar : Entitlements

-- sms_subscription_plans
pub record SubscriptionPlan : Type 0 where
  pub id : ℕ
  pub entitlements : Entitlements

-- sms_tenant_subscriptions
pub record TenantSubscription : Type 0 where
  pub tenant_id : ℕ
  pub plan_id : ℕ
  pub status : String
  pub starts_at : ℕ
  pub ends_at : Option ℕ
  pub entitlement_overrides : Entitlements

abbrev pub is_status : String → String → Bool
is_status wanted s = str_eq s wanted
