-- ===== src/Security/Context.antt =====
-- app/core/security/context.py. The frozen sets of role codes, permission keys and module codes are
-- lists, of which only membership is asked.
use text.Mathlib.Text.{◌==◌ as str_eq}
use sms_backend.Common.{ℕ, String, Bool, Option, List, any}

pub data ScopeType : Type 0 where
  platform tenant branch : ScopeType
  other_scope : String → ScopeType

pub record RequestContext : Type 0 where
  pub authenticated_auth_user_id : ℕ
  pub app_user_id : ℕ
  pub assignment_id : ℕ
  pub tenant_id : Option ℕ
  pub branch_id : Option ℕ
  pub canonical_role_codes : List String
  pub permission_keys : List String
  pub enabled_modules : List String
  pub scope_type : ScopeType
  pub correlation_id : Option String

-- `key in keys`
abbrev pub contains : String → List String → Bool
contains key keys = any (λ k. str_eq k key) keys

-- RequestContext.has_permission
unfoldable pub has_permission : RequestContext → String → Bool
has_permission c key = contains key c.permission_keys

-- RequestContext.has_any_permission
unfoldable pub has_any_permission : RequestContext → List String → Bool
has_any_permission c keys = any (λ k. contains k keys) c.permission_keys

-- RequestContext.has_module
unfoldable pub has_module : RequestContext → String → Bool
has_module c code = contains code c.enabled_modules
