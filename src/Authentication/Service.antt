-- ===== src/Authentication/Service.antt =====
-- app/modules/authentication/service.py, and the dependencies of app/core/security/dependencies.py
-- that ask for a context.
use text.Mathlib.Text.{◌==◌ as str_eq}
use sms_backend.Common.{
  ℕ, String, Bool, true, false, Option, none, some, List, [], ◌∷◌, ◌&&◌, ◌||◌, filter, sort_by,
  is_some, if◌then◌else◌,
}
use sms_backend.Models.Access.{
  UserRecord, ModuleValue, every, names, nothing, other_value, Entitlements, dict, listed, scalar,
  is_status,
}
use sms_backend.Security.Context.{ScopeType, RequestContext, contains}
use sms_backend.Authentication.Repository.{
  AccessTables, AssignmentRecord, get_user_by_id, list_active_assignments_for_user,
  get_active_assignment_for_user, list_permission_keys_for_role,
  get_current_subscription_entitlements,
}

pub data AccessError : Type 0 where
  -- ApplicationUserNotMappedError
  user_not_mapped : AccessError
  -- ApplicationUserInactiveError
  user_inactive : AccessError
  -- InvalidAccessContextError
  invalid_context : AccessError
  -- HTTPException(403, detail)
  forbidden : String → AccessError

pub data Access (A : Type 0) : Type 0 where
  granted : A → Access A
  denied : AccessError → Access A

infixl 5 ◌>>=◌
abbrev pub ◌>>=◌ : {A B : Type 0} → Access A → (A → Access B) → Access B
granted a >>= f = f a
denied e >>= f = denied e

-- the clock, the collation and the order of Python's `sorted`
pub record AccessEnv : Type 0 where
  pub now : ℕ
  pub text_le : String → String → Bool
  pub str_le : String → String → Bool

abbrev pub may_log_in : UserRecord → Bool
may_log_in u = is_status "ACTIVE" u.status && u.login_enabled

abbrev active_user : Option UserRecord → Access UserRecord
active_user none = denied user_not_mapped
active_user (some u) = if may_log_in u then granted u else denied user_inactive

-- _require_active_user_by_id
unfoldable pub require_active_user_by_id : AccessTables → ℕ → Access UserRecord
require_active_user_by_id tables app_user_id = active_user (get_user_by_id tables app_user_id)

-- `tenant_status in {"ACTIVE", "READ_ONLY"}`
abbrev pub tenant_open : Option String → Bool
tenant_open none = false
tenant_open (some s) = is_status "ACTIVE" s || is_status "READ_ONLY" s

abbrev pub branch_open : Option String → Bool
branch_open none = false
branch_open (some s) = is_status "ACTIVE" s

abbrev pub scope_open : ScopeType → Option String → Option String → Bool
scope_open ScopeType.platform tenant_status branch_status = true
scope_open ScopeType.tenant tenant_status branch_status = tenant_open tenant_status
scope_open ScopeType.branch tenant_status branch_status =
    tenant_open tenant_status && branch_open branch_status
scope_open (ScopeType.other_scope _) tenant_status branch_status = false

-- _assignment_is_usable
unfoldable pub assignment_is_usable : AssignmentRecord → Bool
assignment_is_usable a =
    if is_status "ACTIVE" a.role_status
    then scope_open a.scope_type a.tenant_status a.branch_status
    else false

abbrev usable_assignment : Option AssignmentRecord → Access AssignmentRecord
usable_assignment none = denied invalid_context
usable_assignment (some a) = if assignment_is_usable a then granted a else denied invalid_context

-- _require_assignment
unfoldable pub require_assignment : AccessEnv → AccessTables → ℕ → ℕ → Access AssignmentRecord
require_assignment env tables user_id assignment_id =
    usable_assignment (get_active_assignment_for_user tables env.now user_id assignment_id)

abbrev pub default_tenant_modules : List String
default_tenant_modules =
    "dashboard" ∷ "institution" ∷ "branches" ∷ "users" ∷ "academic-structure" ∷ "students"
    ∷ "imports" ∷ "fees" ∷ "attendance" ∷ "examinations" ∷ "notifications" ∷ "reports" ∷ "audit"
    ∷ "support" ∷ "parent-portal" ∷ []

abbrev pub platform_modules : List String
platform_modules = "dashboard" ∷ "platform-admin" ∷ "audit" ∷ "reports" ∷ []

-- `x or y` on the values of the two keys
abbrev or_else : Option ModuleValue → Option ModuleValue → Option ModuleValue
or_else (some every) e = some every
or_else (some (names (x ∷ xs))) e = some (names (x ∷ xs))
or_else (some other_value) e = some other_value
or_else (some (names [])) e = e
or_else (some nothing) e = e
or_else none e = e

abbrev modules_entry : Entitlements → Option ModuleValue
modules_entry (dict m e) = or_else m e
modules_entry (listed _) = none
modules_entry scalar = none

abbrev module_list : (String → String → Bool) → Option ModuleValue → List String
module_list le none = []
module_list le (some every) = default_tenant_modules
module_list le (some (names xs)) = sort_by le xs
module_list le (some nothing) = []
module_list le (some other_value) = []

abbrev is_platform : ScopeType → Bool
is_platform ScopeType.platform = true
is_platform _ = false

-- _resolve_enabled_modules
unfoldable pub resolve_enabled_modules : AccessEnv → AccessTables → AssignmentRecord → List String
resolve_enabled_modules env tables a =
    if is_platform a.scope_type
    then platform_modules
    else module_list env.str_le
        (modules_entry (get_current_subscription_entitlements tables env.now a.tenant_id))

-- the modules of `_active_context`: a guardian sees the parent portal at most
unfoldable pub context_modules : AccessEnv → AccessTables → AssignmentRecord → List String
context_modules env tables a =
    let modules = resolve_enabled_modules env tables a in
    if str_eq a.role_code "PARENT_GUARDIAN"
    then filter (λ m. str_eq m "parent-portal") modules
    else modules

abbrev or_id : Option ℕ → ℕ → ℕ
or_id none id = id
or_id (some auth) id = auth

-- the context of `resolve_request_context`, by way of `_active_context`
unfoldable pub context_of :
    AccessEnv → AccessTables → UserRecord → AssignmentRecord → Option String → RequestContext
context_of env tables u a correlation_id = record {
  authenticated_auth_user_id = or_id u.auth_user_id u.id;
  app_user_id = u.id;
  assignment_id = a.id;
  tenant_id = a.tenant_id;
  branch_id = a.branch_id;
  canonical_role_codes = a.role_code ∷ [];
  permission_keys = list_permission_keys_for_role env.text_le tables a.role_id;
  enabled_modules = context_modules env tables a;
  scope_type = a.scope_type;
  correlation_id = correlation_id;
}

-- resolve_request_context
unfoldable pub resolve_request_context :
    AccessEnv → AccessTables → ℕ → ℕ → Option String → Access RequestContext
resolve_request_context env tables app_user_id assignment_id correlation_id =
    require_active_user_by_id tables app_user_id >>= λ user.
    require_assignment env tables user.id assignment_id >>= λ assignment.
    granted (context_of env tables user assignment correlation_id)

abbrev only_one : List AssignmentRecord → Option ℕ
only_one [] = none
only_one (a ∷ []) = some a.id
only_one (a ∷ b ∷ rest) = none

-- `resolve_current_user(…).active_context.assignment_id` without a requested assignment
unfoldable pub default_assignment : AccessEnv → AccessTables → ℕ → Access (Option ℕ)
default_assignment env tables app_user_id = require_active_user_by_id tables app_user_id >>= λ user.
    granted (
      only_one
        (filter assignment_is_usable (list_active_assignments_for_user tables env.now user.id)))

abbrev chosen : Option ℕ → Access ℕ
chosen none = denied (forbidden "Access context is required.")
chosen (some id) = granted id

abbrev pub requested_or_default : AccessEnv → AccessTables → ℕ → Option ℕ → Access ℕ
requested_or_default env tables app_user_id (some id) = granted id
requested_or_default env tables app_user_id none =
    default_assignment env tables app_user_id >>= chosen

-- get_request_context, for the user of a verified token
unfoldable pub get_request_context :
    AccessEnv → AccessTables → ℕ → Option ℕ → Option String → Access RequestContext
get_request_context env tables app_user_id header correlation_id =
    requested_or_default env tables app_user_id header >>= λ id.
    resolve_request_context env tables app_user_id id correlation_id

-- require_permission
unfoldable pub require_permission : String → RequestContext → Access RequestContext
require_permission key c =
    if contains key c.permission_keys then granted c else denied (forbidden "Permission denied.")

-- require_enabled_module
unfoldable pub require_enabled_module : String → RequestContext → Access RequestContext
require_enabled_module code c =
    if contains code c.enabled_modules then granted c else denied (forbidden "Module disabled.")

-- require_branch_scope
unfoldable pub require_branch_scope : RequestContext → Access RequestContext
require_branch_scope c =
    if is_some c.tenant_id && is_some c.branch_id
    then granted c
    else denied (forbidden "Branch scope required.")
