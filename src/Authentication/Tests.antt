-- ===== src/Authentication/Tests.antt =====
-- A teacher and a guardian on whom the theorems on contexts are applied.
use text.Mathlib.Text.{◌==◌ as str_eq}
use sms_backend.Common.{ℕ, ◌≡◌, refl, String, true, none, some, [], ◌∷◌, All}
use sms_backend.Models.Access.{UserRecord, every, dict}
use sms_backend.Security.Context.{ScopeType, RequestContext}
use sms_backend.Authentication.Repository.{
  AccessTables, AssignmentRecord, get_user_by_id, get_active_assignment_for_user, assignment_select,
  assignment_from_row,
}
use sms_backend.Authentication.Service.{
  AccessEnv, granted, context_of, get_request_context, assignment_is_usable,
  resolve_request_context, require_active_user_by_id, require_assignment,
}
use sms_backend.Authentication.Contexts.{Backed, get_request_context-Backed, guardian_modules}

abbrev env : AccessEnv
env = record { now = 50; text_le = λ _ _. true; str_le = λ _ _. true }

-- one user with one assignment, of the role with the code
abbrev tables : String → AccessTables
tables code = record {
  users =
      record {
        id = 7;
        auth_user_id = none;
        full_name = "Meera";
        status = "ACTIVE";
        login_enabled = true;
      }
      ∷ [];
  assignments =
      record {
        id = 60;
        user_id = 7;
        role_id = 5;
        scope_type = ScopeType.branch;
        tenant_id = some 1;
        branch_id = some 2;
        status = "ACTIVE";
        valid_from = 10;
        valid_until = none;
      }
      ∷ [];
  roles = record { id = 5; role_code = code; default_name = code; status = "ACTIVE" } ∷ [];
  tenants = record { id = 1; display_name = "Trust"; status = "READ_ONLY" } ∷ [];
  branches = record { id = 2; tenant_id = 1; display_name = "North"; status = "ACTIVE" } ∷ [];
  permissions = record { id = 3; permission_key = "attendance.mark"; status = "ACTIVE" } ∷ [];
  role_permissions = record { role_id = 5; permission_id = 3; effect = "GRANT" } ∷ [];
  plans = record { id = 4; entitlements = dict (some every) none } ∷ [];
  subscriptions =
      record {
        tenant_id = 1;
        plan_id = 4;
        status = "TRIAL";
        starts_at = 20;
        ends_at = none;
        entitlement_overrides = dict none none;
      }
      ∷ [];
}

abbrev assignment : String → AssignmentRecord
assignment code = record {
  id = 60;
  user_id = 7;
  role_id = 5;
  role_code = code;
  role_label = code;
  role_status = "ACTIVE";
  scope_type = ScopeType.branch;
  tenant_id = some 1;
  tenant_name = some "Trust";
  tenant_status = some "READ_ONLY";
  branch_id = some 2;
  branch_name = some "North";
  branch_status = some "ACTIVE";
  status = "ACTIVE";
  valid_from = 10;
  valid_until = none;
}

abbrev user : UserRecord
user = record {
  id = 7;
  auth_user_id = none;
  full_name = "Meera";
  status = "ACTIVE";
  login_enabled = true;
}

abbrev context : String → RequestContext
context code = context_of env (tables code) user (assignment code) none

abbrev teacher : AccessTables
teacher = tables "TEACHER"

abbrev guardian : AccessTables
guardian = tables "PARENT_GUARDIAN"

-- The contexts that the two callers get.
contexts_granted :
    (get_request_context env teacher 7 (some 60) none ≡ granted (context "TEACHER"))
    × (get_request_context env guardian 7 (some 60) none ≡ granted (context "PARENT_GUARDIAN"))
    × (get_user_by_id teacher 7 ≡ some user)
unfolding get_request_context resolve_request_context require_active_user_by_id require_assignment
    get_user_by_id get_active_assignment_for_user assignment_select assignment_from_row
    assignment_is_usable context_of
contexts_granted = (refl, refl, refl)

get_request_context-Backed_example :
    Backed env teacher 7 none (context "TEACHER")
    × ((id : ℕ) → some 60 ≡ some id → (context "TEACHER").assignment_id ≡ id)
get_request_context-Backed_example =
    get_request_context-Backed env teacher 7 (some 60) none (context "TEACHER") contexts_granted.0

guardian_role : (context "PARENT_GUARDIAN").canonical_role_codes ≡ "PARENT_GUARDIAN" ∷ []
unfolding context_of
guardian_role = refl

guardian_modules_example :
    All (λ m. str_eq m "parent-portal" ≡ true) (context "PARENT_GUARDIAN").enabled_modules
guardian_modules_example =
    guardian_modules env guardian 7 (some 60) none (context "PARENT_GUARDIAN") contexts_granted.1
      guardian_role
