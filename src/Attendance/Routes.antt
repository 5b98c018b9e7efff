-- ===== src/Attendance/Routes.antt =====
-- The create route of app/modules/attendance/router.py with its dependencies, the guards of
-- app/core/security/dependencies.py.
use sms_backend.Common.{ℕ, String, Option, none, some, List, [], ◌∷◌, ◌||◌, not}
use sms_backend.Models.{AttendanceSession}
use sms_backend.Database.{Env, Error, http, message, Action, or_raise, raise_if, ◌>>=◌, ◌>>◌}
use sms_backend.Security.Context.{RequestContext, has_permission, has_any_permission}
use sms_backend.Attendance.Schemas.{AttendanceSessionCreate, AttendanceSessionResponse}
use sms_backend.Attendance.Repository.{get_session_by_section_and_date}
use sms_backend.Attendance.Responses.{build_session_response}
use sms_backend.Attendance.Service.{create_daily_session}

-- the tenant and the branch of a context, where it has both
unfoldable pub branch_scope : RequestContext → Option (ℕ × ℕ)
branch_scope context = elim context.tenant_id [
  | none ↦ none
  | some t ↦ elim context.branch_id [ none ↦ none | some b ↦ some (t, b) ]
]

abbrev pub out_of_scope : Error
out_of_scope = http 403 (message "Branch scope required.")

abbrev pub permission_denied : Error
permission_denied = http 403 (message "Permission denied.")

-- branch_scope_dependency (`require_branch_scope`), with the tenant and the branch that the route asserts
unfoldable pub branch_scope_dependency : RequestContext → Action (ℕ × ℕ)
branch_scope_dependency context = or_raise (branch_scope context) out_of_scope

-- require_any_permission
unfoldable pub require_any_permission : List String → RequestContext → Action (Unit {0})
require_any_permission permission_keys context =
    raise_if (not (has_any_permission context permission_keys)) permission_denied

-- attendance_create_dependency
abbrev pub create_permissions : List String
create_permissions = "attendance.mark" ∷ "attendance.submit" ∷ "attendance.view" ∷ []

abbrev pub cannot_create : Error
cannot_create =
    http 403
      (message "Permission denied. You can view existing sessions but cannot create new ones.")

-- the end of the create route, on the session that the section and date already have
unfoldable pub route_existing :
    Env
    → AttendanceSessionCreate
    → ℕ
    → ℕ
    → RequestContext
    → Option AttendanceSession
    → Action AttendanceSessionResponse
route_existing env payload tenant_id branch_id context (some existing) =
    build_session_response env existing
route_existing env payload tenant_id branch_id context none = do
  raise_if
      (not (has_permission context "attendance.mark" || has_permission context "attendance.submit"))
      cannot_create
  create_daily_session env payload tenant_id branch_id context.app_user_id

-- the create route behind its dependencies
unfoldable pub create_in_scope :
    Env → AttendanceSessionCreate → RequestContext → ℕ × ℕ → Action AttendanceSessionResponse
create_in_scope env payload context (tenant_id, branch_id) = do
  existing ← get_session_by_section_and_date payload.section_id payload.attendance_date
  route_existing env payload tenant_id branch_id context existing

-- router.create_session
unfoldable pub create_session_route :
    Env → AttendanceSessionCreate → RequestContext → Action AttendanceSessionResponse
create_session_route env payload context = do
  scope ← branch_scope_dependency context
  require_any_permission create_permissions context
  create_in_scope env payload context scope
