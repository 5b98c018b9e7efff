-- ===== src/Authentication/Repository.antt =====
-- app/modules/authentication/repository.py: the queries that an access context is built from.
use text.Mathlib.Text.{◌==◌ as str_eq}
use sms_backend.Common.{
  ℕ, String, Bool, true, Option, none, some, List, [], ◌∷◌, ◌==◌, ◌&&◌, ◌||◌, filter, first, map,
  join, outer_join, sort_by, leb, ltb, eq_opt,
}
use sms_backend.Models.Access.{
  UserRecord, Role, TenantAccount, BranchAccount, Permission, RolePermission, ModuleValue, names,
  Entitlements, dict, listed, scalar, SubscriptionPlan, TenantSubscription, is_status,
}
use sms_backend.Security.Context.{ScopeType}

-- sms_user_access_assignments
pub record UserAccessAssignment : Type 0 where
  pub id : ℕ
  pub user_id : ℕ
  pub role_id : ℕ
  pub scope_type : ScopeType
  pub tenant_id : Option ℕ
  pub branch_id : Option ℕ
  pub status : String
  pub valid_from : ℕ
  pub valid_until : Option ℕ

pub record AccessTables : Type 0 where
  pub users : List UserRecord
  pub assignments : List UserAccessAssignment
  pub roles : List Role
  pub tenants : List TenantAccount
  pub branches : List BranchAccount
  pub permissions : List Permission
  pub role_permissions : List RolePermission
  pub plans : List SubscriptionPlan
  pub subscriptions : List TenantSubscription

-- AssignmentRecord, the row of `_assignment_select`
pub record AssignmentRecord : Type 0 where
  pub id : ℕ
  pub user_id : ℕ
  pub role_id : ℕ
  pub role_code : String
  pub role_label : String
  pub role_status : String
  pub scope_type : ScopeType
  pub tenant_id : Option ℕ
  pub tenant_name : Option String
  pub tenant_status : Option String
  pub branch_id : Option ℕ
  pub branch_name : Option String
  pub branch_status : Option String
  pub status : String
  pub valid_from : ℕ
  pub valid_until : Option ℕ

-- get_user_by_id
unfoldable pub get_user_by_id : AccessTables → ℕ → Option UserRecord
get_user_by_id tables user_id = first (filter (λ u. u.id == user_id) tables.users)

abbrev of_tenant : {A : Type 0} → (TenantAccount → A) → Option TenantAccount → Option A
of_tenant f none = none
of_tenant f (some t) = some (f t)

abbrev of_branch : {A : Type 0} → (BranchAccount → A) → Option BranchAccount → Option A
of_branch f none = none
of_branch f (some b) = some (f b)

abbrev AssignmentJoin : Type 0
AssignmentJoin = ((UserAccessAssignment × Role) × Option TenantAccount) × Option BranchAccount

unfoldable pub assignment_from_row : AssignmentJoin → AssignmentRecord
assignment_from_row (((a, r), t), b) = record {
  id = a.id;
  user_id = a.user_id;
  role_id = a.role_id;
  role_code = r.role_code;
  role_label = r.default_name;
  role_status = r.status;
  scope_type = a.scope_type;
  tenant_id = a.tenant_id;
  tenant_name = of_tenant (λ x. x.display_name) t;
  tenant_status = of_tenant (λ x. x.status) t;
  branch_id = a.branch_id;
  branch_name = of_branch (λ x. x.display_name) b;
  branch_status = of_branch (λ x. x.status) b;
  status = a.status;
  valid_from = a.valid_from;
  valid_until = a.valid_until;
}

-- _assignment_select
unfoldable pub assignment_select : AccessTables → List AssignmentRecord
assignment_select tables = map assignment_from_row (
    outer_join
      (λ (row : (UserAccessAssignment × Role) × Option TenantAccount) b.
        eq_opt row.0.0.tenant_id b.tenant_id && eq_opt row.0.0.branch_id b.id)
      (outer_join (λ (row : UserAccessAssignment × Role) t. eq_opt row.0.tenant_id t.id)
        (join (λ a r. a.role_id == r.id) tables.assignments tables.roles) tables.tenants)
      tables.branches)

abbrev pub not_ended : ℕ → Option ℕ → Bool
not_ended now none = true
not_ended now (some t) = ltb now t

-- the WHERE of the two queries for assignments
abbrev pub in_force : ℕ → ℕ → AssignmentRecord → Bool
in_force now user_id a =
    a.user_id == user_id
    && is_status "ACTIVE" a.status
    && leb a.valid_from now
    && not_ended now a.valid_until

-- list_active_assignments_for_user
unfoldable pub list_active_assignments_for_user : AccessTables → ℕ → ℕ → List AssignmentRecord
list_active_assignments_for_user tables now user_id =
    filter (in_force now user_id) (assignment_select tables)

-- get_active_assignment_for_user
unfoldable pub get_active_assignment_for_user : AccessTables → ℕ → ℕ → ℕ → Option AssignmentRecord
get_active_assignment_for_user tables now user_id assignment_id =
    first (filter (λ a. a.id == assignment_id && in_force now user_id a) (assignment_select tables))

-- list_permission_keys_for_role, in the order of the collation
unfoldable pub list_permission_keys_for_role :
    (String → String → Bool) → AccessTables → ℕ → List String
list_permission_keys_for_role text_le tables role_id =
    map (λ (row : RolePermission × Permission). row.1.permission_key)
      (sort_by (λ x y. text_le x.1.permission_key y.1.permission_key)
        (filter
          (λ row.
            row.0.role_id == role_id
            && is_status "GRANT" row.0.effect
            && is_status "ACTIVE" row.1.status)
          (join (λ g p. g.permission_id == p.id) tables.role_permissions tables.permissions)))

-- `{**plan, **overrides}` at one key
abbrev overridden : Option ModuleValue → Option ModuleValue → Option ModuleValue
overridden plan none = plan
overridden plan (some value) = some value

-- `value or {}`
abbrev or_empty : Entitlements → Entitlements
or_empty (dict m e) = dict m e
or_empty (listed []) = dict none none
or_empty (listed (x ∷ xs)) = listed (x ∷ xs)
or_empty scalar = scalar

abbrev merged : Entitlements → Entitlements → Entitlements
merged (dict m e) (dict m' e') = dict (overridden m m') (overridden e e')
merged (listed xs) overrides = dict (some (names xs)) none
merged (dict m e) (listed xs) = dict none none
merged (dict m e) scalar = dict none none
merged scalar overrides = dict none none

abbrev plan_of : Option (TenantSubscription × SubscriptionPlan) → Entitlements
plan_of none = dict (some (names [])) none
plan_of (some (s, p)) = merged (or_empty p.entitlements) (or_empty s.entitlement_overrides)

abbrev running : String → Bool
running s = str_eq s "TRIAL" || str_eq s "ACTIVE" || str_eq s "GRACE" || str_eq s "PAUSED"

-- get_current_subscription_entitlements
unfoldable pub get_current_subscription_entitlements : AccessTables → ℕ → Option ℕ → Entitlements
get_current_subscription_entitlements tables now none =
    dict (some (names ("dashboard" ∷ "platform-admin" ∷ "audit" ∷ "reports" ∷ []))) none
get_current_subscription_entitlements tables now (some tenant_id) = plan_of (
    first (
      sort_by (λ x y. leb y.0.starts_at x.0.starts_at)
        (filter
          (λ (row : TenantSubscription × SubscriptionPlan).
            row.0.tenant_id == tenant_id
            && running row.0.status
            && leb row.0.starts_at now
            && not_ended now row.0.ends_at)
          (join (λ s p. s.plan_id == p.id) tables.subscriptions tables.plans))))
