-- ===== src/Authentication/Grants.antt =====
-- The rows of the tables that an assignment of app/modules/authentication/repository.py stands on.
use text.Mathlib.Text.{◌==◌ as str_eq}
use sms_backend.Common.{
  ℕ, ◌≤◌, leb, arith, ◌≡◌, refl, ap, Bool, true, false, Option, none, some, ◌==◌, ◌&&◌, ◌||◌, All,
  inl, inr, Bool-cases, filter, All-filter_where, All-filter, All-map, All-mono, All-join,
  All-outer_join, All-IsIn, IsIn, first-All, ==→eq, eq_opt,
}
use sms_backend.Models.Access.{Role, TenantAccount, BranchAccount, is_status}
use sms_backend.Security.Context.{ScopeType}
use sms_backend.Authentication.Repository.{
  AccessTables, AssignmentRecord, UserAccessAssignment, get_active_assignment_for_user,
  assignment_select, assignment_from_row, in_force, not_ended,
}
use sms_backend.Authentication.Service.{assignment_is_usable, scope_open, tenant_open, branch_open}

-- The scope of an assignment is open: the tenant is active or read-only, and the branch is active.
abbrev pub ScopeIsOpen : ScopeType → Option TenantAccount → Option BranchAccount → Type 0
ScopeIsOpen ScopeType.platform t b = Unit
ScopeIsOpen ScopeType.tenant none b = ⊥
ScopeIsOpen ScopeType.tenant (some t) b =
    (str_eq t.status "ACTIVE" || str_eq t.status "READ_ONLY") ≡ true
ScopeIsOpen ScopeType.branch none b = ⊥
ScopeIsOpen ScopeType.branch (some t) none = ⊥
ScopeIsOpen ScopeType.branch (some t) (some b) =
    ((str_eq t.status "ACTIVE" || str_eq t.status "READ_ONLY") ≡ true)
    × (str_eq b.status "ACTIVE" ≡ true)
ScopeIsOpen (ScopeType.other_scope _) t b = ⊥

-- the tenant of an assignment, a row of the tables, if there is one
abbrev pub TenantOf : AccessTables → UserAccessAssignment → Option TenantAccount → Type 0
TenantOf tables row none = Unit
TenantOf tables row (some t) = IsIn t tables.tenants × (row.tenant_id ≡ some t.id)

-- the branch of an assignment, a row of the tables and of the assignment's tenant, if there is one
abbrev pub BranchOf : AccessTables → UserAccessAssignment → Option BranchAccount → Type 0
BranchOf tables row none = Unit
BranchOf tables row (some b) =
    IsIn b tables.branches × (row.tenant_id ≡ some b.tenant_id) × (row.branch_id ≡ some b.id)

-- the assignment, its role, its tenant and its branch are rows of the tables
abbrev pub Linked :
    AccessTables
    → UserAccessAssignment
    → Role
    → Option TenantAccount
    → Option BranchAccount
    → Type 0
Linked tables row role t b =
    IsIn row tables.assignments
    × IsIn role tables.roles
    × (row.role_id ≡ role.id)
    × TenantOf tables row t
    × BranchOf tables row b

-- An assignment of the query stands on rows of the tables.
abbrev pub Rows : AccessTables → AssignmentRecord → Type 0
Rows tables a =
    (row : UserAccessAssignment) × (role : Role) × (t : Option TenantAccount) × (b : Option
      BranchAccount)
    × Linked tables row role t b
    × (a ≡ assignment_from_row (((row, role), t), b))

equal_id : (k : Option ℕ) (id : ℕ) → eq_opt k id ≡ true → k ≡ some id
equal_id none id e = absurd (cc e)
equal_id (some k) id e = ap some (==→eq k id e)

pub both_true : (a b : Bool) → (a && b) ≡ true → (a ≡ true) × (b ≡ true)
both_true true b e = (refl, e)
both_true false b e = absurd (cc e)

module _ (tables : AccessTables) where
  abbrev OfRole : UserAccessAssignment × Role → Type 0
  OfRole (a, r) = IsIn a tables.assignments × IsIn r tables.roles × (a.role_id ≡ r.id)

  abbrev OfTenant : (UserAccessAssignment × Role) × Option TenantAccount → Type 0
  OfTenant (x, t) = OfRole x × TenantOf tables x.0 t

  abbrev OfBranch :
      ((UserAccessAssignment × Role) × Option TenantAccount) × Option BranchAccount → Type 0
  OfBranch (x, b) = OfTenant x × BranchOf tables x.0.0 b

  assignment_select-Rows : All (Rows tables) (assignment_select tables)
  unfolding assignment_select
  assignment_select-Rows = All-map (Rows tables) assignment_from_row _ (
      All-mono OfBranch _ _
        (λ (((a, r), t), b) (((i, j, k), l), m). (a, r, t, b, (i, j, k, l, m), refl))
        (All-outer_join _ tables.branches OfTenant OfBranch _ (λ x h. (h, tt))
          (λ x b h i on.
            let (same_tenant, same_branch) =
              both_true (eq_opt x.0.0.tenant_id b.tenant_id) (eq_opt x.0.0.branch_id b.id) on in
            (h, (i, equal_id _ _ same_tenant, equal_id _ _ same_branch)))
          (All-outer_join _ tables.tenants OfRole OfTenant _ (λ x h. (h, tt))
            (λ x t h i on. (h, (i, equal_id _ _ on)))
            (All-join _ tables.roles (λ a. IsIn a tables.assignments) OfRole tables.assignments
              (λ a r h i on. (h, i, ==→eq a.role_id r.id on)) (All-IsIn tables.assignments)))))

  pub found_in_force :
      (now user_id id : ℕ) (a : AssignmentRecord)
      → get_active_assignment_for_user tables now user_id id ≡ some a
      → (a.id ≡ id) × (in_force now user_id a ≡ true) × Rows tables a
  unfolding get_active_assignment_for_user
  found_in_force now user_id id a e =
      let q : AssignmentRecord → Bool = λ x. x.id == id && in_force now user_id x in
      let (same, valid) = both_true (a.id == id) (in_force now user_id a) (
        first-All (λ x. q x ≡ true) (filter q (assignment_select tables))
          (All-filter_where (λ x. q x ≡ true) q (assignment_select tables) (λ x t. t)) e) in
      (
        ==→eq a.id id same,
        valid,
        first-All (Rows tables) (filter q (assignment_select tables))
            (All-filter (Rows tables) q _ assignment_select-Rows) e,
      )

-- the parts of the WHERE
pub in_force-parts :
    (now user_id : ℕ) (a : AssignmentRecord)
    → in_force now user_id a ≡ true
    → (a.user_id ≡ user_id)
      × (str_eq a.status "ACTIVE" ≡ true)
      × (a.valid_from ≤ now)
      × (not_ended now a.valid_until ≡ true)
in_force-parts now user_id a e =
    let of_user_active = a.user_id == user_id && is_status "ACTIVE" a.status in
    let (v1, running) =
      both_true (of_user_active && leb a.valid_from now) (not_ended now a.valid_until) e in
    let (v2, started) = both_true of_user_active (leb a.valid_from now) v1 in
    let (of_user, active) = both_true (a.user_id == user_id) (is_status "ACTIVE" a.status) v2 in
    (==→eq a.user_id user_id of_user, active, ground arith, running)

-- what `_assignment_is_usable` asks of the rows
pub scope_open-ScopeIsOpen :
    (row : UserAccessAssignment) (role : Role) (t : Option TenantAccount) (b : Option BranchAccount)
    → scope_open row.scope_type
        (assignment_from_row (((row, role), t), b)).tenant_status
        (assignment_from_row (((row, role), t), b)).branch_status
      ≡ true
    → ScopeIsOpen row.scope_type t b
unfolding assignment_from_row
scope_open-ScopeIsOpen row role t b e = go row.scope_type t b e
  where
    go :
        (st : ScopeType) (t : Option TenantAccount) (b : Option BranchAccount)
        → scope_open st
            (assignment_from_row (((row, role), t), b)).tenant_status
            (assignment_from_row (((row, role), t), b)).branch_status
          ≡ true
        → ScopeIsOpen st t b
    go ScopeType.platform t b e = tt
    go ScopeType.tenant none b e = absurd (cc e)
    go ScopeType.tenant (some t) b e = e
    go ScopeType.branch none b e = absurd (cc e)
    go ScopeType.branch (some t) none e =
        absurd (cc ((both_true (tenant_open (some t.status)) false e).1))
    go ScopeType.branch (some t) (some b) e =
        both_true (tenant_open (some t.status)) (branch_open (some b.status)) e
    go (ScopeType.other_scope _) t b e = absurd (cc e)

pub usable_open :
    (a : AssignmentRecord)
    → assignment_is_usable a ≡ true
    → (is_status "ACTIVE" a.role_status ≡ true)
      × (scope_open a.scope_type a.tenant_status a.branch_status ≡ true)
unfolding assignment_is_usable
usable_open a t = elim (Bool-cases (is_status "ACTIVE" a.role_status)) [
  | inl active ↦ (active, rw active at t)
  | inr inactive ↦ absurd (cc (rw inactive at t))
]
