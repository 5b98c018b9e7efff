-- ===== src/Authentication/Contexts.antt =====
-- Which contexts a caller can get.
use text.Mathlib.Text.{◌==◌ as str_eq}
use sms_backend.Common.{
  ℕ, ◌≤◌, ◌≡◌, refl, String, true, Option, none, some, List, [], ◌∷◌, All, inl, inr, Bool-cases,
  Option-cases, sym, ap, subst, ◌∙◌, All-filter_where,
}
use sms_backend.Models.Access.{UserRecord, Role, TenantAccount, BranchAccount, is_status}
use sms_backend.Security.Context.{RequestContext}
use sms_backend.Authentication.Repository.{
  AccessTables, AssignmentRecord, UserAccessAssignment, get_user_by_id,
  get_active_assignment_for_user, in_force, not_ended, assignment_from_row,
  list_permission_keys_for_role,
}
use sms_backend.Authentication.Service.{
  AccessEnv, Access, granted, denied, may_log_in, require_active_user_by_id, require_assignment,
  assignment_is_usable, context_of, resolve_request_context, get_request_context,
  requested_or_default, ◌>>=◌, context_modules, resolve_enabled_modules,
}
use sms_backend.Authentication.Grants.{
  ScopeIsOpen, Linked, Rows, both_true, in_force-parts, found_in_force, scope_open-ScopeIsOpen,
  usable_open,
}

-- The rows of the tables that a context stands on.
pub record Backed (env : AccessEnv) (tables : AccessTables) (app_user_id : ℕ)
    (correlation_id : Option String) (c : RequestContext) : Type 0 where
  pub user : UserRecord
  pub row : UserAccessAssignment
  pub role : Role
  pub tenant : Option TenantAccount
  pub branch : Option BranchAccount
  pub is_user : get_user_by_id tables app_user_id ≡ some user
  pub active : (str_eq user.status "ACTIVE" ≡ true) × (user.login_enabled ≡ true)
  pub linked : Linked tables row role tenant branch
  pub of_user : row.user_id ≡ user.id
  pub row_active : str_eq row.status "ACTIVE" ≡ true
  pub started : row.valid_from ≤ env.now
  pub running : not_ended env.now row.valid_until ≡ true
  pub role_active : str_eq role.status "ACTIVE" ≡ true
  pub scope_is_open : ScopeIsOpen row.scope_type tenant branch
  pub same_user : c.app_user_id ≡ user.id
  pub same_assignment : c.assignment_id ≡ row.id
  pub same_tenant : c.tenant_id ≡ row.tenant_id
  pub same_branch : c.branch_id ≡ row.branch_id
  pub same_scope : c.scope_type ≡ row.scope_type
  pub same_role : c.canonical_role_codes ≡ role.role_code ∷ []
  pub same_permissions :
      c.permission_keys ≡ list_permission_keys_for_role env.text_le tables row.role_id
  pub same_modules :
      c.enabled_modules
      ≡ context_modules env tables (assignment_from_row (((row, role), tenant), branch))

granted_same : {a b : RequestContext} → Path (Access RequestContext) (granted a) (granted b) → a ≡ b
granted_same e = cc

module _ (env : AccessEnv) (tables : AccessTables) (app_user_id : ℕ) where
  -- a context of a usable assignment that is in force
  context_of-Backed :
      (u : UserRecord) (a : AssignmentRecord) (correlation_id : Option String)
      → get_user_by_id tables app_user_id ≡ some u
      → may_log_in u ≡ true
      → in_force env.now u.id a ≡ true
      → assignment_is_usable a ≡ true
      → Rows tables a
      → Backed env tables app_user_id correlation_id (context_of env tables u a correlation_id)
  unfolding context_of assignment_from_row
  context_of-Backed u a k is_u active valid usable (row, role, t, b, linked, same) =
      let made = assignment_from_row (((row, role), t), b) in
      let (of_user, row_active, started, running) =
        in_force-parts env.now u.id made (subst (λ x. in_force env.now u.id x ≡ true) same valid) in
      let (role_active, open_) =
        usable_open made (subst (λ x. assignment_is_usable x ≡ true) same usable) in
      subst (λ x. Backed env tables app_user_id k (context_of env tables u x k)) (sym same)
        (record {
          user = u;
          row = row;
          role = role;
          tenant = t;
          branch = b;
          is_user = is_u;
          active = both_true (is_status "ACTIVE" u.status) u.login_enabled active;
          linked = linked;
          of_user = of_user;
          row_active = row_active;
          started = started;
          running = running;
          role_active = role_active;
          scope_is_open = scope_open-ScopeIsOpen row role t b open_;
          same_user = refl;
          same_assignment = refl;
          same_tenant = refl;
          same_branch = refl;
          same_scope = refl;
          same_role = refl;
          same_permissions = refl;
          same_modules = refl;
        })

  resolve_request_context-Backed :
      (id : ℕ) (correlation_id : Option String) (c : RequestContext)
      → resolve_request_context env tables app_user_id id correlation_id ≡ granted c
      → Backed env tables app_user_id correlation_id c × (c.assignment_id ≡ id)
  unfolding resolve_request_context require_active_user_by_id require_assignment context_of
  resolve_request_context-Backed id k c e =
      elim (Option-cases (get_user_by_id tables app_user_id)) [
        | inl unknown ↦ absurd (cc (rw unknown at e))
        | inr (u, is_u) ↦ elim (Bool-cases (may_log_in u)) [
          | inr blocked ↦ absurd (cc (rw (is_u, blocked) at e))
          | inl active ↦
              elim (Option-cases (get_active_assignment_for_user tables env.now u.id id)) [
                | inl without ↦ absurd (cc (rw (is_u, active, without) at e))
                | inr (a, is_a) ↦ elim (Bool-cases (assignment_is_usable a)) [
                  | inr closed ↦ absurd (cc (rw (is_u, active, is_a, closed) at e))
                  | inl usable ↦
                      let is_c = granted_same (rw (is_u, active, is_a, usable) at e) in
                      let (same_id, valid, rows) = found_in_force tables env.now u.id id a is_a in
                      (
                        subst (Backed env tables app_user_id k) is_c
                            (context_of-Backed u a k is_u active valid usable rows),
                        ap (λ (x : RequestContext). x.assignment_id) (sym is_c) ∙ same_id,
                      )
                ]
              ]
        ]
      ]

  -- A context that is granted to the user of a token stands on rows of the tables: on that user, who is
  -- active and may log in, on an assignment of the user that is active, has started and has not ended,
  -- on its role, which is active, and on its tenant and branch, which are open as its scope asks. User,
  -- assignment, tenant, branch, scope, role, permissions and modules of the context are theirs, and where
  -- the caller names an assignment it is that one.
  pub get_request_context-Backed :
      (header : Option ℕ) (correlation_id : Option String) (c : RequestContext)
      → get_request_context env tables app_user_id header correlation_id ≡ granted c
      → Backed env tables app_user_id correlation_id c
        × ((id : ℕ) → header ≡ some id → c.assignment_id ≡ id)
  unfolding get_request_context
  get_request_context-Backed (some id) k c e =
      let (backed, same) = resolve_request_context-Backed id k c e in
      (backed, λ other is_other. same ∙ some_same is_other)
    where
      some_same : {x y : ℕ} → Path (Option ℕ) (some x) (some y) → x ≡ y
      some_same q = cc
  get_request_context-Backed none k c e =
      (go (requested_or_default env tables app_user_id none) e, λ id q. absurd (cc q))
    where
      go :
          (r : Access ℕ)
          → (r >>= λ id. resolve_request_context env tables app_user_id id k) ≡ granted c
          → Backed env tables app_user_id k c
      go (granted id) q = (resolve_request_context-Backed id k c q).0
      go (denied x) q = absurd (cc q)

  context_modules-guardian :
      (a : AssignmentRecord)
      → a.role_code ≡ "PARENT_GUARDIAN"
      → All (λ m. str_eq m "parent-portal" ≡ true) (context_modules env tables a)
  unfolding context_modules
  context_modules-guardian a is_role = rw is_role (
      All-filter_where (λ m. str_eq m "parent-portal" ≡ true) (λ m. str_eq m "parent-portal")
        (resolve_enabled_modules env tables (record a { role_code = "PARENT_GUARDIAN" }))
        (λ m t. t))

  -- A context of a guardian has no module but the parent portal.
  pub guardian_modules :
      (header : Option ℕ) (correlation_id : Option String) (c : RequestContext)
      → get_request_context env tables app_user_id header correlation_id ≡ granted c
      → c.canonical_role_codes ≡ "PARENT_GUARDIAN" ∷ []
      → All (λ m. str_eq m "parent-portal" ≡ true) c.enabled_modules
  unfolding assignment_from_row
  guardian_modules header k c e guardian =
      let b = (get_request_context-Backed header k c e).0 in
      subst (All (λ m. str_eq m "parent-portal" ≡ true)) (sym b.same_modules) (
        context_modules-guardian (assignment_from_row (((b.row, b.role), b.tenant), b.branch))
          (head_same (sym b.same_role ∙ guardian)))
    where
      head_same : {x y : String} → Path (List String) (x ∷ []) (y ∷ []) → x ≡ y
      head_same q = cc
