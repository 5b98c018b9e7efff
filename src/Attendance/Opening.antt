-- ===== src/Attendance/Opening.antt =====
-- Opening the session of a section and a date (the create route and `create_daily_session`).
use sms_backend.Common.{
  ℕ, ◌≡◌, refl, ap, sym, ◌∙◌, subst, Bool, true, false, ◌&&◌, ◌||◌, List, [], ◌∷◌, ◌++◌, ◌==◌, ltb,
  inl, inr, Bool-cases, Option, none, some, first, filter, Option-cases, not, ◌⊎◌,
}
use sms_backend.Models.{AttendanceSession, Section, Batch}
use sms_backend.Database.{Db, Env, run_request, commit, insert_records}
use sms_backend.Security.Context.{RequestContext, has_permission, has_any_permission}
use sms_backend.Attendance.Schemas.{AttendanceSessionCreate}
use sms_backend.Attendance.Repository.{
  get_session_by_section_and_date, create_session, session_allowed,
}
use sms_backend.Attendance.Responses.{get_section_or_404, build_session_response}
use sms_backend.Attendance.Service.{create_daily_session, open_or_create, new_session}
use sms_backend.Attendance.Routes.{
  create_session_route, create_in_scope, route_existing, branch_scope_dependency, branch_scope,
  require_any_permission, create_permissions,
}
use sms_backend.Attendance.Sessions.{Evolves, Evolves-refl, Evolves-append, IsOpened}

abbrev pub on_date : AttendanceSessionCreate → AttendanceSession → Bool
on_date payload o =
    o.section_id == payload.section_id && o.attendance_date == payload.attendance_date

-- the section that a caller of the tenant and the branch may mark
abbrev pub in_reach : AttendanceSessionCreate → ℕ → ℕ → Section → Bool
in_reach payload t b o = o.id == payload.section_id && o.tenant_id == t && o.branch_id == b

-- a session that is opened for the section and the date, by the user in the tenant and branch
abbrev pub IsOpenedBy : AttendanceSessionCreate → ℕ → ℕ → ℕ → AttendanceSession → Type 0
IsOpenedBy payload t b u o =
    IsOpened o
    × (o.section_id ≡ payload.section_id)
    × (o.attendance_date ≡ payload.attendance_date)
    × (o.tenant_id ≡ t)
    × (o.branch_id ≡ b)
    × (o.opened_by ≡ u)

-- What a creation has done to the table of sessions.
pub data Opening (env : Env) (payload : AttendanceSessionCreate) (t b u : ℕ) (db after : Db)
    : Type 0 where
  unchanged :
      after.attendance_sessions ≡ db.attendance_sessions → Opening env payload t b u db after
  opened :
      (o : AttendanceSession)
      → after.attendance_sessions ≡ db.attendance_sessions ++ o ∷ []
      → IsOpenedBy payload t b u o
      → ltb env.today payload.attendance_date ≡ false
      → filter (on_date payload) db.attendance_sessions ≡ []
      → ((c : Section) × (first (filter (in_reach payload t b) db.sections) ≡ some c))
      → Opening env payload t b u db after

module _ (env : Env) (payload : AttendanceSessionCreate) (t b u : ℕ) (db : Db) where
  batch_found : Section → Option Batch
  batch_found c = first (filter (λ x. x.id == c.batch_id) db.batches)

  create_daily_session-Opening :
      filter (on_date payload) db.attendance_sessions ≡ []
      → Opening env payload t b u db (run_request (create_daily_session env payload t b u) db).1
  unfolding run_request create_daily_session get_section_or_404 get_session_by_section_and_date
      open_or_create create_session new_session commit insert_records build_session_response
  create_daily_session-Opening none_yet =
      elim (Bool-cases (ltb env.today payload.attendance_date)) [
        | inl future ↦ unchanged (rw future refl)
        | inr due ↦ elim (Option-cases (first (filter (in_reach payload t b) db.sections))) [
          | inl no_section ↦ unchanged (rw (due, no_section) refl)
          | inr (c, c_found) ↦
              elim (Option-cases (first (filter (λ x. x.id == c.batch_id) db.batches))) [
                | inl no_batch ↦ unchanged (rw (due, c_found, no_batch) refl)
                | inr (k, k_found) ↦
                    elim (Bool-cases (session_allowed db (new_session env payload t b u k))) [
                      | inr refused ↦ unchanged (rw (due, c_found, k_found, none_yet, refused) refl)
                      | inl allowed ↦
                          opened (new_session env payload t b u k)
                            (rw (due, c_found, k_found, none_yet, allowed) refl)
                            ((refl, refl, refl, refl, refl), refl, refl, refl, refl, refl) due
                            none_yet (c, c_found)
                    ]
              ]
        ]
      ]

branch_scope-cases :
    (context : RequestContext)
    → (branch_scope context ≡ none)
      ⊎ ((t : ℕ) × (b : ℕ) × (context.tenant_id ≡ some t)
          × (context.branch_id ≡ some b)
          × (branch_scope context ≡ some (t, b)))
unfolding branch_scope
branch_scope-cases context = elim (Option-cases context.tenant_id) [
  | inl no_tenant ↦ inl (rw no_tenant refl)
  | inr (t, is_t) ↦ elim (Option-cases context.branch_id) [
    | inl no_branch ↦ inl (rw (is_t, no_branch) refl)
    | inr (b, is_b) ↦ inr (t, b, is_t, is_b, rw (is_t, is_b) refl)
  ]
]

module _ (env : Env) (payload : AttendanceSessionCreate) (context : RequestContext) (db : Db) where
  abbrev pub created : Db
  created = (run_request (create_session_route env payload context) db).1

  -- the caller may open the session of the section and date, which had none, and has opened it
  abbrev pub Added : Type 0
  Added =
      (t : ℕ) × (b : ℕ) × (context.tenant_id ≡ some t)
      × (context.branch_id ≡ some b)
      × ((has_permission context "attendance.mark" || has_permission context "attendance.submit")
          ≡ true)
      × (ltb env.today payload.attendance_date ≡ false)
      × (filter (on_date payload) db.attendance_sessions ≡ [])
      × ((c : Section) × (first (filter (in_reach payload t b) db.sections) ≡ some c))
      × (o : AttendanceSession) × (created.attendance_sessions ≡ db.attendance_sessions ++ o ∷ [])
      × IsOpenedBy payload t b context.app_user_id o

  -- the request behind the dependencies
  abbrev in_scope : ℕ → ℕ → Db
  in_scope t b = (run_request (create_in_scope env payload context (t, b)) db).1

  in_scope-adds :
      (t b : ℕ)
      → (in_scope t b).attendance_sessions ≡ db.attendance_sessions
        ⊎ (((has_permission context "attendance.mark" || has_permission context "attendance.submit")
              ≡ true)
            × Opening env payload t b context.app_user_id db (in_scope t b))
  unfolding run_request create_in_scope route_existing get_session_by_section_and_date
      build_session_response
  in_scope-adds t b = go (filter (on_date payload) db.attendance_sessions) refl
    where
      go :
          (rows : List AttendanceSession)
          → filter (on_date payload) db.attendance_sessions ≡ rows
          → (in_scope t b).attendance_sessions ≡ db.attendance_sessions
            ⊎ (((has_permission context "attendance.mark"
                    || has_permission context "attendance.submit")
                  ≡ true)
                × Opening env payload t b context.app_user_id db (in_scope t b))
      go (o ∷ []) e = inl (rw e refl)
      go (o ∷ o' ∷ rest) e = inl (rw e refl)
      go [] e =
          elim (Bool-cases (
            has_permission context "attendance.mark"
            || has_permission context "attendance.submit")) [
              | inr denied ↦ inl (rw (e, denied) refl)
              | inl may ↦ inr (
                may,
                rw (e, may) (create_daily_session-Opening env payload t b context.app_user_id db e),
              )
            ]

  created-in_scope :
      (t b : ℕ)
      → branch_scope context ≡ some (t, b)
      → not (has_any_permission context create_permissions) ≡ false
      → created ≡ in_scope t b
  unfolding run_request create_session_route branch_scope_dependency require_any_permission
  created-in_scope t b scope allowed = rw (created, scope, allowed) refl

  -- A request to the create route leaves the table of sessions as it was, or it adds exactly one row: a
  -- DRAFT without signatures of the section and date of the payload, where no session of that section
  -- and date was, the date is not in the future and the section is one of the caller's tenant and
  -- branch, which the row carries with the caller as the one who opened it. Only a caller with a branch
  -- and with the permission to mark or to submit attendance has a row added.
  pub create_session_route-adds : (created.attendance_sessions ≡ db.attendance_sessions) ⊎ Added
  unfolding run_request create_session_route branch_scope_dependency require_any_permission
  create_session_route-adds = elim (branch_scope-cases context) [
    | inl outside ↦ inl (rw (created, outside) refl)
    | inr (t, b, is_t, is_b, scope) ↦
        elim (Bool-cases (not (has_any_permission context create_permissions))) [
          | inl denied ↦ inl (rw (created, scope, denied) refl)
          | inr allowed ↦
              let same =
                ap (λ (d : Db). d.attendance_sessions) (created-in_scope t b scope allowed) in
              elim (in_scope-adds t b) [
                | inl no_row ↦ inl (same ∙ no_row)
                | inr (may, outcome) ↦ elim outcome [
                  | unchanged no_row ↦ inl (same ∙ no_row)
                  | opened o added is_opened due none_yet reach ↦
                      inr (t, b, is_t, is_b, may, due, none_yet, reach, o, same ∙ added, is_opened)
                ]
              ]
        ]
  ]

  pub create-Evolves : Evolves db.attendance_sessions created.attendance_sessions
  create-Evolves = elim create_session_route-adds [
    | inl same ↦ subst (Evolves db.attendance_sessions) (sym same) (Evolves-refl _)
    | inr (t, b, is_t, is_b, may, due, none_yet, reach, o, added, is_opened) ↦
        subst (Evolves db.attendance_sessions) (sym added)
          (Evolves-append db.attendance_sessions o is_opened.0)
  ]
