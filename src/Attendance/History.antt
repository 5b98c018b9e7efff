-- ===== src/Attendance/History.antt =====
-- Sequences of requests to the attendance service, one after the other on the tables.
use sms_backend.Common.{
  ℕ, ◌≡◌, refl, ap, ◌∙◌, sym, subst, Bool, true, false, List, [], ◌∷◌, String, All, Option, not,
  is_some,
}
use sms_backend.Models.{AttendanceSession, SessionStatus, is_draft}
use sms_backend.Database.{Db, Env, Action, run_request}
use sms_backend.Security.Context.{RequestContext}
use sms_backend.Attendance.Schemas.{AttendanceSessionCreate, AttendanceRecordUpdate}
use sms_backend.Attendance.Service.{
  save_draft_records, submit_session, return_session_for_revision, finalize_session, AbsentNotice,
  get_session_with_records,
}
use sms_backend.Attendance.Routes.{create_session_route}
use sms_backend.Attendance.Sessions.{
  Moves, stays, is_submitted_by, is_returned_by, is_finalized_by, IsOpened, Evolves, Evolves-refl,
}
use sms_backend.Attendance.Lifecycle.{
  KeepsSessions, submit-Evolves, return-Evolves, finalize-Evolves, view-Evolves,
}
use sms_backend.Attendance.Marking.{save-Evolves}
use sms_backend.Attendance.Opening.{create-Evolves}

-- The requests that the router passes to the service, each with its process values.
pub data Request : Type 0 where
  create : Env → AttendanceSessionCreate → RequestContext → Request
  view : Env → ℕ → ℕ → Option ℕ → Request
  save : Env → ℕ → List AttendanceRecordUpdate → ℕ → ℕ → ℕ → Request
  submit : Env → ℕ → ℕ → ℕ → ℕ → Request
  return : Env → ℕ → ℕ → ℕ → ℕ → Option String → Request
  finalize : Env → ℕ → ℕ → ℕ → ℕ → Request

module _ (notify : AbsentNotice → Action (Unit {0})) where
  -- the tables after a request
  unfoldable pub handle : Request → Db → Db
  handle (create env payload context) db =
      (run_request (create_session_route env payload context) db).1
  handle (view env id t b) db = (run_request (get_session_with_records env id t b) db).1
  handle (save env id records t b u) db =
      (run_request (save_draft_records env id records t b u) db).1
  handle (submit env id t b u) db = (run_request (submit_session env id t b u) db).1
  handle (return env id t b u reason) db =
      (run_request (return_session_for_revision env id t b u reason) db).1
  handle (finalize env id t b u) db = (run_request (finalize_session env notify id t b u) db).1

  unfoldable pub handle_all : List Request → Db → Db
  handle_all [] db = db
  handle_all (r ∷ rs) db = handle_all rs (handle r db)

  -- Every request, whether it succeeds or fails, changes the session table row by row: a row stays, or
  -- its status moves from DRAFT to SUBMITTED, from SUBMITTED to FINALIZED or from SUBMITTED back to
  -- DRAFT; a submission and a finalization set the user and the time of that move, and a return clears
  -- those of the submission; no other column changes but the time of the update; a row that is added is
  -- an unsigned DRAFT. The notification of absences may commit; it is assumed to leave the session table
  -- alone when nothing of the request is pending.
  pub handle-Evolves :
      KeepsSessions notify
      → (r : Request) (db : Db) → Evolves db.attendance_sessions (handle r db).attendance_sessions
  unfolding handle
  handle-Evolves quiet (create env payload context) db = create-Evolves env payload context db
  handle-Evolves quiet (view env id t b) db = view-Evolves env id t b db
  handle-Evolves quiet (save env id records t b u) db = save-Evolves env id t b u records db
  handle-Evolves quiet (submit env id t b u) db = submit-Evolves env id t b u db
  handle-Evolves quiet (return env id t b u reason) db = return-Evolves env id t b u db reason
  handle-Evolves quiet (finalize env id t b u) db = finalize-Evolves env notify quiet id t b u db

abbrev is_finalized : SessionStatus → Bool
is_finalized SessionStatus.finalized = true
is_finalized _ = false

-- The signatures that a session carries are those of its status.
abbrev pub WellSigned : AttendanceSession → Type 0
WellSigned o =
    (is_some o.submitted_by ≡ not (is_draft o.status))
    × (is_some o.submitted_at ≡ not (is_draft o.status))
    × (is_some o.finalized_by ≡ is_finalized o.status)
    × (is_some o.finalized_at ≡ is_finalized o.status)

WellSigned-move : (x y : AttendanceSession) → Moves x y → WellSigned x → WellSigned y
WellSigned-move x y (stays same) w = subst WellSigned (sym same) w
WellSigned-move x y (is_submitted_by u at_ was same) (sb, sa, fb, fa) =
    subst WellSigned (sym same) (refl, refl, fb ∙ ap is_finalized was, fa ∙ ap is_finalized was)
WellSigned-move x y (is_returned_by u at_ was same) (sb, sa, fb, fa) =
    subst WellSigned (sym same) (refl, refl, fb ∙ ap is_finalized was, fa ∙ ap is_finalized was)
WellSigned-move x y (is_finalized_by u at_ was same) (sb, sa, fb, fa) =
    subst WellSigned (sym same)
      (sb ∙ ap (λ st. not (is_draft st)) was, sa ∙ ap (λ st. not (is_draft st)) was, refl, refl)

WellSigned-opened : (x : AttendanceSession) → IsOpened x → WellSigned x
WellSigned-opened x (st, sb, sa, fb, fa) = rw (st, sb, sa, fb, fa) (refl, refl, refl, refl)

All-opened : (xs : List AttendanceSession) → All IsOpened xs → All WellSigned xs
All-opened [] h = tt
All-opened (x ∷ xs) (h, hs) = (WellSigned-opened x h, All-opened xs hs)

WellSigned-Evolves :
    (xs ys : List AttendanceSession) → Evolves xs ys → All WellSigned xs → All WellSigned ys
WellSigned-Evolves [] ys opened w = All-opened ys opened
WellSigned-Evolves (x ∷ xs) [] impossible w = absurd impossible
WellSigned-Evolves (x ∷ xs) (y ∷ ys) (move, moves) (w, ws) =
    (WellSigned-move x y move w, WellSigned-Evolves xs ys moves ws)

-- Rows keep their place, key, owner and date, and a row that is finalized keeps everything.
abbrev pub Kept : AttendanceSession → AttendanceSession → Type 0
Kept x y =
    (y.id ≡ x.id)
    × (y.tenant_id ≡ x.tenant_id)
    × (y.branch_id ≡ x.branch_id)
    × (y.section_id ≡ x.section_id)
    × (y.attendance_date ≡ x.attendance_date)
    × (x.status ≡ SessionStatus.finalized → y ≡ x)

abbrev pub AllKept : List AttendanceSession → List AttendanceSession → Type 0
AllKept [] ys = Unit
AllKept (x ∷ xs) [] = ⊥
AllKept (x ∷ xs) (y ∷ ys) = Kept x y × AllKept xs ys

Kept-move : (x y : AttendanceSession) → Moves x y → Kept x y
Kept-move x y (stays same) = rw same (refl, refl, refl, refl, refl, λ _. refl)
Kept-move x y (is_submitted_by u at_ was same) =
    rw same (refl, refl, refl, refl, refl, λ fin. absurd (cc (fin, was)))
Kept-move x y (is_returned_by u at_ was same) =
    rw same (refl, refl, refl, refl, refl, λ fin. absurd (cc (fin, was)))
Kept-move x y (is_finalized_by u at_ was same) =
    rw same (refl, refl, refl, refl, refl, λ fin. absurd (cc (fin, was)))

AllKept-Evolves : (xs ys : List AttendanceSession) → Evolves xs ys → AllKept xs ys
AllKept-Evolves [] ys h = tt
AllKept-Evolves (x ∷ xs) [] h = h
AllKept-Evolves (x ∷ xs) (y ∷ ys) (h, hs) = (Kept-move x y h, AllKept-Evolves xs ys hs)

AllKept-trans : (xs ys zs : List AttendanceSession) → AllKept xs ys → AllKept ys zs → AllKept xs zs
AllKept-trans [] ys zs h k = tt
AllKept-trans (x ∷ xs) [] zs h k = absurd h
AllKept-trans (x ∷ xs) (y ∷ ys) [] h k = k
AllKept-trans (x ∷ xs) (y ∷ ys) (z ∷ zs) ((i, t, b, c, d, f), hs) ((i', t', b', c', d', f'), ks) = (
  (
    i' ∙ i,
    t' ∙ t,
    b' ∙ b,
    c' ∙ c,
    d' ∙ d,
    λ fin. f' (ap (λ (o : AttendanceSession). o.status) (f fin) ∙ fin) ∙ f fin,
  ),
  AllKept-trans xs ys zs hs ks,
)

module _ (notify : AbsentNotice → Action (Unit {0})) (quiet : KeepsSessions notify) where
  -- After any sequence of requests, a session is signed as submitted exactly if its status is SUBMITTED
  -- or FINALIZED, and as finalized exactly if it is FINALIZED, where this held before. The notification
  -- of absences may commit; it is assumed to leave the session table alone when nothing of the request
  -- is pending.
  pub handle_all-WellSigned :
      (rs : List Request) (db : Db)
      → All WellSigned db.attendance_sessions
      → All WellSigned (handle_all notify rs db).attendance_sessions
  unfolding handle_all
  handle_all-WellSigned [] db w = w
  handle_all-WellSigned (r ∷ rs) db w =
      handle_all-WellSigned rs (handle notify r db)
        (WellSigned-Evolves _ _ (handle-Evolves notify quiet r db) w)

  -- After any sequence of requests every session is still in its place with its key, tenant, branch,
  -- section and date, and a session that was FINALIZED has not changed at all. The notification of
  -- absences may commit; it is assumed to leave the session table alone when nothing of the request is
  -- pending.
  pub handle_all_keeps :
      (rs : List Request) (db : Db)
      → AllKept db.attendance_sessions (handle_all notify rs db).attendance_sessions
  unfolding handle_all
  handle_all_keeps [] db = AllKept-Evolves _ _ (Evolves-refl db.attendance_sessions)
  handle_all_keeps (r ∷ rs) db =
      AllKept-trans _ (handle notify r db).attendance_sessions _
        (AllKept-Evolves _ _ (handle-Evolves notify quiet r db))
        (handle_all_keeps rs (handle notify r db))
