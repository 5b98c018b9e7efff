-- ===== src/Fees/Setup.antt =====
-- Creating a fee account keeps every account in agreement with its ledger: the new account starts
-- with the entries that `_create_initial_ledger_entries` writes for it.
use sms_backend.Common.{ℕ, refl, All, inl, inr, Bool-cases, Option, Option-cases, is_some}
use sms_backend.Common.Int.{ℤ, int_laws}
use sms_backend.Models.{FeeAccount}
use sms_backend.Database.{
  Db, Env, Session, Result, Action, run_request, open_session, commit, close_session, continue,
  ◌>>=◌,
}
use sms_backend.Fees.Schemas.{FeeAccountCreateRequest}
use sms_backend.Fees.Repository.{
  get_active_enrollment_for_fee_setup, get_fee_account_list_item, SetupEnrollment,
  fee_account_allowed, insert_fee_account,
}
use sms_backend.Fees.Service.{
  create_fee_account, set_up_account, create_initial_ledger_entries, new_account,
}
use sms_backend.Fees.Ledger.{Reconciles, OtherId}
use sms_backend.Fees.Payments.{Consistent, Consistent-same, SameFees, continue-same}
use sms_backend.Fees.Opening.{
  commit-publishes, Stage-balanced, opening_entries-Step, fee_account_unique-OtherId,
  fee_account_checks-facts, fee_account_allowed-parts, Stage-IsConsistent, first-Stage,
}
use sms_backend.Fees.Stages.{Stage, Step, failed, staged}

-- The commit publishes what the last step has reached, and what follows publishes nothing.
finish-Consistent :
    {B : Type 0} (a : FeeAccount) (db : Db) (new : All (OtherId a.id) db.fee_accounts)
    (raised lowered : ℤ) (w : Result (Unit {0}) × Session) (k : Unit {0} → Action B)
    → Consistent db
    → ((s : Session)
        → Stage db.fee_accounts a raised lowered db s
        → Reconciles s.current.ledger_entries a)
    → ((u : Unit {0}) (s : Session) → SameFees (k u s).1.committed s.committed)
    → Step db.fee_accounts a new db raised lowered w
    → Consistent (close_session (continue w (λ _. commit >>= k))).1
finish-Consistent a db new raised lowered w k c agrees quiet (failed e r same) = rw r (rw same c)
finish-Consistent a db new raised lowered w k c agrees quiet (staged done st) =
    let (_, accounts, entries, _) = commit-publishes w.1 st.clean st.quiet in
    rw done (
      Consistent-same (close_session (continue (commit w.1) k)).1 (commit w.1).1.committed
        (continue-same (commit w.1) k quiet)
        (rw (accounts, entries)
          (Stage-IsConsistent db.fee_accounts a raised lowered db w.1 new c.unique st
            (agrees w.1 st))))

set_up_account-Consistent :
    (env : Env) (tenant_id user : ℕ) (p : FeeAccountCreateRequest) (e : SetupEnrollment) (db : Db)
    → Consistent db
    → Consistent (run_request (set_up_account env tenant_id user p e) db).1
unfolding run_request set_up_account insert_fee_account new_account create_initial_ledger_entries
set_up_account-Consistent env t user p e db c =
    let a = new_account env t user p e in
    elim (Bool-cases (fee_account_allowed db a)) [
      | inr f ↦ rw f c
      | inl allowed ↦
          let (checks, unique) = fee_account_allowed-parts db a allowed in
          let (pa, ps, pc, positive) = fee_account_checks-facts a checks in
          let new = fee_account_unique-OtherId db.fee_accounts a unique in
          rw allowed (
            finish-Consistent a db new _ _ _ _ c
              (λ s st.
                Stage-balanced db.fee_accounts a _ _ db s refl refl refl (omega int_laws) positive
                  st)
              (λ u s. elim (Option-cases (get_fee_account_list_item env t (env.uuid 0) s.current)) [
                | inl none_found ↦ rw none_found (refl, refl)
                | inr (row, found) ↦ rw found (refl, refl)
              ])
              (opening_entries-Step db.fee_accounts a new db env t user e _ _ _ _ _ _ _ pa ps pc
                (first-Stage (open_session db) a new c refl refl)))
    ]

-- A request to create a fee account, whether it succeeds or fails, keeps the fee tables consistent:
-- the new account's totals agree with the entries written for it, and every other account still
-- agrees with its own.
pub create_fee_account-Consistent :
    (env : Env) (tenant_id : ℕ) (branch_id : Option ℕ) (app_user_id : ℕ)
    (payload : FeeAccountCreateRequest) (db : Db)
    → Consistent db
    → Consistent (run_request (create_fee_account env tenant_id branch_id app_user_id payload) db).1
unfolding run_request create_fee_account
create_fee_account-Consistent env t b u p db c =
    elim (Option-cases (get_active_enrollment_for_fee_setup t b p.enrollment_id db)) [
      | inl e ↦ rw e c
      | inr (enrollment, e) ↦ elim (Bool-cases (is_some enrollment.fee_account_id)) [
        | inl taken ↦ rw (e, taken) c
        | inr open_ ↦ rw (e, open_) (set_up_account-Consistent env t u p enrollment db c)
      ]
    ]
