-- ===== src/Fees/Scope.antt =====
-- Tenant and branch isolation of the fee operations.
use sms_backend.Common.{
  ℕ, ◌≡◌, refl, Bool, true, false, ◌&&◌, List, [], ◌∷◌, ◌==◌, All, arith, Option, filter, All-map,
  All-sort_by, All-filter_where,
}
use sms_backend.Models.{FeeAccount}
use sms_backend.Database.{Db, Env, err, Action, run_request}
use sms_backend.Fees.Schemas.{FeePaymentCreateRequest, FeeAccountRow}
use sms_backend.Fees.Repository.{
  get_fee_account_for_payment, in_branch, list_fee_accounts, fee_account_row, FeeAccountJoin,
  fee_account_joins,
}
use sms_backend.Fees.Service.{post_payment, get_fee_ledger, ReceiptNotice, not_found}

abbrev pub RowInScope : ℕ → Option ℕ → FeeAccountRow → Type 0
RowInScope t b r = (r.tenant_id ≡ t) × (in_branch b r.branch_id ≡ true)

-- Every account that the list shows belongs to the caller's tenant, and to the caller's branch where
-- the caller has one.
pub list_fee_accounts-in_scope :
    (env : Env) (tenant_id : ℕ) (branch_id : Option ℕ) (db : Db)
    → All (RowInScope tenant_id branch_id) (list_fee_accounts env tenant_id branch_id db)
unfolding list_fee_accounts fee_account_row
list_fee_accounts-in_scope env t b db =
    All-map (RowInScope t b)
      (λ (r : FeeAccountJoin). fee_account_row env r.0 r.1 r.2 r.3 r.4 r.5 r.6) _
      (All-sort_by (λ r. RowInScope t b (fee_account_row env r.0 r.1 r.2 r.3 r.4 r.5 r.6)) _ _
        (All-filter_where (λ r. RowInScope t b (fee_account_row env r.0 r.1 r.2 r.3 r.4 r.5 r.6)) _
          (fee_account_joins db) (λ r e. (ground arith, ground arith))))

filter-none {ℓ} :
    {A : Type ℓ} (p : A → Bool) (xs : List A) → All (λ x. p x ≡ false) xs → filter p xs ≡ []
filter-none p [] h = refl
filter-none p (x ∷ xs) (h, hs) = rw (h, filter-none p xs hs)

-- no account of this key is in the caller's scope
abbrev pub OutOfScope : ℕ → Option ℕ → ℕ → FeeAccount → Type 0
OutOfScope t b id a = (a.id == id && a.tenant_id == t && in_branch b a.branch_id) ≡ false

module _ (env : Env) (notify : ReceiptNotice → Action Unit) (tenant_id : ℕ) (branch_id : Option ℕ)
    (app_user_id account_id : ℕ) (payload : FeePaymentCreateRequest) (db : Db) where
  -- A payment to an account that is not in the caller's tenant and branch is answered with 404, as if
  -- the account did not exist, and changes nothing; so is a request for the account's ledger.
  pub foreign_account_not_found :
      All (OutOfScope tenant_id branch_id account_id) db.fee_accounts
      → (run_request (post_payment env notify tenant_id branch_id app_user_id account_id payload) db
          ≡ (err not_found, db))
        × (run_request (get_fee_ledger env tenant_id branch_id account_id) db ≡ (err not_found, db))
  unfolding run_request post_payment get_fee_ledger get_fee_account_for_payment
  foreign_account_not_found h =
      let e =
        filter-none
          (λ a. a.id == account_id && a.tenant_id == tenant_id && in_branch branch_id a.branch_id)
          db.fee_accounts h in
      (rw e, rw e)
