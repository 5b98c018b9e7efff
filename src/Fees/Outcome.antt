-- ===== src/Fees/Outcome.antt =====
-- What a request to post a payment has done when it ends, on every path.
use sms_backend.Common.{
  ℕ, ◌≡◌, ◌≢◌, refl, ap, ◌∙◌, false, [], ◌∷◌, ◌++◌, ◌==◌, inl, inr, Bool-cases, arith, Option, some,
  ◌⊎◌, Option-cases, update_where,
}
use sms_backend.Common.Int.{◌+ℤ◌, ◌-ℤ◌, ◌≤ℤ◌, ltb_ℤ}
use sms_backend.Models.{FeeAccount, is_closed}
use sms_backend.Database.{Db, Env, Session, Result, ok, Action, run_request, open_session}
use sms_backend.Fees.Schemas.{FeePaymentCreateRequest, FeePaymentPostResponse}
use sms_backend.Fees.Repository.{with_totals, get_fee_account_for_payment, next_receipt_number}
use sms_backend.Fees.Service.{
  post_payment, record_payment, write_payment, payment_entry, ReceiptNotice,
}
use sms_backend.Fees.Payments.{
  KeepsFees, SameFees, status_after, Written, refused, published, write_payment-Written,
  record_payment-same,
}

module _ (env : Env) (notify : ReceiptNotice → Action Unit) (tenant_id : ℕ) (branch_id : Option ℕ)
    (app_user_id account_id : ℕ) (payload : FeePaymentCreateRequest) (db : Db) where
  abbrev pub after : Result FeePaymentPostResponse × Db
  after =
      run_request (post_payment env notify tenant_id branch_id app_user_id account_id payload) db

  -- the writes of a payment to the account `a`
  abbrev pub PostedTo : FeeAccount → Db → Type 0
  PostedTo a d =
      let left = a.outstanding_amount -ℤ payload.amount in
      (d.ledger_entries
        ≡ db.ledger_entries
          ++ payment_entry env tenant_id app_user_id a payload
              (next_receipt_number tenant_id a.branch_id db)
            ∷ [])
      × (d.fee_accounts
          ≡ update_where (λ b. b.id == a.id)
              (with_totals (a.total_paid_amount +ℤ payload.amount) left (status_after left)
                app_user_id)
              db.fee_accounts)

  module _ (quiet : KeepsFees notify) (a : FeeAccount) where
    abbrev recorded : Result FeePaymentPostResponse × Db
    recorded = run_request (record_payment env notify tenant_id app_user_id payload a) db

    abbrev written : Result ℕ × Session
    written =
        write_payment a
          (payment_entry env tenant_id app_user_id a payload
            (next_receipt_number tenant_id a.branch_id db))
          (a.total_paid_amount +ℤ payload.amount) (a.outstanding_amount -ℤ payload.amount)
          app_user_id (open_session db)

    record_payment_atomic :
        (SameFees recorded.1 db × ((r : FeePaymentPostResponse) → recorded.0 ≢ ok r))
        ⊎ PostedTo a recorded.1
    unfolding run_request record_payment
    record_payment_atomic =
        let (accounts, entries) =
          record_payment-same env notify tenant_id app_user_id payload quiet a db in
        go accounts entries (write_payment-Written a _ _ _ app_user_id db)
      where
        go :
            recorded.1.fee_accounts ≡ written.1.committed.fee_accounts
            → recorded.1.ledger_entries ≡ written.1.committed.ledger_entries
            → Written a
                (payment_entry env tenant_id app_user_id a payload
                  (next_receipt_number tenant_id a.branch_id db))
                (a.total_paid_amount +ℤ payload.amount)
                (a.outstanding_amount -ℤ payload.amount)
                app_user_id
                db
                written
            → (SameFees recorded.1 db × ((r : FeePaymentPostResponse) → recorded.0 ≢ ok r))
              ⊎ PostedTo a recorded.1
        go accounts entries (refused e failed same) = inl (
          (
            accounts ∙ ap (λ (d : Db). d.fee_accounts) same,
            entries ∙ ap (λ (d : Db). d.ledger_entries) same,
          ),
          λ r q. cc (rw failed at q),
        )
        go accounts entries (published done as' es _) = inr (entries ∙ es, accounts ∙ as')

  -- A request to post a payment leaves both fee tables as they were, or it has found an account of the
  -- caller's scope that is neither closed nor cancelled and that the amount does not overpay, and has
  -- appended exactly the payment's entry and set exactly that account's totals and status. It answers
  -- with success only in the second case. The notification may commit; it is
  -- assumed to leave the two tables alone when nothing of the request is pending.
  pub post_payment_atomic :
      KeepsFees notify
      → (SameFees after.1 db × ((r : FeePaymentPostResponse) → after.0 ≢ ok r))
        ⊎ ((a : FeeAccount) × (get_fee_account_for_payment tenant_id branch_id account_id db
              ≡ some a)
            × (is_closed a.status ≡ false)
            × (payload.amount ≤ℤ a.outstanding_amount)
            × PostedTo a after.1)
  unfolding run_request post_payment
  post_payment_atomic quiet =
      elim (Option-cases (get_fee_account_for_payment tenant_id branch_id account_id db)) [
        | inl e ↦ rw e (inl ((refl, refl), λ r q. cc))
        | inr (a, e) ↦ elim (Bool-cases (is_closed a.status)) [
          | inl closed ↦ rw (e, closed) (inl ((refl, refl), λ r q. cc))
          | inr open_ ↦ elim (Bool-cases (ltb_ℤ a.outstanding_amount payload.amount)) [
            | inl over ↦ rw (e, open_, over) (inl ((refl, refl), λ r q. cc))
            | inr covered ↦
                rw (e, open_, covered)
                  (elim (record_payment_atomic quiet a) [
                    | inl no_change ↦ inl no_change
                    | inr posted ↦ inr (a, refl, open_, ground arith, posted)
                  ])
          ]
        ]
      ]
