-- ===== src/Fees/Payments.antt =====
-- Posting a payment keeps every account in agreement with its ledger.
use sms_backend.Common.{
  ℕ, ◌≡◌, refl, subst, ◌∙◌, Bool, true, ◌&&◌, List, [], ◌∷◌, ◌++◌, ◌==◌, All, inl, inr, Bool-cases,
  if◌then◌else◌, arith, All-mono, All-append, Option, some, first, filter, All-zip,
  All-update_where, any-update_where, update_where, first-All, All-filter, Option-cases,
}
use sms_backend.Common.Int.{ℤ, pos, ◌+ℤ◌, ◌-ℤ◌, ◌≤ℤ◌, eqb_ℤ, ltb_ℤ}
use sms_backend.Models.{
  FeeAccount, FeeAccountStatus, FeeLedgerEntry, BalanceEffect, EntryType, is_closed,
}
use sms_backend.Database.{
  Db, Env, Session, Error, Result, ok, err, Action, run_request, open_session, close_session,
  close_session-committed, continue, commit, insert_records, IsSettled,
}
use sms_backend.Fees.Schemas.{FeePaymentCreateRequest}
use sms_backend.Fees.Repository.{
  with_totals, get_fee_account_for_payment, get_fee_account_list_item, create_ledger_entry,
  update_fee_account_totals, ledger_entry_allowed, stored_amount, next_receipt_number, known_user,
  ledger_entry_checks, ledger_entry_references,
}
use sms_backend.Fees.Service.{
  recover, post_payment, record_payment, write_payment, payment_entry, ReceiptNotice,
}
use sms_backend.Fees.Ledger.{
  Reconciles, Reconciles-other, Reconciles-payment, UniqueIds, OtherId, HasAccount, IsConsistent,
}

-- Only the account that a query finds has its key.
first_unique :
    (p : FeeAccount → Bool) (accounts : List FeeAccount) (a : FeeAccount)
    → UniqueIds accounts
    → first (filter p accounts) ≡ some a
    → All (λ b. (b.id == a.id) ≡ true → b ≡ a) accounts
first_unique p [] a u e = tt
first_unique p (x ∷ xs) a (h, u) e = elim (Bool-cases (p x)) [
  | inl t ↦
      let same : x ≡ a = cc (rw t at e) in
      (λ _. same, All-mono (OtherId x.id) _ xs (λ b f t'. absurd (ground arith)) h)
  | inr f ↦
      let found : first (filter p xs) ≡ some a = rw f at e in
      (
        λ t.
            absurd
              (ground (arith, first-All (OtherId x.id) (filter p xs) (All-filter _ p xs h) found)),
        first_unique p xs a u found,
      )
]

module _ (id : ℕ) (paid outstanding : ℤ) (status : FeeAccountStatus) (user : ℕ) where
  abbrev pub settle : List FeeAccount → List FeeAccount
  settle = update_where (λ b. b.id == id) (with_totals paid outstanding status user)

  OtherId-settle :
      (k : ℕ) (as' : List FeeAccount) → All (OtherId k) as' → All (OtherId k) (settle as')
  OtherId-settle k [] h = tt
  OtherId-settle k (a ∷ as') (h, hs) = (ground arith, OtherId-settle k as' hs)

  UniqueIds-settle : (as' : List FeeAccount) → UniqueIds as' → UniqueIds (settle as')
  UniqueIds-settle [] u = tt
  UniqueIds-settle (a ∷ as') (h, u) = elim (Bool-cases (a.id == id)) [
    | inl e ↦ rw e (OtherId-settle a.id as' h, UniqueIds-settle as' u)
    | inr e ↦ rw e (OtherId-settle a.id as' h, UniqueIds-settle as' u)
  ]

-- The two writes of a payment, on the lists of the tables.
settle-IsConsistent :
    (p : FeeAccount → Bool) (accounts : List FeeAccount) (entries : List FeeLedgerEntry)
    (a : FeeAccount) (l : FeeLedgerEntry) (status : FeeAccountStatus) (user : ℕ)
    → first (filter p accounts) ≡ some a
    → l.fee_account_id ≡ a.id
    → l.entry_type ≡ EntryType.payment
    → l.balance_effect ≡ BalanceEffect.decrease
    → pos 0 ≤ℤ l.amount
    → l.amount ≤ℤ a.outstanding_amount
    → HasAccount accounts l
    → IsConsistent accounts entries
    → IsConsistent
        (settle a.id
          (a.total_paid_amount +ℤ l.amount)
          (a.outstanding_amount -ℤ l.amount)
          status
          user
          accounts)
        (entries ++ l ∷ [])
settle-IsConsistent p accounts entries a l status user found same kind effect positive covered known
      c =
    let paid = a.total_paid_amount +ℤ l.amount in
    let left = a.outstanding_amount -ℤ l.amount in
    let keeps : (k : FeeLedgerEntry)
        → HasAccount accounts k
        → HasAccount (settle a.id paid left status user accounts) k =
      λ k h.
        any-update_where (λ b. b.id == k.fee_account_id) (λ b. b.id == a.id)
          (with_totals paid left status user) accounts (λ b. refl)
        ∙ h in
    record {
      unique = UniqueIds-settle a.id paid left status user accounts c.unique;
      owned =
          All-append _ entries (l ∷ []) (All-mono (HasAccount accounts) _ entries keeps c.owned)
            (keeps l known, tt);
      balanced =
          All-update_where (Reconciles (entries ++ l ∷ [])) (λ b. b.id == a.id)
            (with_totals paid left status user) accounts
            (All-zip (Reconciles entries) (λ b. (b.id == a.id) ≡ true → b ≡ a) _ accounts
              (λ b r only. elim (Bool-cases (b.id == a.id)) [
                | inl t ↦
                    rw (t, only t)
                      (Reconciles-payment entries l a status user (same, kind, effect) positive
                        covered (subst (Reconciles entries) (only t) r))
                | inr f ↦ rw f (Reconciles-other entries l b (rw same (ground arith)) r)
              ])
              c.balanced (first_unique p accounts a c.unique found));
    }

-- The state of the fee tables that other requests see.
abbrev pub Consistent : Db → Type 0
Consistent db = IsConsistent db.fee_accounts db.ledger_entries

-- the status that a payment leaves
abbrev pub status_after : ℤ → FeeAccountStatus
status_after left =
    if eqb_ℤ left (pos 0) then FeeAccountStatus.paid else FeeAccountStatus.partially_paid

-- What `write_payment` has done to the published tables: nothing, or both writes.
pub data Written (a : FeeAccount) (l : FeeLedgerEntry) (paid left : ℤ) (user : ℕ) (db : Db)
    (r : Result ℕ × Session) : Type 0 where
  refused : (e : Error) → r.0 ≡ err e → r.1.committed ≡ db → Written a l paid left user db r
  published :
      r.0 ≡ ok l.id
      → r.1.committed.fee_accounts ≡ settle a.id paid left (status_after left) user db.fee_accounts
      → r.1.committed.ledger_entries ≡ db.ledger_entries ++ l ∷ []
      → ledger_entry_allowed db l ≡ true
      → Written a l paid left user db r

pub write_payment-Written :
    (a : FeeAccount) (l : FeeLedgerEntry) (paid left : ℤ) (user : ℕ) (db : Db)
    → Written a l paid left user db (write_payment a l paid left user (open_session db))
unfolding write_payment create_ledger_entry update_fee_account_totals commit insert_records
write_payment-Written a l paid left user db = elim (Bool-cases (ledger_entry_allowed db l)) [
  | inr f ↦ refused Error.integrity (rw f) (rw f)
  | inl t ↦
      elim (Bool-cases (stored_amount paid && stored_amount left && known_user db (some user))) [
        | inr f ↦ refused Error.integrity (rw (t, f)) (rw (t, f))
        | inl t' ↦ published (rw (t, t')) (rw (t, t')) (rw (t, t')) t
      ]
]

-- Where it succeeds, `write_payment` leaves nothing pending.
write_payment-IsSettled :
    (a : FeeAccount) (l : FeeLedgerEntry) (paid left : ℤ) (user : ℕ) (db : Db) (id : ℕ)
    → (write_payment a l paid left user (open_session db)).0 ≡ ok id
    → IsSettled (write_payment a l paid left user (open_session db)).1
unfolding write_payment create_ledger_entry update_fee_account_totals commit insert_records
write_payment-IsSettled a l paid left user db id done =
    elim (Bool-cases (ledger_entry_allowed db l)) [
      | inr f ↦ absurd (cc (rw f at done))
      | inl t ↦
          elim (Bool-cases
            (stored_amount paid && stored_amount left && known_user db (some user))) [
              | inr f ↦ absurd (cc (rw (t, f) at done))
              | inl t' ↦ rw (t, t') (refl, refl, refl)
            ]
    ]

pub ledger_entry_allowed-positive :
    (db : Db) (l : FeeLedgerEntry)
    → ledger_entry_allowed db l ≡ true
    → (pos 0 ≤ℤ l.amount) × HasAccount db.fee_accounts l
unfolding ledger_entry_allowed ledger_entry_checks ledger_entry_references
ledger_entry_allowed-positive db l h = ground arith

-- The notification writes to tables of its own, and may commit: where nothing is pending, it leaves the
-- published fee tables alone.
abbrev pub KeepsFees : (ReceiptNotice → Action Unit) → Type 0
KeepsFees notify =
    (n : ReceiptNotice) (s : Session)
    → IsSettled s
    → ((notify n s).1.committed.fee_accounts ≡ s.committed.fee_accounts)
      × ((notify n s).1.committed.ledger_entries ≡ s.committed.ledger_entries)

abbrev pub SameFees : Db → Db → Type 0
SameFees d e = (d.fee_accounts ≡ e.fee_accounts) × (d.ledger_entries ≡ e.ledger_entries)

pub Consistent-same : (d e : Db) → SameFees d e → Consistent e → Consistent d
Consistent-same d e (a, l) c = rw (a, l) c

module _ {A B : Type 0} where
  -- What a continuation publishes, if it publishes nothing itself.
  pub continue-same :
      (w : Result A × Session) (k : A → Action B)
      → ((a : A) (s : Session) → SameFees (k a s).1.committed s.committed)
      → SameFees (close_session (continue w k)).1 w.1.committed
  continue-same (ok a, s) k h = rw (close_session-committed (k a s)) (h a s)
  continue-same (err _, s) k h = (refl, refl)

  -- What a continuation of a recovered action publishes, if the continuation publishes nothing where
  -- nothing is pending.
  recover-same :
      (w : Result A × Session) (e : Error) (k : A → Action B)
      → ((a : A) → w.0 ≡ ok a → IsSettled w.1)
      → ((a : A) (s : Session) → IsSettled s → SameFees (k a s).1.committed s.committed)
      → SameFees (close_session (continue (recover w e) k)).1 w.1.committed
  recover-same (ok a, s) e k settled h =
      rw (close_session-committed (k a s)) (h a s (settled a refl))
  recover-same (err _, s) e k settled h = (refl, refl)

module _ (env : Env) (notify : ReceiptNotice → Action Unit) (tenant_id app_user_id : ℕ)
    (payload : FeePaymentCreateRequest) (quiet : KeepsFees notify) where
  module _ (a : FeeAccount) (db : Db) where
    abbrev pub entry : FeeLedgerEntry
    entry =
        payment_entry env tenant_id app_user_id a payload
          (next_receipt_number tenant_id a.branch_id db)

    abbrev pub new_paid : ℤ
    new_paid = a.total_paid_amount +ℤ payload.amount

    abbrev pub new_left : ℤ
    new_left = a.outstanding_amount -ℤ payload.amount

    -- After the writes the published fee tables are those of the writes.
    pub record_payment-same :
        SameFees
          (run_request (record_payment env notify tenant_id app_user_id payload a) db).1
          (write_payment a entry new_paid new_left app_user_id (open_session db)).1.committed
    unfolding run_request record_payment
    record_payment-same =
        recover-same (write_payment a entry new_paid new_left app_user_id (open_session db)) _ _
          (write_payment-IsSettled a entry new_paid new_left app_user_id db)
          (λ id s clear.
            elim (Option-cases (get_fee_account_list_item env tenant_id a.id s.current)) [
              | inl e ↦ rw e (refl, refl)
              | inr (row, e) ↦ rw e (quiet _ s clear)
            ])

    record_payment-Consistent :
        (p : FeeAccount → Bool)
        → first (filter p db.fee_accounts) ≡ some a
        → payload.amount ≤ℤ a.outstanding_amount
        → Consistent db
        → Consistent (run_request (record_payment env notify tenant_id app_user_id payload a) db).1
    unfolding payment_entry
    record_payment-Consistent p found covered c =
        Consistent-same
          (run_request (record_payment env notify tenant_id app_user_id payload a) db).1
          (write_payment a entry new_paid new_left app_user_id (open_session db)).1.committed
          record_payment-same (go (write_payment-Written a entry new_paid new_left app_user_id db))
      where
        go :
            Written a entry new_paid new_left app_user_id db
              (write_payment a entry new_paid new_left app_user_id (open_session db))
            → Consistent
                (write_payment a entry new_paid new_left app_user_id (open_session db)).1.committed
        go (refused e r same) = rw same c
        go (published r accounts entries allowed) =
            let (positive, known) = ledger_entry_allowed-positive db entry allowed in
            rw (accounts, entries)
              (settle-IsConsistent p db.fee_accounts db.ledger_entries a entry
                (status_after new_left) app_user_id found refl refl refl positive covered known c)

-- A request to post a payment, whether it succeeds or fails, keeps the fee tables consistent: every
-- account's totals agree with its ledger entries, no account is overpaid, and each entry has its
-- account. The notification may commit; it is assumed to leave the two fee tables alone when nothing of
-- the request is pending.
pub post_payment-Consistent :
    (env : Env) (notify : ReceiptNotice → Action Unit) (tenant_id : ℕ) (branch_id : Option ℕ)
    (app_user_id account_id : ℕ) (payload : FeePaymentCreateRequest) (db : Db)
    → KeepsFees notify
    → Consistent db
    → Consistent
        (run_request
          (post_payment env notify tenant_id branch_id app_user_id account_id payload)
          db).1
unfolding run_request post_payment get_fee_account_for_payment
post_payment-Consistent env notify t b u id p db quiet c =
    elim (Option-cases (get_fee_account_for_payment t b id db)) [
      | inl e ↦ rw e c
      | inr (a, e) ↦ elim (Bool-cases (is_closed a.status)) [
        | inl closed ↦ rw (e, closed) c
        | inr open_ ↦ elim (Bool-cases (ltb_ℤ a.outstanding_amount p.amount)) [
          | inl over ↦ rw (e, open_, over) c
          | inr covered ↦
              rw (e, open_, covered)
                (record_payment-Consistent env notify t u p quiet a db _ e (ground arith) c)
        ]
      ]
    ]
