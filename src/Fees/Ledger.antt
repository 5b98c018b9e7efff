-- ===== src/Fees/Ledger.antt =====
-- When an account agrees with the entries of its ledger, and what appending one entry does to that.
use sms_backend.Common.{
  ℕ, ◌≡◌, refl, ◌∙◌, Bool, true, false, ◌&&◌, List, [], ◌∷◌, ◌++◌, ◌==◌, any, All, if◌then◌else◌,
  arith,
}
use sms_backend.Common.Int.{ℤ, pos, ◌+ℤ◌, ◌-ℤ◌, ◌≤ℤ◌, int_laws}
use sms_backend.Models.{
  FeeAccount, FeeAccountStatus, FeeLedgerEntry, BalanceEffect, EntryType, is_payment,
}
use sms_backend.Fees.Repository.{with_totals}

-- the sum of the amounts of the entries that a test selects
unfoldable pub sum_where : (FeeLedgerEntry → Bool) → List FeeLedgerEntry → ℤ
sum_where p [] = pos 0
sum_where p (l ∷ ls) = (if p l then l.amount else pos 0) +ℤ sum_where p ls

pub sum_where-append_last :
    (p : FeeLedgerEntry → Bool) (ls : List FeeLedgerEntry) (l : FeeLedgerEntry)
    → sum_where p (ls ++ l ∷ []) ≡ sum_where p ls +ℤ (if p l then l.amount else pos 0)
unfolding sum_where
sum_where-append_last p [] l = omega int_laws
sum_where-append_last p (k ∷ ls) l = rw (sum_where-append_last p ls l) (omega int_laws)

abbrev is_increase : BalanceEffect → Bool
is_increase BalanceEffect.increase = true
is_increase _ = false

abbrev is_decrease : BalanceEffect → Bool
is_decrease BalanceEffect.decrease = true
is_decrease _ = false

-- the entries of one account that raise its balance, that lower it, and its payments
abbrev pub raises : ℕ → FeeLedgerEntry → Bool
raises id l = l.fee_account_id == id && is_increase l.balance_effect

abbrev pub lowers : ℕ → FeeLedgerEntry → Bool
lowers id l = l.fee_account_id == id && is_decrease l.balance_effect

abbrev pub pays : ℕ → FeeLedgerEntry → Bool
pays id l = l.fee_account_id == id && is_payment l.entry_type

-- An account agrees with its ledger: what is outstanding is the difference of the two sides, what
-- is paid is the sum of the payments, and no amount is out of line.
pub record Reconciles (entries : List FeeLedgerEntry) (a : FeeAccount) : Type 0 where
  pub balance :
      a.outstanding_amount +ℤ sum_where (lowers a.id) entries ≡ sum_where (raises a.id) entries
  pub paid : a.total_paid_amount ≡ sum_where (pays a.id) entries
  pub net :
      a.net_payable_amount ≡ a.assigned_fee_amount -ℤ a.scholarship_amount -ℤ a.concession_amount
  pub split : a.total_paid_amount +ℤ a.outstanding_amount ≡ a.net_payable_amount
  pub not_overpaid : pos 0 ≤ℤ a.outstanding_amount
  pub not_negative : pos 0 ≤ℤ a.total_paid_amount

abbrev pub OtherId : ℕ → FeeAccount → Type 0
OtherId id b = (b.id == id) ≡ false

-- no two accounts share a primary key
abbrev pub UniqueIds : List FeeAccount → Type 0
UniqueIds [] = Unit
UniqueIds (a ∷ as') = All (OtherId a.id) as' × UniqueIds as'

-- the foreign key of an entry
abbrev pub HasAccount : List FeeAccount → FeeLedgerEntry → Type 0
HasAccount accounts l = any (λ a. a.id == l.fee_account_id) accounts ≡ true

-- what holds of the two fee tables between requests
pub record IsConsistent (accounts : List FeeAccount) (entries : List FeeLedgerEntry) : Type 0 where
  pub unique : UniqueIds accounts
  pub owned : All (HasAccount accounts) entries
  pub balanced : All (Reconciles entries) accounts

module _ (p : FeeLedgerEntry → Bool) (entries : List FeeLedgerEntry) (l : FeeLedgerEntry) where
  pub sum_where-skip : p l ≡ false → sum_where p (entries ++ l ∷ []) ≡ sum_where p entries
  sum_where-skip e = sum_where-append_last p entries l ∙ rw e (omega int_laws)

  pub sum_where-hit : p l ≡ true → sum_where p (entries ++ l ∷ []) ≡ sum_where p entries +ℤ l.amount
  sum_where-hit e = sum_where-append_last p entries l ∙ rw e refl

-- An entry of one account leaves the others as they were.
pub Reconciles-other :
    (entries : List FeeLedgerEntry) (l : FeeLedgerEntry) (a : FeeAccount)
    → (l.fee_account_id == a.id) ≡ false
    → Reconciles entries a
    → Reconciles (entries ++ l ∷ []) a
Reconciles-other entries l a e r = record {
  balance =
      rw
        (
          sum_where-skip (lowers a.id) entries l (rw e),
          sum_where-skip (raises a.id) entries l (rw e),
        )
        r.balance;
  paid = rw (sum_where-skip (pays a.id) entries l (rw e)) r.paid;
  net = r.net;
  split = r.split;
  not_overpaid = r.not_overpaid;
  not_negative = r.not_negative;
}

abbrev IsNewPayment : FeeAccount → FeeLedgerEntry → Type 0
IsNewPayment a l =
    (l.fee_account_id ≡ a.id)
    × (l.entry_type ≡ EntryType.payment)
    × (l.balance_effect ≡ BalanceEffect.decrease)

-- A payment that the outstanding amount covers moves from one total to the other.
pub Reconciles-payment :
    (entries : List FeeLedgerEntry) (l : FeeLedgerEntry) (a : FeeAccount)
    (status : FeeAccountStatus) (user : ℕ)
    → IsNewPayment a l
    → pos 0 ≤ℤ l.amount
    → l.amount ≤ℤ a.outstanding_amount
    → Reconciles entries a
    → Reconciles (entries ++ l ∷ []) (
        with_totals
          (a.total_paid_amount +ℤ l.amount)
          (a.outstanding_amount -ℤ l.amount)
          status
          user
          a)
Reconciles-payment entries l a status user (same, kind, effect) positive covered r = record {
  balance =
      rw
        (
          sum_where-hit (lowers a.id) entries l (rw (same, effect) (ground arith)),
          sum_where-skip (raises a.id) entries l (rw (same, effect) (ground arith)),
        )
        (rw (← r.balance) (omega int_laws));
  paid = rw (sum_where-hit (pays a.id) entries l (rw (same, kind) (ground arith))) (rw r.paid);
  net = r.net;
  split = rw (← r.split) (omega int_laws);
  not_overpaid = omega int_laws;
  not_negative = omega int_laws;
}
