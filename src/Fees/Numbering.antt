-- ===== src/Fees/Numbering.antt =====
-- Receipt numbers in a branch: consecutive while payments are posted one after the other.
use text.Mathlib.Text.{◌==◌ as str_eq}
use text.Mathlib.TextEquality.{eq_iff}
use sms_backend.Common.{
  ℕ, ◌+◌, ◌<◌, ◌≡◌, ◌≢◌, refl, ap, ◌∙◌, Bool, true, false, ◌&&◌, List, [], ◌∷◌, ◌++◌, ◌==◌, any,
  length, filter, inl, inr, Bool-cases, Option, some, none, arith, if◌then◌else◌, String,
}
use sms_backend.Models.{FeeAccount, FeeLedgerEntry}
use sms_backend.Database.{Env, Db}
use sms_backend.Fees.Receipts.{receipt_number, receipt_number-injective}
use sms_backend.Fees.Schemas.{FeePaymentCreateRequest}
use sms_backend.Fees.Repository.{has_receipt, next_receipt_number, receipt_taken, same_receipt}
use sms_backend.Fees.Service.{payment_entry}

abbrev pub in_office : ℕ → ℕ → FeeLedgerEntry → Bool
in_office tenant_id branch_id l = l.tenant_id == tenant_id && l.branch_id == branch_id

-- The receipts of a branch, in the order of the table, are the numbers from `k + 1` on, and only
-- payments have receipts.
abbrev pub NumberedFrom : ℕ → ℕ → ℕ → List FeeLedgerEntry → Type 0
NumberedFrom t b k [] = Unit
NumberedFrom t b k (l ∷ ls) =
    (has_receipt t b l ≡ true → l.receipt_number ≡ some (receipt_number (k + 1)))
    × (in_office t b l ≡ true → has_receipt t b l ≡ false → l.receipt_number ≡ none)
    × NumberedFrom t b (if has_receipt t b l then k + 1 else k) ls

-- how many receipts there are
abbrev pub issued : ℕ → ℕ → List FeeLedgerEntry → ℕ
issued t b ls = length (filter (has_receipt t b) ls)

str_ne : (m n : ℕ) → m ≢ n → str_eq (receipt_number m) (receipt_number n) ≡ false
str_ne m n h = elim (Bool-cases (str_eq (receipt_number m) (receipt_number n))) [
  | inl t ↦ absurd (h (receipt_number-injective m n ((eq_iff _ _).0 t)))
  | inr f ↦ f
]

-- the test of `receipt_taken` for a receipt of the branch
abbrev carries : ℕ → ℕ → Option String → FeeLedgerEntry → Bool
carries t b r o = o.tenant_id == t && o.branch_id == b && same_receipt o.receipt_number r

carries-false :
    (t b k n : ℕ) (l : FeeLedgerEntry)
    → (has_receipt t b l ≡ true → l.receipt_number ≡ some (receipt_number (k + 1)))
    → (in_office t b l ≡ true → has_receipt t b l ≡ false → l.receipt_number ≡ none)
    → (has_receipt t b l ≡ true → k + 1 ≢ n)
    → carries t b (some (receipt_number n)) l ≡ false
carries-false t b k n l numbered bare ne = elim (Bool-cases (has_receipt t b l)) [
  | inl t' ↦ rw (numbered t', str_ne (k + 1) n (ne t')) (ground arith)
  | inr f ↦ elim (Bool-cases (in_office t b l)) [
    | inl here ↦ rw (bare here f) (ground arith)
    | inr away ↦ ground arith
  ]
]

-- A number beyond those issued is on no receipt.
fresh_number :
    (t b k n : ℕ) (ls : List FeeLedgerEntry)
    → NumberedFrom t b k ls
    → k + issued t b ls < n
    → any (carries t b (some (receipt_number n))) ls ≡ false
fresh_number t b k n [] h lt = refl
fresh_number t b k n (l ∷ ls) (numbered, bare, rest) lt =
    let head : carries t b (some (receipt_number n)) l ≡ false =
      carries-false t b k n l numbered bare (λ e. let lt' = rw e at lt in omega arith) in
    elim (Bool-cases (has_receipt t b l)) [
      | inl e ↦
          let lt' = rw e at lt in
          rw (head, fresh_number t b (k + 1) n ls (rw e at rest) (omega arith))
      | inr e ↦ rw (head, fresh_number t b k n ls (rw e at rest) (rw e at lt))
    ]

NumberedFrom-append_last :
    (t b k : ℕ) (ls : List FeeLedgerEntry) (l : FeeLedgerEntry)
    → has_receipt t b l ≡ true
    → l.receipt_number ≡ some (receipt_number (k + issued t b ls + 1))
    → NumberedFrom t b k ls
    → NumberedFrom t b k (ls ++ l ∷ [])
NumberedFrom-append_last t b k [] l e r h =
    (λ _. r ∙ ap (λ i. some (receipt_number i)) (omega arith), λ _ f. absurd (cc (e, f)), tt)
NumberedFrom-append_last t b k (x ∷ xs) l e r (numbered, bare, rest) =
    elim (Bool-cases (has_receipt t b x)) [
      | inl y ↦ (
        numbered,
        bare,
        rw y (
            NumberedFrom-append_last t b (k + 1) xs l e
              ((rw y at r) ∙ ap (λ i. some (receipt_number i)) (omega arith)) (rw y at rest)),
      )
      | inr f ↦
          (numbered, bare, rw f (NumberedFrom-append_last t b k xs l e (rw f at r) (rw f at rest)))
    ]

module _ (env : Env) (t u : ℕ) (a : FeeAccount) (p : FeePaymentCreateRequest) (db : Db) where
  abbrev pub next_entry : FeeLedgerEntry
  next_entry = payment_entry env t u a p (next_receipt_number t a.branch_id db)

  -- Where the receipts of an account's branch are the numbers 1, 2, … in the order of the table, the
  -- number that a payment is given is on no receipt of the branch, and with the payment's entry the
  -- receipts are consecutive again.
  pub next_receipt_number-consecutive :
      NumberedFrom t a.branch_id 0 db.ledger_entries
      → (receipt_taken db.ledger_entries next_entry ≡ false)
        × NumberedFrom t a.branch_id 0 (db.ledger_entries ++ next_entry ∷ [])
  unfolding receipt_taken payment_entry next_receipt_number
  next_receipt_number-consecutive h = (
    fresh_number t a.branch_id 0 _ db.ledger_entries h (omega arith),
    NumberedFrom-append_last t a.branch_id 0 db.ledger_entries next_entry (ground arith)
        (ap (λ i. some (receipt_number i)) (omega arith)) h,
  )
