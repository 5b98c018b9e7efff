-- ===== src/Fees/Repository/Queries.antt =====
-- The SELECT statements of FeeRepository.
use sms_backend.Common.{
  ℕ, ◌+◌, String, Bool, true, false, Option, none, some, List, map, ◌==◌, ltb, ◌&&◌, filter, first,
  sort_by, length, is_some, if◌then◌else◌,
}
use sms_backend.Models.{FeeAccount, FeeLedgerEntry, AppUser, EntryType, is_payment}
use sms_backend.Database.{Db, Env}
use sms_backend.Fees.Schemas.{FeeLedgerEntryItem}
use sms_backend.Fees.Receipts.{receipt_number}
use sms_backend.Fees.Repository.Listings.{in_branch}

-- FeeRepository.get_fee_account_for_payment, which also locks the row, and
-- FeeRepository.get_fee_account_for_context
unfoldable pub get_fee_account_for_payment : ℕ → Option ℕ → ℕ → Db → Option FeeAccount
get_fee_account_for_payment tenant_id branch_id account_id db = first (
    filter (λ a. a.id == account_id && a.tenant_id == tenant_id && in_branch branch_id a.branch_id)
      db.fee_accounts)

abbrev name_in : List AppUser → Option ℕ → Option String
name_in users none = none
name_in users (some id) = elim (first (filter (λ u. u.id == id) users)) [
  | none ↦ none
  | some u ↦ some u.full_name
]

abbrev ledger_item : List AppUser → FeeLedgerEntry → FeeLedgerEntryItem
ledger_item users l = record {
  id = l.id;
  entry_type = l.entry_type;
  balance_effect = l.balance_effect;
  amount = l.amount;
  payment_mode = l.payment_mode;
  external_reference = l.external_reference;
  receipt_number = l.receipt_number;
  receipt_date = l.receipt_date;
  payment_period_label = l.payment_period_label;
  installment_number = l.installment_number;
  entry_date = l.entry_date;
  status = l.status;
  notes = l.notes;
  collected_by_name = name_in users l.collected_by;
  posted_by_name = name_in users (some l.posted_by);
  posted_at = l.posted_at;
  created_at = l.created_at;
}

-- the texts that ORDER BY entry_type compares
abbrev type_text : EntryType → String
type_text EntryType.fee_assigned = "FEE_ASSIGNED"
type_text EntryType.payment = "PAYMENT"
type_text EntryType.government_scholarship = "GOVERNMENT_SCHOLARSHIP"
type_text EntryType.concession = "CONCESSION"
type_text EntryType.adjustment = "ADJUSTMENT"
type_text EntryType.reversal = "REVERSAL"
type_text EntryType.refund = "REFUND"
type_text EntryType.late_fee = "LATE_FEE"

abbrev ledger_le : Env → FeeLedgerEntry → FeeLedgerEntry → Bool
ledger_le env l m =
    if ltb l.entry_date m.entry_date
    then true
    else if ltb m.entry_date l.entry_date
    then false
    else if ltb l.created_at m.created_at
    then true
    else if ltb m.created_at l.created_at
    then false
    else env.text_le (type_text l.entry_type) (type_text m.entry_type)

-- FeeRepository.list_fee_ledger_entries
unfoldable pub list_fee_ledger_entries : Env → ℕ → Option ℕ → ℕ → Db → List FeeLedgerEntryItem
list_fee_ledger_entries env tenant_id branch_id account_id db = map (ledger_item db.users) (
    sort_by (ledger_le env) (
      filter
        (λ l.
          l.tenant_id == tenant_id
          && l.fee_account_id == account_id
          && in_branch branch_id l.branch_id)
        db.ledger_entries))

-- the rows that `next_receipt_number` counts
abbrev pub has_receipt : ℕ → ℕ → FeeLedgerEntry → Bool
has_receipt tenant_id branch_id l =
    l.tenant_id == tenant_id
    && l.branch_id == branch_id
    && is_payment l.entry_type
    && is_some l.receipt_number

-- FeeRepository.next_receipt_number
unfoldable pub next_receipt_number : ℕ → ℕ → Db → String
next_receipt_number tenant_id branch_id db =
    receipt_number (length (filter (has_receipt tenant_id branch_id) db.ledger_entries) + 1)
