-- ===== src/Fees/Stages.antt =====
-- The steps of the transaction that creates a fee account: the entries that
-- `_create_initial_ledger_entries` writes, one after the other.
use sms_backend.Common.{
  ℕ, ◌≡◌, refl, Bool, true, false, List, [], ◌∷◌, ◌++◌, ◌==◌, All, inl, inr, Bool-cases,
  if◌then◌else◌, arith, All-append, All-zip,
}
use sms_backend.Common.Int.{ℤ, pos, ◌+ℤ◌, ◌≤ℤ◌, int_laws, eq_of_parts, ltb_ℤ}
use sms_backend.Models.{FeeAccount, FeeLedgerEntry, is_payment}
use sms_backend.Database.{Db, Session, Error, Result, ok, err, Action, continue}
use sms_backend.Fees.Repository.{create_ledger_entry, ledger_entry_allowed}
use sms_backend.Fees.Service.{insert_if_positive}
use sms_backend.Fees.Ledger.{
  Reconciles, Reconciles-other, UniqueIds, OtherId, HasAccount, sum_where, raises, lowers, pays,
  sum_where-append_last,
}
use sms_backend.Fees.Payments.{ledger_entry_allowed-positive}

-- No entry belongs to an account that is not there yet.
pub sum_where-none :
    (p : FeeLedgerEntry → Bool) (id : ℕ) (accounts : List FeeAccount)
    (entries : List FeeLedgerEntry)
    → ((l : FeeLedgerEntry) → (l.fee_account_id == id) ≡ false → p l ≡ false)
    → All (OtherId id) accounts
    → All (HasAccount accounts) entries
    → sum_where p entries ≡ pos 0
unfolding sum_where
sum_where-none p id accounts [] h new owned = refl
sum_where-none p id accounts (l ∷ ls) h new (o, owned) =
    rw (h l (foreign accounts new l o), sum_where-none p id accounts ls h new owned)
      (omega int_laws)
  where
    foreign :
        (as' : List FeeAccount)
        → All (OtherId id) as'
        → (k : FeeLedgerEntry) → HasAccount as' k
        → (k.fee_account_id == id) ≡ false
    foreign [] n k e = absurd (cc)
    foreign (a ∷ as') (n, ns) k e = elim (Bool-cases (a.id == k.fee_account_id)) [
      | inl t ↦ ground arith
      | inr f ↦ foreign as' ns k (rw f at e)
    ]

pub UniqueIds-append_last :
    (as' : List FeeAccount) (a : FeeAccount)
    → All (OtherId a.id) as'
    → UniqueIds as'
    → UniqueIds (as' ++ a ∷ [])
UniqueIds-append_last [] a new u = (tt, tt)
UniqueIds-append_last (b ∷ bs) a (n, new) (h, u) =
    (All-append _ bs (a ∷ []) h (ground arith, tt), UniqueIds-append_last bs a new u)

-- A transaction in which the account has been inserted after `old`, and entries that raise its
-- balance by `raised` and lower it by `lowered`.
pub record Stage (old : List FeeAccount) (a : FeeAccount) (raised lowered : ℤ) (db : Db)
    (s : Session) : Type 0 where
  pub accounts : s.current.fee_accounts ≡ old ++ a ∷ []
  pub others : All (Reconciles s.current.ledger_entries) old
  pub owned : All (HasAccount (old ++ a ∷ [])) s.current.ledger_entries
  pub up : sum_where (raises a.id) s.current.ledger_entries ≡ raised
  pub down : sum_where (lowers a.id) s.current.ledger_entries ≡ lowered
  pub unpaid : sum_where (pays a.id) s.current.ledger_entries ≡ pos 0
  pub published : s.committed ≡ db
  pub clean : s.new_records ≡ []
  pub quiet : s.new_events ≡ []

module _ (old : List FeeAccount) (a : FeeAccount) (new : All (OtherId a.id) old) (db : Db) where
  abbrev pub share : Bool → ℤ → ℤ
  share b amount = if b then amount else pos 0

  Stage-append :
      (raised lowered : ℤ) (s : Session) (l : FeeLedgerEntry)
      → l.fee_account_id ≡ a.id
      → is_payment l.entry_type ≡ false
      → HasAccount (old ++ a ∷ []) l
      → Stage old a raised lowered db s
      → Stage old a
          (raised +ℤ share (raises a.id l) l.amount)
          (lowered +ℤ share (lowers a.id l) l.amount)
          db
          (record s {
            current = record s.current { ledger_entries = s.current.ledger_entries ++ l ∷ [] };
          })
  Stage-append raised lowered s l same kind known st =
      let entries = s.current.ledger_entries in
      let no_payment : pays a.id l ≡ false = rw kind (ground arith) in
      record {
        accounts = st.accounts;
        others =
            All-zip (Reconciles entries) (OtherId a.id) _ old
              (λ b r n. Reconciles-other entries l b (ground arith) r) st.others new;
        owned = All-append _ entries (l ∷ []) st.owned (known, tt);
        up = rw (sum_where-append_last (raises a.id) entries l, st.up);
        down = rw (sum_where-append_last (lowers a.id) entries l, st.down);
        unpaid =
            rw (sum_where-append_last (pays a.id) entries l, st.unpaid, no_payment)
              (omega int_laws);
        published = st.published;
        clean = st.clean;
        quiet = st.quiet;
      }

  -- A step of the transaction has failed and published nothing, or has reached a stage.
  pub data Step (raised lowered : ℤ) (r : Result (Unit {0}) × Session) : Type 0 where
    failed : (e : Error) → r.0 ≡ err e → r.1.committed ≡ db → Step raised lowered r
    staged : r.0 ≡ ok tt → Stage old a raised lowered db r.1 → Step raised lowered r

  pub Step-bind :
      {raised lowered raised' lowered' : ℤ} (r : Result (Unit {0}) × Session)
      (f : Unit {0} → Action (Unit {0}))
      → Step raised lowered r
      → ((s : Session) → Stage old a raised lowered db s → Step raised' lowered' (f tt s))
      → Step raised' lowered' (continue r f)
  Step-bind r f (failed e raised_e same) h = failed e (rw raised_e) (rw raised_e same)
  Step-bind r f (staged done st) h = rw done (h r.1 st)

  share_zero : (b : Bool) (x : ℤ) → x +ℤ share b (pos 0) ≡ x
  share_zero true x = omega int_laws
  share_zero false x = omega int_laws

  pub insert_if_positive-Step :
      (up down : Bool) (raised lowered amount : ℤ) (s : Session) (l : FeeLedgerEntry)
      → raises a.id l ≡ up
      → lowers a.id l ≡ down
      → pos 0 ≤ℤ amount
      → l.amount ≡ amount
      → l.fee_account_id ≡ a.id
      → is_payment l.entry_type ≡ false
      → Stage old a raised lowered db s
      → Step
          (raised +ℤ share up amount)
          (lowered +ℤ share down amount)
          (insert_if_positive amount l s)
  unfolding insert_if_positive create_ledger_entry
  insert_if_positive-Step up down raised lowered amount s l eu ed positive its same kind st =
      elim (Bool-cases (ltb_ℤ (pos 0) amount)) [
        | inr f ↦
            let zero_amount : amount ≡ pos 0 = eq_of_parts amount (pos 0) (ground arith) in
            rw (f, zero_amount, share_zero up raised, share_zero down lowered) (staged refl st)
        | inl t ↦ elim (Bool-cases (ledger_entry_allowed s.current l)) [
          | inr f ↦ rw (t, f) (failed Error.integrity refl st.published)
          | inl t' ↦
              rw (t, t', ← its, ← eu, ← ed)
                (staged refl (
                  Stage-append raised lowered s l same kind
                    (rw (← st.accounts) ((ledger_entry_allowed-positive s.current l t').1)) st))
        ]
      ]
