-- ===== src/Fees/Opening.antt =====
-- A new account with the entries that open its ledger, in any transaction that has found the fee
-- tables consistent: what `create_fee_account` of app/modules/fees/service.py and
-- `commit_fee_import` of app/modules/imports/service.py share.
use sms_backend.Common.{
  ℕ, ◌≡◌, refl, ap, ◌∙◌, String, Bool, true, false, ◌&&◌, ◌||◌, List, [], ◌∷◌, ◌++◌, ◌==◌, All,
  arith, All-mono, All-append, any-append_last, some, All-none,
}
use sms_backend.Common.Int.{ℤ, pos, ◌+ℤ◌, ◌-ℤ◌, ◌≤ℤ◌, int_laws}
use sms_backend.Models.{FeeAccount, FeeLedgerEntry, EntryType, BalanceEffect}
use sms_backend.Database.{Db, Env, Session, ok, Action, commit, insert_records, ◌>>◌}
use sms_backend.Fees.Repository.{
  SetupEnrollment, fee_account_allowed, fee_account_checks, fee_account_unique,
}
use sms_backend.Fees.Service.{initial_entry, insert_if_positive}
use sms_backend.Fees.Ledger.{
  Reconciles, UniqueIds, OtherId, HasAccount, IsConsistent, sum_where, raises, lowers, pays,
}
use sms_backend.Fees.Payments.{Consistent}
use sms_backend.Fees.Stages.{
  sum_where-none, UniqueIds-append_last, Stage, Step, Step-bind, insert_if_positive-Step,
}

-- A flush with no waiting record goes through, and a commit publishes the session's tables.
pub commit-publishes :
    (s : Session)
    → s.new_records ≡ []
    → s.new_events ≡ []
    → ((commit s).0 ≡ ok tt)
      × ((commit s).1.committed.fee_accounts ≡ s.current.fee_accounts)
      × ((commit s).1.committed.ledger_entries ≡ s.current.ledger_entries)
      × ((commit s).1.committed.import_batches ≡ s.current.import_batches)
unfolding commit
commit-publishes s clean quiet =
    let none_waiting : insert_records s.new_records s.current ≡ some s.current =
      ap (λ rs. insert_records rs s.current) clean ∙ unfold insert_records in refl in
    (
      rw (none_waiting, quiet),
      rw (none_waiting, quiet),
      rw (none_waiting, quiet),
      rw (none_waiting, quiet),
    )

-- The account that a stage has reached agrees with its ledger.
pub Stage-balanced :
    (old : List FeeAccount) (a : FeeAccount) (raised lowered : ℤ) (db : Db) (s : Session)
    → a.total_paid_amount ≡ pos 0
    → a.outstanding_amount ≡ a.net_payable_amount
    → a.net_payable_amount ≡ a.assigned_fee_amount -ℤ a.scholarship_amount -ℤ a.concession_amount
    → a.outstanding_amount +ℤ lowered ≡ raised
    → pos 0 ≤ℤ a.outstanding_amount
    → Stage old a raised lowered db s
    → Reconciles s.current.ledger_entries a
Stage-balanced old a raised lowered db s unpaid all net sides positive st = record {
  balance = rw (st.up, st.down) sides;
  paid = rw (st.unpaid, unpaid);
  net = net;
  split = rw (unpaid, all) (omega int_laws);
  not_overpaid = positive;
  not_negative = rw unpaid (omega arith);
}

-- the entries that open a ledger, with their notes
abbrev pub opening_entries :
    Env → ℕ → ℕ → SetupEnrollment → ℕ → ℤ → ℤ → ℤ → String → String → String → Action (Unit {0})
opening_entries env t id e u assigned scholarship concession n1 n2 n3 = do
  insert_if_positive assigned
      (initial_entry env 1 t id u e EntryType.fee_assigned BalanceEffect.increase assigned n1)
  insert_if_positive scholarship (
      initial_entry env 2 t id u e EntryType.government_scholarship BalanceEffect.decrease
        scholarship n2)
  insert_if_positive concession
      (initial_entry env 3 t id u e EntryType.concession BalanceEffect.decrease concession n3)

pub opening_entries-Step :
    (old : List FeeAccount) (a : FeeAccount) (new : All (OtherId a.id) old) (db : Db) (env : Env)
    (tenant_id user : ℕ) (e : SetupEnrollment) (assigned scholarship concession : ℤ)
    (n1 n2 n3 : String) (s : Session)
    → pos 0 ≤ℤ assigned
    → pos 0 ≤ℤ scholarship
    → pos 0 ≤ℤ concession
    → Stage old a (pos 0) (pos 0) db s
    → Step old a new db
        (pos 0 +ℤ assigned +ℤ pos 0 +ℤ pos 0)
        (pos 0 +ℤ pos 0 +ℤ scholarship +ℤ concession)
        (opening_entries env tenant_id a.id e user assigned scholarship concession n1 n2 n3 s)
unfolding initial_entry
opening_entries-Step old a new db env t u e x y z n1 n2 n3 s pa ps pc st =
    Step-bind old a new db _ _
      (insert_if_positive-Step old a new db true false _ _ _ s _ (ground arith) (ground arith) pa
        refl refl refl st)
      (λ s1 st1.
        Step-bind old a new db _ _
          (insert_if_positive-Step old a new db false true _ _ _ s1 _ (ground arith) (ground arith)
            ps refl refl refl st1)
          (λ s2 st2.
            insert_if_positive-Step old a new db false true _ _ _ s2 _ (ground arith) (ground arith)
              pc refl refl refl st2))

pub fee_account_checks-facts :
    (a : FeeAccount)
    → fee_account_checks a ≡ true
    → (pos 0 ≤ℤ a.assigned_fee_amount)
      × (pos 0 ≤ℤ a.scholarship_amount)
      × (pos 0 ≤ℤ a.concession_amount)
      × (pos 0 ≤ℤ a.outstanding_amount)
unfolding fee_account_checks
fee_account_checks-facts a h = (ground arith, ground arith, ground arith, ground arith)

pub fee_account_unique-OtherId :
    (accounts : List FeeAccount) (a : FeeAccount)
    → fee_account_unique accounts a ≡ true
    → All (OtherId a.id) accounts
unfolding fee_account_unique
fee_account_unique-OtherId accounts a h =
    All-none (OtherId a.id)
      (λ o. o.id == a.id || (o.tenant_id == a.tenant_id && o.enrollment_id == a.enrollment_id))
      accounts (ground arith) (λ o f. ground arith)

pub fee_account_allowed-parts :
    (db : Db) (a : FeeAccount)
    → fee_account_allowed db a ≡ true
    → (fee_account_checks a ≡ true) × (fee_account_unique db.fee_accounts a ≡ true)
unfolding fee_account_allowed
fee_account_allowed-parts db a h = (ground arith, ground arith)

-- At the end of the entries of a new account both fee tables are consistent.
pub Stage-IsConsistent :
    (old : List FeeAccount) (a : FeeAccount) (raised lowered : ℤ) (db : Db) (s : Session)
    → All (OtherId a.id) old
    → UniqueIds old
    → Stage old a raised lowered db s
    → Reconciles s.current.ledger_entries a
    → IsConsistent s.current.fee_accounts s.current.ledger_entries
Stage-IsConsistent old a raised lowered db s new unique st r = rw st.accounts (record {
  unique = UniqueIds-append_last old a new unique;
  owned = st.owned;
  balanced = All-append (Reconciles s.current.ledger_entries) old (a ∷ []) st.others (r, tt);
})

-- The stage that the insertion of the account reaches.
pub first-Stage :
    (s : Session) (a : FeeAccount)
    → All (OtherId a.id) s.current.fee_accounts
    → Consistent s.current
    → s.new_records ≡ []
    → s.new_events ≡ []
    → Stage s.current.fee_accounts a (pos 0) (pos 0) s.committed (record s {
      current = record s.current { fee_accounts = s.current.fee_accounts ++ a ∷ [] };
    })
first-Stage s a new c clean quiet =
    let db = s.current in
    let nothing : (p : FeeLedgerEntry → Bool)
        → ((l : FeeLedgerEntry) → (l.fee_account_id == a.id) ≡ false → p l ≡ false)
        → sum_where p db.ledger_entries ≡ pos 0 =
      λ p h. sum_where-none p a.id db.fee_accounts db.ledger_entries h new c.owned in
    record {
      accounts = refl;
      others = c.balanced;
      owned =
          All-mono (HasAccount db.fee_accounts) _ db.ledger_entries
            (λ l h. any-append_last (λ b. b.id == l.fee_account_id) db.fee_accounts a ∙ rw h)
            c.owned;
      up = nothing (raises a.id) (λ l e. rw e);
      down = nothing (lowers a.id) (λ l e. rw e);
      unpaid = nothing (pays a.id) (λ l e. rw e);
      published = refl;
      clean = clean;
      quiet = quiet;
    }
