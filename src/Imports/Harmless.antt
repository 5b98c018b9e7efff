-- ===== src/Imports/Harmless.antt =====
-- The steps that corrections of a fee file are made of, and what they leave alone: the fee tables,
-- and the keys of the batches (app/modules/imports/repository.py and service.py).
use sms_backend.Common.{
  ℕ, ◌≡◌, refl, ap, ◌∙◌, Bool, false, not, ◌&&◌, ◌||◌, some, List, [], ◌∷◌, ◌==◌, All, inl, inr,
  Bool-cases, any, update_where,
}
use sms_backend.Models.{ImportBatch}
use sms_backend.Database.{Db, Session, Result, ok, err, Action, continue, commit, insert_records}
use sms_backend.Fees.Payments.{SameFees}
use sms_backend.Imports.Repository.{same_idempotency_key, update_batch, batch_references}

-- two batches with one primary key, or with one tenant and idempotency key
abbrev clash : ImportBatch → ImportBatch → Bool
clash o b =
    o.id == b.id
    || (o.tenant_id == b.tenant_id && same_idempotency_key o.idempotency_key b.idempotency_key)

abbrev pub HasUniqueKeys : List ImportBatch → Type 0
HasUniqueKeys [] = Unit
HasUniqueKeys (b ∷ bs) = All (λ o. clash b o ≡ false) bs × HasUniqueKeys bs

-- a change that leaves the keys of a batch alone
pub record KeepsKeys (change : ImportBatch → ImportBatch) : Type 0 where
  pub same_clash : (o b : ImportBatch) → clash (change o) b ≡ clash o b
  pub same_clash_right : (o b : ImportBatch) → clash o (change b) ≡ clash o b

HasUniqueKeys-update_where :
    (p : ImportBatch → Bool) (change : ImportBatch → ImportBatch) (bs : List ImportBatch)
    → KeepsKeys change
    → HasUniqueKeys bs
    → HasUniqueKeys (update_where p change bs)
HasUniqueKeys-update_where p change [] k u = tt
HasUniqueKeys-update_where p change (b ∷ bs) k (h, u) = (
  elim (Bool-cases (p b)) [
    | inl t ↦ rw t (later (change b) (λ o. k.same_clash b o) bs h)
    | inr f ↦ rw f (later b (λ o. refl) bs h)
  ],
  HasUniqueKeys-update_where p change bs k u,
)
  where
    later :
        (b' : ImportBatch)
        → ((o : ImportBatch) → clash b' o ≡ clash b o)
        → (os : List ImportBatch) → All (λ o. clash b o ≡ false) os
        → All (λ o. clash b' o ≡ false) (update_where p change os)
    later b' same [] a = tt
    later b' same (o ∷ os) (e, a) = (
      elim (Bool-cases (p o)) [
        | inl t ↦ rw t (k.same_clash_right b' o ∙ same o ∙ e)
        | inr f ↦ rw f (same o ∙ e)
      ],
      later b' same os a,
    )

module _ (db : Db) where
  -- the tables after any number of corrections
  abbrev pub Harmless : Db → Type 0
  Harmless d = HasUniqueKeys d.import_batches × SameFees d db

  pub record IsHarmless (s : Session) : Type 0 where
    pub current : Harmless s.current
    pub committed : Harmless s.committed
    pub clean : s.new_records ≡ []
    pub quiet : s.new_events ≡ []

  pub IsHarmless-continue :
      {A B : Type 0} (r : Result A × Session) (f : A → Action B)
      → IsHarmless r.1
      → ((a : A) (s : Session) → IsHarmless s → IsHarmless (f a s).1)
      → IsHarmless (continue r f).1
  IsHarmless-continue (ok a, s) f h k = k a s h
  IsHarmless-continue (err e, s) f h k = h

  pub with_tables :
      (d : Db) (s : Session) → Harmless d → IsHarmless s → IsHarmless (record s { current = d })
  with_tables d s k h = record {
    current = k;
    committed = h.committed;
    clean = h.clean;
    quiet = h.quiet;
  }

  pub IsHarmless-commit : (s : Session) → IsHarmless s → IsHarmless (commit s).1
  unfolding commit
  IsHarmless-commit s h =
      let none_waiting : insert_records s.new_records s.current ≡ some s.current =
        ap (λ rs. insert_records rs s.current) h.clean ∙ unfold insert_records in refl in
      rw (none_waiting, h.quiet)
        (record { current = h.current; committed = h.current; clean = refl; quiet = refl })

  pub IsHarmless-update_batch :
      (id : ℕ) (change : ImportBatch → ImportBatch) (s : Session)
      → KeepsKeys change
      → IsHarmless s
      → IsHarmless (update_batch id change s).1
  unfolding update_batch
  IsHarmless-update_batch id change s k h =
      let (u, same) = h.current in
      elim (Bool-cases (
        any (λ o. o.id == id && not (batch_references s.current (change o)))
          s.current.import_batches)) [
            | inl t ↦ rw t h
            | inr f ↦ rw f (
                with_tables _ s
                  (HasUniqueKeys-update_where _ change s.current.import_batches k u, same) h)
          ]
