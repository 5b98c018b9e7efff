-- ===== src/Imports/Repository.antt =====
-- The queries and statements of ImportRepository (app/modules/imports/repository.py) on batches and
-- rows, with the constraints of app/modules/imports/models.py.
use text.Mathlib.Text.{◌==◌ as str_eq}
use sms_backend.Common.{
  ℕ, Bool, true, false, not, ◌&&◌, ◌||◌, Option, none, some, List, [], ◌∷◌, ◌++◌, ◌==◌, leb, ltb,
  any, filter, first, sort_by, update_where,
}
use sms_backend.Models.{ImportBatch, ImportRow, IdempotencyKey, student_key, fee_key}
use sms_backend.Database.{Db, Action, execute}

abbrev pub same_idempotency_key : IdempotencyKey → IdempotencyKey → Bool
same_idempotency_key (student_key t h) (student_key u k) = t == u && str_eq h k
same_idempotency_key (fee_key t h) (fee_key u k) = t == u && str_eq h k
same_idempotency_key (student_key t h) (fee_key u k) = false
same_idempotency_key (fee_key t h) (student_key u k) = false

-- ImportRepository.get_batch
unfoldable pub get_batch : ℕ → Db → Option ImportBatch
get_batch batch_id db = first (filter (λ b. b.id == batch_id) db.import_batches)

-- ImportRepository.get_batch_by_idempotency_key
unfoldable pub get_batch_by_idempotency_key : ℕ → IdempotencyKey → Db → Option ImportBatch
get_batch_by_idempotency_key tenant_id key db = first (
    filter (λ b. b.tenant_id == tenant_id && same_idempotency_key b.idempotency_key key)
      db.import_batches)

-- ImportRepository.get_rows
unfoldable pub get_rows : ℕ → Db → List ImportRow
get_rows batch_id db =
    sort_by (λ r q. leb r.row_number q.row_number)
      (filter (λ r. r.batch_id == batch_id) db.import_rows)

abbrev branch_known : Db → ℕ → Option ℕ → Bool
branch_known db tenant_id none = true
branch_known db tenant_id (some id) = any (λ b. b.tenant_id == tenant_id && b.id == id) db.branches

-- the foreign keys of sms_import_batches
unfoldable pub batch_references : Db → ImportBatch → Bool
batch_references db b =
    any (λ t. t.id == b.tenant_id) db.tenants
    && branch_known db b.tenant_id b.branch_id
    && any (λ u. u.id == b.created_by) db.users

-- the primary key and uq_sms_import_batches_tenant_idempotency
unfoldable pub batch_unique : List ImportBatch → ImportBatch → Bool
batch_unique batches b = not (
    any
      (λ o.
        o.id == b.id
        || (o.tenant_id == b.tenant_id && same_idempotency_key o.idempotency_key b.idempotency_key))
      batches)

-- ImportRepository.create_batch
unfoldable pub create_batch : ImportBatch → Action Unit
create_batch b =
    execute (λ db. batch_unique db.import_batches b && batch_references db b)
      (λ db. record db { import_batches = db.import_batches ++ b ∷ [] })

-- ImportRepository.update_batch: the columns that were changed are written.
unfoldable pub update_batch : ℕ → (ImportBatch → ImportBatch) → Action Unit
update_batch id change =
    execute
      (λ db. not (any (λ o. o.id == id && not (batch_references db (change o))) db.import_batches))
      (λ db. record db { import_batches = update_where (λ o. o.id == id) change db.import_batches })

-- ImportRepository.delete_rows_for_batch
unfoldable pub delete_rows_for_batch : ℕ → Action Unit
delete_rows_for_batch batch_id =
    execute (λ db. true)
      (λ db. record db { import_rows = filter (λ r. not (r.batch_id == batch_id)) db.import_rows })

-- the constraints of sms_import_rows
unfoldable pub import_row_allowed : Db → ImportRow → Bool
import_row_allowed db r =
    not (
      any (λ o. o.id == r.id || (o.batch_id == r.batch_id && o.row_number == r.row_number))
        db.import_rows)
    && ltb 0 r.row_number
    && any (λ b. b.id == r.batch_id) db.import_batches

abbrev pub with_row : Db → ImportRow → Db
with_row db r = record db { import_rows = db.import_rows ++ r ∷ [] }

abbrev pub rows_allowed : List ImportRow → Db → Bool
rows_allowed [] db = true
rows_allowed (r ∷ rs) db = import_row_allowed db r && rows_allowed rs (with_row db r)

-- ImportRepository.create_rows
unfoldable pub create_rows : List ImportRow → Action Unit
create_rows rows =
    execute (rows_allowed rows) (λ db. record db { import_rows = db.import_rows ++ rows })

-- a row's object is changed, and written at the next flush
unfoldable pub update_row : ℕ → (ImportRow → ImportRow) → Action Unit
update_row id change =
    execute (λ db. true)
      (λ db. record db { import_rows = update_where (λ o. o.id == id) change db.import_rows })
