-- ===== src/Momo/Postgres.antt =====
-- The store with a database: the branches of backend/src/momo/momo-transaction.store.ts that query
-- PostgreSQL, over the table of backend/migrations/001_payment_state.sql. A statement is one step.
pub mod Simulates
use afri_pay.Base.{
  Bool, true, false, not, ◌&&◌, ◌||◌, text_eq, List, [], ◌∷◌, map, Option, none, some, Text, Map,
  get, set, find_value, filter_values, is_some, Result, ok, err, conflict, unavailable,
  if◌then◌else◌,
}
use afri_pay.Base.MapValues.{map_given, given}
use afri_pay.Base.Actions.{Action, ◌>>=◌, ◌>>◌, pure}
use afri_pay.Momo.{MomoTransactionType, MomoTransactionRecord, StatusPatch, MomoStore, is_pending}
use afri_pay.Momo.Memory.{collides, has_external_id, patched, is_refused, reference_of}

-- The table `momo_transactions`, rows under their primary key, `amount` as the driver prints it. The
-- copy that the store keeps in memory is not read.
abbrev pub Rows : Type 0
Rows = Map MomoTransactionRecord

-- Whether the database answers, what a NUMERIC(30, 12) and a CHAR(3) column print for what was
-- written, and whether the columns take a reference, an amount and a currency: a UUID, a number above
-- 0 that NUMERIC(30, 12) holds, and at most three characters.
pub record Postgres : Type 0 where
  pub is_up : Bool
  pub numeric : Text → Text
  pub char3 : Text → Text
  pub takes : Text → Text → Text → Bool

-- `fromRow`
unfoldable pub from_row : MomoTransactionRecord → MomoTransactionRecord
from_row row = record row { reason = given row.reason }

-- `DO UPDATE SET status, reason, updated_at WHERE momo_transactions.status = 'PENDING'`
abbrev pub overwrite : MomoTransactionRecord → MomoTransactionRecord → Rows → Rows
overwrite row old t =
    if is_pending old.status
    then set row.reference_id
        (record old { status = row.status; reason = row.reason; updated_at = row.updated_at }) t
    else t

-- `INSERT … ON CONFLICT (reference_id) …`, under the unique pair of type and external id.
abbrev pub insert_row :
    MomoTransactionRecord → Option MomoTransactionRecord → Action Rows (Unit {0})
insert_row row (some old) t = (ok tt, overwrite row old t)
insert_row row none t =
    if is_some (find_value (collides row) t)
    then (err (conflict "Provider reference already exists; retrieve its status"), t)
    else (ok tt, set row.reference_id row t)

module _ (db : Postgres) where
  -- `query`: a violated uniqueness is a conflict, which the statement above says itself.
  abbrev pub query : {A : Type 0} → Action Rows A → Action Rows A
  query statement t =
      if db.is_up then statement t else (err (unavailable "MoMo storage unavailable"), t)

  abbrev pub row_of : MomoTransactionRecord → MomoTransactionRecord
  row_of r = record r { amount = db.numeric r.amount; currency = db.char3 r.currency }

  -- The columns' types and checks; what stands in a stored row has passed them.
  abbrev pub is_storable : MomoTransactionRecord → Option MomoTransactionRecord → Bool
  is_storable r none = db.takes r.reference_id r.amount r.currency
  is_storable r (some old) =
      text_eq r.amount old.amount && text_eq r.currency old.currency
      || db.takes r.reference_id r.amount r.currency

  -- What the table refuses for another reason than a uniqueness is an error of storage.
  abbrev pub insert_checked :
      MomoTransactionRecord → Option MomoTransactionRecord → Action Rows (Unit {0})
  insert_checked r old t =
      if is_storable r old
      then insert_row (row_of r) old t
      else (err (unavailable "MoMo storage unavailable"), t)

  abbrev pub insert_or_update : MomoTransactionRecord → Action Rows (Unit {0})
  insert_or_update r t = insert_checked r (get r.reference_id t) t

  unfoldable pub persist : MomoTransactionRecord → Action Rows (Unit {0})
  persist r = query (insert_or_update r)

  unfoldable pub save_row : MomoTransactionRecord → Action Rows MomoTransactionRecord
  save_row r = do persist r; pure r

  unfoldable pub find_row : Text → Action Rows (Option MomoTransactionRecord)
  unfolding from_row
  find_row reference_id = query (λ t. (ok (map_given from_row (get reference_id t)), t))

  unfoldable pub find_row_by_external_id :
      Text → MomoTransactionType → Action Rows (Option MomoTransactionRecord)
  unfolding from_row
  find_row_by_external_id external_id tx_type =
      query (λ t. (ok (map_given from_row (find_value (has_external_id external_id tx_type) t)), t))

  unfoldable pub find_reference_id : Text → MomoTransactionType → Action Rows (Option Text)
  unfolding find_row_by_external_id
  find_reference_id external_id tx_type = do
    found ← find_row_by_external_id external_id tx_type
    pure (reference_of found)

  -- What `upsertStatus` does with the record that it has found.
  abbrev pub patch_row :
      Text
      → Text
      → StatusPatch
      → Option MomoTransactionRecord
      → Action Rows (Option MomoTransactionRecord)
  patch_row now reference_id patch none = pure none
  patch_row now reference_id patch (some existing) =
      if is_refused existing patch
      then pure (some existing)
      else (persist (patched now patch existing) >>= λ _. find_row reference_id)

  unfoldable pub upsert_row : Text → Text → StatusPatch → Action Rows (Option MomoTransactionRecord)
  upsert_row now reference_id patch = find_row reference_id >>= patch_row now reference_id patch

  unfoldable pub select_pending : Action Rows (List MomoTransactionRecord)
  unfolding from_row
  select_pending = query (λ t. (ok (map from_row (filter_values (λ r. is_pending r.status) t)), t))

  -- The store that the service is given when a database is configured.
  abbrev pub postgres : MomoStore Rows
  postgres = record {
    save = save_row;
    find = find_row;
    find_by_external_id = find_row_by_external_id;
    find_reference_id_by_external_id = find_reference_id;
    upsert_status = upsert_row;
    list_pending = select_pending;
  }
