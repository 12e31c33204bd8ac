-- ===== src/Momo/Memory.antt =====
-- The store without a database: the branches `if (!this.pool)` of
-- backend/src/momo/momo-transaction.store.ts.
pub mod Invariant
use afri_pay.Base.{
  Bool, true, false, not, ◌&&◌, ◌||◌, List, [], Option, none, some, Text, text_eq, Map, get, set,
  find_value, filter_values, is_some, Result, ok, err, conflict, if◌then◌else◌,
}
use afri_pay.Base.Actions.{Action}
use afri_pay.Momo.{
  MomoTransactionType, MomoTransactionStatus, MomoTransactionRecord, StatusPatch, MomoStore,
  same_type, same_status, is_pending,
}

-- `private readonly records`.
abbrev pub Memory : Type 0
Memory = Map MomoTransactionRecord

-- `item.type === record.type && item.externalId === record.externalId && item.referenceId !== …`
abbrev pub collides : MomoTransactionRecord → MomoTransactionRecord → Bool
collides record_ item =
    same_type item.tx_type record_.tx_type
    && text_eq item.external_id record_.external_id
    && not (text_eq item.reference_id record_.reference_id)

unfoldable pub save : MomoTransactionRecord → Action Memory MomoTransactionRecord
save record_ m =
    if is_some (find_value (collides record_) m)
    then (err (conflict "Provider reference already exists"), m)
    else (ok record_, set record_.reference_id record_ m)

unfoldable pub find : Text → Action Memory (Option MomoTransactionRecord)
find reference_id m = (ok (get reference_id m), m)

-- `record.externalId === externalId && record.type === type`
abbrev pub has_external_id : Text → MomoTransactionType → MomoTransactionRecord → Bool
has_external_id external_id tx_type r =
    text_eq r.external_id external_id && same_type r.tx_type tx_type

unfoldable pub find_by_external_id :
    Text → MomoTransactionType → Action Memory (Option MomoTransactionRecord)
find_by_external_id external_id tx_type m =
    (ok (find_value (has_external_id external_id tx_type) m), m)

abbrev pub reference_of : Option MomoTransactionRecord → Option Text
reference_of none = none
reference_of (some r) = some r.reference_id

unfoldable pub find_reference_id_by_external_id :
    Text → MomoTransactionType → Action Memory (Option Text)
find_reference_id_by_external_id external_id tx_type m =
    (ok (reference_of (find_value (has_external_id external_id tx_type) m)), m)

abbrev pub patched : Text → StatusPatch → MomoTransactionRecord → MomoTransactionRecord
patched now patch existing = record existing {
  status = patch.status;
  reason = patch.reason;
  updated_at = now;
}

-- `terminal && nextStatus !== existing.status`
abbrev pub is_refused : MomoTransactionRecord → StatusPatch → Bool
is_refused existing patch =
    not (is_pending existing.status) && not (same_status patch.status existing.status)

unfoldable pub upsert_status :
    Text → Text → StatusPatch → Action Memory (Option MomoTransactionRecord)
upsert_status now reference_id patch m = elim (get reference_id m) [
  | none ↦ (ok none, m)
  | some existing ↦
      if is_refused existing patch
      then (ok (some existing), m)
      else (ok (some (patched now patch existing)), set reference_id (patched now patch existing) m)
]

unfoldable pub list_pending : Action Memory (List MomoTransactionRecord)
list_pending m = (ok (filter_values (λ r. is_pending r.status) m), m)

-- `clear`, for tests.
unfoldable pub clear : Action Memory (Unit {0})
clear m = (ok tt, [])

-- The store that the service is given when no database is configured.
abbrev pub memory : MomoStore Memory
memory = record {
  save = save;
  find = find;
  find_by_external_id = find_by_external_id;
  find_reference_id_by_external_id = find_reference_id_by_external_id;
  upsert_status = upsert_status;
  list_pending = list_pending;
}
