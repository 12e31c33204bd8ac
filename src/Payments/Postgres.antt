-- ===== src/Payments/Postgres.antt =====
-- The store with a database: the branches of backend/src/payments/payment-intent.store.ts that query
-- PostgreSQL, over the tables of backend/migrations/001_payment_state.sql and
-- 002_payment_hash_uniqueness.sql. A statement is one step.
pub mod Simulates
pub mod Meets
pub mod Reread
pub mod Worlds
pub mod Submit
pub mod Stores
pub mod Methods
use afri_pay.Base.{
  ℕ, zero, suc, Bool, true, false, not, ◌&&◌, ◌||◌, List, [], ◌∷◌, ◌++◌, map, Option, none, some,
  Text, codes, text_eq, is_empty, Map, get, set, find_value, filter_values, is_some, Result, ok,
  err, conflict, unavailable, plain, all, ◌==◌, if◌then◌else◌,
}
use afri_pay.Base.MapValues.{map_given, given}
use afri_pay.Base.Actions.{Action, ◌>>=◌, ◌>>◌, lift}
use afri_pay.Stellar.Amount.{is_digit}
use afri_pay.Stellar.Amount.Decimal.{drop_zeros}
use afri_pay.Payments.{PaymentIntentStatus, PaymentIntent, PaymentLink, IntentStore, is_pending}
use afri_pay.Payments.Memory.{has_key, has_hash, is_taken, claimed, settled}

-- The tables, rows under their primary keys. A row has the columns of an intent, `amount` as the
-- driver prints it; the times are kept as they are written.
pub record Tables : Type 0 where
  pub intents : Map PaymentIntent
  pub links : Map PaymentLink

-- What the database is: whether it answers, what a NUMERIC(30, 12) column prints for the amount that
-- was written, the order of `ORDER BY created_at DESC`, and the address of the application.
pub record Postgres : Type 0 where
  pub is_up : Bool
  pub numeric : Text → Text
  pub newest_first : List PaymentIntent → List PaymentIntent
  pub app_url : Text

-- `.replace(/(\.\d*?)0+$/, '$1')`
unfoldable pub trim_zeros : Text → Text
unfolding is_digit drop_zeros
trim_zeros [] = []
trim_zeros (c ∷ s) =
    let rest = trim_zeros s in if c == b'.' && all is_digit s then c ∷ drop_zeros s else c ∷ rest

-- `.replace(/\.$/, '')`
unfoldable pub trim_dot : Text → Text
trim_dot [] = []
trim_dot (c ∷ []) = if c == b'.' then [] else c ∷ []
trim_dot (c ∷ d ∷ s) = c ∷ trim_dot (d ∷ s)

-- `intent(row)`
unfoldable pub read_intent : PaymentIntent → PaymentIntent
unfolding trim_zeros trim_dot
read_intent row = record row {
  amount = trim_dot (trim_zeros row.amount);
  memo = given row.memo;
  transaction_hash = given row.transaction_hash;
}

-- `transaction_hash IS NULL OR transaction_hash=$2`
abbrev pub is_free : Option Text → Text → Bool
is_free none hash = true
is_free (some h) hash = text_eq h hash

abbrev pub first_row : Option PaymentIntent → Option PaymentIntent
first_row none = none
first_row (some row) = some (read_intent row)

-- `transaction_hash=$2 AND status='PENDING'`
abbrev pub is_to_settle : Text → PaymentIntent → Bool
is_to_settle hash row = has_hash row.transaction_hash hash && is_pending row.status

-- `LIMIT n`
unfoldable pub limit : ℕ → List PaymentIntent → List PaymentIntent
limit zero rows = []
limit (suc n) [] = []
limit (suc n) (row ∷ rows) = row ∷ limit n rows

-- `$1::text IS NULL OR sender=$1`
abbrev pub is_from : Option Text → PaymentIntent → Bool
is_from none row = true
is_from (some sender) row = text_eq row.sender sender

abbrev pub taken {ℓ} : {A : Type ℓ} → Result A
taken = err (conflict "Payment reference already belongs to another record")

-- `INSERT … ON CONFLICT (idempotency_key) DO UPDATE … RETURNING *`: a row with the key comes back
-- as it is, and a primary key that is taken is a conflict.
abbrev pub insert_intent : PaymentIntent → Action Tables PaymentIntent
insert_intent row t = elim (find_value (has_key row.idempotency_key) t.intents) [
  | some existing ↦ (ok (read_intent existing), t)
  | none ↦
      if is_some (get row.id t.intents)
      then (taken, t)
      else (ok (read_intent row), record t { intents = set row.id row t.intents })
]

abbrev pub update_found : Text → Text → Text → Option PaymentIntent → Action Tables PaymentIntent
update_found now id hash none t =
    (err (conflict "Intent is already bound to another transaction"), t)
update_found now id hash (some row) t =
    if not (is_free row.transaction_hash hash)
    then (err (conflict "Intent is already bound to another transaction"), t)
    else if is_some (find_value (is_taken id hash) t.intents)
    then (taken, t)
    else (
      ok (read_intent (claimed now hash row)),
      record t { intents = set id (claimed now hash row) t.intents },
    )

-- `UPDATE … SET transaction_hash=$2 … RETURNING *`, under the unique index on hashes.
abbrev pub update_hash : Text → Text → Text → Action Tables PaymentIntent
update_hash now id hash t = update_found now id hash (get id t.intents) t

abbrev pub update_status : Text → Text → Text → PaymentIntentStatus → Action Tables (Unit {0})
update_status now id hash status t = elim (get id t.intents) [
  | none ↦ (ok tt, t)
  | some row ↦
      if is_to_settle hash row
      then (ok tt, record t { intents = set id (settled now status row) t.intents })
      else (ok tt, t)
]

abbrev pub expect_row : Option PaymentIntent → Result PaymentIntent
expect_row none = err (plain "TypeError")
expect_row (some intent) = ok intent

module _ (db : Postgres) where
  -- `query`: a violated uniqueness is a conflict, which the statements below say themselves.
  abbrev pub query : {A : Type 0} → Action Tables A → Action Tables A
  query statement t =
      if db.is_up
      then statement t
      else (err (unavailable "Payment storage unavailable; retry with the same idempotency key"), t)

  abbrev pub row_of : PaymentIntent → PaymentIntent
  row_of intent = record intent { amount = db.numeric intent.amount }

  unfoldable pub find_row : Text → Action Tables (Option PaymentIntent)
  unfolding read_intent
  find_row id = query (λ t. (ok (first_row (get id t.intents)), t))

  unfoldable pub insert_or_get : PaymentIntent → Action Tables PaymentIntent
  unfolding read_intent
  insert_or_get intent = query (insert_intent (record (row_of intent) { transaction_hash = none }))

  unfoldable pub select_intents : Option Text → Action Tables (List PaymentIntent)
  unfolding read_intent limit
  select_intents sender = query (λ t. (
    ok (map read_intent (limit 100 (db.newest_first (filter_values (is_from sender) t.intents)))),
    t,
  ))

  unfoldable pub bind_hash : Text → Text → Text → Action Tables PaymentIntent
  unfolding read_intent
  bind_hash now id hash = query (update_hash now id hash)

  unfoldable pub settle_row : Text → Text → Text → PaymentIntentStatus → Action Tables PaymentIntent
  unfolding find_row
  settle_row now id hash status = do
    query (update_status now id hash status)
    found ← find_row id
    lift (expect_row found)

  -- A link is a row under its identifier, with its amount as the column prints it.
  abbrev pub link_row : PaymentLink → PaymentLink
  link_row link = record link { amount = map_given db.numeric link.amount }

  abbrev pub insert_link : PaymentLink → Action Tables (Unit {0})
  insert_link link t =
      if is_some (get link.id t.links)
      then (taken, t)
      else (ok tt, record t { links = set link.id (link_row link) t.links })

  unfoldable pub store_link : PaymentLink → Action Tables (Unit {0})
  store_link link = query (insert_link link)

  -- The amount of a link is passed on as it is printed.
  abbrev pub read_link : PaymentLink → PaymentLink
  read_link row = record row {
    amount = given row.amount;
    url = db.app_url ++ codes "/pay/" ++ row.id;
  }

  unfoldable pub select_link : Text → Action Tables (Option PaymentLink)
  select_link id = query (λ t. (ok (map_given read_link (get id t.links)), t))

  -- The store that the service is given when a database is configured.
  abbrev pub postgres : IntentStore Tables
  postgres = record {
    find_intent = find_row;
    create_intent = insert_or_get;
    list_intents = select_intents;
    claim_hash = bind_hash;
    settle = settle_row;
    save_link = store_link;
    find_link = select_link;
  }
