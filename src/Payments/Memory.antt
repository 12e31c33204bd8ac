-- ===== src/Payments/Memory.antt =====
-- The store without a database: the branches `if (!this.pool)` of
-- backend/src/payments/payment-intent.store.ts.
pub mod Invariant
pub mod Growth
use afri_pay.Base.{
  Bool, true, false, not, ◌&&◌, ◌||◌, List, Option, none, some, Text, text_eq, is_empty, Map, get,
  set, find_value, filter_values, is_some, Result, ok, err, conflict, plain, if◌then◌else◌,
}
use afri_pay.Base.Actions.{Action}
use afri_pay.Payments.{PaymentIntentStatus, PaymentIntent, PaymentLink, IntentStore, is_pending}

-- The two maps of a `PaymentIntentStore`.
pub record Memory : Type 0 where
  pub intents : Map PaymentIntent
  pub links : Map PaymentLink

unfoldable pub find_intent : Text → Action Memory (Option PaymentIntent)
find_intent id m = (ok (get id m.intents), m)

-- `item.idempotencyKey === key`
abbrev pub has_key : Text → PaymentIntent → Bool
has_key key item = text_eq item.idempotency_key key

unfoldable pub create_intent : PaymentIntent → Action Memory PaymentIntent
create_intent intent m = elim (find_value (has_key intent.idempotency_key) m.intents) [
  | some existing ↦ (ok existing, m)
  | none ↦ (ok intent, record m { intents = set intent.id intent m.intents })
]

-- `!sender || item.sender === sender`
abbrev pub is_sent_by : Option Text → PaymentIntent → Bool
is_sent_by none item = true
is_sent_by (some sender) item = is_empty sender || text_eq item.sender sender

unfoldable pub list_intents : Option Text → Action Memory (List PaymentIntent)
list_intents sender m = (ok (filter_values (is_sent_by sender) m.intents), m)

-- `intent.transactionHash && intent.transactionHash !== hash`
abbrev pub is_bound_elsewhere : Option Text → Text → Bool
is_bound_elsewhere none hash = false
is_bound_elsewhere (some h) hash = not (is_empty h) && not (text_eq h hash)

-- `transactionHash === hash`
abbrev pub has_hash : Option Text → Text → Bool
has_hash none hash = false
has_hash (some h) hash = text_eq h hash

-- Reading a field of `undefined`.
abbrev pub missing {ℓ} : {A : Type ℓ} → Result A
missing = err (plain "TypeError")

abbrev pub claimed : Text → Text → PaymentIntent → PaymentIntent
claimed now hash intent = record intent { transaction_hash = some hash; updated_at = now }

-- `item.id !== id && item.transactionHash === hash`
abbrev pub is_taken : Text → Text → PaymentIntent → Bool
is_taken id hash item = not (text_eq item.id id) && has_hash item.transaction_hash hash

unfoldable pub claim_hash : Text → Text → Text → Action Memory PaymentIntent
claim_hash now id hash m = elim (get id m.intents) [
  | none ↦ (missing, m)
  | some intent ↦
      if is_bound_elsewhere intent.transaction_hash hash
      then (err (conflict "Intent is already bound to another transaction"), m)
      else if is_some (find_value (is_taken id hash) m.intents)
      then (err (conflict "Transaction already belongs to another intent"), m)
      else (
        ok (claimed now hash intent),
        record m { intents = set id (claimed now hash intent) m.intents },
      )
]

abbrev pub settled : Text → PaymentIntentStatus → PaymentIntent → PaymentIntent
settled now status intent = record intent { status = status; updated_at = now }

unfoldable pub settle : Text → Text → Text → PaymentIntentStatus → Action Memory PaymentIntent
settle now id hash status m = elim (get id m.intents) [
  | none ↦ (missing, m)
  | some intent ↦
      if not (has_hash intent.transaction_hash hash)
      then (err (conflict "Settlement hash mismatch"), m)
      else if not (is_pending intent.status)
      then (ok intent, m)
      else (
        ok (settled now status intent),
        record m { intents = set id (settled now status intent) m.intents },
      )
]

unfoldable pub save_link : PaymentLink → Action Memory (Unit {0})
save_link link m = (ok tt, record m { links = set link.id link m.links })

unfoldable pub find_link : Text → Action Memory (Option PaymentLink)
find_link id m = (ok (get id m.links), m)

-- The store that the service is given when no database is configured.
abbrev pub memory : IntentStore Memory
memory = record {
  find_intent = find_intent;
  create_intent = create_intent;
  list_intents = list_intents;
  claim_hash = claim_hash;
  settle = settle;
  save_link = save_link;
  find_link = find_link;
}
