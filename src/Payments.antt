-- ===== src/Payments.antt =====
-- The payments of the backend (backend/src/payments): the data of payment-intent.service.ts, the
-- store's interface, and below it the store in memory and in a database, the service and their
-- properties.
pub mod Memory
pub mod Postgres
pub mod Input
pub mod Service
pub mod History
pub mod Requests
use afri_pay.Base.{Bool, true, false, List, Option, Text}
use afri_pay.Base.Actions.{Action}
use afri_pay.Stellar.Validation.{NativePayment}
use afri_pay.Stellar.Service.{Settlement, pending, succeeded, failed}

-- `'PENDING' | 'SUCCEEDED' | 'FAILED'`, the same union as the outcome of a transaction.
abbrev pub PaymentIntentStatus : Type 0
PaymentIntentStatus = Settlement

-- Dates are ISO strings, as in the source.
pub record PaymentIntent : Type 0 where
  pub id : Text
  pub idempotency_key : Text
  pub sender : Text
  pub recipient : Text
  pub amount : Text
  pub asset : Text
  pub memo : Option Text
  pub status : PaymentIntentStatus
  pub transaction_hash : Option Text
  pub created_at : Text
  pub updated_at : Text

pub record PaymentLink : Type 0 where
  pub id : Text
  pub creator : Text
  pub amount : Option Text
  pub asset : Text
  pub reference : Option Text
  pub expires_at : Option Text
  pub url : Text
  pub created_at : Text

-- `status === 'PENDING'`
abbrev pub is_pending : PaymentIntentStatus → Bool
is_pending pending = true
is_pending succeeded = false
is_pending failed = false

-- An intent where a `NativePayment` is asked for.
abbrev pub native_payment : PaymentIntent → NativePayment
native_payment i = record {
  sender = i.sender;
  recipient = i.recipient;
  amount = i.amount;
  asset = i.asset;
  memo = i.memo;
}

-- The methods of `PaymentIntentStore` that the service calls; those that stamp a record take the
-- present time first.
pub record IntentStore (S : Type 0) : Type 0 where
  pub find_intent : Text → Action S (Option PaymentIntent)
  pub create_intent : PaymentIntent → Action S PaymentIntent
  pub list_intents : Option Text → Action S (List PaymentIntent)
  pub claim_hash : Text → Text → Text → Action S PaymentIntent
  pub settle : Text → Text → Text → PaymentIntentStatus → Action S PaymentIntent
  pub save_link : PaymentLink → Action S (Unit {0})
  pub find_link : Text → Action S (Option PaymentLink)
