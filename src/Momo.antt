-- ===== src/Momo.antt =====
-- The MTN MoMo module of the backend (backend/src/momo): the data of interfaces/momo.interfaces.ts
-- and dto/, the store's interface, and below it the store, the clients of the provider and the
-- webhook.
pub mod Memory
pub mod Postgres
pub mod Config
pub mod Auth
pub mod Webhook
pub mod Wire
pub mod Service
pub mod Requests
use afri_pay.Base.{Bool, true, false, List, Option, none, some, Text, codes, text_eq, if◌then◌else◌}
use afri_pay.Base.Actions.{Action}

pub data MomoTransactionType : Type 0 where
  collection disbursement : MomoTransactionType

pub data MomoTransactionStatus : Type 0 where
  pending successful failed : MomoTransactionStatus

-- Dates are ISO strings, as in the source.
pub record MomoTransactionRecord : Type 0 where
  pub reference_id : Text
  pub tx_type : MomoTransactionType
  pub status : MomoTransactionStatus
  pub amount : Text
  pub currency : Text
  pub external_id : Text
  pub party_id : Text
  pub reason : Option Text
  pub created_at : Text
  pub updated_at : Text

-- `reason?: { code, message } | string`, of which the code reads the message.
pub data Reason : Type 0 where
  absent : Reason
  message : Option Text → Reason
  string : Text → Reason

-- What the provider sends; its status is any string until it is validated.
pub record MomoStatusResource : Type 0 where
  pub amount : Text
  pub currency : Text
  pub external_id : Text
  pub status : Text
  pub reason : Reason

-- `RequestToPayDto` and `TransferDto`; `msisdn` is `payerMsisdn` or `payeeMsisdn`.
pub record PaymentDto : Type 0 where
  pub amount : Text
  pub currency : Text
  pub external_id : Text
  pub msisdn : Text
  pub payer_message : Option Text
  pub payee_note : Option Text

abbrev pub RequestToPayDto : Type 0
RequestToPayDto = PaymentDto

abbrev pub TransferDto : Type 0
TransferDto = PaymentDto

abbrev pub MomoWebhookPayload : Type 0
MomoWebhookPayload = MomoStatusResource

abbrev pub same_type : MomoTransactionType → MomoTransactionType → Bool
same_type collection collection = true
same_type disbursement disbursement = true
same_type collection disbursement = false
same_type disbursement collection = false

abbrev pub is_pending : MomoTransactionStatus → Bool
is_pending pending = true
is_pending successful = false
is_pending failed = false

abbrev pub same_status : MomoTransactionStatus → MomoTransactionStatus → Bool
same_status pending t = is_pending t
same_status successful successful = true
same_status successful pending = false
same_status successful failed = false
same_status failed failed = true
same_status failed pending = false
same_status failed successful = false

-- `['PENDING', 'SUCCESSFUL', 'FAILED'].includes(status)`, with the member.
unfoldable pub read_status : Text → Option MomoTransactionStatus
read_status s =
    if text_eq s (codes "PENDING")
    then some pending
    else if text_eq s (codes "SUCCESSFUL")
    then some successful
    else if text_eq s (codes "FAILED")
    then some failed
    else none

-- The part of a record that `upsertStatus` writes.
pub record StatusPatch : Type 0 where
  pub status : MomoTransactionStatus
  pub reason : Option Text

-- The methods of `MomoTransactionStore` that the service calls; `upsert_status` takes the present
-- time first.
pub record MomoStore (S : Type 0) : Type 0 where
  pub save : MomoTransactionRecord → Action S MomoTransactionRecord
  pub find : Text → Action S (Option MomoTransactionRecord)
  pub find_by_external_id : Text → MomoTransactionType → Action S (Option MomoTransactionRecord)
  pub find_reference_id_by_external_id : Text → MomoTransactionType → Action S (Option Text)
  pub upsert_status : Text → Text → StatusPatch → Action S (Option MomoTransactionRecord)
  pub list_pending : Action S (List MomoTransactionRecord)
