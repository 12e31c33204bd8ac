-- ===== src/Browser/Send.antt =====
-- The sending of a payment: `SendFlow` of frontend/src/components/wallet/SendFlow.tsx and
-- `usePendingPayment` of frontend/src/components/wallet/usePendingPayment.ts. A method that awaits is
-- two functions: what runs up to its request, and what runs with the answer.
pub mod Form
pub mod Confirm
pub mod Check
pub mod Screen
pub mod Page
pub mod Handlers
pub mod Phases
pub mod Once
pub mod Logs
pub mod Runs
pub mod Blocked
pub mod Links
use Prim.Native.String.{String}
use afri_pay.Base.{
  ℕ, Bool, true, false, not, ◌&&◌, ◌||◌, List, [], ◌∷◌, ◌++◌, Option, none, some, Text, codes,
  text_eq, is_empty, trim, byte_length, Result, ok, err, Error, bad_request, unauthorized,
  not_found, conflict, too_many_requests, unavailable, plain, momo_api, ltb, ◌==◌, if◌then◌else◌,
}
use afri_pay.Stellar.Amount.{is_decimal, units}
use afri_pay.Stellar.Validation.{is_given}
use afri_pay.Stellar.Accounts.{text_or, is_text}
use afri_pay.Browser.Sign.{PaymentReview, Signer, sign_transaction_xdr}

pub record Review : Type 0 where
  pub id : Text
  pub xdr : Text
  pub fee : Text
  pub recipient : Text
  pub amount : Text
  pub memo : Text

-- `Result` of the source; `succeeded` is whether its status is `SUCCEEDED`.
pub record SendResult : Type 0 where
  pub succeeded : Bool
  pub transaction_hash : Text
  pub amount : Text
  pub recipient : Text

pub record SignedPayment : Type 0 where
  pub id : Text
  pub signed_xdr : Text

-- `PendingOutcome`.
pub data PendingOutcome : Type 0 where
  status_of : Text → Option Text → PendingOutcome
  error_of : String → PendingOutcome

-- `localStorage`, as what stands under each key.
abbrev pub Storage : Type 0
Storage = Text → Option Text

abbrev pub set_item : Text → Text → Storage → Storage
set_item key value storage k = if text_eq key k then some value else storage k

abbrev pub remove_item : Text → Storage → Storage
remove_item key storage k = if text_eq key k then none else storage k

-- The hooks' states, the reference `pendingPayment` and the browser's storage; `busy` and the
-- reference `sending` are always set together. The fields' marks of having been left are not kept:
-- they only choose which errors show.
pub record Send : Type 0 where
  pub recipient : Text
  pub amount : Text
  pub memo : Text
  pub attempted : Bool
  pub review : Option Review
  pub unconfirmed_hash : Option Text
  pub result : Option SendResult
  pub busy : Bool
  pub error : Option String
  pub pending_payment : Option SignedPayment
  pub pending_id : Option Text
  pub outcome : Option PendingOutcome
  pub storage : Storage

-- What `useWallet()` gives at a call.
pub record WalletView : Type 0 where
  pub address : Option Text
  pub secret : Option Text
  pub activated : Option Bool
  pub xlm : Option Text
  pub api_config_error : Option String

-- `PaymentRequest`, which a payment link gives.
pub record PaymentRequest : Type 0 where
  pub creator : Text
  pub amount : Option Text
  pub reference : Option Text

-- The body of the request for an intent.
pub record IntentRequest : Type 0 where
  pub sender : Text
  pub recipient : Text
  pub amount : Text
  pub memo : Text

-- The answers to the two requests of `prepare`.
pub record PreparedIntent : Type 0 where
  pub id : Text
  pub network : Text
  pub xdr : Text
  pub fee : Text

-- An awaited answer, or the message of what was thrown; none where it is not an `Error`.
pub data Answer {ℓ} (A : Type ℓ) : Type ℓ where
  answer : A → Answer A
  thrown : Option String → Answer A

-- The fields of an intent that the flow reads.
pub record IntentStatus : Type 0 where
  pub status : Text
  pub transaction_hash : Option Text

-- `pendingPaymentKey`
unfoldable pub pending_payment_key : Text → Text
pending_payment_key address = codes "afripay.pending." ++ address

-- `localStorage.getItem(pendingPaymentKey(address))` under `address &&`, where it is truthy.
unfoldable pub recorded : Option Text → Storage → Option Text
unfolding pending_payment_key
recorded none storage = none
recorded (some address) storage =
    if is_empty address then none else elim (storage (pending_payment_key address)) [
      | none ↦ none
      | some id ↦ if is_empty id then none else some id
    ]

-- `reload` of `usePendingPayment`.
unfoldable pub reload_pending : Option Text → Send → Send
unfolding recorded
reload_pending address s = record s { pending_id = recorded address s.storage }

abbrev pub message_or : String → Option String → String
message_or other none = other
message_or other (some message) = message

-- `error.message` of what `signTransactionXdr` throws.
abbrev pub message_of : Error → String
message_of (bad_request m) = m
message_of (unauthorized m) = m
message_of (not_found m) = m
message_of (conflict m) = m
message_of (too_many_requests m) = m
message_of (unavailable m) = m
message_of (plain m) = m
message_of (momo_api m status) = m

abbrev pub with_error : String → Send → Send
with_error message s = record s { error = some message }

-- `finally { sending.current = false; setBusy(false); }` and its opposite.
abbrev pub idle : Send → Send
idle s = record s { busy = false }

abbrev pub working : Send → Send
working s = record s { busy = true; error = none }
