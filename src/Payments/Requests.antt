-- ===== src/Payments/Requests.antt =====
-- `PaymentIntentController` of backend/src/payments/payment-intent.controller.ts.
use afri_pay.Base.{
  ◌≡◌, ap, ◌∙◌, not, ◌||◌, List, [], Option, none, some, arith, Text, is_empty, trim, if◌then◌else◌,
  Result, ok, err, bad_request, throw_if,
}
use afri_pay.Base.Actions.{Action, ◌>>=◌, ◌>>◌, lift}
use afri_pay.Stellar.Sdk.{Sdk}
use afri_pay.Stellar.Service.{StellarService, Horizon}
use afri_pay.Stellar.Validation.{is_given}
use afri_pay.Stellar.Build.{Builder, Prepared, build_native_payment}
use afri_pay.Payments.{PaymentIntent, PaymentLink, IntentStore, is_pending}
use afri_pay.Payments.Memory.{Memory, memory}
use afri_pay.Payments.Input.{CreateInput, LinkInput, Dates}
use afri_pay.Payments.Service.{
  World, get_intent, create, submit, reconcile, create_link, get_link, list_intents,
}
use afri_pay.Payments.Service.Create.{create_retry}

-- A missing field of a body reads as an empty text.
pub record CreatePaymentBody : Type 0 where
  pub sender : Text
  pub recipient : Text
  pub amount : Text
  pub asset : Text
  pub memo : Option Text

abbrev pub key_of : Option Text → Text
key_of none = []
key_of (some key) = trim key

-- `{ ...body, idempotencyKey: idempotencyKey.trim() }`
abbrev pub create_input : CreatePaymentBody → Text → CreateInput
create_input body key = record {
  idempotency_key = key;
  sender = body.sender;
  recipient = body.recipient;
  amount = body.amount;
  asset = body.asset;
  memo = body.memo;
}

unfoldable pub check_create : CreatePaymentBody → Text → Result (Unit {0})
check_create body key =
    if is_empty key
    then err (bad_request "Idempotency-Key header is required")
    else throw_if
        (is_empty body.sender
          || is_empty body.recipient
          || is_empty body.amount
          || is_empty body.asset)
        (bad_request "sender, recipient, amount and asset are required")

module _ {S : Type 0} (store : IntentStore S) where
  unfoldable pub handle_create :
      Sdk → Text → Text → CreatePaymentBody → Option Text → Action S PaymentIntent
  handle_create sdk id now body idempotency_key = do
    lift (check_create body (key_of idempotency_key))
    create store sdk id now (create_input body (key_of idempotency_key))

  -- Reading an intent brings it up to date first.
  abbrev pub handle_get : StellarService → Horizon → Text → Text → Action S PaymentIntent
  handle_get stellar horizon time id = reconcile store stellar horizon time id

  -- Only a payment that waits for its first submission is built.
  unfoldable pub handle_build : StellarService → Builder → Text → Action S Prepared
  handle_build stellar builder id = do
    intent ← get_intent store id
    lift (
        throw_if (is_given intent.transaction_hash || not (is_pending intent.status))
          (bad_request "Intent already submitted; check its status"))
    lift (
        build_native_payment stellar builder intent.sender intent.recipient intent.amount
          intent.memo)

  abbrev pub handle_submit :
      StellarService → Horizon → Text → Text → Text → Text → Action (World S) PaymentIntent
  handle_submit stellar horizon claim_time settle_time id signed_xdr =
      submit store stellar horizon claim_time settle_time id signed_xdr

  unfoldable pub handle_create_link :
      Sdk → Dates → Text → Text → Text → LinkInput → Action S PaymentLink
  handle_create_link sdk dates app_url id created body = do
    lift (
        throw_if (is_empty body.creator || is_empty body.asset)
          (bad_request "creator and asset are required"))
    create_link store sdk dates app_url id created body

  abbrev pub handle_get_link : Dates → Text → Action S PaymentLink
  handle_get_link dates id = get_link store dates id

  abbrev pub handle_list : Option Text → Action S (List PaymentIntent)
  handle_list sender = list_intents store sender

handle_create_checked :
    (sdk : Sdk) (id now : Text) (body : CreatePaymentBody) (key : Option Text) (m : Memory)
    → check_create body (key_of key) ≡ ok tt
    → handle_create memory sdk id now body key m
      ≡ create memory sdk id now (create_input body (key_of key)) m
unfolding handle_create ◌>>=◌
handle_create_checked sdk id now body key m e = ground arith

handle_create_passed :
    (sdk : Sdk) (id now : Text) (body : CreatePaymentBody) (key : Option Text) (m : Memory)
    {saved : PaymentIntent}
    → (handle_create memory sdk id now body key m).0 ≡ ok saved
    → check_create body (key_of key) ≡ ok tt
unfolding handle_create ◌>>=◌
handle_create_passed sdk id now body key m e = ground arith

-- After a POST of an intent that returned one, the same body under a header that trims to the same
-- key, with any other identifier and time, returns that intent and changes nothing.
pub handle_create_retry :
    (sdk : Sdk) (id now id' now' : Text) (body : CreatePaymentBody) (key key' : Option Text)
    (m : Memory) {saved : PaymentIntent}
    → (handle_create memory sdk id now body key m).0 ≡ ok saved
    → key_of key' ≡ key_of key
    → handle_create memory sdk id' now' body key' (handle_create memory sdk id now body key m).1
      ≡ (ok saved, (handle_create memory sdk id now body key m).1)
handle_create_retry sdk id now id' now' body key key' m {saved} e same =
    let passed = handle_create_passed sdk id now body key m e in
    let first = handle_create_checked sdk id now body key m passed in
    let again =
      create_retry sdk id now id' now' (create_input body (key_of key)) m {saved = saved}
        (ground arith) in
    let t = (create memory sdk id now (create_input body (key_of key)) m).1 in
    let second =
      handle_create_checked sdk id' now' body key' t (ap (check_create body) same ∙ passed) in
    let moved = ap (λ k. create memory sdk id' now' (create_input body k) t) same in
    rw first (second ∙ moved ∙ again)
