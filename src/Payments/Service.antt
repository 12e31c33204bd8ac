-- ===== src/Payments/Service.antt =====
-- `PaymentIntentService` of backend/src/payments/payment-intent.service.ts, over any store.
pub mod Steps
pub mod Create
pub mod Submit
pub mod Reconcile
use afri_pay.Base.{
  ℕ, Bool, true, false, not, ◌&&◌, ◌||◌, List, ◌++◌, Option, none, some, Text, codes, is_empty,
  trim, length, ltb, Result, ok, err, conflict, not_found, throw_if, if◌then◌else◌,
}
use afri_pay.Base.Actions.{Action, ◌>>=◌, ◌>>◌, lift, pure, focus}
use afri_pay.Stellar.Sdk.{Sdk, to_hex}
use afri_pay.Stellar.Validation.{validate_payment, parse_payment}
use afri_pay.Stellar.Service.{
  StellarService, Horizon, Network, submit_signed_transaction, verify_transaction,
}
use afri_pay.Payments.{PaymentIntent, PaymentLink, IntentStore, native_payment, is_pending}
use afri_pay.Payments.Input.{
  CreateInput, requested, new_intent, has_other_details, LinkInput, is_bad_link, Dates,
  has_bad_expiry, expiry_or_tomorrow, has_expired,
}

-- The store and the transactions handed to the network.
pub record World (S : Type 0) : Type 0 where
  pub store : S
  pub network : Network

abbrev pub on_store : {S A : Type 0} → Action S A → Action (World S) A
on_store m = focus (λ w. w.store) (λ s w. record w { store = s }) m

abbrev pub on_network : {S A : Type 0} → Action Network A → Action (World S) A
on_network m = focus (λ w. w.network) (λ n w. record w { network = n }) m

-- `typeof key !== 'string' || !key.trim() || key.length > 200`
abbrev pub is_bad_key : Text → Bool
is_bad_key key = is_empty (trim key) || ltb 200 (length key)

abbrev pub expect_intent : Option PaymentIntent → Result PaymentIntent
expect_intent none = err (not_found "Payment intent was not found")
expect_intent (some intent) = ok intent

abbrev pub expect_link : Option PaymentLink → Result PaymentLink
expect_link none = err (not_found "Payment link was not found")
expect_link (some link) = ok link

-- `!intent.transactionHash || intent.status !== 'PENDING'`, with the hash that is given.
unfoldable pub open_hash : PaymentIntent → Option Text
open_hash intent = elim intent.transaction_hash [
  | none ↦ none
  | some hash ↦ if is_empty hash || not (is_pending intent.status) then none else some hash
]

module _ {S : Type 0} (store : IntentStore S) where
  -- `randomUUID()` and the time are arguments.
  unfoldable pub create : Sdk → Text → Text → CreateInput → Action S PaymentIntent
  create sdk id now input = do
    lift (validate_payment sdk (requested input))
    lift (throw_if (is_bad_key input.idempotency_key) (conflict "Invalid idempotency key"))
    saved ← store.create_intent (new_intent id now input)
    differs ← lift (has_other_details saved input)
    lift (throw_if differs (conflict "Idempotency key reused with different payment details"))
    pure saved

  unfoldable pub get_intent : Text → Action S PaymentIntent
  get_intent id = do found ← store.find_intent id; lift (expect_intent found)

  unfoldable pub list_intents : Option Text → Action S (List PaymentIntent)
  list_intents sender = store.list_intents sender

  -- The store is stamped with the time of the claim and with that of the settlement.
  unfoldable pub submit :
      StellarService → Horizon → Text → Text → Text → Text → Action (World S) PaymentIntent
  unfolding get_intent
  submit stellar horizon claim_time settle_time id signed_xdr = do
    intent ← on_store (get_intent id)
    tx ← lift (parse_payment stellar.sdk signed_xdr (some (native_payment intent)))
    let hash = to_hex tx.hash
    claimed ← on_store (store.claim_hash claim_time id hash)
    let go_on : Action (World S) PaymentIntent = do
      result ← on_network (
          submit_signed_transaction stellar horizon signed_xdr (some intent.sender)
            (some (native_payment intent)))
      on_store (store.settle settle_time id hash result.status)
    if is_pending claimed.status then go_on else pure claimed

  unfoldable pub reconcile : StellarService → Horizon → Text → Text → Action S PaymentIntent
  unfolding get_intent open_hash
  reconcile stellar horizon time id = do
    intent ← get_intent id
    elim (open_hash intent) [
      | none ↦ pure intent
      | some hash ↦ do
        status ← lift (verify_transaction stellar horizon hash)
        store.settle time id hash status
    ]

  -- `app_url` is PUBLIC_APP_URL with its default; `created` is the time stamp.
  unfoldable pub create_link : Sdk → Dates → Text → Text → Text → LinkInput → Action S PaymentLink
  create_link sdk dates app_url id created input = do
    bad ← lift (is_bad_link sdk input)
    lift (throw_if bad (conflict "Invalid XLM payment request"))
    lift
        (throw_if (has_bad_expiry dates input.expires_at) (conflict "Expiry must be in the future"))
    let link : PaymentLink = record {
      id = id;
      creator = input.creator;
      amount = input.amount;
      asset = input.asset;
      reference = input.reference;
      expires_at = some (expiry_or_tomorrow dates input.expires_at);
      url = app_url ++ codes "/pay/" ++ id;
      created_at = created;
    }
    store.save_link link
    pure link

  unfoldable pub get_link : Dates → Text → Action S PaymentLink
  get_link dates id = do
    found ← store.find_link id
    link ← lift (expect_link found)
    lift (throw_if (has_expired dates link.expires_at) (conflict "Payment link has expired"))
    pure link
