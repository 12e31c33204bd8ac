-- ===== src/Stellar/Service.antt =====
-- `StellarService` of backend/src/stellar/stellar.service.ts: submitting a signed transaction and
-- asking the ledger for its outcome.
use afri_pay.Base.{
  ℕ, Bool, false, not, ◌&&◌, ◌||◌, List, ◌∷◌, ◌++◌, Option, none, some, Text, codes, text_eq,
  is_empty, trim, Result, ok, err, bad_request, leb, ◌==◌, if◌then◌else◌, length, all, throw_if,
}
use afri_pay.Base.Actions.{Action, ◌>>=◌, ◌>>◌, lift, pure, modify}
use afri_pay.Stellar.Sdk.{Sdk, Transaction, to_hex}
use afri_pay.Stellar.Validation.{NativePayment, parse_payment}

-- `'PENDING' | 'SUCCEEDED' | 'FAILED'`.
pub data Settlement : Type 0 where
  pending succeeded failed : Settlement

-- What Horizon returns for a transaction; `ledger` is `none` where the field is missing.
pub record LedgerTransaction : Type 0 where
  pub hash : Text
  pub ledger : Option ℕ
  pub successful : Bool

-- Horizon at the time of a call: the answer for each hash, `none` where the request throws.
abbrev pub Horizon : Type 0
Horizon = Text → Option LedgerTransaction

-- The service's fields that the calls read.
pub record StellarService : Type 0 where
  pub sdk : Sdk
  pub network : Text

pub record Submission : Type 0 where
  pub hash : Text
  pub explorer_url : Text
  pub status : Settlement

-- The hashes of the transactions handed to Horizon, the last one first.
abbrev pub Network : Type 0
Network = List Text

-- `process.env.STELLAR_NETWORK || 'testnet'`
unfoldable pub configured_network : Option Text → Text
configured_network none = codes "testnet"
configured_network (some value) = if is_empty value then codes "testnet" else value

-- `[a-f0-9]`
abbrev is_hex : ℕ → Bool
is_hex c = leb b'a' c && leb c b'f' || leb b'0' c && leb c b'9'

-- `/^[a-f0-9]{64}$/`
unfoldable pub is_hash : Text → Bool
is_hash hash = length hash == 64 && all is_hex hash

-- `!result.ledger`
abbrev pub is_on_ledger : Option ℕ → Bool
is_on_ledger none = false
is_on_ledger (some n) = not (n == 0)

unfoldable pub outcome : Text → Option LedgerTransaction → Settlement
outcome hash none = pending
outcome hash (some result) =
    if not (text_eq result.hash hash) || not (is_on_ledger result.ledger)
    then pending
    else if result.successful
    then succeeded
    else failed

abbrev pub submission : Transaction → Settlement → Submission
submission tx status = record {
  hash = to_hex tx.hash;
  explorer_url = codes "https://stellar.expert/explorer/testnet/tx/" ++ to_hex tx.hash;
  status = status;
}

-- `expectedPublicKey && …source !== expectedPublicKey`
abbrev pub is_other_source : Option Text → Transaction → Bool
is_other_source none tx = false
is_other_source (some key) tx = not (is_empty key) && not (text_eq tx.source key)

module _ (service : StellarService) where
  unfoldable pub assert_testnet : Result (Unit {0})
  assert_testnet =
      throw_if (not (text_eq service.network (codes "testnet")))
        (bad_request "Only Stellar Testnet is enabled for this application")

  unfoldable pub verify_transaction : Horizon → Text → Result Settlement
  unfolding assert_testnet outcome
  verify_transaction horizon hash = elim assert_testnet [
    | err e ↦ err e
    | ok _ ↦
        if is_hash hash
        then ok (outcome hash (horizon hash))
        else err (bad_request "Invalid transaction hash")
  ]

  unfoldable pub submit_signed_transaction :
      Horizon → Text → Option Text → Option NativePayment → Action Network Submission
  unfolding assert_testnet
  submit_signed_transaction horizon signed_xdr key expected = do
    lift assert_testnet
    lift (throw_if (is_empty (trim signed_xdr)) (bad_request "signedXdr is required"))
    tx ← lift (parse_payment service.sdk signed_xdr expected)
    lift (
        throw_if (is_other_source key tx)
          (bad_request "Transaction source does not match payment sender"))
    let hash = to_hex tx.hash
    -- A throw of `submitTransaction` is swallowed: the transaction may be accepted all the same.
    modify (λ sent. hash ∷ sent)
    status ← lift (verify_transaction horizon hash)
    pure (submission tx status)
