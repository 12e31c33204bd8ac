-- ===== src/Stellar/Validation.antt =====
-- `validatePayment` and `parsePayment` of backend/src/stellar/payment-validation.ts.
pub mod Accepts
use afri_pay.Base.{
  ℕ, ◌+◌, Bool, true, false, not, ◌&&◌, ◌||◌, List, [], ◌∷◌, Option, none, some, Text, codes,
  text_eq, is_empty, byte_length, Result, ok, err, bad_request, plain, throw_if, ltb, leb, ◌==◌,
  if◌then◌else◌, any,
}
use afri_pay.Base.Results.{◌>>=◌, ◌>>◌}
use afri_pay.Stellar.Amount.{stroops}
use afri_pay.Stellar.Sdk.{
  MemoValue, null, string, bytes, Operation, Transaction, Envelope, transaction, fee_bump, Sdk,
}

pub record NativePayment : Type 0 where
  pub sender : Text
  pub recipient : Text
  pub amount : Text
  pub asset : Text
  pub memo : Option Text

-- `input.memo !== undefined && Buffer.byteLength(input.memo, 'utf8') > 28`
abbrev pub memo_too_long : Option Text → Bool
memo_too_long none = false
memo_too_long (some memo) = ltb 28 (byte_length memo)

-- Truthiness of an optional string.
abbrev pub is_given : Option Text → Bool
is_given none = false
is_given (some s) = not (is_empty s)

abbrev pub first_true : Bool → Result Bool → Result Bool
first_true true later = ok true
first_true false later = later

-- Whether a signature verifies; a throw counts as no.
abbrev pub verifies : Option Bool → Bool
verifies none = false
verifies (some b) = b

-- The test of the one operation; `operations[0]` is read once their number is known to be one.
unfoldable pub operation_differs : NativePayment → List Operation → Result Bool
operation_differs expected [] = ok true
operation_differs expected (op ∷ other ∷ ops) = ok true
operation_differs expected (op ∷ []) =
    first_true
      (not (text_eq op.op_type (codes "payment"))
        || is_given op.source
        || not op.is_native
        || not (text_eq op.destination expected.recipient))
      (do a ← stroops op.amount; b ← stroops expected.amount; ok (not (a == b)))

-- `!tx.timeBounds || Number(tx.timeBounds.maxTime) === 0`
abbrev pub is_unbounded : Option ℕ → Bool
is_unbounded none = true
is_unbounded (some t) = t == 0

-- `fromXDR` in its `try`, and the `instanceof` test.
abbrev pub expect_transaction : Option Envelope → Result Transaction
expect_transaction none = err (bad_request "Invalid Testnet transaction")
expect_transaction (some fee_bump) = err (bad_request "Fee-bump envelopes are not supported")
expect_transaction (some (transaction tx)) = ok tx

-- `Keypair.fromPublicKey`, whose throw nothing catches.
abbrev pub expect_signer : Option Text → Result Text
expect_signer none = err (plain "invalid encoded string")
expect_signer (some key) = ok key

module _ (sdk : Sdk) where
  unfoldable pub validate_payment : NativePayment → Result (Unit {0})
  validate_payment input = do
    throw_if
        (not (sdk.is_valid_public_key input.sender)
          || not (sdk.is_valid_public_key input.recipient))
        (bad_request "Invalid Stellar address")
    bad ←
        first_true (text_eq input.sender input.recipient || not (text_eq input.asset (codes "XLM")))
          (stroops input.amount >>= λ v. ok (leb v 0))
    throw_if bad (bad_request "A positive XLM payment to another account is required")
    throw_if (memo_too_long input.memo) (bad_request "Memo exceeds 28 UTF-8 bytes")

  -- `memoValue instanceof Uint8Array ? Buffer.from(memoValue).toString('utf8') : String(memoValue)`
  unfoldable pub memo_text : MemoValue → Text
  memo_text (bytes b) = sdk.decode_utf8 b
  memo_text (string s) = s
  memo_text null = codes "null"

  unfoldable pub memo_differs : Option Text → Transaction → Bool
  unfolding memo_text
  memo_differs none tx = not (text_eq tx.memo_type (codes "none"))
  memo_differs (some memo) tx =
      if is_empty memo
      then not (text_eq tx.memo_type (codes "none"))
      else not (text_eq tx.memo_type (codes "text")) || not (text_eq (memo_text tx.memo_value) memo)

  -- The block `if (expected) { … }`.
  unfoldable pub check_expected : Option NativePayment → Transaction → Result (Unit {0})
  check_expected none tx = ok tt
  check_expected (some expected) tx = do
    validate_payment expected
    differs ←
        first_true (not (text_eq tx.source expected.sender))
          (operation_differs expected tx.operations)
    throw_if differs (bad_request "Transaction does not match payment intent")
    throw_if (memo_differs expected.memo tx) (bad_request "Transaction memo does not match intent")

  unfoldable pub is_signed_by : Text → Transaction → Bool
  is_signed_by signer tx =
      any (λ signature. verifies (sdk.verify signer tx.hash signature)) tx.signatures

  unfoldable pub parse_payment : Text → Option NativePayment → Result Transaction
  parse_payment xdr expected = do
    tx ← expect_transaction (sdk.from_xdr xdr)
    signer ← expect_signer (sdk.from_public_key tx.source)
    throw_if (not (is_signed_by signer tx))
        (bad_request "A valid Testnet source-account signature is required")
    check_expected expected tx
    throw_if (is_unbounded tx.max_time) (bad_request "Finite transaction time bounds required")
    throw_if (ltb 1000000 tx.fee) (bad_request "Transaction fee exceeds Testnet wallet limit")
    ok tx
