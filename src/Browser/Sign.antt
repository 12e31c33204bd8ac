-- ===== src/Browser/Sign.antt =====
-- `signTransactionXdr` of frontend/src/lib/stellar.ts: the wallet signs a prepared transaction only if
-- it is the payment that was reviewed.
pub mod Accepted
pub mod Submitted
pub mod Prepared
pub mod Flow
use afri_pay.Base.{
  ℕ, ◌+◌, ◌*◌, Bool, true, false, not, ◌&&◌, ◌||◌, List, [], ◌∷◌, ◌++◌, Option, none, some, Text,
  codes, text_eq, is_empty, Result, ok, err, plain, throw_if, ltb, leb, ◌==◌, if◌then◌else◌,
}
use afri_pay.Base.Results.{◌>>=◌, ◌>>◌}
use afri_pay.Stellar.Amount.{is_decimal, units}
use afri_pay.Stellar.Sdk.{
  MemoValue, null, string, bytes, Operation, Transaction, Envelope, transaction, fee_bump, Sdk,
}
use afri_pay.Stellar.Validation.{is_given, first_true}
use afri_pay.Stellar.Amount.Decimal.{decimal}

-- What was shown for confirmation.
pub record PaymentReview : Type 0 where
  pub recipient : Text
  pub amount : Text
  pub memo : Option Text
  pub fee : Text

-- The functions of the SDK and of the browser that signing calls: keys, the signature of a hash, the
-- encoding of a transaction, and `TextDecoder`.
pub record Signer : Type 0 where
  pub sdk : Sdk
  pub is_valid_secret : Text → Bool
  pub public_key_of : Text → Text
  pub signature : Text → List ℕ → List ℕ
  pub to_xdr : Transaction → Text
  pub decode_text : List ℕ → Text

unfoldable pub amount_units : Text → Result ℕ
amount_units amount =
    if is_decimal 12 7 amount then ok (units amount) else err (plain "Invalid XLM amount")

-- `TransactionBuilder.fromXDR`, whose throw nothing catches.
abbrev pub read_envelope : Option Envelope → Result Envelope
read_envelope none = err (plain "Invalid XDR")
read_envelope (some envelope) = ok envelope

-- `!('source' in transaction) || transaction.source !== source.publicKey()`
unfoldable pub own_transaction : Text → Envelope → Result Transaction
own_transaction public_key fee_bump = err (plain "Transaction source does not match wallet")
own_transaction public_key (transaction tx) =
    if text_eq tx.source public_key
    then ok tx
    else err (plain "Transaction source does not match wallet")

-- The condition on `transaction.operations`; the later terms of the `||` run only if the earlier
-- ones fail.
unfoldable pub is_unreviewed : PaymentReview → List Operation → Result Bool
unfolding amount_units
is_unreviewed review [] = ok true
is_unreviewed review (op ∷ other ∷ ops) = ok true
is_unreviewed review (op ∷ []) =
    first_true
      (not (text_eq op.op_type (codes "payment"))
        || is_given op.source
        || not op.is_native
        || not (text_eq op.destination review.recipient))
      (do
        paid ← amount_units op.amount
        shown ← amount_units review.amount
        ok (not (paid == shown) || leb shown 0))

-- `transaction.fee !== review.fee || BigInt(transaction.fee) > BigInt(1000000)`
unfoldable pub is_unexpected_fee : PaymentReview → Transaction → Bool
is_unexpected_fee review tx = not (text_eq (decimal tx.fee) review.fee) || ltb 1000000 tx.fee

-- `review.memo ?? ''`
abbrev pub memo_or_empty : Option Text → Text
memo_or_empty none = []
memo_or_empty (some memo) = memo

-- The condition on `transaction.timeBounds` at the clock's milliseconds, both sides times 1000.
unfoldable pub is_outside_time : ℕ → Option ℕ → Bool
is_outside_time now none = true
is_outside_time now (some max_time) =
    leb (max_time * 1000) now || ltb (now + 360000) (max_time * 1000)

abbrev pub is_signed : List (List ℕ) → Bool
is_signed [] = false
is_signed (signature ∷ signatures) = true

module _ (signer : Signer) where
  -- `memoValue instanceof Uint8Array ? new TextDecoder().decode(memoValue) : String(memoValue)`
  unfoldable pub shown_memo : MemoValue → Text
  shown_memo (bytes b) = signer.decode_text b
  shown_memo (string s) = s
  shown_memo null = codes "null"

  -- `memo ? memo.type !== 'text' || memoText !== memo : memo.type !== 'none'`
  unfoldable pub has_other_memo : Text → Transaction → Bool
  unfolding shown_memo
  has_other_memo memo tx =
      if is_empty memo
      then not (text_eq tx.memo_type (codes "none"))
      else not (text_eq tx.memo_type (codes "text"))
        || not (text_eq (shown_memo tx.memo_value) memo)

  -- `transaction.sign(source)`
  abbrev pub with_signature : Text → Transaction → Transaction
  with_signature secret tx = record tx {
    signatures = tx.signatures ++ signer.signature secret tx.hash ∷ [];
  }

  unfoldable pub sign_transaction_xdr : ℕ → Text → Text → PaymentReview → Result Text
  sign_transaction_xdr now secret xdr review = do
    throw_if (not (signer.is_valid_secret secret)) (plain "Unable to unlock wallet")
    envelope ← read_envelope (signer.sdk.from_xdr xdr)
    tx ← own_transaction (signer.public_key_of secret) envelope
    unreviewed ← is_unreviewed review tx.operations
    throw_if unreviewed (plain "Transaction does not match reviewed payment")
    throw_if (is_unexpected_fee review tx) (plain "Unexpected transaction fee")
    throw_if (has_other_memo (memo_or_empty review.memo) tx)
        (plain "Transaction memo does not match review")
    throw_if (is_outside_time now tx.max_time) (plain "Transaction expired or invalid time bounds")
    throw_if (is_signed tx.signatures) (plain "Unexpected existing signatures")
    ok (signer.to_xdr (with_signature secret tx))
