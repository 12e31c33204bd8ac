-- ===== src/Payments/Postgres/Reread.antt =====
-- `parsePayment` and `submitSignedTransaction` for an intent as it was given and as the database
-- prints it: backend/src/stellar/payment-validation.ts and stellar.service.ts beside it.
use afri_pay.Base.{◌≡◌, refl, List, [], ◌∷◌, Option, none, some, Text, utf8}
use afri_pay.Base.MapValues.{given}
use afri_pay.Stellar.Amount.{stroops}
use afri_pay.Stellar.Sdk.{Sdk, Operation, Transaction}
use afri_pay.Stellar.Validation.{
  NativePayment, memo_too_long, validate_payment, operation_differs, memo_differs, check_expected,
  parse_payment,
}
use afri_pay.Stellar.Service.{StellarService, Horizon, submit_signed_transaction}

-- The payment of an intent that the database has stored and read.
abbrev pub reread : Text → NativePayment → NativePayment
reread amount p = record p { amount = amount; memo = given p.memo }

module _ (sdk : Sdk) (amount : Text) (p : NativePayment)
    (read : stroops amount ≡ stroops p.amount) where
  same_length : (memo : Option Text) → memo_too_long (given memo) ≡ memo_too_long memo
  unfolding utf8
  same_length none = refl
  same_length (some []) = refl
  same_length (some (c ∷ s)) = refl

  same_memo :
      (memo : Option Text) (tx : Transaction)
      → memo_differs sdk (given memo) tx ≡ memo_differs sdk memo tx
  unfolding memo_differs
  same_memo none tx = refl
  same_memo (some []) tx = refl
  same_memo (some (c ∷ s)) tx = refl

  same_operation :
      (ops : List Operation) → operation_differs (reread amount p) ops ≡ operation_differs p ops
  unfolding operation_differs
  same_operation [] = refl
  same_operation (op ∷ other ∷ ops) = refl
  same_operation (op ∷ []) = rw read refl

  same_validity : validate_payment sdk (reread amount p) ≡ validate_payment sdk p
  unfolding validate_payment
  same_validity = rw (read, same_length p.memo) refl

  same_check :
      (tx : Transaction)
      → check_expected sdk (some (reread amount p)) tx ≡ check_expected sdk (some p) tx
  unfolding check_expected
  same_check tx = rw (same_validity, same_operation tx.operations, same_memo p.memo tx) refl

  -- `parsePayment` takes the same transactions for both.
  pub parse_payment-reread :
      (xdr : Text) → parse_payment sdk xdr (some (reread amount p)) ≡ parse_payment sdk xdr (some p)
  unfolding parse_payment
  parse_payment-reread xdr = simp (same_check)

-- `submitSignedTransaction` does the same for both.
pub submit_signed-reread :
    (stellar : StellarService) (horizon : Horizon) (xdr : Text) (key : Option Text) (amount : Text)
    (p : NativePayment)
    → stroops amount ≡ stroops p.amount
    → submit_signed_transaction stellar horizon xdr key (some (reread amount p))
      ≡ submit_signed_transaction stellar horizon xdr key (some p)
unfolding submit_signed_transaction
submit_signed-reread stellar horizon xdr key amount p read =
    simp (parse_payment-reread stellar.sdk amount p read xdr)
