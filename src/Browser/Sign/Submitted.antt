-- ===== src/Browser/Sign/Submitted.antt =====
-- `parsePayment` of backend/src/stellar/payment-validation.ts on what `signTransactionXdr` of
-- frontend/src/lib/stellar.ts returns.
use afri_pay.Base.{
  ℕ, ◌≡◌, refl, sym, ap, ◌∙◌, subst, inl, [], ◌∷◌, ◌++◌, List, Option, none, some, true, arith,
  Text, ok,
}
use afri_pay.Stellar.Amount.{stroops}
use afri_pay.Stellar.Sdk.{MemoValue, null, string, bytes, Transaction, transaction}
use afri_pay.Stellar.Validation.{NativePayment, memo_text, parse_payment, validate_payment}
use afri_pay.Stellar.Validation.Accepts.{
  IsPayment, HasMemo, Authorises, Some, parse_payment_iff, validate_payment_iff,
}
use afri_pay.Browser.Sign.{
  PaymentReview, Signer, amount_units, memo_or_empty, shown_memo, with_signature,
  sign_transaction_xdr,
}
use afri_pay.Browser.Sign.Accepted.{ShowsMemo, Reviewed, sign_iff}

-- Both sides read the same units.
amount_units-stroops : (s : Text) {u : ℕ} → amount_units s ≡ ok u → stroops s ≡ ok u
unfolding amount_units stroops
amount_units-stroops s h = ground arith

shown_memo-same :
    (signer : Signer) (v : MemoValue)
    → ((b : List ℕ) → v ≡ bytes b → signer.decode_text b ≡ signer.sdk.decode_utf8 b)
    → shown_memo signer v ≡ memo_text signer.sdk v
unfolding shown_memo memo_text
shown_memo-same signer null h = refl
shown_memo-same signer (string s) h = refl
shown_memo-same signer (bytes b) h = h b refl

memo-same :
    (signer : Signer) (secret : Text) (memo : Option Text) (tx : Transaction)
    → shown_memo signer tx.memo_value ≡ memo_text signer.sdk tx.memo_value
    → ShowsMemo signer (memo_or_empty memo) tx
    → HasMemo signer.sdk memo (with_signature signer secret tx)
memo-same signer secret none tx same h = h
memo-same signer secret (some []) tx same h = h
memo-same signer secret (some (c ∷ memo)) tx same h = (h.0, sym same ∙ h.1)

module _ (signer : Signer) (now : ℕ) (secret : Text) (review : PaymentReview)
    (p : NativePayment) where
  signed-Authorises :
      (tx : Transaction) (key : Text)
      → Reviewed signer now (signer.public_key_of secret) review tx
      → shown_memo signer tx.memo_value ≡ memo_text signer.sdk tx.memo_value
      → IsPayment signer.sdk p
      → p.sender ≡ signer.public_key_of secret
      → p.recipient ≡ review.recipient
      → p.amount ≡ review.amount
      → p.memo ≡ review.memo
      → signer.sdk.from_public_key (signer.public_key_of secret) ≡ some key
      → signer.sdk.verify key tx.hash (signer.signature secret tx.hash) ≡ some true
      → Authorises signer.sdk p (with_signature signer secret tx)
  signed-Authorises tx key r same valid sender recipient amount memo key_read verified =
      let shown : stroops p.amount ≡ ok r.units =
        ap stroops amount ∙ amount_units-stroops review.amount r.shown in
      let units : r.units ≡ valid.units = ground (arith, shown, valid.amount) in
      let signature = signer.signature secret tx.hash in
      let verifies : List ℕ → Type 0 = λ sig. signer.sdk.verify key tx.hash sig ≡ some true in
      record {
        valid = valid;
        source = r.own ∙ sym sender;
        operation = r.operation;
        single = r.single;
        pays = record {
          payment = r.payment;
          no_source = r.no_source;
          native = r.native;
          destination = r.destination ∙ sym recipient;
          amount = amount_units-stroops r.operation.amount r.paid ∙ ap ok units;
        };
        memo =
            subst (λ m. HasMemo signer.sdk m (with_signature signer secret tx)) (sym memo)
              (memo-same signer secret review.memo tx same r.memo);
        max_time = r.max_time;
        bounded = r.bounded;
        finite = λ e. absurd (omega (arith, r.alive, e));
        cheap = r.cheap;
        key = key;
        signer = ap signer.sdk.from_public_key r.own ∙ key_read;
        signed =
            subst (λ sigs. Some verifies (sigs ++ signature ∷ [])) (sym r.unsigned) (inl verified);
      }

  -- What the wallet has signed for a review is accepted by `parsePayment` of the server for the
  -- valid payment with the wallet's address as sender and the review's recipient, amount and memo,
  -- and read as the reviewed transaction with the wallet's signature, given that the library reads
  -- back the signed transaction that it encodes, that the wallet's key is readable and verifies
  -- its own signatures, and that both sides decode the bytes of the memo alike.
  pub signed_accepted :
      (xdr signed key : Text)
      → sign_transaction_xdr signer now secret xdr review ≡ ok signed
      → validate_payment signer.sdk p ≡ ok tt
      → p.sender ≡ signer.public_key_of secret
      → p.recipient ≡ review.recipient
      → p.amount ≡ review.amount
      → p.memo ≡ review.memo
      → ((tx : Transaction)
          → signer.sdk.from_xdr xdr ≡ some (transaction tx)
          → signer.sdk.from_xdr (signer.to_xdr (with_signature signer secret tx))
            ≡ some (transaction (with_signature signer secret tx)))
      → signer.sdk.from_public_key (signer.public_key_of secret) ≡ some key
      → ((hash : List ℕ) → signer.sdk.verify key hash (signer.signature secret hash) ≡ some true)
      → ((tx : Transaction) (b : List ℕ)
          → signer.sdk.from_xdr xdr ≡ some (transaction tx)
          → tx.memo_value ≡ bytes b
          → signer.decode_text b ≡ signer.sdk.decode_utf8 b)
      → (tx : Transaction) × (signer.sdk.from_xdr xdr ≡ some (transaction tx))
        × (parse_payment signer.sdk signed (some p) ≡ ok (with_signature signer secret tx))
  signed_accepted xdr signed key h valid sender recipient amount memo encodes key_read verified
        decodes =
      let (secret_valid, tx, read, r, e) = (sign_iff signer now secret review xdr signed).0 h in
      let same = shown_memo-same signer tx.memo_value (λ b. decodes tx b read) in
      let payment = (validate_payment_iff signer.sdk p).0 valid in
      let authorised =
        signed-Authorises tx key r same payment sender recipient amount memo key_read
          (verified tx.hash) in
      (
        tx,
        read,
        (parse_payment_iff signer.sdk signed p (with_signature signer secret tx)).1
            (ap signer.sdk.from_xdr e ∙ encodes tx read, authorised),
      )
