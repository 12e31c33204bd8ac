-- ===== src/Browser/Sign/Flow.antt =====
-- A payment from the server's `buildNativePayment` through the wallet's `signTransactionXdr` back to
-- the server's `parsePayment`.
use afri_pay.Base.{ℕ, ◌+◌, ◌*◌, ◌≤◌, ◌<◌, ◌≡◌, refl, true, List, Option, some, Text, ok}
use afri_pay.Stellar.Sdk.{bytes, Transaction, transaction}
use afri_pay.Stellar.Validation.{parse_payment}
use afri_pay.Stellar.Validation.Accepts.{validate_payment_iff}
use afri_pay.Stellar.Service.{StellarService}
use afri_pay.Stellar.Accounts.{reply}
use afri_pay.Stellar.Build.{
  Snapshot, Draft, Prepared, Builder, requested_payment, build_native_payment,
}
use afri_pay.Stellar.Build.Funds.{build_native_payment_iff}
use afri_pay.Browser.Sign.{Signer, with_signature, sign_transaction_xdr}
use afri_pay.Browser.Sign.Prepared.{IsDrafted, review_of, prepared_signed}
use afri_pay.Browser.Sign.Submitted.{signed_accepted}

module _ (signer : Signer) (builder : Builder) (network secret recipient amount : Text)
    (memo : Option Text) (built_at now : ℕ) where
  -- What the server has prepared for the wallet's address is signed by the wallet when the review
  -- shows the same recipient, amount, memo and fee, and `parsePayment` of the server accepts the
  -- signed text for that payment, if the secret is valid, the loaded account is the wallet's, the
  -- library writes a draft down as it is and reads back the signed transaction that it encodes,
  -- the preparation is at most 60 seconds ahead of the wallet's clock and its 300 seconds are not
  -- over, the wallet's key is readable and verifies its own signatures, and both sides decode the
  -- bytes of the memo alike.
  pub prepared_accepted :
      (prepared : Prepared) (key : Text)
      → let sender = signer.public_key_of secret in
        let service : StellarService = record { sdk = signer.sdk; network = network } in
        build_native_payment service builder sender recipient amount memo ≡ ok prepared
        → ((s : Snapshot)
            → builder.gather (signer.public_key_of secret) recipient ≡ reply s
            → s.account.account_id ≡ signer.public_key_of secret)
        → ((d : Draft) (xdr : Text)
            → builder.build d ≡ some xdr
            → (tx : Transaction) × (signer.sdk.from_xdr xdr ≡ some (transaction tx))
              × IsDrafted signer built_at d tx)
        → signer.is_valid_secret secret ≡ true
        → built_at * 1000 ≤ now + 60000
        → now < (built_at + 300) * 1000
        → ((tx : Transaction)
            → signer.sdk.from_xdr prepared.xdr ≡ some (transaction tx)
            → signer.sdk.from_xdr (signer.to_xdr (with_signature signer secret tx))
              ≡ some (transaction (with_signature signer secret tx)))
        → signer.sdk.from_public_key (signer.public_key_of secret) ≡ some key
        → ((hash : List ℕ) → signer.sdk.verify key hash (signer.signature secret hash) ≡ some true)
        → ((tx : Transaction) (b : List ℕ)
            → signer.sdk.from_xdr prepared.xdr ≡ some (transaction tx)
            → tx.memo_value ≡ bytes b
            → signer.decode_text b ≡ signer.sdk.decode_utf8 b)
        → (signed : Text) × (tx : Transaction) × (sign_transaction_xdr signer now secret
              prepared.xdr
              (review_of recipient amount memo prepared.fee)
            ≡ ok signed)
          × (parse_payment signer.sdk signed
                (some (requested_payment (signer.public_key_of secret) recipient amount memo))
              ≡ ok tx)
  prepared_accepted prepared key built loads drafts valid early late encodes key_read verified
        decodes =
      let sender = signer.public_key_of secret in
      let service : StellarService = record { sdk = signer.sdk; network = network } in
      let p = requested_payment sender recipient amount memo in
      let (testnet, payment, s, gathered, funded) =
        (build_native_payment_iff service builder sender recipient amount memo prepared).0 built in
      let (signed, done) =
        prepared_signed signer builder secret recipient amount memo built_at now service prepared
          built loads drafts valid early late in
      let (tx, read, accepted) =
        signed_accepted signer now secret (review_of recipient amount memo prepared.fee) p
          prepared.xdr signed key done ((validate_payment_iff signer.sdk p).1 payment) refl refl
          refl refl encodes key_read verified decodes in
      (signed, with_signature signer secret tx, done, accepted)
