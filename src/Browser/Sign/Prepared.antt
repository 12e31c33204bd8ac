-- ===== src/Browser/Sign/Prepared.antt =====
-- `signTransactionXdr` of frontend/src/lib/stellar.ts on what `buildNativePayment` of
-- backend/src/stellar/stellar.service.ts returns.
use afri_pay.Base.{
  ℕ, ◌+◌, ◌*◌, ◌≤◌, ◌<◌, ◌≡◌, refl, sym, ◌∙◌, true, false, [], ◌∷◌, Option, none, some, arith, Text,
  codes, ok,
}
use afri_pay.Stellar.Amount.{stroops}
use afri_pay.Stellar.Amount.Decimal.{decimal, decimal-injective}
use afri_pay.Stellar.Sdk.{Operation, Transaction, transaction}
use afri_pay.Stellar.Validation.{is_given}
use afri_pay.Stellar.Service.{StellarService}
use afri_pay.Stellar.Accounts.{reply}
use afri_pay.Stellar.Build.{
  Snapshot, Draft, Prepared, Builder, given_memo, draft, build_native_payment,
}
use afri_pay.Stellar.Build.Funds.{IsFunded, build_native_payment_iff}
use afri_pay.Browser.Sign.{
  PaymentReview, Signer, amount_units, memo_or_empty, shown_memo, with_signature,
  sign_transaction_xdr,
}
use afri_pay.Browser.Sign.Accepted.{ShowsMemo, Reviewed, sign_iff}

-- The memo of a draft, as the library writes it.
abbrev pub CarriesMemo : Signer → Option Text → Transaction → Type 0
CarriesMemo signer none tx = tx.memo_type ≡ codes "none"
CarriesMemo signer (some memo) tx =
    (tx.memo_type ≡ codes "text") × (shown_memo signer tx.memo_value ≡ memo)

-- The unsigned transaction that the library builds from a draft at a time in seconds.
pub record IsDrafted (signer : Signer) (built_at : ℕ) (d : Draft) (tx : Transaction) : Type 0 where
  pub own : tx.source ≡ d.account.account_id
  pub operation : Operation
  pub single : tx.operations ≡ operation ∷ []
  pub payment : operation.op_type ≡ codes "payment"
  pub no_source : is_given operation.source ≡ false
  pub native : operation.is_native ≡ true
  pub destination : operation.destination ≡ d.destination
  pub amount : amount_units operation.amount ≡ amount_units d.amount
  pub fee : decimal tx.fee ≡ d.fee
  pub memo : CarriesMemo signer d.memo tx
  pub max_time : tx.max_time ≡ some (built_at + d.timeout)
  pub unsigned : tx.signatures ≡ []

abbrev pub review_of : Text → Text → Option Text → Text → PaymentReview
review_of recipient amount memo fee = record {
  recipient = recipient;
  amount = amount;
  memo = memo;
  fee = fee;
}

stroops-amount_units : (s : Text) {u : ℕ} → stroops s ≡ ok u → amount_units s ≡ ok u
unfolding amount_units stroops
stroops-amount_units s h = ground arith

memo-shown :
    (signer : Signer) (memo : Option Text) (tx : Transaction)
    → CarriesMemo signer (given_memo memo) tx
    → ShowsMemo signer (memo_or_empty memo) tx
memo-shown signer none tx h = h
memo-shown signer (some []) tx h = h
memo-shown signer (some (c ∷ memo)) tx h = h

module _ (signer : Signer) (builder : Builder) (secret recipient amount : Text) (memo : Option Text)
    (built_at now : ℕ) where
  drafted-Reviewed :
      (s : Snapshot) (prepared : Prepared) (tx : Transaction)
      → (f : IsFunded builder s recipient amount memo prepared) → 0 < f.paid
      → IsDrafted signer built_at (draft s f.fee recipient amount memo) tx
      → s.account.account_id ≡ signer.public_key_of secret
      → built_at * 1000 ≤ now + 60000
      → now < (built_at + 300) * 1000
      → Reviewed signer now
          (signer.public_key_of secret)
          (review_of recipient amount memo prepared.fee)
          tx
  drafted-Reviewed s prepared tx f positive d own early late =
      let shown = stroops-amount_units amount f.paid_units in
      let fee : tx.fee ≡ f.fee = decimal-injective tx.fee f.fee d.fee in
      let most = f.at_most in
      record {
        own = d.own ∙ own;
        operation = d.operation;
        single = d.single;
        payment = d.payment;
        no_source = d.no_source;
        native = d.native;
        destination = d.destination;
        units = f.paid;
        paid = d.amount ∙ shown;
        shown = shown;
        positive = positive;
        fee_shown = d.fee ∙ sym f.shown_fee;
        cheap = omega (arith, fee, most);
        memo = memo-shown signer memo tx d.memo;
        max_time = built_at + 300;
        bounded = d.max_time;
        alive = late;
        near = omega (arith, early);
        unsigned = d.unsigned;
      }

  -- What the server has prepared for the wallet's address is signed by the wallet when the review
  -- shows the same recipient, amount, memo and fee, if the secret is valid, the loaded account is
  -- the wallet's, the library writes a draft down as it is, the preparation is at most 60 seconds
  -- ahead of the wallet's clock, and its 300 seconds are not over.
  pub prepared_signed :
      (service : StellarService) (prepared : Prepared)
      → build_native_payment service builder (signer.public_key_of secret) recipient amount memo
        ≡ ok prepared
      → ((s : Snapshot)
          → builder.gather (signer.public_key_of secret) recipient ≡ reply s
          → s.account.account_id ≡ signer.public_key_of secret)
      → ((d : Draft) (xdr : Text)
          → builder.build d ≡ some xdr
          → (tx : Transaction) × (signer.sdk.from_xdr xdr ≡ some (transaction tx))
            × IsDrafted signer built_at d tx)
      → signer.is_valid_secret secret ≡ true
      → built_at * 1000 ≤ now + 60000
      → now < (built_at + 300) * 1000
      → (signed : Text) × (sign_transaction_xdr signer now secret prepared.xdr
            (review_of recipient amount memo prepared.fee)
          ≡ ok signed)
  prepared_signed service prepared h loads drafts valid early late =
      let (testnet, payment, s, gathered, f) =
        (build_native_payment_iff service builder (signer.public_key_of secret) recipient amount
            memo prepared).0
          h in
      let (tx, read, d) = drafts (draft s f.fee recipient amount memo) prepared.xdr f.built in
      let units : payment.units ≡ f.paid = ground (arith, payment.amount, f.paid_units) in
      let positive = payment.positive in
      let r =
        drafted-Reviewed s prepared tx f (omega (arith, units, positive)) d (loads s gathered) early
          late in
      let signed = signer.to_xdr (with_signature signer secret tx) in
      (
        signed,
        (sign_iff signer now secret (review_of recipient amount memo prepared.fee) prepared.xdr
              signed).1
            (valid, tx, read, r, refl),
      )
