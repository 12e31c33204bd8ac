-- ===== src/Browser/Sign/Accepted.antt =====
-- Which transactions `signTransactionXdr` of frontend/src/lib/stellar.ts signs.
use afri_pay.Base.{
  ℕ, ◌+◌, ◌*◌, ◌≤◌, ◌<◌, ◌≡◌, refl, sym, ap, ◌∙◌, ◌↔◌, inl, inr, true, false, not, List, [], ◌∷◌,
  Option, none, some, arith, Text, codes, text_eq_iff, ok, Result-cases,
}
use afri_pay.Base.Results.{>>=-eq-ok, guard-eq-ok}
use afri_pay.Stellar.Sdk.{Operation, Transaction, Envelope, transaction, fee_bump}
use afri_pay.Stellar.Validation.{is_given}
use afri_pay.Stellar.Amount.Decimal.{decimal}
use afri_pay.Browser.Sign.{
  PaymentReview, Signer, amount_units, read_envelope, own_transaction, is_unreviewed,
  is_unexpected_fee, memo_or_empty, is_outside_time, is_signed, shown_memo, has_other_memo,
  with_signature, sign_transaction_xdr,
}

-- The memo that was shown: its text, or none where it is empty.
abbrev pub ShowsMemo : Signer → Text → Transaction → Type 0
ShowsMemo signer [] tx = tx.memo_type ≡ codes "none"
ShowsMemo signer (c ∷ memo) tx =
    (tx.memo_type ≡ codes "text") × (shown_memo signer tx.memo_value ≡ c ∷ memo)

-- The transaction is the payment that was reviewed and nothing else, still unsigned, for the fee that
-- was shown, and ends within the next 360 seconds.
pub record Reviewed (signer : Signer) (now : ℕ) (public_key : Text) (review : PaymentReview)
    (tx : Transaction) : Type 0 where
  pub own : tx.source ≡ public_key
  pub operation : Operation
  pub single : tx.operations ≡ operation ∷ []
  pub payment : operation.op_type ≡ codes "payment"
  pub no_source : is_given operation.source ≡ false
  pub native : operation.is_native ≡ true
  pub destination : operation.destination ≡ review.recipient
  pub units : ℕ
  pub paid : amount_units operation.amount ≡ ok units
  pub shown : amount_units review.amount ≡ ok units
  pub positive : 0 < units
  pub fee_shown : decimal tx.fee ≡ review.fee
  pub cheap : tx.fee ≤ 1000000
  pub memo : ShowsMemo signer (memo_or_empty review.memo) tx
  pub max_time : ℕ
  pub bounded : tx.max_time ≡ some max_time
  pub alive : now < max_time * 1000
  pub near : max_time * 1000 ≤ now + 360000
  pub unsigned : tx.signatures ≡ []

memo_iff :
    (signer : Signer) (memo : Text) (tx : Transaction)
    → (has_other_memo signer memo tx ≡ false) ↔ ShowsMemo signer memo tx
unfolding has_other_memo
memo_iff signer [] tx = ground (arith, text_eq_iff tx.memo_type (codes "none"))
memo_iff signer (c ∷ memo) tx = ground (
  arith,
  text_eq_iff tx.memo_type (codes "text"),
  text_eq_iff (shown_memo signer tx.memo_value) (c ∷ memo),
)

module _ (signer : Signer) (now : ℕ) (secret : Text) (review : PaymentReview) where
  sign_complete :
      (xdr : Text) (tx : Transaction)
      → signer.is_valid_secret secret ≡ true
      → signer.sdk.from_xdr xdr ≡ some (transaction tx)
      → Reviewed signer now (signer.public_key_of secret) review tx
      → sign_transaction_xdr signer now secret xdr review
        ≡ ok (signer.to_xdr (with_signature signer secret tx))
  unfolding sign_transaction_xdr own_transaction is_unreviewed is_unexpected_fee is_outside_time
  sign_complete xdr tx valid read r =
      rw
        (
          valid,
          read,
          (text_eq_iff tx.source (signer.public_key_of secret)).1 r.own,
          r.single,
          (text_eq_iff r.operation.op_type (codes "payment")).1 r.payment,
          r.no_source,
          r.native,
          (text_eq_iff r.operation.destination review.recipient).1 r.destination,
          r.paid,
          r.shown,
        )
        (ground (
          arith,
          text_eq_iff (decimal tx.fee) review.fee,
          (memo_iff signer (memo_or_empty review.memo) tx).1 r.memo,
        ))

  read_own :
      (e : Envelope) {key : Text} {t : Transaction}
      → own_transaction key e ≡ ok t
      → (e ≡ transaction t) × (t.source ≡ key)
  unfolding own_transaction
  read_own fee_bump h = absurd (cc)
  read_own (transaction tx) {key} {t} h =
      let same : tx ≡ t = ground (arith, text_eq_iff tx.source key) in
      (ap transaction same, ground (arith, text_eq_iff tx.source key))

  read_xdr : (o : Option Envelope) {e : Envelope} → read_envelope o ≡ ok e → o ≡ some e
  read_xdr none h = absurd (cc)
  read_xdr (some e) h = cc

  reviewed_operation :
      (ops : List Operation)
      → is_unreviewed review ops ≡ ok false
      → (op : Operation) × (ops ≡ op ∷ [])
        × (op.op_type ≡ codes "payment")
        × (is_given op.source ≡ false)
        × (op.is_native ≡ true)
        × (op.destination ≡ review.recipient)
        × (u : ℕ) × (amount_units op.amount ≡ ok u)
        × (amount_units review.amount ≡ ok u)
        × (0 < u)
  unfolding is_unreviewed
  reviewed_operation [] h = absurd (cc)
  reviewed_operation (op ∷ other ∷ ops) h = absurd (cc)
  reviewed_operation (op ∷ []) h =
      let payment_iff = text_eq_iff op.op_type (codes "payment") in
      let to_iff = text_eq_iff op.destination review.recipient in
      elim (Result-cases (amount_units op.amount)) [
        | inl (a, ea) ↦ elim (Result-cases (amount_units review.amount)) [
          | inl (u, eu) ↦ (
            op,
            refl,
            ground (arith, payment_iff),
            ground arith,
            ground arith,
            ground (arith, to_iff),
            u,
            ground arith,
            eu,
            ground arith,
          )
          | inr (x, eu) ↦ absurd (ground arith)
        ]
        | inr (x, ea) ↦ absurd (ground arith)
      ]

  time_inside :
      (m : Option ℕ)
      → is_outside_time now m ≡ false
      → (t : ℕ) × (m ≡ some t) × (now < t * 1000) × (t * 1000 ≤ now + 360000)
  unfolding is_outside_time
  time_inside none h = absurd (cc)
  time_inside (some t) h = (t, refl, ground arith, ground arith)

  not_signed : (s : List (List ℕ)) → is_signed s ≡ false → s ≡ []
  not_signed [] h = refl
  not_signed (x ∷ s) h = absurd (cc)

  reviewed :
      (tx : Transaction)
      → tx.source ≡ signer.public_key_of secret
      → is_unreviewed review tx.operations ≡ ok false
      → is_unexpected_fee review tx ≡ false
      → has_other_memo signer (memo_or_empty review.memo) tx ≡ false
      → is_outside_time now tx.max_time ≡ false
      → is_signed tx.signatures ≡ false
      → Reviewed signer now (signer.public_key_of secret) review tx
  unfolding is_unexpected_fee
  reviewed tx own operation fee memo time unsigned =
      let (op, single, payment, no_source, native, destination, u, paid, shown, positive) =
        reviewed_operation tx.operations operation in
      let (t, bounded, alive, near) = time_inside tx.max_time time in
      record {
        own = own;
        operation = op;
        single = single;
        payment = payment;
        no_source = no_source;
        native = native;
        destination = destination;
        units = u;
        paid = paid;
        shown = shown;
        positive = positive;
        fee_shown = ground (arith, text_eq_iff (decimal tx.fee) review.fee);
        cheap = ground arith;
        memo = (memo_iff signer (memo_or_empty review.memo) tx).0 memo;
        max_time = t;
        bounded = bounded;
        alive = alive;
        near = near;
        unsigned = not_signed tx.signatures unsigned;
      }

  sign_sound :
      (xdr signed : Text)
      → sign_transaction_xdr signer now secret xdr review ≡ ok signed
      → (signer.is_valid_secret secret ≡ true)
        × (tx : Transaction) × (signer.sdk.from_xdr xdr ≡ some (transaction tx))
        × Reviewed signer now (signer.public_key_of secret) review tx
        × (signed ≡ signer.to_xdr (with_signature signer secret tx))
  unfolding sign_transaction_xdr
  sign_sound xdr signed h =
      let (valid, h₀) = guard-eq-ok (not (signer.is_valid_secret secret)) _ _ h in
      let (e, read, h₁) = >>=-eq-ok (read_envelope (signer.sdk.from_xdr xdr)) _ h₀ in
      let (tx, own, h₂) = >>=-eq-ok (own_transaction (signer.public_key_of secret) e) _ h₁ in
      let (d, differs, h₃) = >>=-eq-ok (is_unreviewed review tx.operations) _ h₂ in
      let (d_false, h₄) = guard-eq-ok d _ _ h₃ in
      let (fee, h₅) = guard-eq-ok (is_unexpected_fee review tx) _ _ h₄ in
      let (memo, h₆) = guard-eq-ok (has_other_memo signer (memo_or_empty review.memo) tx) _ _ h₅ in
      let (time, h₇) = guard-eq-ok (is_outside_time now tx.max_time) _ _ h₆ in
      let (unsigned, h₈) = guard-eq-ok (is_signed tx.signatures) _ _ h₇ in
      let (is_tx, is_own) = read_own e own in
      let same : d ≡ false = d_false in
      (
        ground arith,
        tx,
        read_xdr _ read ∙ ap some is_tx,
        reviewed tx is_own (differs ∙ ap ok same) fee memo time unsigned,
        ground arith,
      )

  -- The wallet signs exactly if its secret is valid and the envelope decodes to an unsigned
  -- transaction of its own account whose one operation pays the reviewed amount of XLM, above 0,
  -- to the reviewed recipient, for the fee shown and at most 1000000, with the reviewed memo, and
  -- which ends after now and within 360 seconds; it returns the encoding of that transaction with
  -- its signature.
  pub sign_iff :
      (xdr signed : Text)
      → (sign_transaction_xdr signer now secret xdr review ≡ ok signed) ↔ (
          (signer.is_valid_secret secret ≡ true)
          × (tx : Transaction) × (signer.sdk.from_xdr xdr ≡ some (transaction tx))
          × Reviewed signer now (signer.public_key_of secret) review tx
          × (signed ≡ signer.to_xdr (with_signature signer secret tx)))
  sign_iff xdr signed = (
    sign_sound xdr signed,
    λ (valid, tx, read, r, e). sign_complete xdr tx valid read r ∙ ap ok (sym e),
  )
