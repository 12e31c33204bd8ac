-- ===== src/Stellar/Validation/Accepts.antt =====
-- Which payments `validatePayment` accepts, and which envelopes `parsePayment` accepts for one, each
-- by an independent description.
use afri_pay.Base.{
  ℕ, ◌≤◌, ◌<◌, ◌≡◌, refl, ◌≢◌, subst, ◌↔◌, ◌⊎◌, inl, inr, true, false, not, List, [], ◌∷◌, Option,
  none, some, arith, Text, codes, text_eq, text_eq_iff, byte_length, ok, any, Result-cases, ltb,
}
use afri_pay.Base.Results.{>>=-eq-ok, guard-eq-ok}
use afri_pay.Stellar.Amount.{stroops}
use afri_pay.Stellar.Sdk.{Operation, Transaction, Envelope, transaction, fee_bump, Sdk}
use afri_pay.Stellar.Validation.{
  NativePayment, memo_too_long, is_given, verifies, is_unbounded, expect_signer, first_true,
  expect_transaction, validate_payment, operation_differs, memo_text, memo_differs, check_expected,
  is_signed_by, parse_payment,
}

-- A memo of at most 28 bytes, or none.
abbrev pub FitsMemo : Option Text → Type 0
FitsMemo none = Unit
FitsMemo (some memo) = byte_length memo ≤ 28

-- A positive XLM payment between two different accounts.
pub record IsPayment (sdk : Sdk) (p : NativePayment) : Type 0 where
  pub sender_valid : sdk.is_valid_public_key p.sender ≡ true
  pub recipient_valid : sdk.is_valid_public_key p.recipient ≡ true
  pub distinct : p.sender ≢ p.recipient
  pub xlm : p.asset ≡ codes "XLM"
  pub units : ℕ
  pub amount : stroops p.amount ≡ ok units
  pub positive : 0 < units
  pub memo : FitsMemo p.memo

memo_fits : (m : Option Text) → memo_too_long m ≡ false → FitsMemo m
memo_fits none h = tt
memo_fits (some memo) h = ground arith

validate_sound : (sdk : Sdk) (p : NativePayment) → validate_payment sdk p ≡ ok tt → IsPayment sdk p
unfolding validate_payment
validate_sound sdk p h =
    let xlm_iff = text_eq_iff p.asset (codes "XLM") in
    elim (Result-cases (stroops p.amount)) [
      | inl (v, e) ↦ record {
        sender_valid = ground arith;
        recipient_valid = ground arith;
        distinct = ground (arith, text_eq_iff p.sender p.recipient);
        xlm = ground (arith, xlm_iff);
        units = v;
        amount = e;
        positive = ground arith;
        memo = memo_fits p.memo (ground arith);
      }
      | inr (x, e) ↦ absurd (ground arith)
    ]

validate_complete :
    (sdk : Sdk) (p : NativePayment) → IsPayment sdk p → validate_payment sdk p ≡ ok tt
unfolding validate_payment
validate_complete sdk p v =
    ground (arith, text_eq_iff p.sender p.recipient, text_eq_iff p.asset (codes "XLM"))

-- `validatePayment` accepts exactly the payments of a positive amount of XLM between two different
-- valid addresses, with no memo or one of at most 28 UTF-8 bytes.
pub validate_payment_iff :
    (sdk : Sdk) (p : NativePayment) → (validate_payment sdk p ≡ ok tt) ↔ IsPayment sdk p
validate_payment_iff sdk p = (validate_sound sdk p, validate_complete sdk p)

-- Some element of a list.
abbrev pub Some {ℓ} : {A : Type ℓ} → (A → Type 0) → List A → Type 0
Some P [] = ⊥
Some P (x ∷ xs) = P x ⊎ Some P xs

-- An operation that pays `units` of the native asset to the payment's recipient from the source of
-- its transaction.
pub record Pays (p : NativePayment) (units : ℕ) (op : Operation) : Type 0 where
  pub payment : op.op_type ≡ codes "payment"
  pub no_source : is_given op.source ≡ false
  pub native : op.is_native ≡ true
  pub destination : op.destination ≡ p.recipient
  pub amount : stroops op.amount ≡ ok units

-- The memo that the payment asks for: its text, or none where it is missing or empty.
abbrev pub HasMemo : Sdk → Option Text → Transaction → Type 0
HasMemo sdk none tx = tx.memo_type ≡ codes "none"
HasMemo sdk (some []) tx = tx.memo_type ≡ codes "none"
HasMemo sdk (some (c ∷ memo)) tx =
    (tx.memo_type ≡ codes "text") × (memo_text sdk tx.memo_value ≡ c ∷ memo)

-- The transaction carries out this payment and nothing else, in bounded time and for a bounded fee,
-- and its source account has signed it.
pub record Authorises (sdk : Sdk) (p : NativePayment) (tx : Transaction) : Type 0 where
  pub valid : IsPayment sdk p
  pub source : tx.source ≡ p.sender
  pub operation : Operation
  pub single : tx.operations ≡ operation ∷ []
  pub pays : Pays p valid.units operation
  pub memo : HasMemo sdk p.memo tx
  pub max_time : ℕ
  pub bounded : tx.max_time ≡ some max_time
  pub finite : max_time ≢ 0
  pub cheap : tx.fee ≤ 1000000
  pub key : Text
  pub signer : sdk.from_public_key tx.source ≡ some key
  pub signed : Some (λ sig. sdk.verify key tx.hash sig ≡ some true) tx.signatures

operation_sound :
    (p : NativePayment) (units : ℕ) (ops : List Operation)
    → stroops p.amount ≡ ok units
    → operation_differs p ops ≡ ok false
    → (op : Operation) × (ops ≡ op ∷ []) × Pays p units op
unfolding operation_differs
operation_sound p units [] e h = absurd (cc)
operation_sound p units (op ∷ other ∷ ops) e h = absurd (cc)
operation_sound p units (op ∷ []) e h =
    let payment_iff = text_eq_iff op.op_type (codes "payment") in
    let to_iff = text_eq_iff op.destination p.recipient in
    elim (Result-cases (stroops op.amount)) [
      | inl (a, ea) ↦
          let pays : Pays p units op = record {
            payment = ground (arith, payment_iff);
            no_source = ground arith;
            native = ground arith;
            destination = ground (arith, to_iff);
            amount = ground arith;
          } in
          (op, refl, pays)
      | inr (x, ea) ↦ absurd (ground arith)
    ]

memo_iff :
    (sdk : Sdk) (memo : Option Text) (tx : Transaction)
    → (memo_differs sdk memo tx ≡ false) ↔ HasMemo sdk memo tx
unfolding memo_differs
memo_iff sdk none tx = ground (arith, text_eq_iff tx.memo_type (codes "none"))
memo_iff sdk (some []) tx = ground (arith, text_eq_iff tx.memo_type (codes "none"))
memo_iff sdk (some (c ∷ memo)) tx = ground (
  arith,
  text_eq_iff tx.memo_type (codes "text"),
  text_eq_iff (memo_text sdk tx.memo_value) (c ∷ memo),
)

signed_iff :
    (sdk : Sdk) (key : Text) (hash : List ℕ) (sigs : List (List ℕ))
    → (any (λ sig. verifies (sdk.verify key hash sig)) sigs ≡ true)
      ↔ Some (λ sig. sdk.verify key hash sig ≡ some true) sigs
signed_iff sdk key hash [] = ground arith
signed_iff sdk key hash (sig ∷ sigs) = ground (arith, signed_iff sdk key hash sigs)

operation_complete :
    (p : NativePayment) (units : ℕ) (op : Operation) (ops : List Operation)
    → stroops p.amount ≡ ok units
    → ops ≡ op ∷ []
    → Pays p units op
    → operation_differs p ops ≡ ok false
unfolding operation_differs
operation_complete p units op ops e single pays =
    let payment_iff = text_eq_iff op.op_type (codes "payment") in
    rw single (ground (arith, payment_iff, text_eq_iff op.destination p.recipient))

check_complete :
    (sdk : Sdk) (p : NativePayment) (tx : Transaction)
    → Authorises sdk p tx
    → check_expected sdk (some p) tx ≡ ok tt
unfolding check_expected
check_complete sdk p tx a = rw (
  validate_complete sdk p a.valid,
  (text_eq_iff tx.source p.sender).1 a.source,
  operation_complete p a.valid.units a.operation tx.operations a.valid.amount a.single a.pays,
  (memo_iff sdk p.memo tx).1 a.memo,
)

parse_complete :
    (sdk : Sdk) (xdr : Text) (p : NativePayment) (tx : Transaction)
    → sdk.from_xdr xdr ≡ some (transaction tx)
    → Authorises sdk p tx
    → parse_payment sdk xdr (some p) ≡ ok tx
unfolding parse_payment is_signed_by
parse_complete sdk xdr p tx e a =
    ground
      (arith, check_complete sdk p tx a, (signed_iff sdk a.key tx.hash tx.signatures).1 a.signed)

check_sound :
    (sdk : Sdk) (p : NativePayment) (tx : Transaction)
    → check_expected sdk (some p) tx ≡ ok tt
    → IsPayment sdk p
      × (tx.source ≡ p.sender)
      × (operation_differs p tx.operations ≡ ok false)
      × HasMemo sdk p.memo tx
unfolding check_expected
check_sound sdk p tx h =
    let (u, valid, h₁) = >>=-eq-ok (validate_payment sdk p) _ h in
    let (d, differs, h₂) =
      >>=-eq-ok (first_true (not (text_eq tx.source p.sender)) (operation_differs p tx.operations))
        _ h₁ in
    let (d_false, h₃) = guard-eq-ok d _ _ h₂ in
    let same : d ≡ false = d_false in
    (
      validate_sound sdk p valid,
      ground (arith, text_eq_iff tx.source p.sender),
      ground arith,
      (memo_iff sdk p.memo tx).0 (ground arith),
    )

bounded_time : (m : Option ℕ) → is_unbounded m ≡ false → (t : ℕ) × (m ≡ some t) × (t ≢ 0)
bounded_time none h = absurd (cc)
bounded_time (some t) h = (t, refl, ground arith)

read_signer : (o : Option Text) {key : Text} → expect_signer o ≡ ok key → o ≡ some key
read_signer none h = absurd (cc)
read_signer (some key) h = cc

read_envelope :
    (o : Option Envelope) {t : Transaction} → expect_transaction o ≡ ok t → o ≡ some (transaction t)
read_envelope none h = absurd (cc)
read_envelope (some fee_bump) h = absurd (cc)
read_envelope (some (transaction t)) h = cc

authorised :
    (sdk : Sdk) (p : NativePayment) (t : Transaction) (key : Text)
    → sdk.from_public_key t.source ≡ some key
    → is_signed_by sdk key t ≡ true
    → check_expected sdk (some p) t ≡ ok tt
    → is_unbounded t.max_time ≡ false
    → ltb 1000000 t.fee ≡ false
    → Authorises sdk p t
unfolding is_signed_by
authorised sdk p t key signer signed expected bounded cheap =
    let (valid, source, differs, memo) = check_sound sdk p t expected in
    let (op, single, pays) = operation_sound p valid.units t.operations valid.amount differs in
    let (time, has_time, finite) = bounded_time t.max_time bounded in
    record {
      valid = valid;
      source = source;
      operation = op;
      single = single;
      pays = pays;
      memo = memo;
      max_time = time;
      bounded = has_time;
      finite = finite;
      cheap = ground arith;
      key = key;
      signer = signer;
      signed = (signed_iff sdk key t.hash t.signatures).0 signed;
    }

parse_sound :
    (sdk : Sdk) (xdr : Text) (p : NativePayment) (tx : Transaction)
    → parse_payment sdk xdr (some p) ≡ ok tx
    → (sdk.from_xdr xdr ≡ some (transaction tx)) × Authorises sdk p tx
unfolding parse_payment
parse_sound sdk xdr p tx h =
    let (t, read, h₁) = >>=-eq-ok (expect_transaction (sdk.from_xdr xdr)) _ h in
    let (key, signer, h₂) = >>=-eq-ok (expect_signer (sdk.from_public_key t.source)) _ h₁ in
    let (signed, h₃) = guard-eq-ok (not (is_signed_by sdk key t)) _ _ h₂ in
    let (u, expected, h₄) = >>=-eq-ok (check_expected sdk (some p) t) _ h₃ in
    let (bounded, h₅) = guard-eq-ok (is_unbounded t.max_time) _ _ h₄ in
    let (cheap, h₆) = guard-eq-ok (ltb 1000000 t.fee) _ _ h₅ in
    let same : t ≡ tx = cc in
    let done : Authorises sdk p t =
      authorised sdk p t key (read_signer _ signer) (ground arith) expected bounded cheap in
    subst (λ x. (sdk.from_xdr xdr ≡ some (transaction x)) × Authorises sdk p x) same
      (read_envelope _ read, done)

-- With a payment to expect, `parsePayment` returns a transaction exactly if the envelope decodes
-- to it and it authorises that payment: a valid payment whose sender is the source, one operation
-- that pays the same units of XLM to the recipient from that source, the same memo, a finite
-- maximum time, a fee of at most 1000000, and a signature that verifies under the source's key.
pub parse_payment_iff :
    (sdk : Sdk) (xdr : Text) (p : NativePayment) (tx : Transaction)
    → (parse_payment sdk xdr (some p) ≡ ok tx)
      ↔ ((sdk.from_xdr xdr ≡ some (transaction tx)) × Authorises sdk p tx)
parse_payment_iff sdk xdr p tx =
    (parse_sound sdk xdr p tx, λ h. parse_complete sdk xdr p tx h.0 h.1)
