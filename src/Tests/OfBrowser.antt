-- ===== src/Tests/OfBrowser.antt =====
-- Signing in the browser and the flow of a payment.
use afri_pay.Base.{
  Text, ℕ, [], ◌∷◌, refl, ◌≡◌, ap, true, none, some, codes, ok, arith, text_eq, if◌then◌else◌,
  is_empty,
}
use afri_pay.Stellar.Amount.{is_digit, big_int, stroops, is_decimal, units}
use afri_pay.Stellar.Sdk.{Transaction, transaction}
use afri_pay.Stellar.Validation.{parse_payment, validate_payment}
use afri_pay.Stellar.Amount.Decimal.{decimal}
use afri_pay.Browser.Sign.{
  PaymentReview, Signer, sign_transaction_xdr, with_signature, amount_units,
}
use afri_pay.Browser.Sign.Accepted.{Reviewed, sign_iff}
use afri_pay.Browser.Sign.Submitted.{signed_accepted}
use afri_pay.Browser.Format.{format_amount, total_with_fee}
use afri_pay.Browser.Format.Shown.{without_commas}
use afri_pay.Browser.Format.Value.{stroops-format_amount, total_with_fee-value}
use afri_pay.Tests.Samples.{operation, tx, payment}

abbrev unsigned : Transaction
unsigned = record tx { signatures = [] }

-- An encoding that is the number of signatures.
abbrev signer : Signer
signer = record {
  sdk = record {
    is_valid_public_key = λ key. true;
    from_xdr = λ xdr. some (transaction (if is_empty xdr then unsigned else tx));
    from_public_key = λ key. some key;
    verify = λ key hash signature. some true;
    decode_utf8 = λ bytes. bytes;
  };
  is_valid_secret = λ secret. true;
  public_key_of = λ secret. codes "GA";
  signature = λ secret hash. 9 ∷ [];
  to_xdr = λ t. codes "A";
  decode_text = λ bytes. bytes;
}

abbrev review : PaymentReview
review = record { recipient = codes "GB"; amount = codes "1.5"; memo = none; fee = codes "100" }

unsigned-Reviewed : Reviewed signer 1699999900000 (codes "GA") review unsigned
unfolding amount_units is_decimal units decimal
unsigned-Reviewed = record {
  own = refl;
  operation = operation;
  single = refl;
  payment = refl;
  no_source = refl;
  native = refl;
  destination = refl;
  units = 15000000;
  paid = refl;
  shown = refl;
  positive = omega arith;
  fee_shown = refl;
  cheap = omega arith;
  memo = refl;
  max_time = 1700000000;
  bounded = refl;
  alive = omega arith;
  near = omega arith;
  unsigned = refl;
}

sign_iff_example : sign_transaction_xdr signer 1699999900000 (codes "SA") [] review ≡ ok (codes "A")
sign_iff_example =
    (sign_iff signer 1699999900000 (codes "SA") review [] (codes "A")).1
      (refl, unsigned, refl, unsigned-Reviewed, refl)

valid_payment : validate_payment signer.sdk payment ≡ ok tt
unfolding validate_payment stroops is_decimal units text_eq
valid_payment = refl

encodes :
    (t : Transaction)
    → signer.sdk.from_xdr [] ≡ some (transaction t)
    → some (transaction tx) ≡ some (transaction (with_signature signer (codes "SA") t))
encodes t read =
    let same : unsigned ≡ t = cc in
    ap (λ x. some (transaction (with_signature signer (codes "SA") x))) same

signed_accepted_example :
    (t : Transaction) × (signer.sdk.from_xdr [] ≡ some (transaction t))
    × (parse_payment signer.sdk (codes "A") (some payment)
        ≡ ok (with_signature signer (codes "SA") t))
signed_accepted_example =
    signed_accepted signer 1699999900000 (codes "SA") review payment [] (codes "A") (codes "GA")
      sign_iff_example valid_payment refl refl refl refl encodes refl (λ hash. refl)
      (λ t b read h. refl)

many : stroops (codes "1234.5") ≡ ok 12345000000
unfolding stroops is_decimal units
many = refl

abbrev Reads : Text → ℕ → Type 0
Reads shown units = stroops (without_commas shown) ≡ ok units

stroops-format_amount_example : Reads (format_amount (some (codes "1234.5"))) 12345000000
stroops-format_amount_example = stroops-format_amount (codes "1234.5") 12345000000 many

total_with_fee-value_example :
    (shown : Text) × (total_with_fee (codes "1234.5") (codes "100") ≡ some shown)
    × Reads shown 12345000100
unfolding is_digit big_int
total_with_fee-value_example =
    total_with_fee-value (codes "1234.5") (codes "100") 12345000000 many refl (omega arith)
