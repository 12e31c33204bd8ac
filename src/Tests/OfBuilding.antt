-- ===== src/Tests/OfBuilding.antt =====
-- Preparing a payment on the server and signing it in the browser.
use afri_pay.Base.{
  is_empty, Bool, [], ◌∷◌, refl, ◌≡◌, ap, sym, ◌∙◌, true, false, ◌&&◌, none, some, Option, codes,
  ok, arith, Text, text_eq, text_eq_iff, if◌then◌else◌, ◌==◌,
}
use afri_pay.Stellar.Amount.{stroops, is_decimal, units}
use afri_pay.Stellar.Amount.Decimal.{decimal}
use afri_pay.Stellar.Sdk.{Transaction, transaction}
use afri_pay.Stellar.Validation.{parse_payment, validate_payment}
use afri_pay.Stellar.Service.{StellarService, assert_testnet}
use afri_pay.Stellar.Accounts.{reply, Balance, Account}
use afri_pay.Stellar.Build.{
  requested_payment, Snapshot, Draft, Prepared, Builder, build_native_payment, network_fee,
}
use afri_pay.Stellar.Build.Funds.{IsFunded, build_native_payment_iff}
use afri_pay.Browser.Sign.{with_signature, Signer, sign_transaction_xdr, amount_units}
use afri_pay.Browser.Sign.Flow.{prepared_accepted}
use afri_pay.Browser.Sign.Prepared.{IsDrafted, review_of}
use afri_pay.Tests.Samples.{operation, tx}

abbrev balance : Balance
balance = record {
  asset_type = some (codes "native");
  asset_code = none;
  asset_issuer = none;
  balance = codes "3.5";
  selling_liabilities = none;
}

abbrev account : Account
account = record {
  account_id = codes "GA";
  balances = balance ∷ [];
  sequence = codes "1";
  subentry_count = 0;
}

abbrev snapshot : Snapshot
snapshot = record {
  account = account;
  num_sponsoring = none;
  num_sponsored = none;
  base_reserves = 5000000 ∷ [];
  p95 = some 100;
}

abbrev is_none : Option Text → Bool
is_none none = true
is_none (some memo) = false

abbrev is_expected : Draft → Bool
is_expected d =
    text_eq d.fee (codes "100")
    && text_eq d.destination (codes "GB")
    && text_eq d.amount (codes "1.5")
    && text_eq d.account.account_id (codes "GA")
    && is_none d.memo
    && d.timeout == 300

-- A builder of one transaction.
abbrev builder : Builder
builder = record {
  gather = λ sender recipient. reply snapshot;
  build = λ d. if is_expected d then some [] else none;
}

abbrev unsigned : Transaction
unsigned = record tx { signatures = []; max_time = some 1700000000 }

abbrev pub signer : Signer
signer = record {
  sdk = record {
    is_valid_public_key = λ key. true;
    from_xdr = λ xdr. some (transaction (if is_empty xdr then unsigned else tx));
    from_public_key = λ key. some key;
    verify = λ key hash signature. some true;
    decode_utf8 = λ bytes. bytes;
  };
  is_valid_secret = λ secret. true;
  public_key_of = λ secret. codes "GA";
  signature = λ secret hash. 9 ∷ [];
  to_xdr = λ t. codes "A";
  decode_text = λ bytes. bytes;
}

abbrev service : StellarService
service = record { sdk = signer.sdk; network = codes "testnet" }

abbrev prepared : Prepared
prepared = record { xdr = []; network = codes "testnet"; fee = codes "100" }

abbrev Built : Type 0
Built =
    build_native_payment service builder (codes "GA") (codes "GB") (codes "1.5") none ≡ ok prepared

runs : Built
unfolding build_native_payment validate_payment assert_testnet stroops is_decimal units text_eq
    decimal network_fee
runs = refl

build_native_payment_iff_example :
    (s : Snapshot) × (builder.gather (codes "GA") (codes "GB") ≡ reply s)
    × IsFunded builder s (codes "GB") (codes "1.5") none prepared
build_native_payment_iff_example =
    let (testnet, valid, s, gathered, funded) =
      (build_native_payment_iff service builder (codes "GA") (codes "GB") (codes "1.5") none
          prepared).0
        runs in
    (s, gathered, funded)

no_memo : (o : Option Text) → is_none o ≡ true → o ≡ none
no_memo none h = refl
no_memo (some memo) h = absurd (cc)

read_alike : amount_units (codes "1.5000000") ≡ amount_units (codes "1.5")
unfolding amount_units is_decimal units
read_alike = refl

unsigned-IsDrafted : (d : Draft) → is_expected d ≡ true → IsDrafted signer 1699999700 d unsigned
unfolding decimal
unsigned-IsDrafted d h =
    let fee : d.fee ≡ codes "100" = (text_eq_iff d.fee (codes "100")).0 (ground arith) in
    let to : d.destination ≡ codes "GB" =
      (text_eq_iff d.destination (codes "GB")).0 (ground arith) in
    let amount : d.amount ≡ codes "1.5" = (text_eq_iff d.amount (codes "1.5")).0 (ground arith) in
    let own : d.account.account_id ≡ codes "GA" =
      (text_eq_iff d.account.account_id (codes "GA")).0 (ground arith) in
    let memo : d.memo ≡ none = no_memo d.memo (ground arith) in
    let timeout : d.timeout ≡ 300 = ground arith in
    record {
      own = sym own;
      operation = operation;
      single = refl;
      payment = refl;
      no_source = refl;
      native = refl;
      destination = sym to;
      amount = read_alike ∙ ap amount_units (sym amount);
      fee = sym fee;
      memo = rw memo refl;
      max_time = ap some (omega (arith, timeout));
      unsigned = refl;
    }

drafted :
    (d : Draft) (xdr : Text)
    → builder.build d ≡ some xdr
    → (t : Transaction) × (signer.sdk.from_xdr xdr ≡ some (transaction t))
      × IsDrafted signer 1699999700 d t
drafted d xdr h =
    let nothing : xdr ≡ [] = ground arith in
    (
      unsigned,
      ap (λ x. some (transaction (if is_empty x then unsigned else tx))) nothing,
      unsigned-IsDrafted d (ground arith),
    )

loads : (s : Snapshot) → reply snapshot ≡ reply s → s.account.account_id ≡ codes "GA"
loads s h = let same : snapshot ≡ s = cc in sym (ap (λ x. x.account.account_id) same)

encodes :
    (t : Transaction)
    → signer.sdk.from_xdr [] ≡ some (transaction t)
    → some (transaction tx) ≡ some (transaction (with_signature signer (codes "SA") t))
encodes t read =
    let same : unsigned ≡ t = cc in
    ap (λ x. some (transaction (with_signature signer (codes "SA") x))) same

prepared_accepted_example :
    (signed : Text) × (t : Transaction) × (sign_transaction_xdr signer 1699999710000
        (codes "SA")
        []
        (review_of (codes "GB") (codes "1.5") none (codes "100"))
      ≡ ok signed)
    × (parse_payment signer.sdk signed
          (some (requested_payment (codes "GA") (codes "GB") (codes "1.5") none))
        ≡ ok t)
prepared_accepted_example =
    prepared_accepted signer builder (codes "testnet") (codes "SA") (codes "GB") (codes "1.5") none
      1699999700 1699999710000 prepared (codes "GA") runs loads drafted refl (omega arith)
      (omega arith) encodes refl (λ hash. refl) (λ t b read h. refl)
