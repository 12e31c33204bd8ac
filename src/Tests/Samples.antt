-- ===== src/Tests/Samples.antt =====
-- A library of Stellar that knows one transaction, an intent that it pays, and stores and services
-- around them.
use afri_pay.Base.{
  ℕ, ◌≡◌, refl, ◌≢◌, true, false, not, List, [], ◌∷◌, none, some, arith, Text, text_eq, text_eq_iff,
  codes, is_empty, if◌then◌else◌, inl, get, set, find_value,
}
use afri_pay.Stellar.Amount.{stroops, is_decimal, units}
use afri_pay.Stellar.Sdk.{null, Operation, Transaction, transaction, Sdk, to_hex}
use afri_pay.Stellar.Validation.{NativePayment}
use afri_pay.Stellar.Validation.Accepts.{IsPayment, Pays, Authorises}
use afri_pay.Stellar.Service.{StellarService, Horizon}
use afri_pay.Payments.{PaymentIntent}
use afri_pay.Payments.Memory.{Memory, create_intent, claim_hash}
use afri_pay.Payments.Memory.Invariant.{IsValid, create_intent-IsValid, claim_hash-IsValid}
use afri_pay.Payments.Input.{CreateInput, new_intent}
use afri_pay.Payments.Service.{World}

abbrev pub digest : List ℕ
digest =
    1 ∷ 2 ∷ 3 ∷ 4 ∷ 5 ∷ 6 ∷ 7 ∷ 8 ∷ 17 ∷ 18 ∷ 19 ∷ 20 ∷ 21 ∷ 22 ∷ 23 ∷ 24 ∷ 33 ∷ 34 ∷ 35 ∷ 36 ∷ 37
    ∷ 38 ∷ 39 ∷ 40 ∷ 49 ∷ 50 ∷ 51 ∷ 52 ∷ 53 ∷ 54 ∷ 55 ∷ 171 ∷ []

abbrev pub operation : Operation
operation = record {
  op_type = codes "payment";
  source = none;
  is_native = true;
  destination = codes "GB";
  amount = codes "1.5000000";
}

abbrev pub tx : Transaction
tx = record {
  source = codes "GA";
  operations = operation ∷ [];
  memo_type = codes "none";
  memo_value = null;
  max_time = some 1700000000;
  fee = 100;
  signatures = (9 ∷ []) ∷ [];
  hash = digest;
}

abbrev pub sdk : Sdk
sdk = record {
  is_valid_public_key = λ key. not (is_empty key);
  from_xdr = λ xdr. if is_empty xdr then none else some (transaction tx);
  from_public_key = λ key. some key;
  verify = λ key hash signature. some true;
  decode_utf8 = λ bytes. bytes;
}

abbrev pub payment : NativePayment
payment = record {
  sender = codes "GA";
  recipient = codes "GB";
  amount = codes "1.5";
  asset = codes "XLM";
  memo = none;
}

-- Texts that the test tells apart are apart.
pub apart : (s t : Text) → text_eq s t ≡ false → s ≢ t
apart s t differs e = let same : text_eq s t ≡ true = (text_eq_iff s t).1 e in absurd (cc)

pub payment-IsPayment : IsPayment sdk payment
unfolding stroops is_decimal units text_eq
payment-IsPayment = record {
  sender_valid = refl;
  recipient_valid = refl;
  distinct = apart (codes "GA") (codes "GB") refl;
  xlm = refl;
  units = 15000000;
  amount = refl;
  positive = omega arith;
  memo = tt;
}

operation-Pays : Pays payment 15000000 operation
unfolding stroops is_decimal units
operation-Pays = record {
  payment = refl;
  no_source = refl;
  native = refl;
  destination = refl;
  amount = refl;
}

pub tx-Authorises : Authorises sdk payment tx
unfolding payment-IsPayment
tx-Authorises = record {
  valid = payment-IsPayment;
  source = refl;
  operation = operation;
  single = refl;
  pays = operation-Pays;
  memo = refl;
  max_time = 1700000000;
  bounded = refl;
  finite = λ e. absurd (omega arith);
  cheap = omega arith;
  key = codes "GA";
  signer = refl;
  signed = inl refl;
}

abbrev pub request : CreateInput
request = record {
  idempotency_key = codes "order-0001";
  sender = codes "GA";
  recipient = codes "GB";
  amount = codes "1.5";
  asset = codes "XLM";
  memo = none;
}

abbrev pub intent : PaymentIntent
intent = new_intent (codes "p1") (codes "t0") request

-- The stores with no intent, and with the one above, waiting and with its hash.
abbrev pub empty : Memory
empty = record { intents = []; links = [] }

abbrev pub waiting : Memory
waiting = record { intents = (codes "p1", intent) ∷ []; links = [] }

abbrev pub claimed_intent : PaymentIntent
claimed_intent = record intent { transaction_hash = some (to_hex digest) }

abbrev pub in_flight : Memory
in_flight = record { intents = (codes "p1", claimed_intent) ∷ []; links = [] }

pub empty-IsValid : IsValid empty.intents
unfolding get
empty-IsValid = record {
  distinct = tt;
  keyed = λ k i g. absurd (cc);
  idempotent = λ j k x y g g' e. absurd (cc);
  unshared = λ j k x y h g g' e e'. absurd (cc);
  settled_bound = λ k i g left. absurd (cc);
}

pub waiting-IsValid : IsValid waiting.intents
unfolding create_intent find_value set get
waiting-IsValid = create_intent-IsValid intent empty empty-IsValid refl refl refl

pub in_flight-IsValid : IsValid in_flight.intents
unfolding claim_hash find_value set get text_eq to_hex
in_flight-IsValid =
    claim_hash-IsValid (codes "t0") (codes "p1") (to_hex digest) waiting waiting-IsValid

abbrev pub at_rest : Memory → World Memory
at_rest m = record { store = m; network = [] }

abbrev pub service : StellarService
service = record { sdk = sdk; network = codes "testnet" }

-- The ledger holds any transaction that it is asked for.
abbrev pub horizon : Horizon
horizon hash = some (record { hash = hash; ledger = some 7; successful = true })
