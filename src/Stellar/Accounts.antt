-- ===== src/Stellar/Accounts.antt =====
-- The reading and funding of accounts by `StellarService` of
-- backend/src/stellar/stellar.service.ts.
use Prim.Native.String.{String}
use afri_pay.Base.{
  ℕ, Bool, true, false, not, ◌&&◌, List, [], ◌∷◌, ◌++◌, map, Option, none, some, Text, codes,
  text_eq, Result, ok, err, Error, bad_request, not_found, unavailable, throw_if, ◌==◌,
  if◌then◌else◌,
}
use afri_pay.Base.Results.{◌>>=◌, ◌>>◌}
use afri_pay.Stellar.Validation.{is_given}
use afri_pay.Stellar.Service.{StellarService, assert_testnet}

-- What a request ends with: its result, or what was thrown, with `response.status` where it has one
-- and its message where it is an `Error`.
pub record Failure : Type 0 where
  pub status : Option ℕ
  pub message : Option String

pub data Reply {ℓ} (A : Type ℓ) : Type ℓ where
  reply : A → Reply A
  failed : Failure → Reply A

-- A template with its hole at the end.
abbrev pub then_text : String → String → String
then_text String.[] t = t
then_text (String.◌∷◌ c s) t = String.◌∷◌ c (then_text s t)

-- `${prefix}${error instanceof Error ? error.message : other}`
abbrev pub with_cause : String → String → Option String → Error
with_cause prefix other none = unavailable (then_text prefix other)
with_cause prefix other (some message) = unavailable (then_text prefix message)

-- A failed request becomes `ServiceUnavailableException` under a prefix.
abbrev pub expect_reply {ℓ} : {A : Type ℓ} → String → String → Reply A → Result A
expect_reply prefix other (reply a) = ok a
expect_reply prefix other (failed failure) = err (with_cause prefix other failure.message)

-- A balance of an account and the asset of a payment; a missing property is `none`.
pub record Balance : Type 0 where
  pub asset_type : Option Text
  pub asset_code : Option Text
  pub asset_issuer : Option Text
  pub balance : Text
  pub selling_liabilities : Option Text

-- What `loadAccount` of the SDK returns.
pub record Account : Type 0 where
  pub account_id : Text
  pub balances : List Balance
  pub sequence : Text
  pub subentry_count : ℕ

pub record PaymentRecord : Type 0 where
  pub id : Text
  pub record_type : Text
  pub created_at : Text
  pub transaction_hash : Text
  pub sent_from : Option Text
  pub sent_to : Option Text
  pub amount : Option Text
  pub asset_type : Option Text
  pub asset_code : Option Text
  pub asset_issuer : Option Text

-- What Friendbot answers: `response.ok`, and the status in print.
pub record FriendbotAnswer : Type 0 where
  pub is_ok : Bool
  pub status : String

-- Horizon and Friendbot at the time of a call.
pub record Ledger : Type 0 where
  pub load_account : Text → Reply Account
  pub payments : Text → Reply (List PaymentRecord)
  pub friendbot : Text → Reply FriendbotAnswer

abbrev pub text_or : Text → Option Text → Text
text_or other none = other
text_or other (some value) = value

-- `value === text`
abbrev pub is_text : Text → Option Text → Bool
is_text t none = false
is_text t (some s) = text_eq s t

unfoldable pub asset_name : Option Text → Option Text → Option Text → Text
asset_name asset_type asset_code asset_issuer =
    if is_text (codes "native") asset_type
    then codes "XLM"
    else if is_given asset_code && is_given asset_issuer
    then text_or [] asset_code ++ b':' ∷ text_or [] asset_issuer
    else text_or (codes "unknown") asset_type

pub record BalanceSummary : Type 0 where
  pub asset : Text
  pub code : Option Text
  pub issuer : Option Text
  pub balance : Text
  pub asset_type : Option Text

unfoldable pub balance_summary : Balance → BalanceSummary
unfolding asset_name
balance_summary b = record {
  asset = asset_name b.asset_type b.asset_code b.asset_issuer;
  code = if is_text (codes "native") b.asset_type then some (codes "XLM") else b.asset_code;
  issuer = if is_text (codes "native") b.asset_type then none else b.asset_issuer;
  balance = b.balance;
  asset_type = b.asset_type;
}

pub record AccountSummary : Type 0 where
  pub public_key : Text
  pub activated : Bool
  pub balances : List BalanceSummary
  pub sequence : Text
  pub subentry_count : ℕ

pub record HistoryRecord : Type 0 where
  pub id : Text
  pub record_type : Text
  pub created_at : Text
  pub transaction_hash : Text
  pub sent_from : Option Text
  pub sent_to : Option Text
  pub amount : Option Text
  pub asset : Text
  pub asset_type : Text

unfoldable pub history_record : PaymentRecord → HistoryRecord
unfolding asset_name
history_record r = record {
  id = r.id;
  record_type = r.record_type;
  created_at = r.created_at;
  transaction_hash = r.transaction_hash;
  sent_from = r.sent_from;
  sent_to = r.sent_to;
  amount = r.amount;
  asset = asset_name r.asset_type r.asset_code r.asset_issuer;
  asset_type = text_or r.record_type r.asset_type;
}

-- `(error as …)?.response?.status === 404`
abbrev pub is_missing : Option ℕ → Bool
is_missing none = false
is_missing (some status) = status == 404

abbrev pub loaded : Reply Account → Result Account
loaded (reply account) = ok account
loaded (failed failure) = err (
    if is_missing failure.status
    then not_found "Stellar account is not activated"
    else with_cause "Unable to load Stellar account: " "network error" failure.message)

-- `if (!response.ok) throw new Error(…)`, inside the `try`.
abbrev pub funded : Reply FriendbotAnswer → Result (Unit {0})
funded (failed failure) =
    err (with_cause "Testnet funding failed: " "network error" failure.message)
funded (reply answer) =
    if answer.is_ok
    then ok tt
    else err (
        with_cause "Testnet funding failed: " "network error"
          (some (then_text "Friendbot returned " answer.status)))

module _ (service : StellarService) (ledger : Ledger) where
  abbrev pub expect_key : Text → Result (Unit {0})
  expect_key public_key =
      throw_if (not (service.sdk.is_valid_public_key public_key))
        (bad_request "Invalid Stellar public key")

  unfoldable pub load_account : Text → Result Account
  load_account public_key = do
    assert_testnet service
    expect_key public_key
    loaded (ledger.load_account public_key)

  unfoldable pub get_account_summary : Text → Result AccountSummary
  unfolding load_account
  get_account_summary public_key = do
    account ← load_account public_key
    ok (record {
      public_key = public_key;
      activated = true;
      balances = map balance_summary account.balances;
      sequence = account.sequence;
      subentry_count = account.subentry_count;
    })

  -- The answer `{ records }`.
  unfoldable pub get_history : Text → Result (List HistoryRecord)
  get_history public_key = do
    assert_testnet service
    expect_key public_key
    records ←
        expect_reply "Unable to load transaction history: " "network error"
          (ledger.payments public_key)
    ok (map history_record records)

  -- The answer is `{ status: 'funded', network: 'testnet' }`.
  unfoldable pub fund_testnet : Text → Result (Unit {0})
  fund_testnet public_key = do
    assert_testnet service
    expect_key public_key
    funded (ledger.friendbot public_key)
