-- ===== src/Stellar/Build.antt =====
-- `buildNativePayment` of backend/src/stellar/stellar.service.ts.
pub mod Funds
use afri_pay.Base.{
  ℕ, ◌+◌, ◌*◌, Bool, true, false, List, [], ◌∷◌, Option, none, some, Text, codes, text_eq, is_empty,
  Result, ok, err, bad_request, plain, unavailable, throw_if, ltb, if◌then◌else◌,
}
use afri_pay.Base.Results.{◌>>=◌, ◌>>◌}
use afri_pay.Stellar.Amount.{stroops}
use afri_pay.Stellar.Validation.{NativePayment, validate_payment}
use afri_pay.Stellar.Service.{StellarService, assert_testnet}
use afri_pay.Stellar.Accounts.{Failure, Reply, reply, failed, Balance, Account, is_text, is_missing}
use afri_pay.Stellar.Amount.Decimal.{decimal}

-- What the requests of `Promise.all` give: the account of the sender with what its record says of
-- sponsoring, the base reserve in stroops of each ledger record, and the 95th percentile of the fees,
-- none where it is not a number. The recipient's account is loaded only to see that it exists.
pub record Snapshot : Type 0 where
  pub account : Account
  pub num_sponsoring : Option ℕ
  pub num_sponsored : Option ℕ
  pub base_reserves : List ℕ
  pub p95 : Option ℕ

-- What the builder is given: one native payment under `setTimeout(300)`.
pub record Draft : Type 0 where
  pub account : Account
  pub fee : Text
  pub destination : Text
  pub amount : Text
  pub memo : Option Text
  pub timeout : ℕ

pub record Prepared : Type 0 where
  pub xdr : Text
  pub network : Text
  pub fee : Text

-- The requests for a sender and a recipient, which end with what `Promise.all` does, and the
-- builder, which may throw.
pub record Builder : Type 0 where
  pub gather : Text → Text → Reply Snapshot
  pub build : Draft → Option Text

-- `Math.max(100, Number(p95))` and the test of the text that it prints as; NaN is not digits.
unfoldable pub network_fee : Option ℕ → Result ℕ
network_fee none = err (bad_request "Network fee exceeds wallet limit; try later")
network_fee (some p95) =
    let fee = if ltb 100 p95 then p95 else 100 in
    if ltb 1000000 fee
    then err (bad_request "Network fee exceeds wallet limit; try later")
    else ok fee

abbrev pub or_zero : Option ℕ → ℕ
or_zero none = 0
or_zero (some n) = n

-- `records[0].base_reserve_in_stroops`, which throws without a record.
abbrev pub base_reserve : List ℕ → Result ℕ
base_reserve [] = err (plain "Cannot read properties of undefined")
base_reserve (reserve ∷ rest) = ok reserve

abbrev pub find_native : List Balance → Option Balance
find_native [] = none
find_native (b ∷ bs) = if is_text (codes "native") b.asset_type then some b else find_native bs

abbrev pub liabilities : Option Text → Text
liabilities none = codes "0"
liabilities (some s) = s

-- `balance - liabilities - reserve - fee < amount`, where the reserve is
-- `base * (2 + subentries + sponsoring - sponsored)`: what is subtracted stands on the other side.
abbrev pub is_short : ℕ → ℕ → ℕ → ℕ → ℕ → ℕ → ℕ → Bool
is_short balance held base counted sponsored fee amount =
    ltb (balance + base * sponsored) (amount + fee + base * counted + held)

unfoldable pub is_insufficient : Snapshot → ℕ → ℕ → Text → Option Balance → Result Bool
is_insufficient s base fee amount none = ok true
is_insufficient s base fee amount (some native) = do
  balance ← stroops native.balance
  held ← stroops (liabilities native.selling_liabilities)
  paid ← stroops amount
  ok (
      is_short balance held base (2 + s.account.subentry_count + or_zero s.num_sponsoring)
        (or_zero s.num_sponsored) fee paid)

-- `if (memo)`
abbrev pub given_memo : Option Text → Option Text
given_memo none = none
given_memo (some memo) = if is_empty memo then none else some memo

abbrev pub draft : Snapshot → ℕ → Text → Text → Option Text → Draft
draft s fee recipient amount memo = record {
  account = s.account;
  fee = decimal fee;
  destination = recipient;
  amount = amount;
  memo = given_memo memo;
  timeout = 300;
}

abbrev pub expect_built : Option Text → Result Text
expect_built none = err (plain "Invalid transaction")
expect_built (some xdr) = ok xdr

-- The `try` after the requests.
unfoldable pub prepare_payment : Builder → Snapshot → Text → Text → Option Text → Result Prepared
unfolding network_fee is_insufficient
prepare_payment builder s recipient amount memo = do
  fee ← network_fee s.p95
  base ← base_reserve s.base_reserves
  short ← is_insufficient s base fee amount (find_native s.account.balances)
  throw_if short (bad_request "Insufficient spendable XLM after reserve, liabilities and fee")
  xdr ← expect_built (builder.build (draft s fee recipient amount memo))
  ok (record { xdr = xdr; network = codes "testnet"; fee = decimal fee })

-- The `catch`: `BadRequestException` goes on, anything else is unavailable.
unfoldable pub caught : Result Prepared → Result Prepared
caught (ok prepared) = ok prepared
caught (err (bad_request message)) = err (bad_request message)
caught (err e) =
    err (unavailable "Unable to prepare Stellar transaction; retry when Horizon is available")

abbrev pub requested_payment : Text → Text → Text → Option Text → NativePayment
requested_payment sender recipient amount memo = record {
  sender = sender;
  recipient = recipient;
  amount = amount;
  asset = codes "XLM";
  memo = memo;
}

unfoldable pub prepare_from : Builder → Text → Text → Option Text → Reply Snapshot → Result Prepared
unfolding prepare_payment caught
prepare_from builder recipient amount memo (reply s) =
    caught (prepare_payment builder s recipient amount memo)
prepare_from builder recipient amount memo (failed failure) = err (
    if is_missing failure.status
    then bad_request "Sender and destination must be activated on Testnet"
    else unavailable "Unable to prepare Stellar transaction; retry when Horizon is available")

unfoldable pub build_native_payment :
    StellarService → Builder → Text → Text → Text → Option Text → Result Prepared
unfolding prepare_from
build_native_payment service builder sender recipient amount memo = do
  assert_testnet service
  validate_payment service.sdk (requested_payment sender recipient amount memo)
  prepare_from builder recipient amount memo (builder.gather sender recipient)
