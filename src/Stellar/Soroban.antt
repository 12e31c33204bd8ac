-- ===== src/Stellar/Soroban.antt =====
-- The Soroban calls of `StellarService` of backend/src/stellar/stellar.service.ts.
use afri_pay.Base.{
  ℕ, Bool, not, ◌&&◌, ◌||◌, ◌++◌, Option, none, some, Text, codes, text_eq, is_empty, trim, Result,
  ok, err, bad_request, throw_if, leb, ◌==◌, if◌then◌else◌, length, all,
}
use afri_pay.Base.Results.{◌>>=◌, ◌>>◌}
use afri_pay.Stellar.Sdk.{Transaction, Envelope, transaction, fee_bump}
use afri_pay.Stellar.Service.{StellarService, assert_testnet}
use afri_pay.Stellar.Accounts.{Reply, expect_reply}

pub record SendResult : Type 0 where
  pub hash : Text
  pub status : Text

-- The RPC server at the time of a call: what it answers to a preparation (the XDR of the prepared
-- transaction), to a submission and to a poll, whose answer the code passes on.
pub record Rpc (Polled : Type 0) : Type 0 where
  pub prepare : Transaction → Reply Text
  pub send : Transaction → Reply SendResult
  pub poll : Text → Reply Polled

pub record SorobanSubmission : Type 0 where
  pub hash : Text
  pub status : Text
  pub explorer_url : Text

-- `[a-f0-9]` without regard to case.
abbrev pub is_any_hex : ℕ → Bool
is_any_hex c = leb b'a' c && leb c b'f' || leb b'A' c && leb c b'F' || leb b'0' c && leb c b'9'

-- The `try` around `fromXDR` and the test of its source.
abbrev pub expect_own : Text → Option Envelope → Result Transaction
expect_own public_key none = err (bad_request "Invalid Testnet transaction XDR")
expect_own public_key (some fee_bump) = err (bad_request "Transaction source does not match wallet")
expect_own public_key (some (transaction tx)) =
    if text_eq tx.source public_key
    then ok tx
    else err (bad_request "Transaction source does not match wallet")

module _ (service : StellarService) where
  unfoldable pub parse_testnet_transaction : Text → Text → Result Transaction
  parse_testnet_transaction xdr public_key = do
    throw_if (is_empty (trim xdr) || not (service.sdk.is_valid_public_key public_key))
        (bad_request "A signed transaction and valid public key are required")
    expect_own public_key (service.sdk.from_xdr xdr)

  module _ {Polled : Type 0} (rpc : Rpc Polled) where
    -- The answer is the XDR with `network: 'testnet'`.
    unfoldable pub prepare_soroban_transaction : Text → Text → Result Text
    unfolding parse_testnet_transaction
    prepare_soroban_transaction xdr public_key = do
      assert_testnet service
      tx ← parse_testnet_transaction xdr public_key
      expect_reply "Soroban simulation/preparation failed: " "RPC error" (rpc.prepare tx)

    unfoldable pub submit_soroban_transaction : Text → Text → Result SorobanSubmission
    unfolding parse_testnet_transaction
    submit_soroban_transaction xdr public_key = do
      assert_testnet service
      tx ← parse_testnet_transaction xdr public_key
      result ← expect_reply "Soroban submission failed: " "RPC error" (rpc.send tx)
      ok (record {
        hash = result.hash;
        status = result.status;
        explorer_url = codes "https://stellar.expert/explorer/testnet/tx/" ++ result.hash;
      })

    unfoldable pub get_soroban_transaction : Text → Result Polled
    get_soroban_transaction hash = do
      assert_testnet service
      throw_if (not (length hash == 64 && all is_any_hex hash))
          (bad_request "Invalid transaction hash")
      expect_reply "Unable to poll Soroban transaction: " "RPC error" (rpc.poll hash)
