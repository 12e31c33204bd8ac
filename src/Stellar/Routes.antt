-- ===== src/Stellar/Routes.antt =====
-- `StellarController` of backend/src/stellar/stellar.controller.ts. Its other handlers pass their
-- arguments on to the service.
use afri_pay.Base.{
  [], not, ◌||◌, Option, none, some, Text, is_empty, text_eq, Result, err, bad_request, throw_if,
}
use afri_pay.Base.Actions.{Action, ◌>>◌, lift}
use afri_pay.Stellar.Sdk.{Envelope, transaction, fee_bump}
use afri_pay.Stellar.Service.{
  StellarService, Horizon, Network, Submission, submit_signed_transaction,
}
use afri_pay.Stellar.Accounts.{text_or}
use afri_pay.Stellar.Soroban.{
  Rpc, SorobanSubmission, prepare_soroban_transaction, submit_soroban_transaction,
}

-- The fields of a body; a missing one is `none`.
pub record SignedBody : Type 0 where
  pub xdr : Option Text
  pub public_key : Option Text

-- The `try` around `fromXDR` and the test of its source.
abbrev pub check_own : Text → Option Envelope → Result (Unit {0})
check_own public_key none = err (bad_request "Invalid signed transaction")
check_own public_key (some fee_bump) = err (bad_request "Transaction source does not match wallet")
check_own public_key (some (transaction tx)) =
    throw_if (not (text_eq tx.source public_key))
      (bad_request "Transaction source does not match wallet")

module _ (service : StellarService) where
  unfoldable pub handle_submit_signed : Horizon → SignedBody → Action Network Submission
  handle_submit_signed horizon body = do
    lift (
        throw_if (is_empty (text_or [] body.xdr) || is_empty (text_or [] body.public_key))
          (bad_request "signedXdr and publicKey are required"))
    lift (check_own (text_or [] body.public_key) (service.sdk.from_xdr (text_or [] body.xdr)))
    submit_signed_transaction service horizon (text_or [] body.xdr) none none

  module _ {Polled : Type 0} (rpc : Rpc Polled) where
    unfoldable pub handle_prepare_soroban : SignedBody → Result Text
    handle_prepare_soroban body =
        prepare_soroban_transaction service rpc (text_or [] body.xdr) (text_or [] body.public_key)

    unfoldable pub handle_submit_soroban : SignedBody → Result SorobanSubmission
    handle_submit_soroban body =
        submit_soroban_transaction service rpc (text_or [] body.xdr) (text_or [] body.public_key)
