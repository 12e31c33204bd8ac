-- ===== src/Browser/Send/Form.antt =====
-- The form of `SendFlow` of frontend/src/components/wallet/SendFlow.tsx: its errors, and `prepare`.
use afri_pay.Base.{
  Bool, true, false, not, ◌||◌, Option, none, some, Text, codes, text_eq, is_empty, trim,
  byte_length, ltb, ◌==◌, if◌then◌else◌,
}
use afri_pay.Stellar.Amount.{is_decimal, units}
use afri_pay.Stellar.Accounts.{is_text}
use afri_pay.Browser.Sign.{Signer}
use afri_pay.Browser.Send.{
  Review, Send, WalletView, IntentRequest, PreparedIntent, Answer, answer, thrown, recorded,
  reload_pending, message_or, with_error, idle, working,
}

-- `Number(amount) > Number(xlm)`, on floating-point numbers.
abbrev pub Exceeds : Type 0
Exceeds = Text → Text → Bool

abbrev pub is_false : Option Bool → Bool
is_false none = false
is_false (some b) = not b

-- `errors.recipient`, `errors.amount` and `errors.memo`, as whether there is one. A text of the
-- pattern is zero as a number exactly if its units are.
unfoldable pub recipient_error : Signer → WalletView → Text → Bool
recipient_error signer wallet recipient =
    is_empty (trim recipient)
    || not (signer.sdk.is_valid_public_key (trim recipient))
    || is_text (trim recipient) wallet.address

abbrev pub exceeds_balance : Exceeds → Text → Option Text → Bool
exceeds_balance exceeds amount none = false
exceeds_balance exceeds amount (some xlm) = exceeds amount xlm

unfoldable pub amount_error : Exceeds → WalletView → Text → Bool
amount_error exceeds wallet amount =
    is_empty amount
    || not (is_decimal 12 7 amount)
    || units amount == 0
    || exceeds_balance exceeds amount wallet.xlm

unfoldable pub memo_error : Text → Bool
memo_error memo = ltb 28 (byte_length memo)

-- `blockedReason`, as whether there is one; the message of a configuration error is not empty.
unfoldable pub is_blocked : WalletView → Bool
is_blocked wallet = elim wallet.api_config_error [
  | some message ↦ true
  | none ↦ is_false wallet.activated
]

-- The form has no error and nothing blocks it.
abbrev pub can_prepare : Signer → Exceeds → WalletView → Send → Bool
can_prepare signer exceeds wallet s = not (
    recipient_error signer wallet s.recipient
    || amount_error exceeds wallet s.amount
    || memo_error s.memo
    || is_blocked wallet)

-- The end of the first part of `prepare`, for the pending payment that is recorded.
abbrev pub prepare_for : Text → Option Text → Send → Send × Option IntentRequest
prepare_for address (some id) s = (
  with_error "Resolve the unconfirmed payment above before creating another one."
      (reload_pending (some address) s),
  none,
)
prepare_for address none s = (
  working s,
  some
      (record { sender = address; recipient = trim s.recipient; amount = s.amount; memo = s.memo }),
)

abbrev pub prepare_as : Option Text → Send → Send × Option IntentRequest
prepare_as none s = (with_error "Unlock your wallet before sending." s, none)
prepare_as (some address) s =
    if is_empty address
    then (with_error "Unlock your wallet before sending." s, none)
    else prepare_for address (recorded (some address) s.storage) s

-- `prepare` up to its first request.
unfoldable pub prepare : Signer → Exceeds → WalletView → Send → Send × Option IntentRequest
unfolding recorded reload_pending recipient_error amount_error memo_error is_blocked
prepare signer exceeds wallet s =
    if s.busy
    then (s, none)
    else if can_prepare signer exceeds wallet s
    then prepare_as wallet.address (record s { attempted = true })
    else (record s { attempted = true }, none)

abbrev pub review_for : IntentRequest → PreparedIntent → Review
review_for request prepared = record {
  id = prepared.id;
  xdr = prepared.xdr;
  fee = prepared.fee;
  recipient = request.recipient;
  amount = request.amount;
  memo = request.memo;
}

-- `prepare` from its answers on.
unfoldable pub prepare_answered : IntentRequest → Answer PreparedIntent → Send → Send
prepare_answered request (thrown message) s =
    idle (with_error (message_or "Unable to prepare this payment." message) s)
prepare_answered request (answer prepared) s = idle (
    if text_eq prepared.network (codes "testnet")
    then record s { review = some (review_for request prepared) }
    else with_error "Unexpected transaction network" s)
