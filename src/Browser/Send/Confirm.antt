-- ===== src/Browser/Send/Confirm.antt =====
-- `confirm` and `finish` of `SendFlow` of frontend/src/components/wallet/SendFlow.tsx.
use afri_pay.Base.{
  ℕ, Bool, ◌||◌, [], Option, none, some, Text, codes, text_eq, is_empty, ok, err, if◌then◌else◌,
}
use afri_pay.Stellar.Accounts.{text_or}
use afri_pay.Browser.Sign.{PaymentReview, Signer, sign_transaction_xdr}
use afri_pay.Browser.Send.{
  Review, SendResult, SignedPayment, set_item, remove_item, Send, WalletView, Answer, answer,
  thrown, IntentStatus, pending_payment_key, reload_pending, message_or, message_of, with_error,
  idle, working,
}

abbrev pub shown_payment : Review → PaymentReview
shown_payment r = record {
  recipient = r.recipient;
  amount = r.amount;
  memo = some r.memo;
  fee = r.fee;
}

-- The reference and the storage once a payment is signed.
abbrev pub remember : Text → SignedPayment → Send → Send
remember address p s = record s {
  pending_payment = some p;
  storage = set_item (pending_payment_key address) p.id s.storage;
}

-- The `try` of `confirm` up to its request: the payment that is submitted is the one that was signed
-- before, where there is one.
abbrev pub confirm_signed :
    Signer → ℕ → Text → Text → Review → Option SignedPayment → Send → Send × Option SignedPayment
confirm_signed signer now address secret r (some p) s = (s, some p)
confirm_signed signer now address secret r none s =
    elim (sign_transaction_xdr signer now secret r.xdr (shown_payment r)) [
      | err e ↦ (idle (with_error (message_of e) s), none)
      | ok signed_xdr ↦
          let p : SignedPayment = record { id = r.id; signed_xdr = signed_xdr } in
          (remember address p s, some p)
    ]

abbrev pub confirm_with :
    Signer → ℕ → Option Text → Option Text → Review → Send → Send × Option SignedPayment
confirm_with signer now none secret r s = (with_error "Unlock your wallet before signing." s, none)
confirm_with signer now (some address) none r s =
    (with_error "Unlock your wallet before signing." s, none)
confirm_with signer now (some address) (some secret) r s =
    if is_empty address || is_empty secret
    then (with_error "Unlock your wallet before signing." s, none)
    else confirm_signed signer now address secret r s.pending_payment (working s)

abbrev pub confirm_shown :
    Signer → ℕ → WalletView → Option Review → Send → Send × Option SignedPayment
confirm_shown signer now wallet none s = (s, none)
confirm_shown signer now wallet (some r) s =
    if s.busy then (s, none) else confirm_with signer now wallet.address wallet.secret r s

-- `confirm` up to its request.
unfoldable pub confirm : Signer → ℕ → WalletView → Send → Send × Option SignedPayment
unfolding pending_payment_key
confirm signer now wallet s = confirm_shown signer now wallet s.review s

abbrev pub forget : Option Text → Send → Send
forget none s = s
forget (some address) s =
    if is_empty address
    then s
    else record s { storage = remove_item (pending_payment_key address) s.storage }

-- `finish`; `refreshAccount` loads the account anew.
unfoldable pub finish : Option Text → SendResult → Send → Send
unfolding reload_pending pending_payment_key
finish address next s =
    let cleared = reload_pending address (forget address (record s { pending_payment = none })) in
    record cleared { review = none; unconfirmed_hash = none; result = some next }

abbrev pub settled_result : IntentStatus → Review → SendResult
settled_result status r = record {
  succeeded = text_eq status.status (codes "SUCCEEDED");
  transaction_hash = text_or [] status.transaction_hash;
  amount = r.amount;
  recipient = r.recipient;
}

abbrev pub is_pending_status : Text → Bool
is_pending_status status = text_eq status (codes "PENDING")

-- `confirm` from its answer on, with the review that it had.
unfoldable pub confirm_answered : Option Text → Review → Answer IntentStatus → Send → Send
unfolding finish
confirm_answered address r (thrown message) s = idle (
    with_error
      (message_or "Unable to verify payment. Check its status before sending again." message) s)
confirm_answered address r (answer status) s = idle (
    if is_pending_status status.status
    then record s { unconfirmed_hash = some (text_or [] status.transaction_hash) }
    else finish address (settled_result status r) s)
