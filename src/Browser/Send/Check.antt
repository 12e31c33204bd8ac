-- ===== src/Browser/Send/Check.antt =====
-- The status checks of frontend/src/components/wallet/usePendingPayment.ts and SendFlow.tsx, and
-- `startOver`.
use afri_pay.Base.{false, [], Option, none, some, Text, if◌then◌else◌}
use afri_pay.Browser.Send.{
  Review, status_of, error_of, Send, PaymentRequest, Answer, answer, thrown, IntentStatus,
  pending_payment_key, recorded, message_or, with_error,
}
use afri_pay.Browser.Send.Confirm.{forget, finish, settled_result, is_pending_status}

abbrev pub check_recorded : Option Text → Send → Send × Option Text
check_recorded none s = (
  record s {
    pending_id = none;
    outcome = some (error_of "No pending payment is recorded on this device.");
  },
  none,
)
check_recorded (some id) s = (s, some id)

-- `check` of `usePendingPayment` up to its request, with the identifier that it asks for.
unfoldable pub check : Option Text → Send → Send × Option Text
unfolding recorded
check address s = check_recorded (recorded address s.storage) s

-- `check` from its answer on.
unfoldable pub check_answered : Option Text → Answer IntentStatus → Send → Send
unfolding pending_payment_key
check_answered address (thrown message) s = record s {
  outcome = some (error_of (message_or "Payment status is unavailable right now." message));
}
check_answered address (answer status) s =
    let seen = record s { outcome = some (status_of status.status status.transaction_hash) } in
    if is_pending_status status.status
    then seen
    else record (forget address seen) { pending_id = none }

-- `checkUnconfirmed` from the answer of `check` on, with the review that it had.
unfoldable pub check_unconfirmed_answered :
    Option Text → Option Review → Answer IntentStatus → Send → Send
check_unconfirmed_answered address none reply s = record (check_answered address reply s) {
  outcome = none;
}
check_unconfirmed_answered address (some r) (thrown message) s =
    with_error (message_or "Payment status is unavailable right now." message)
      (record (check_answered address (thrown message) s) { outcome = none })
check_unconfirmed_answered address (some r) (answer status) s =
    let checked = record (check_answered address (answer status) s) { outcome = none } in
    if is_pending_status status.status
    then with_error "Still not confirmed. Check again shortly, or retry the same transaction."
        checked
    else finish address (settled_result status r) checked

-- `startOver`, on the page of a payment link or on its own.
unfoldable pub start_over : Option PaymentRequest → Send → Send
start_over (some request) s = record s { result = none; attempted = false; error = none }
start_over none s = record s {
  recipient = [];
  amount = [];
  memo = [];
  attempted = false;
  result = none;
  error = none;
}
