-- ===== src/Tests/OfLate.antt =====
-- A status check that is answered late, on the page of a payment.
use afri_pay.Base.{[], ◌∷◌, refl, ◌≡◌, true, false, none, some, codes, text_eq, trim, utf8}
use afri_pay.Stellar.Amount.{is_decimal, units}
use afri_pay.Stellar.Amount.Decimal.{decimal}
use afri_pay.Browser.Sign.{
  amount_units, sign_transaction_xdr, own_transaction, is_unreviewed, is_unexpected_fee,
  has_other_memo, is_outside_time,
}
use afri_pay.Browser.Send.{
  SignedPayment, Review, answer, thrown, recorded, reload_pending, pending_payment_key,
  IntentStatus,
}
use afri_pay.Browser.Send.Form.{prepare, prepare_answered}
use afri_pay.Browser.Send.Confirm.{confirm, confirm_answered, finish}
use afri_pay.Browser.Send.Check.{check, check_answered, check_unconfirmed_answered, start_over}
use afri_pay.Browser.Send.Screen.{
  Screen, edits, reviews, prepares, confirms, submits, starts_over, review_payment, confirm_payment,
  submit_answered, landed, with_send, review_answered,
}
use afri_pay.Browser.Send.Page.{
  asks_review, answers_review, SendPage, for_review, answered, is_timely, Reach, opens, acts,
}
use afri_pay.Tests.OfBuilding.{signer}
use afri_pay.Tests.OfSending.{wallet, storage, request, intent, review, confirmed, payment, at}

-- The status of the first payment is asked for; the same envelope is submitted again and settles it,
-- a second payment is signed and its submission fails, and then the status of the first arrives.
abbrev done : IntentStatus
done = record { status = codes "SUCCEEDED"; transaction_hash = none }

abbrev failed_once : Screen
failed_once = submit_answered (some (codes "GA")) review payment (thrown none) confirmed

abbrev settled_first : Screen
settled_first = submit_answered (some (codes "GA")) review payment (answer done) (
    confirm_payment signer (λ x y. false) (some (codes "GA")) none 1699999900000 wallet review
      failed_once)

abbrev over : Screen
over = with_send (start_over none settled_first.send) settled_first

abbrev filled_again : Screen
filled_again =
    with_send (record over.send { recipient = codes "GB"; amount = codes "1.5"; memo = [] }) over

abbrev asked_again : Screen
asked_again = review_payment signer (λ x y. false) (some (codes "GA")) none wallet filled_again

abbrev reviewed_again : Screen
reviewed_again = record asked_again {
  send = prepare_answered request (answer (record intent { id = codes "i2" })) asked_again.send;
  flight = landed;
}

abbrev second : Review
second = record review { id = codes "i2" }

abbrev second_payment : SignedPayment
second_payment = record payment { id = codes "i2" }

abbrev failed_twice : Screen
failed_twice = submit_answered (some (codes "GA")) second second_payment (thrown none) (
    confirm_payment signer (λ x y. false) (some (codes "GA")) none 1699999900000 wallet second
      reviewed_again)

abbrev waiting : SendPage
waiting = record {
  screen = failed_twice;
  checking = for_review review (codes "i1");
  overtaken = false;
}

abbrev forgotten : SendPage
forgotten =
    answered (some (codes "GA")) (answer done)
      (review_answered (some (codes "GA")) review (codes "i1") (answer done) waiting.screen) waiting

abbrev watching : Screen → SendPage
watching w = record { screen = w; checking = for_review review (codes "i1"); overtaken = false }

failed_reached : Reach signer (λ x y. false) (some (codes "GA")) none storage (at failed_once)
unfolding prepare confirm prepare_answered confirm_answered reload_pending is_decimal units decimal
    amount_units sign_transaction_xdr text_eq trim utf8 own_transaction is_unreviewed
    is_unexpected_fee has_other_memo is_outside_time finish start_over recorded pending_payment_key
failed_reached =
    acts (at confirmed) failed_once
      (acts _ _
        (acts _ _
          (acts _ _ (acts _ _ opens (edits _ (codes "GB") (codes "1.5") [] (refl, refl)))
            (reviews _ wallet (refl, refl)))
          (prepares _ request (answer intent) refl))
        (confirms _ 1699999900000 wallet review (refl, refl)))
      (submits _ review payment (thrown none) refl)

watching_reached :
    Reach signer (λ x y. false) (some (codes "GA")) none storage (watching failed_once)
unfolding prepare confirm prepare_answered confirm_answered reload_pending is_decimal units decimal
    amount_units sign_transaction_xdr text_eq trim utf8 own_transaction is_unreviewed
    is_unexpected_fee has_other_memo is_outside_time finish start_over recorded pending_payment_key
    check
watching_reached =
    asks_review (at failed_once) review payment failed_reached (refl, refl) refl refl refl

abbrev retried_once : Screen
retried_once =
    confirm_payment signer (λ x y. false) (some (codes "GA")) none 1699999900000 wallet review
      failed_once

retried_reached :
    Reach signer (λ x y. false) (some (codes "GA")) none storage (watching retried_once)
unfolding prepare confirm prepare_answered confirm_answered reload_pending is_decimal units decimal
    amount_units sign_transaction_xdr text_eq trim utf8 own_transaction is_unreviewed
    is_unexpected_fee has_other_memo is_outside_time finish start_over recorded pending_payment_key
retried_reached =
    acts (watching failed_once) retried_once watching_reached
      (confirms failed_once 1699999900000 wallet review (refl, refl))

settled_reached :
    Reach signer (λ x y. false) (some (codes "GA")) none storage (watching settled_first)
unfolding prepare confirm prepare_answered confirm_answered reload_pending is_decimal units decimal
    amount_units sign_transaction_xdr text_eq trim utf8 own_transaction is_unreviewed
    is_unexpected_fee has_other_memo is_outside_time finish start_over recorded pending_payment_key
settled_reached =
    acts (watching retried_once) settled_first retried_reached
      (submits retried_once review payment (answer done) refl)

filled_reached :
    Reach signer (λ x y. false) (some (codes "GA")) none storage (watching filled_again)
unfolding prepare confirm prepare_answered confirm_answered reload_pending is_decimal units decimal
    amount_units sign_transaction_xdr text_eq trim utf8 own_transaction is_unreviewed
    is_unexpected_fee has_other_memo is_outside_time finish start_over recorded pending_payment_key
filled_reached =
    acts (watching over) filled_again
      (acts (watching settled_first) over settled_reached (starts_over settled_first _ refl))
      (edits over (codes "GB") (codes "1.5") [] (refl, refl))

reviewed_reached :
    Reach signer (λ x y. false) (some (codes "GA")) none storage (watching reviewed_again)
unfolding prepare confirm prepare_answered confirm_answered reload_pending is_decimal units decimal
    amount_units sign_transaction_xdr text_eq trim utf8 own_transaction is_unreviewed
    is_unexpected_fee has_other_memo is_outside_time finish start_over recorded pending_payment_key
reviewed_reached =
    acts (watching asked_again) reviewed_again
      (acts (watching filled_again) asked_again filled_reached
        (reviews filled_again wallet (refl, refl)))
      (prepares asked_again request (answer (record intent { id = codes "i2" })) refl)

abbrev signed_again : Screen
signed_again =
    confirm_payment signer (λ x y. false) (some (codes "GA")) none 1699999900000 wallet second
      reviewed_again

signed_reached :
    Reach signer (λ x y. false) (some (codes "GA")) none storage (watching signed_again)
unfolding prepare confirm prepare_answered confirm_answered reload_pending is_decimal units decimal
    amount_units sign_transaction_xdr text_eq trim utf8 own_transaction is_unreviewed
    is_unexpected_fee has_other_memo is_outside_time finish start_over recorded pending_payment_key
signed_reached =
    acts (watching reviewed_again) signed_again reviewed_reached
      (confirms reviewed_again 1699999900000 wallet second (refl, refl))

late_reached : Reach signer (λ x y. false) (some (codes "GA")) none storage forgotten
unfolding prepare confirm prepare_answered confirm_answered reload_pending is_decimal units decimal
    amount_units sign_transaction_xdr text_eq trim utf8 own_transaction is_unreviewed
    is_unexpected_fee has_other_memo is_outside_time finish start_over recorded pending_payment_key
late_reached =
    answers_review waiting review (codes "i1") (answer done)
      (acts (watching signed_again) failed_twice signed_reached
        (submits signed_again second second_payment (thrown none) refl))
      refl

-- Then the second payment is neither recorded nor held, though it is not settled.
late_status :
    (forgotten.screen.submitted ≡ second_payment ∷ payment ∷ payment ∷ [])
    × (waiting.screen.send.pending_payment ≡ some second_payment)
    × (forgotten.screen.send.pending_payment ≡ none)
    × (recorded (some (codes "GA")) forgotten.screen.send.storage ≡ none)
    × (forgotten.overtaken ≡ true)
unfolding prepare confirm prepare_answered confirm_answered reload_pending is_decimal units decimal
    amount_units sign_transaction_xdr text_eq trim utf8 own_transaction is_unreviewed
    is_unexpected_fee has_other_memo is_outside_time finish start_over check_answered
    check_unconfirmed_answered recorded pending_payment_key is_timely
late_status = (refl, refl, refl, refl, refl)
