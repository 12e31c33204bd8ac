-- ===== src/Tests/OfSending.antt =====
-- Sending a payment from the screen: a submission that is thrown, and the same envelope again.
use afri_pay.Base.{
  [], refl, ◌≡◌, true, false, none, some, codes, text_eq, inl, if◌then◌else◌, trim, utf8,
}
use afri_pay.Stellar.Amount.{is_decimal, units}
use afri_pay.Stellar.Amount.Decimal.{decimal}
use afri_pay.Browser.Sign.{
  amount_units, sign_transaction_xdr, own_transaction, is_unreviewed, is_unexpected_fee,
  has_other_memo, is_outside_time,
}
use afri_pay.Browser.Send.{
  SignedPayment, Storage, WalletView, PreparedIntent, IntentRequest, Review, answer, thrown,
  recorded, reload_pending, pending_payment_key,
}
use afri_pay.Browser.Send.Form.{prepare, prepare_answered}
use afri_pay.Browser.Send.Confirm.{confirm, confirm_answered}
use afri_pay.Browser.Send.Screen.{
  Screen, edits, reviews, prepares, confirms, submits, review_payment, confirm_payment,
  submit_answered, opened, landed, with_send,
}
use afri_pay.Browser.Send.Page.{SendPage, unchecked, Reach, opens, acts}
use afri_pay.Browser.Send.Logs.{AllNamed, In}
use afri_pay.Browser.Send.Phases.{Settled}
use afri_pay.Browser.Send.Runs.{one_unsettled}
use afri_pay.Browser.Send.Blocked.{recorded_blocks}
use afri_pay.Tests.OfBuilding.{signer}

abbrev pub wallet : WalletView
wallet = record {
  address = some (codes "GA");
  secret = some (codes "SA");
  activated = some true;
  xlm = some (codes "10");
  api_config_error = none;
}

abbrev pub storage : Storage
storage = λ key. none

abbrev fresh : Screen
fresh = record {
  send = opened none (some (codes "GA")) storage;
  flight = landed;
  signed = [];
  submitted = [];
  settled = [];
}

abbrev filled : Screen
filled =
    with_send (record fresh.send { recipient = codes "GB"; amount = codes "1.5"; memo = [] }) fresh

abbrev pub asked : Screen
asked = review_payment signer (λ x y. false) (some (codes "GA")) none wallet filled

abbrev pub request : IntentRequest
request = record { sender = codes "GA"; recipient = codes "GB"; amount = codes "1.5"; memo = [] }

abbrev pub intent : PreparedIntent
intent = record { id = codes "i1"; network = codes "testnet"; xdr = []; fee = codes "100" }

abbrev reviewed : Screen
reviewed = record asked {
  send = prepare_answered request (answer intent) asked.send;
  flight = landed;
}

abbrev pub review : Review
review = record {
  id = codes "i1";
  xdr = [];
  fee = codes "100";
  recipient = codes "GB";
  amount = codes "1.5";
  memo = [];
}

abbrev pub confirmed : Screen
confirmed =
    confirm_payment signer (λ x y. false) (some (codes "GA")) none 1699999900000 wallet review
      reviewed

abbrev pub payment : SignedPayment
payment = record { id = codes "i1"; signed_xdr = codes "A" }

abbrev retried : Screen
retried =
    confirm_payment signer (λ x y. false) (some (codes "GA")) none 1699999900000 wallet review
      (submit_answered (some (codes "GA")) review payment (thrown none) confirmed)

abbrev pub at : Screen → SendPage
at w = record { screen = w; checking = unchecked; overtaken = false }

reached : Reach signer (λ x y. false) (some (codes "GA")) none storage (at retried)
unfolding prepare confirm prepare_answered confirm_answered reload_pending is_decimal units decimal
    amount_units sign_transaction_xdr text_eq trim utf8 own_transaction is_unreviewed
    is_unexpected_fee has_other_memo is_outside_time
reached =
    acts _ _
      (acts _ _
        (acts _ _
          (acts _ _
            (acts _ _ (acts _ _ opens (edits _ (codes "GB") (codes "1.5") [] (refl, refl)))
              (reviews _ wallet (refl, refl)))
            (prepares _ request (answer intent) refl))
          (confirms _ 1699999900000 wallet review (refl, refl)))
        (submits _ review payment (thrown none) refl))
      (confirms _ 1699999900000 wallet review (refl, refl))

named : AllNamed retried.signed
unfolding prepare confirm prepare_answered confirm_answered reload_pending is_decimal units decimal
    amount_units sign_transaction_xdr text_eq trim utf8 own_transaction is_unreviewed
    is_unexpected_fee has_other_memo is_outside_time
named = (refl, tt)

sent : In payment retried.submitted
unfolding prepare confirm prepare_answered confirm_answered reload_pending is_decimal units decimal
    amount_units sign_transaction_xdr text_eq trim utf8 own_transaction is_unreviewed
    is_unexpected_fee has_other_memo is_outside_time
sent = inl refl

unsettled : ¬ Settled retried.settled payment.id
unfolding prepare confirm prepare_answered confirm_answered reload_pending is_decimal units decimal
    amount_units sign_transaction_xdr text_eq trim utf8 own_transaction is_unreviewed
    is_unexpected_fee has_other_memo is_outside_time
unsettled none_yet = none_yet

one_unsettled_example : payment ≡ payment
one_unsettled_example =
    one_unsettled signer (λ x y. false) (some (codes "GA")) none (at retried) payment payment
      reached refl named sent sent unsettled unsettled

-- A page that is opened later, when the identifier is in the storage.
abbrev kept : Storage
kept key = if text_eq (pending_payment_key (codes "GA")) key then some (codes "i1") else none

abbrev later : Screen
later = record fresh { send = opened none (some (codes "GA")) kept }

abbrev refused : Screen
refused =
    review_payment signer (λ x y. false) (some (codes "GA")) none wallet
      (with_send (record later.send { recipient = codes "GB"; amount = codes "1.5"; memo = [] })
        later)

refused_reached : Reach signer (λ x y. false) (some (codes "GA")) none kept (at refused)
unfolding reload_pending
refused_reached =
    acts _ _ (acts _ _ opens (edits _ (codes "GB") (codes "1.5") [] (refl, refl)))
      (reviews _ wallet (refl, refl))

kept_recorded : recorded (some (codes "GA")) kept ≡ some (codes "i1")
unfolding recorded text_eq pending_payment_key
kept_recorded = refl

still_open : refused.settled ≡ []
unfolding prepare confirm prepare_answered confirm_answered reload_pending is_decimal units decimal
    amount_units recorded pending_payment_key text_eq trim utf8
still_open = refl

recorded_blocks_example :
    (refused.signed ≡ [])
    × (refused.submitted ≡ [])
    × (recorded (some (codes "GA")) refused.send.storage ≡ some (codes "i1"))
recorded_blocks_example =
    recorded_blocks signer (λ x y. false) (some (codes "GA")) none (codes "i1") (at refused)
      refused_reached kept_recorded still_open
