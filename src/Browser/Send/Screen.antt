-- ===== src/Browser/Send/Screen.antt =====
-- The screen of a payment: which buttons `SendFlow` of
-- frontend/src/components/wallet/SendFlow.tsx shows in each state, and what happens in between. The
-- result is shown first, then the review, then the form; a button is disabled while a request runs.
-- Browser/Send/Page adds the status checks and the loading of the page.
use afri_pay.Base.{ℕ, ◌≡◌, false, List, [], ◌∷◌, Option, none, some, Text, if◌then◌else◌}
use afri_pay.Stellar.Accounts.{text_or}
use afri_pay.Browser.Sign.{Signer}
use afri_pay.Browser.Send.{
  Review, SendResult, SignedPayment, Send, WalletView, PaymentRequest, IntentRequest,
  PreparedIntent, Answer, answer, thrown, IntentStatus, Storage, reload_pending,
}
use afri_pay.Browser.Send.Form.{Exceeds, prepare, prepare_answered}
use afri_pay.Browser.Send.Confirm.{confirm, confirm_answered, is_pending_status}
use afri_pay.Browser.Send.Check.{check_answered, check_unconfirmed_answered, start_over}

-- The request that a handler awaits, with what its closure holds.
pub data Flight : Type 0 where
  landed : Flight
  preparing : IntentRequest → Flight
  submitting : Review → SignedPayment → Flight

-- The component, its request, and what was done so far: the payments signed, those submitted, and
-- the identifiers that the server called settled, the last ones first.
pub record Screen : Type 0 where
  pub send : Send
  pub flight : Flight
  pub signed : List SignedPayment
  pub submitted : List SignedPayment
  pub settled : List Text

-- `useState` on a page that is opened.
abbrev pub opened : Option PaymentRequest → Option Text → Storage → Send
opened none address storage = reload_pending address (record {
  recipient = [];
  amount = [];
  memo = [];
  attempted = false;
  review = none;
  unconfirmed_hash = none;
  result = none;
  busy = false;
  error = none;
  pending_payment = none;
  pending_id = none;
  outcome = none;
  storage = storage;
})
opened (some request) address storage = reload_pending address (record {
  recipient = request.creator;
  amount = text_or [] request.amount;
  memo = text_or [] request.reference;
  attempted = false;
  review = none;
  unconfirmed_hash = none;
  result = none;
  busy = false;
  error = none;
  pending_payment = none;
  pending_id = none;
  outcome = none;
  storage = storage;
})

abbrev pub with_send : Send → Screen → Screen
with_send s w = record w { send = s }

abbrev pub start_preparing : Send × Option IntentRequest → Screen → Screen
start_preparing (s, none) w = with_send s w
start_preparing (s, some request) w = record w { send = s; flight = preparing request }

-- A payment is new where none was remembered before.
abbrev pub sign_new : Option SignedPayment → SignedPayment → List SignedPayment → List SignedPayment
sign_new none p signed = p ∷ signed
sign_new (some old) p signed = signed

abbrev pub start_submitting :
    Review → Option SignedPayment → Send × Option SignedPayment → Screen → Screen
start_submitting r old (s, none) w = with_send s w
start_submitting r old (s, some p) w = record w {
  send = s;
  flight = submitting r p;
  signed = sign_new old p w.signed;
  submitted = p ∷ w.submitted;
}

-- An answer that is not PENDING settles the intent that was asked for.
abbrev pub settle_with : Text → Answer IntentStatus → List Text → List Text
settle_with id (thrown message) settled = settled
settle_with id (answer status) settled =
    if is_pending_status status.status then settled else id ∷ settled

-- The form is shown, and the review.
abbrev pub IsForm : Send → Type 0
IsForm s = (s.result ≡ none) × (s.review ≡ none)

abbrev pub IsReview : Review → Send → Type 0
IsReview r s = (s.result ≡ none) × (s.review ≡ some r)

module _ (address : Option Text) where
  abbrev pub submit_answered : Review → SignedPayment → Answer IntentStatus → Screen → Screen
  submit_answered r p reply w = record w {
    send = confirm_answered address r reply w.send;
    flight = landed;
    settled = settle_with p.id reply w.settled;
  }

  -- The answer to the status check of the notice above the form, and to the one of the review.
  abbrev pub notice_answered : Text → Answer IntentStatus → Screen → Screen
  notice_answered id reply w = record w {
    send = check_answered address reply w.send;
    settled = settle_with id reply w.settled;
  }

  abbrev pub review_answered : Review → Text → Answer IntentStatus → Screen → Screen
  review_answered r id reply w = record w {
    send = check_unconfirmed_answered address (some r) reply w.send;
    settled = settle_with id reply w.settled;
  }

module _ (signer : Signer) (exceeds : Exceeds) (address : Option Text)
    (request : Option PaymentRequest) where
  -- What the wallet gives while one address is open.
  abbrev pub at_address : WalletView → WalletView
  at_address wallet = record wallet { address = address }

  abbrev pub review_payment : WalletView → Screen → Screen
  review_payment wallet w = start_preparing (prepare signer exceeds (at_address wallet) w.send) w

  abbrev pub confirm_payment : ℕ → WalletView → Review → Screen → Screen
  confirm_payment now wallet r w =
      start_submitting r w.send.pending_payment (confirm signer now (at_address wallet) w.send) w

  -- What stays when the page is loaded anew: the storage.
  abbrev pub reloaded : Screen → Screen
  reloaded w = record w { send = opened request address w.send.storage; flight = landed }

  -- What an event other than a status check makes of a screen.
  pub data Step : Screen → Screen → Type 0 where
    edits :
        (w : Screen) (recipient amount memo : Text)
        → IsForm w.send
        → Step w
            (with_send (record w.send { recipient = recipient; amount = amount; memo = memo }) w)
    reviews : (w : Screen) (wallet : WalletView) → IsForm w.send → Step w (review_payment wallet w)
    prepares :
        (w : Screen) (asked : IntentRequest) (reply : Answer PreparedIntent)
        → w.flight ≡ preparing asked
        → Step w (record w { send = prepare_answered asked reply w.send; flight = landed })
    goes_back :
        (w : Screen) (r : Review)
        → IsReview r w.send
        → w.send.pending_payment ≡ none
        → w.send.busy ≡ false
        → Step w (with_send (record w.send { review = none; error = none }) w)
    confirms :
        (w : Screen) (now : ℕ) (wallet : WalletView) (r : Review)
        → IsReview r w.send
        → Step w (confirm_payment now wallet r w)
    submits :
        (w : Screen) (r : Review) (p : SignedPayment) (reply : Answer IntentStatus)
        → w.flight ≡ submitting r p
        → Step w (submit_answered address r p reply w)
    starts_over :
        (w : Screen) (result : SendResult)
        → w.send.result ≡ some result
        → Step w (with_send (start_over request w.send) w)
