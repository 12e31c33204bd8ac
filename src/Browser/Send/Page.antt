-- ===== src/Browser/Send/Page.antt =====
-- A page with the flow of a payment, from its opening on: the screens of `SendFlow` of
-- frontend/src/components/wallet/SendFlow.tsx and the status checks of `usePendingPayment` of
-- frontend/src/components/wallet/usePendingPayment.ts, whose answers come at any time. Both buttons
-- for a check are disabled while one runs. The page is left by loading it anew only.
use afri_pay.Base.{◌≡◌, Bool, true, false, not, ◌&&◌, ◌||◌, [], Option, none, some, Text, text_eq}
use afri_pay.Browser.Sign.{Signer}
use afri_pay.Browser.Send.{
  Review, SignedPayment, Send, PaymentRequest, Answer, answer, thrown, IntentStatus, Storage,
  recorded,
}
use afri_pay.Browser.Send.Form.{Exceeds}
use afri_pay.Browser.Send.Confirm.{is_pending_status}
use afri_pay.Browser.Send.Check.{check}
use afri_pay.Browser.Send.Screen.{
  landed, Screen, with_send, IsForm, IsReview, opened, notice_answered, review_answered, reloaded,
  Step,
}

-- The status check that runs: the identifier it asks for, and the review that its closure holds.
pub data Checking : Type 0 where
  unchecked : Checking
  for_notice : Text → Checking
  for_review : Review → Text → Checking

-- The screen, its status check, and whether the final answer of one came late.
pub record SendPage : Type 0 where
  pub screen : Screen
  pub checking : Checking
  pub overtaken : Bool

abbrev pub shows_none {ℓ} : {A : Type ℓ} → Option A → Bool
shows_none none = true
shows_none (some a) = false

abbrev pub same_recorded : Text → Option Text → Bool
same_recorded id none = false
same_recorded id (some i) = text_eq id i

-- An answer is in time where the payment that it is about is still the recorded one, and the form is
-- still shown, or the signed payment is still there and is not being submitted.
unfoldable pub is_timely : Option Text → Checking → Send → Bool
unfolding recorded
is_timely address unchecked s = false
is_timely address (for_notice id) s =
    shows_none s.result && shows_none s.review && same_recorded id (recorded address s.storage)
is_timely address (for_review r id) s =
    not (shows_none s.pending_payment)
    && not s.busy
    && same_recorded id (recorded address s.storage)

abbrev pub is_final : Answer IntentStatus → Bool
is_final (thrown message) = false
is_final (answer status) = not (is_pending_status status.status)

-- The click on `Check status`, of the notice and of the review: without an identifier in storage
-- there is no request.
abbrev pub notice_asked : Send × Option Text → SendPage → SendPage
notice_asked (s, none) v = record v { screen = with_send s v.screen }
notice_asked (s, some id) v = record v { screen = with_send s v.screen; checking = for_notice id }

abbrev pub review_asked : Review → Send × Option Text → SendPage → SendPage
review_asked r (s, none) v = record v { screen = with_send (record s { outcome = none }) v.screen }
review_asked r (s, some id) v = record v {
  screen = with_send s v.screen;
  checking = for_review r id;
}

-- The page after an answer that makes a screen of the one before.
abbrev pub answered : Option Text → Answer IntentStatus → Screen → SendPage → SendPage
answered address reply w v = record {
  screen = w;
  checking = unchecked;
  overtaken = v.overtaken || (is_final reply && not (is_timely address v.checking v.screen.send));
}

module _ (signer : Signer) (exceeds : Exceeds) (address : Option Text)
    (request : Option PaymentRequest) where
  -- The pages that the events lead to.
  pub data Reach (storage : Storage) : SendPage → Type 0 where
    opens : Reach storage (record {
      screen = record {
        send = opened request address storage;
        flight = landed;
        signed = [];
        submitted = [];
        settled = [];
      };
      checking = unchecked;
      overtaken = false;
    })
    acts :
        (v : SendPage) (w : Screen)
        → Reach storage v
        → Step signer exceeds address request v.screen w
        → Reach storage (record v { screen = w })
    asks_notice :
        (v : SendPage)
        → Reach storage v
        → IsForm v.screen.send
        → v.checking ≡ unchecked
        → Reach storage (notice_asked (check address v.screen.send) v)
    asks_review :
        (v : SendPage) (r : Review) (p : SignedPayment)
        → Reach storage v
        → IsReview r v.screen.send
        → v.screen.send.pending_payment ≡ some p
        → v.screen.send.busy ≡ false
        → v.checking ≡ unchecked
        → Reach storage (review_asked r (check address v.screen.send) v)
    answers_notice :
        (v : SendPage) (id : Text) (reply : Answer IntentStatus)
        → Reach storage v
        → v.checking ≡ for_notice id
        → Reach storage (answered address reply (notice_answered address id reply v.screen) v)
    answers_review :
        (v : SendPage) (r : Review) (id : Text) (reply : Answer IntentStatus)
        → Reach storage v
        → v.checking ≡ for_review r id
        → Reach storage (answered address reply (review_answered address r id reply v.screen) v)
    reloads :
        (v : SendPage)
        → Reach storage v
        → Reach storage (record v {
          screen = reloaded signer exceeds address request v.screen;
          checking = unchecked;
        })
