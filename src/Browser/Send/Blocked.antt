-- ===== src/Browser/Send/Blocked.antt =====
-- A page that is opened while a payment is recorded: `SendFlow` of
-- frontend/src/components/wallet/SendFlow.tsx.
use afri_pay.Base.{
  ◌≡◌, refl, sym, ap, ◌∙◌, subst, inl, inr, List, [], ◌∷◌, Option, none, some, Text, Bool-cases,
  if◌then◌else◌,
}
use afri_pay.Browser.Sign.{Signer}
use afri_pay.Browser.Send.{
  Review, SignedPayment, Send, PaymentRequest, IntentRequest, Answer, answer, thrown, IntentStatus,
  Storage, recorded, reload_pending,
}
use afri_pay.Browser.Send.Form.{Exceeds, prepare}
use afri_pay.Browser.Send.Confirm.{confirm, is_pending_status}
use afri_pay.Browser.Send.Check.{check, check_recorded, check_answered, start_over}
use afri_pay.Browser.Send.Handlers.{Kept, Kept-prepare}
use afri_pay.Browser.Send.Screen.{
  landed, Screen, opened, with_send, start_preparing, start_submitting, settle_with, at_address,
  Step, edits, reviews, prepares, goes_back, confirms, submits, starts_over, notice_answered,
}
use afri_pay.Browser.Send.Page.{
  SendPage, Checking, unchecked, for_notice, for_review, notice_asked, review_asked, Reach, opens,
  acts, asks_notice, asks_review, answers_notice, answers_review, reloads,
}
use afri_pay.Browser.Send.Once.{Unmoved-check, settle_with-settles}

-- Nothing is signed, reviewed or asked for, and the identifier is recorded.
record IsBlocked (address : Option Text) (id : Text) (w : Screen) : Type 0 where
  pub key : recorded address w.send.storage ≡ some id
  pub pending : w.send.pending_payment ≡ none
  pub review : w.send.review ≡ none
  pub flight : w.flight ≡ landed
  pub signed : w.signed ≡ []
  pub submitted : w.submitted ≡ []

settled-before :
    (id : Text) (reply : Answer IntentStatus) (settled : List Text)
    → settle_with id reply settled ≡ []
    → settled ≡ []
settled-before id (thrown m) settled h = h
settled-before id (answer status) settled h = elim (Bool-cases (is_pending_status status.status)) [
  | inl b ↦ ap (λ x. if x then settled else id ∷ settled) (sym b) ∙ h
  | inr b ↦ let added = settle_with-settles id status settled b in absurd (cc)
]

IsBlocked-opened :
    (address : Option Text) (id : Text) (request : Option PaymentRequest) (storage : Storage)
    (signed submitted : List SignedPayment) (settled : List Text)
    → recorded address storage ≡ some id
    → signed ≡ []
    → submitted ≡ []
    → IsBlocked address id (record {
      send = opened request address storage;
      flight = landed;
      signed = signed;
      submitted = submitted;
      settled = settled;
    })
unfolding reload_pending
IsBlocked-opened address id none storage signed submitted settled key s t = record {
  key = key;
  pending = refl;
  review = refl;
  flight = refl;
  signed = s;
  submitted = t;
}
IsBlocked-opened address id (some x) storage signed submitted settled key s t = record {
  key = key;
  pending = refl;
  review = refl;
  flight = refl;
  signed = s;
  submitted = t;
}

IsBlocked-prepare :
    (address : Option Text) (id : Text) (w : Screen) (out : Send × Option IntentRequest)
    → Kept address w.send out
    → IsBlocked address id w
    → IsBlocked address id (start_preparing out w)
IsBlocked-prepare address id w (s, none) k b = record {
  key = ap (recorded address) k.storage ∙ b.key;
  pending = k.pending ∙ b.pending;
  review = k.review ∙ b.review;
  flight = b.flight;
  signed = b.signed;
  submitted = b.submitted;
}
IsBlocked-prepare address id w (s, some q) k b =
    let free = k.asks q refl in let key = b.key in absurd (cc)

IsBlocked-notice :
    (address : Option Text) (id i : Text) (w : Screen) (reply : Answer IntentStatus)
    → IsBlocked address id w
    → settle_with i reply w.settled ≡ []
    → IsBlocked address id (notice_answered address i reply w)
unfolding check_answered
IsBlocked-notice address id i w (thrown m) b open_still = record {
  key = b.key;
  pending = b.pending;
  review = b.review;
  flight = b.flight;
  signed = b.signed;
  submitted = b.submitted;
}
IsBlocked-notice address id i w (answer status) b open_still =
    elim (Bool-cases (is_pending_status status.status)) [
      | inl waits ↦
          let u = Unmoved-check address status w.send waits in
          record {
            key = ap (recorded address) u.storage ∙ b.key;
            pending = u.pending ∙ b.pending;
            review = u.review ∙ b.review;
            flight = b.flight;
            signed = b.signed;
            submitted = b.submitted;
          }
      | inr done ↦ let added = settle_with-settles i status w.settled done in absurd (cc)
    ]

IsBlocked-over :
    (address : Option Text) (id : Text) (w : Screen) (request : Option PaymentRequest)
    → IsBlocked address id w
    → IsBlocked address id (with_send (start_over request w.send) w)
unfolding start_over
IsBlocked-over address id w none b = record {
  key = b.key;
  pending = b.pending;
  review = b.review;
  flight = b.flight;
  signed = b.signed;
  submitted = b.submitted;
}
IsBlocked-over address id w (some x) b = record {
  key = b.key;
  pending = b.pending;
  review = b.review;
  flight = b.flight;
  signed = b.signed;
  submitted = b.submitted;
}

settled-prepare :
    (out : Send × Option IntentRequest) (w : Screen) → (start_preparing out w).settled ≡ w.settled
settled-prepare (s, none) w = refl
settled-prepare (s, some q) w = refl

settled-confirm :
    (r : Review) (old : Option SignedPayment) (out : Send × Option SignedPayment) (w : Screen)
    → (start_submitting r old out w).settled ≡ w.settled
settled-confirm r old (s, none) w = refl
settled-confirm r old (s, some q) w = refl

-- No check of a review runs.
abbrev NoReview : Checking → Type 0
NoReview unchecked = Unit
NoReview (for_notice id) = Unit
NoReview (for_review r id) = ⊥

-- What a page is while no check has found a payment settled.
abbrev Blocks : Option Text → Text → SendPage → Type 0
Blocks address id v = IsBlocked address id v.screen × NoReview v.checking

settled-notice_asked :
    (out : Send × Option Text) (v : SendPage)
    → (notice_asked out v).screen.settled ≡ v.screen.settled
settled-notice_asked (s, none) v = refl
settled-notice_asked (s, some i) v = refl

settled-review_asked :
    (r : Review) (out : Send × Option Text) (v : SendPage)
    → (review_asked r out v).screen.settled ≡ v.screen.settled
settled-review_asked r (s, none) v = refl
settled-review_asked r (s, some i) v = refl

Blocks-asked :
    (address : Option Text) (id : Text) (o : Option Text) (v : SendPage)
    → Blocks address id v
    → Blocks address id (notice_asked (check_recorded o v.screen.send) v)
Blocks-asked address id none v (b, n) = (
  record {
    key = b.key;
    pending = b.pending;
    review = b.review;
    flight = b.flight;
    signed = b.signed;
    submitted = b.submitted;
  },
  n,
)
Blocks-asked address id (some i) v (b, n) = (b, tt)

module _ (signer : Signer) (exceeds : Exceeds) (address : Option Text)
    (request : Option PaymentRequest) (id : Text) where
  Step-settled :
      {v w : Screen} → Step signer exceeds address request v w → w.settled ≡ [] → v.settled ≡ []
  Step-settled (edits v x y z form) none_yet = none_yet
  Step-settled (reviews v wallet form) none_yet =
      let view = at_address signer exceeds address request wallet in
      sym (settled-prepare (prepare signer exceeds view v.send) v) ∙ none_yet
  Step-settled (prepares v q reply asked) none_yet = none_yet
  Step-settled (goes_back v r shown free idle) none_yet = none_yet
  Step-settled (confirms v now wallet r shown) none_yet =
      let out = confirm signer now (at_address signer exceeds address request wallet) v.send in
      sym (settled-confirm r v.send.pending_payment out v) ∙ none_yet
  Step-settled (submits v r p reply flown) none_yet = settled-before p.id reply v.settled none_yet
  Step-settled (starts_over v result ended) none_yet = none_yet

  Step-IsBlocked :
      {v w : Screen}
      → Step signer exceeds address request v w
      → IsBlocked address id v
      → IsBlocked address id w
  Step-IsBlocked (edits v x y z form) b = record {
    key = b.key;
    pending = b.pending;
    review = b.review;
    flight = b.flight;
    signed = b.signed;
    submitted = b.submitted;
  }
  Step-IsBlocked (reviews v wallet form) b =
      let view = at_address signer exceeds address request wallet in
      IsBlocked-prepare address id v (prepare signer exceeds view v.send)
        (Kept-prepare signer exceeds view v.send) b
  Step-IsBlocked (prepares v q reply asked) b = let flight = b.flight in absurd (cc)
  Step-IsBlocked (goes_back v r shown free idle) b =
      let review = b.review in let is_shown = shown.1 in absurd (cc)
  Step-IsBlocked (confirms v now wallet r shown) b =
      let review = b.review in let is_shown = shown.1 in absurd (cc)
  Step-IsBlocked (submits v r p reply flown) b = let flight = b.flight in absurd (cc)
  Step-IsBlocked (starts_over v result ended) b = IsBlocked-over address id v request b

  Reach-Blocks :
      {storage : Storage} {v : SendPage}
      → Reach signer exceeds address request storage v
      → recorded address storage ≡ some id
      → v.screen.settled ≡ []
      → Blocks address id v
  unfolding check
  Reach-Blocks {storage} opens key none_yet =
      (IsBlocked-opened address id request storage [] [] [] key refl refl, tt)
  Reach-Blocks (acts v w reach step) key none_yet =
      let (b, n) = Reach-Blocks reach key (Step-settled step none_yet) in (Step-IsBlocked step b, n)
  Reach-Blocks (asks_notice v reach form idle) key none_yet =
      let before = sym (settled-notice_asked (check address v.screen.send) v) ∙ none_yet in
      Blocks-asked address id (recorded address v.screen.send.storage) v
        (Reach-Blocks reach key before)
  Reach-Blocks (asks_review v r p reach shown kept free idle) key none_yet =
      let before = sym (settled-review_asked r (check address v.screen.send) v) ∙ none_yet in
      let review = (Reach-Blocks reach key before).0.review in let is_shown = shown.1 in absurd (cc)
  Reach-Blocks (answers_notice v i reply reach asked) key none_yet =
      let before = settled-before i reply v.screen.settled none_yet in
      (IsBlocked-notice address id i v.screen reply (Reach-Blocks reach key before).0 none_yet, tt)
  Reach-Blocks (answers_review v r i reply reach asked) key none_yet =
      let before = settled-before i reply v.screen.settled none_yet in
      absurd (subst NoReview asked (Reach-Blocks reach key before).1)
  Reach-Blocks (reloads v reach) key none_yet =
      let (b, n) = Reach-Blocks reach key none_yet in
      (
        IsBlocked-opened address id request v.screen.send.storage v.screen.signed v.screen.submitted
            v.screen.settled b.key b.signed b.submitted,
        tt,
      )

  -- If the page is opened while the identifier of a payment is recorded for the address, then as
  -- long as no status check, whenever it is answered, has found an intent settled, no payment is
  -- signed or submitted and the identifier stays recorded.
  pub recorded_blocks :
      {storage : Storage} (v : SendPage)
      → Reach signer exceeds address request storage v
      → recorded address storage ≡ some id
      → v.screen.settled ≡ []
      → (v.screen.signed ≡ [])
        × (v.screen.submitted ≡ [])
        × (recorded address v.screen.send.storage ≡ some id)
  recorded_blocks v reach key none_yet =
      let b = (Reach-Blocks reach key none_yet).0 in (b.signed, b.submitted, b.key)
