-- ===== src/Browser/Send/Phases.antt =====
-- The phases of a payment on the screen, and how events change them: `SendFlow` of
-- frontend/src/components/wallet/SendFlow.tsx.
use afri_pay.Base.{
  ◌≡◌, refl, ap, ◌∙◌, ◌⊎◌, inl, inr, true, List, [], ◌∷◌, Option, none, some, Text, codes, is_empty,
  text_eq, Bool-cases,
}
use afri_pay.Stellar.Validation.Accepts.{Some}
use afri_pay.Browser.Send.{
  Review, SendResult, SignedPayment, Send, IntentRequest, PreparedIntent, Answer, answer, thrown,
  IntentStatus, recorded,
}
use afri_pay.Browser.Send.Form.{prepare_answered}
use afri_pay.Browser.Send.Confirm.{is_pending_status, finish, forget}
use afri_pay.Browser.Send.Check.{check_answered}
use afri_pay.Browser.Send.Handlers.{Kept}
use afri_pay.Browser.Send.Screen.{
  Flight, landed, preparing, submitting, Screen, with_send, start_preparing, settle_with, IsForm,
  IsReview,
}

-- The server has said that an intent is no longer PENDING.
abbrev pub Settled : List Text → Text → Type 0
Settled settled id = Some (λ i. i ≡ id) settled

abbrev pub AllSettled : List Text → List SignedPayment → Type 0
AllSettled settled [] = Unit
AllSettled settled (p ∷ ps) = Settled settled p.id × AllSettled settled ps

abbrev pub NotSubmitting : Flight → Type 0
NotSubmitting landed = Unit
NotSubmitting (preparing request) = Unit
NotSubmitting (submitting r p) = ⊥

-- Every signed payment is settled; or the last one is not, and its identifier is recorded, with
-- nothing in memory after the page was loaded anew, or with the review and the signed envelope.
pub data Phase (address : Option Text) (w : Screen) : Type 0 where
  calm :
      AllSettled w.settled w.signed
      → w.send.pending_payment ≡ none
      → NotSubmitting w.flight
      → Phase address w
  left :
      (p : SignedPayment) (rest : List SignedPayment)
      → w.signed ≡ p ∷ rest
      → AllSettled w.settled rest
      → recorded address w.send.storage ≡ some p.id
      → w.send.pending_payment ≡ none
      → w.send.review ≡ none
      → w.flight ≡ landed
      → Phase address w
  held :
      (p : SignedPayment) (rest : List SignedPayment) (r : Review)
      → w.signed ≡ p ∷ rest
      → AllSettled w.settled rest
      → recorded address w.send.storage ≡ some p.id
      → w.send.pending_payment ≡ some p
      → w.send.review ≡ some r
      → w.send.result ≡ none
      → (w.flight ≡ landed) ⊎ ((w.flight ≡ submitting r p) × (w.send.busy ≡ true))
      → Phase address w

pub AllSettled-more :
    (id : Text) (settled : List Text) (ps : List SignedPayment)
    → AllSettled settled ps
    → AllSettled (id ∷ settled) ps
AllSettled-more id settled [] h = tt
AllSettled-more id settled (p ∷ ps) (h, hs) = (inr h, AllSettled-more id settled ps hs)

pub AllSettled-with :
    (id : Text) (reply : Answer IntentStatus) (settled : List Text) (ps : List SignedPayment)
    → AllSettled settled ps
    → AllSettled (settle_with id reply settled) ps
AllSettled-with id (thrown m) settled ps h = h
AllSettled-with id (answer status) settled ps h =
    elim (Bool-cases (is_pending_status status.status)) [
      | inl e ↦ rw e h
      | inr e ↦ rw e (AllSettled-more id settled ps h)
    ]

pending-prepare_answered :
    (q : IntentRequest) (reply : Answer PreparedIntent) (s : Send)
    → (prepare_answered q reply s).pending_payment ≡ s.pending_payment
unfolding prepare_answered
pending-prepare_answered q (thrown m) s = refl
pending-prepare_answered q (answer a) s = elim (Bool-cases (text_eq a.network (codes "testnet"))) [
  | inl e ↦ rw e refl
  | inr e ↦ rw e refl
]

pending-forget :
    (address : Option Text) (s : Send) → (forget address s).pending_payment ≡ s.pending_payment
pending-forget none s = refl
pending-forget (some address) s = elim (Bool-cases (is_empty address)) [
  | inl e ↦ rw e refl
  | inr e ↦ rw e refl
]

pub pending-finish :
    (address : Option Text) (next : SendResult) (s : Send)
    → (finish address next s).pending_payment ≡ none
unfolding finish
pending-finish address next s = pending-forget address (record s { pending_payment = none })

pub pending-check_answered :
    (address : Option Text) (reply : Answer IntentStatus) (s : Send)
    → (check_answered address reply s).pending_payment ≡ s.pending_payment
unfolding check_answered
pending-check_answered address (thrown m) s = refl
pending-check_answered address (answer status) s =
    elim (Bool-cases (is_pending_status status.status)) [
      | inl e ↦ rw e refl
      | inr e ↦ rw e (pending-forget address _)
    ]

module _ (address : Option Text) where
  pub phase-edits :
      (w : Screen) (recipient amount memo : Text)
      → Phase address w
      → IsForm w.send
      → Phase address
          (with_send (record w.send { recipient = recipient; amount = amount; memo = memo }) w)
  phase-edits w x y z (calm a p f) form = calm a p f
  phase-edits w x y z (left p rest e a k none_held no_review f) form =
      left p rest e a k none_held no_review f
  phase-edits w x y z (held p rest r e a k kept shown live f) form =
      let none_shown = form.1 in absurd (cc)

  pub phase-review :
      (w : Screen) (out : Send × Option IntentRequest)
      → Kept address w.send out
      → Phase address w
      → IsForm w.send
      → Phase address (start_preparing out w)
  phase-review w (s, none) k (calm a p f) form = calm a (k.pending ∙ p) f
  phase-review w (s, some q) k (calm a p f) form = calm a (k.pending ∙ p) tt
  phase-review w (s, none) k (left p rest e a key none_held no_review f) form =
      left p rest e a (ap (recorded address) k.storage ∙ key) (k.pending ∙ none_held)
        (k.review ∙ no_review) f
  phase-review w (s, some q) k (left p rest e a key none_held no_review f) form =
      let free = k.asks q refl in absurd (cc)
  phase-review w out k (held p rest r e a key kept shown live f) form =
      let none_shown = form.1 in absurd (cc)

  pub phase-prepares :
      (w : Screen) (q : IntentRequest) (reply : Answer PreparedIntent)
      → Phase address w
      → w.flight ≡ preparing q
      → Phase address (record w { send = prepare_answered q reply w.send; flight = landed })
  phase-prepares w q reply (calm a p f) asked =
      calm a (pending-prepare_answered q reply w.send ∙ p) tt
  phase-prepares w q reply (left p rest e a key none_held no_review f) asked = absurd (cc)
  phase-prepares w q reply (held p rest r e a key kept shown live (inl f)) asked = absurd (cc)
  phase-prepares w q reply (held p rest r e a key kept shown live (inr f)) asked =
      let sending = f.0 in absurd (cc)

  pub phase-back :
      (w : Screen) (r : Review)
      → Phase address w
      → IsReview r w.send
      → w.send.pending_payment ≡ none
      → Phase address (with_send (record w.send { review = none; error = none }) w)
  phase-back w r (calm a p f) shown free = calm a p f
  phase-back w r (left p rest e a key none_held no_review f) shown free =
      left p rest e a key none_held refl f
  phase-back w r (held p rest r' e a key kept shown' live f) shown free = absurd (cc)
