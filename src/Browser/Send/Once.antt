-- ===== src/Browser/Send/Once.antt =====
-- How confirming, its answer, the status checks and a reload change the phase: `SendFlow` of
-- frontend/src/components/wallet/SendFlow.tsx.
use afri_pay.Base.{
  ◌≡◌, refl, sym, ap, ◌∙◌, inl, inr, subst, true, false, List, ◌∷◌, Option, none, some, Text,
  is_empty, Bool-cases, arith,
}
use afri_pay.Browser.Send.{
  Review, SendResult, SignedPayment, Send, PaymentRequest, Answer, answer, thrown, IntentStatus,
  recorded, reload_pending,
}
use afri_pay.Browser.Send.Confirm.{confirm_answered, is_pending_status, settled_result}
use afri_pay.Browser.Send.Check.{check_answered, check_unconfirmed_answered, start_over}
use afri_pay.Browser.Send.Page.{is_final}
use afri_pay.Browser.Send.Phases.{
  AllSettled, NotSubmitting, Phase, calm, left, held, AllSettled-more, AllSettled-with,
  pending-finish, pending-check_answered,
}
use afri_pay.Browser.Send.Handlers.{Confirmed, Unmoved, refused, repeated, signs}
use afri_pay.Browser.Send.Screen.{
  landed, submitting, Screen, with_send, start_submitting, sign_new, settle_with, IsForm, IsReview,
  notice_answered, review_answered, opened,
}

pub settle_with-settles :
    (id : Text) (status : IntentStatus) (settled : List Text)
    → is_pending_status status.status ≡ false
    → settle_with id (answer status) settled ≡ id ∷ settled
settle_with-settles id status settled b = rw b refl

-- A check that finds the payment PENDING only notes so.
pub Unmoved-check :
    (address : Option Text) (status : IntentStatus) (s : Send)
    → is_pending_status status.status ≡ true
    → Unmoved s (check_answered address (answer status) s)
unfolding check_answered
Unmoved-check address status s b =
    simp b (record { pending = refl; review = refl; storage = refl; result = refl })

Unmoved-waits :
    (address : Option Text) (r : Review) (status : IntentStatus) (s : Send)
    → is_pending_status status.status ≡ true
    → Unmoved s (check_unconfirmed_answered address (some r) (answer status) s)
unfolding check_unconfirmed_answered check_answered
Unmoved-waits address r status s b =
    simp b (record { pending = refl; review = refl; storage = refl; result = refl })

pending-status :
    (address : Option Text) (r : Review) (status : IntentStatus) (s : Send)
    → is_pending_status status.status ≡ false
    → (check_unconfirmed_answered address (some r) (answer status) s).pending_payment ≡ none
unfolding check_unconfirmed_answered
pending-status address r status s b = rw b (
    pending-finish address (settled_result status r)
      (record (check_answered address (answer status) s) { outcome = none }))

module _ (address : Option Text) where
  pub phase-confirm :
      (w : Screen) (r : Review) (out : Send × Option SignedPayment)
      → Confirmed address w.send out
      → Phase address w
      → IsReview r w.send
      → (w.send.pending_payment ≡ none
          → (p : SignedPayment) → out.1 ≡ some p
          → is_empty p.id ≡ false)
      → Phase address (start_submitting r w.send.pending_payment out w)
  phase-confirm w r out c (left p rest e a key none_held no_review f) shown named =
      let is_shown = shown.1 in absurd (cc)
  phase-confirm w r (s, none) (refused nothing u b) (calm a p f) shown named =
      calm a (u.pending ∙ p) f
  phase-confirm w r (s, none) (refused nothing u b) (held p rest r' e a key kept shown' live f)
        shown named =
      held p rest r' e a (ap (recorded address) u.storage ∙ key) (u.pending ∙ kept)
        (u.review ∙ shown') (u.result ∙ live) (elim f [ inl g ↦ inl g | inr g ↦ inr (g.0, b g.1) ])
  phase-confirm w r (s, none) (repeated p old nothing u b) ph shown named = absurd (cc)
  phase-confirm w r (s, none) (signs p old nothing n1 n2 n3 n4 n5) ph shown named = absurd (cc)
  phase-confirm w r (s, some q) (refused nothing u b) ph shown named = absurd (cc)
  phase-confirm w r (s, some q) (repeated p old sent u b) (calm a free f) shown named = absurd (cc)
  phase-confirm w r (s, some q) (repeated p old sent u b)
        (held p' rest r' e a key kept shown' live f) shown named =
      let is_shown = shown.1 in
      let same : r ≡ r' = cc in
      let again : q ≡ p' = cc in
      let signed : sign_new w.send.pending_payment q w.signed ≡ p' ∷ rest = rw kept e in
      held p' rest r' signed a (ap (recorded address) u.storage ∙ key) (u.pending ∙ kept)
        (u.review ∙ shown') (u.result ∙ live)
        (inr (ap (λ x. submitting x q) same ∙ ap (submitting r') again, b))
  phase-confirm w r (s, some q) (signs p old sent kept rev res b rec)
        (held p' rest r' e a key kept' shown' live f) shown named =
      absurd (cc)
  phase-confirm w r (s, some q) (signs p old sent kept rev res b rec) (calm a free f) shown named =
      let again : q ≡ p = cc in
      let signed : sign_new w.send.pending_payment q w.signed ≡ q ∷ w.signed = rw free refl in
      let is_named : is_empty p.id ≡ false =
        ap (λ x. is_empty x.id) (sym again) ∙ named free q refl in
      held q w.signed r signed a (rec is_named ∙ ap (λ x. some x.id) (sym again))
        (kept ∙ ap some (sym again)) (rev ∙ shown.1) (res ∙ shown.0) (inr (refl, b))

  settled-last :
      (id : Text) (settled : List Text) (signed : List SignedPayment) (p : SignedPayment)
      (rest : List SignedPayment)
      → signed ≡ p ∷ rest
      → AllSettled settled rest
      → id ≡ p.id
      → AllSettled (id ∷ settled) signed
  settled-last id settled signed p rest e h same =
      subst (AllSettled (id ∷ settled)) (sym e) (inl same, AllSettled-more id settled rest h)

  pub phase-submits :
      (w : Screen) (r : Review) (p : SignedPayment) (reply : Answer IntentStatus)
      → Phase address w
      → w.flight ≡ submitting r p
      → Phase address (record w {
        send = confirm_answered address r reply w.send;
        flight = landed;
        settled = settle_with p.id reply w.settled;
      })
  unfolding confirm_answered
  phase-submits w r p reply (calm a free f) sent = absurd (subst NotSubmitting sent f)
  phase-submits w r p reply (left p' rest e a key none_held no_review f) sent = absurd (cc)
  phase-submits w r p reply (held p' rest r' e a key kept shown live (inl f)) sent = absurd (cc)
  phase-submits w r p (thrown m) (held p' rest r' e a key kept shown live (inr f)) sent =
      held p' rest r' e a key kept shown live (inl refl)
  phase-submits w r p (answer status) (held p' rest r' e a key kept shown live (inr f)) sent =
      let flown = f.0 in
      let same : p' ≡ p = cc in
      elim (Bool-cases (is_pending_status status.status)) [
        | inl b ↦ simp b (held p' rest r' e a key kept shown live (inl refl))
        | inr b ↦ simp b (
            calm (settled-last p.id w.settled w.signed p' rest e a (ap (λ x. x.id) (sym same)))
              (pending-finish address (settled_result status r) w.send) tt)
      ]

  pub phase-notice :
      (w : Screen) (id : Text) (reply : Answer IntentStatus)
      → recorded address w.send.storage ≡ some id
      → Phase address w
      → IsForm w.send
      → Phase address (notice_answered address id reply w)
  unfolding check_answered
  phase-notice w id reply is_id (held p rest r e a key kept shown live f) form =
      let none_shown = form.1 in absurd (cc)
  phase-notice w id reply is_id (calm a free f) form =
      calm (AllSettled-with id reply w.settled w.signed a)
        (pending-check_answered address reply w.send ∙ free) f
  phase-notice w id (thrown m) is_id (left p rest e a key free no_review f) form =
      left p rest e a key free no_review f
  phase-notice w id (answer status) is_id (left p rest e a key free no_review f) form =
      let same : id ≡ p.id = cc in
      elim (Bool-cases (is_pending_status status.status)) [
        | inl b ↦
            let u = Unmoved-check address status w.send b in
            left p rest e (AllSettled-with id (answer status) w.settled rest a)
              (ap (recorded address) u.storage ∙ key) (u.pending ∙ free) (u.review ∙ no_review) f
        | inr b ↦
            calm
              (subst (λ x. AllSettled x w.signed) (sym (settle_with-settles id status w.settled b))
                (settled-last id w.settled w.signed p rest e a same))
              (pending-check_answered address (answer status) w.send ∙ free)
              (subst NotSubmitting (sym f) tt)
      ]

  pub phase-status :
      (w : Screen) (r : Review) (id : Text) (q : SignedPayment) (reply : Answer IntentStatus)
      → recorded address w.send.storage ≡ some id
      → Phase address w
      → w.send.pending_payment ≡ some q
      → w.send.busy ≡ false
      → Phase address (review_answered address r id reply w)
  unfolding check_unconfirmed_answered check_answered
  phase-status w r id q reply is_id (calm a free f) some_held idle_now = absurd (cc)
  phase-status w r id q reply is_id (left p rest e a key free no_review f) some_held idle_now =
      absurd (cc)
  phase-status w r id q reply is_id (held p rest r' e a key kept shown live (inr f)) some_held
        idle_now =
      let is_busy = f.1 in absurd (cc)
  phase-status w r id q (thrown m) is_id (held p rest r' e a key kept shown live (inl f)) some_held
        idle_now =
      held p rest r' e a key kept shown live (inl f)
  phase-status w r id q (answer status) is_id (held p rest r' e a key kept shown live (inl f))
        some_held idle_now =
      let same : id ≡ p.id = cc in
      elim (Bool-cases (is_pending_status status.status)) [
        | inl b ↦
            let u = Unmoved-waits address r status w.send b in
            held p rest r' e (AllSettled-with id (answer status) w.settled rest a)
              (ap (recorded address) u.storage ∙ key) (u.pending ∙ kept) (u.review ∙ shown)
              (u.result ∙ live) (inl f)
        | inr b ↦
            calm
              (subst (λ x. AllSettled x w.signed) (sym (settle_with-settles id status w.settled b))
                (settled-last id w.settled w.signed p rest e a same))
              (pending-status address r status w.send b) (subst NotSubmitting (sym f) tt)
      ]

  -- What only leaves a note on the screen.
  pub phase-unmoved :
      (w : Screen) (s : Send)
      → Unmoved w.send s
      → s.busy ≡ w.send.busy
      → Phase address w
      → Phase address (with_send s w)
  phase-unmoved w s u b (calm a free f) = calm a (u.pending ∙ free) f
  phase-unmoved w s u b (left p rest e a key free no_review f) =
      left p rest e a (ap (recorded address) u.storage ∙ key) (u.pending ∙ free)
        (u.review ∙ no_review) f
  phase-unmoved w s u b (held p rest r e a key kept shown live f) =
      held p rest r e a (ap (recorded address) u.storage ∙ key) (u.pending ∙ kept)
        (u.review ∙ shown) (u.result ∙ live) (elim f [ inl g ↦ inl g | inr g ↦ inr (g.0, b ∙ g.1) ])

  -- An answer that is not final, whenever it comes.
  pub phase-noted :
      (w : Screen) (id : Text) (reply : Answer IntentStatus)
      → is_final reply ≡ false
      → Phase address w
      → Phase address (notice_answered address id reply w)
  unfolding check_answered
  phase-noted w id (thrown m) waits ph =
      phase-unmoved w (check_answered address (thrown m) w.send)
        (record { pending = refl; review = refl; storage = refl; result = refl }) refl ph
  phase-noted w id (answer status) waits ph =
      let b : is_pending_status status.status ≡ true = ground arith in
      let s = check_answered address (answer status) w.send in
      simp b (
        phase-unmoved w _ (record { pending = refl; review = refl; storage = refl; result = refl })
          refl ph)

  pub phase-waits :
      (w : Screen) (r : Review) (id : Text) (reply : Answer IntentStatus)
      → is_final reply ≡ false
      → Phase address w
      → Phase address (review_answered address r id reply w)
  unfolding check_unconfirmed_answered check_answered
  phase-waits w r id (thrown m) waits ph =
      phase-unmoved w _ (record { pending = refl; review = refl; storage = refl; result = refl })
        refl ph
  phase-waits w r id (answer status) waits ph =
      let b : is_pending_status status.status ≡ true = ground arith in
      simp b (
        phase-unmoved w _ (record { pending = refl; review = refl; storage = refl; result = refl })
          refl ph)

  pub phase-over :
      (w : Screen) (request : Option PaymentRequest) (result : SendResult)
      → Phase address w
      → w.send.result ≡ some result
      → Phase address (with_send (start_over request w.send) w)
  unfolding start_over
  phase-over w none result (calm a free f) ended = calm a free f
  phase-over w (some x) result (calm a free f) ended = calm a free f
  phase-over w none result (left p rest e a key free no_review f) ended =
      left p rest e a key free no_review f
  phase-over w (some x) result (left p rest e a key free no_review f) ended =
      left p rest e a key free no_review f
  phase-over w request result (held p rest r e a key kept shown live f) ended = absurd (cc)

  pub phase-reloads :
      (w : Screen) (request : Option PaymentRequest)
      → Phase address w
      → Phase address (record w { send = opened request address w.send.storage; flight = landed })
  unfolding reload_pending
  phase-reloads w none (calm a free f) = calm a refl tt
  phase-reloads w (some x) (calm a free f) = calm a refl tt
  phase-reloads w none (left p rest e a key free no_review f) = left p rest e a key refl refl refl
  phase-reloads w (some x) (left p rest e a key free no_review f) =
      left p rest e a key refl refl refl
  phase-reloads w none (held p rest r e a key kept shown live f) =
      left p rest e a key refl refl refl
  phase-reloads w (some x) (held p rest r e a key kept shown live f) =
      left p rest e a key refl refl refl
