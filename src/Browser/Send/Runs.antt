-- ===== src/Browser/Send/Runs.antt =====
-- Signing while another payment is unsettled, over the runs of `SendFlow` of
-- frontend/src/components/wallet/SendFlow.tsx.
use afri_pay.Base.{
  ◌≡◌, refl, sym, ◌∙◌, ap, ◌⊎◌, Bool, not, ◌&&◌, ◌||◌, true, false, Option, none, some, Text,
  text_eq_sound, inl, inr,
}
use afri_pay.Browser.Sign.{Signer}
use afri_pay.Browser.Send.{
  Review, SignedPayment, Send, PaymentRequest, Answer, IntentStatus, Storage, recorded,
}
use afri_pay.Browser.Send.Form.{prepare, Exceeds}
use afri_pay.Browser.Send.Confirm.{confirm}
use afri_pay.Browser.Send.Check.{check, check_recorded}
use afri_pay.Browser.Send.Handlers.{Kept-prepare, Confirmed-confirm}
use afri_pay.Browser.Send.Screen.{
  Screen, at_address, Step, edits, reviews, prepares, goes_back, confirms, submits, starts_over,
  notice_answered, review_answered, IsForm,
}
use afri_pay.Browser.Send.Page.{
  SendPage, for_notice, for_review, shows_none, same_recorded, is_timely, is_final, notice_asked,
  review_asked, Reach, opens, acts, asks_notice, asks_review, answers_notice, answers_review,
  reloads,
}
use afri_pay.Browser.Send.Phases.{
  Settled, Phase, calm, left, held, phase-edits, phase-review, phase-prepares, phase-back,
}
use afri_pay.Browser.Send.Logs.{
  In, AllNamed, AllIn, named-before, named-new, AllIn-confirm, SameLogs-prepare, named-SameLogs,
  sent-SameLogs, opened-free, all_in-In, AllSettled-In, is_last,
}
use afri_pay.Browser.Send.Once.{
  phase-confirm, phase-submits, phase-notice, phase-status, phase-over, phase-reloads,
  phase-unmoved, phase-noted, phase-waits,
}

-- A screen in a phase on which what was submitted was signed.
abbrev Good : Option Text → Screen → Type 0
Good address w = Phase address w × AllIn w.signed w.submitted

same_recorded_sound : (id : Text) (o : Option Text) → same_recorded id o ≡ true → o ≡ some id
same_recorded_sound id none e = absurd (cc)
same_recorded_sound id (some i) e = let same = text_eq_sound id i e in cc

shows_none_sound : {A : Type 0} (o : Option A) → shows_none o ≡ true → o ≡ none
shows_none_sound none e = refl
shows_none_sound (some a) e = absurd (cc)

shows_some : {A : Type 0} (o : Option A) → shows_none o ≡ false → (a : A) × (o ≡ some a)
shows_some none e = absurd (cc)
shows_some (some a) e = (a, refl)

both : (a b : Bool) → (a && b) ≡ true → (a ≡ true) × (b ≡ true)
both true b e = (refl, e)
both false b e = absurd (cc)

negated : (b : Bool) → not b ≡ true → b ≡ false
negated true e = absurd (cc)
negated false e = refl

timely_notice :
    (address : Option Text) (id : Text) (s : Send)
    → is_timely address (for_notice id) s ≡ true
    → IsForm s × (recorded address s.storage ≡ some id)
unfolding is_timely
timely_notice address id s e =
    let (shown, same) = both _ _ e in
    let (none_shown, no_review) = both _ _ shown in
    (
      (shows_none_sound s.result none_shown, shows_none_sound s.review no_review),
      same_recorded_sound id (recorded address s.storage) same,
    )

timely_review :
    (address : Option Text) (r : Review) (id : Text) (s : Send)
    → is_timely address (for_review r id) s ≡ true
    → (p : SignedPayment) × (s.pending_payment ≡ some p)
      × (s.busy ≡ false)
      × (recorded address s.storage ≡ some id)
unfolding is_timely
timely_review address r id s e =
    let (kept, same) = both _ _ e in
    let (some_held, idle_now) = both _ _ kept in
    let (p, held_now) = shows_some s.pending_payment (negated _ some_held) in
    (p, held_now, negated _ idle_now, same_recorded_sound id (recorded address s.storage) same)

-- An answer after which none was late: it is not final, or in time.
in_time :
    (before final timely : Bool)
    → (before || (final && not timely)) ≡ false
    → (before ≡ false) × ((final ≡ false) ⊎ (timely ≡ true))
in_time true final timely e = absurd (cc)
in_time false true true e = (refl, inr refl)
in_time false true false e = absurd (cc)
in_time false false timely e = (refl, inl refl)

module _ (address : Option Text) where
  Good-notice_answered :
      (w : Screen) (id : Text) (reply : Answer IntentStatus)
      → (is_final reply ≡ false) ⊎ (is_timely address (for_notice id) w.send ≡ true)
      → Good address w
      → Good address (notice_answered address id reply w)
  Good-notice_answered w id reply (inl waits) (ph, sent) =
      (phase-noted address w id reply waits ph, sent)
  Good-notice_answered w id reply (inr timely) (ph, sent) =
      let (form, is_id) = timely_notice address id w.send timely in
      (phase-notice address w id reply is_id ph form, sent)

  Good-review_answered :
      (w : Screen) (r : Review) (id : Text) (reply : Answer IntentStatus)
      → (is_final reply ≡ false) ⊎ (is_timely address (for_review r id) w.send ≡ true)
      → Good address w
      → Good address (review_answered address r id reply w)
  Good-review_answered w r id reply (inl waits) (ph, sent) =
      (phase-waits address w r id reply waits ph, sent)
  Good-review_answered w r id reply (inr timely) (ph, sent) =
      let (p, some_held, idle_now, is_id) = timely_review address r id w.send timely in
      (phase-status address w r id p reply is_id ph some_held idle_now, sent)

  -- A click for a check that asks for nothing leaves a note, and one that asks nothing else.
  Good-notice_asked :
      (o : Option Text) (v : SendPage)
      → (AllNamed v.screen.signed → Good address v.screen)
      → let w = (notice_asked (check_recorded o v.screen.send) v).screen in
        AllNamed w.signed → Good address w
  Good-notice_asked none v before n =
      let (ph, sent) = before n in
      (
        phase-unmoved address v.screen _
            (record { pending = refl; review = refl; storage = refl; result = refl }) refl ph,
        sent,
      )
  Good-notice_asked (some id) v before n = before n

  Good-review_asked :
      (o : Option Text) (r : Review) (v : SendPage)
      → (AllNamed v.screen.signed → Good address v.screen)
      → let w = (review_asked r (check_recorded o v.screen.send) v).screen in
        AllNamed w.signed → Good address w
  Good-review_asked none r v before n =
      let (ph, sent) = before n in
      (
        phase-unmoved address v.screen _
            (record { pending = refl; review = refl; storage = refl; result = refl }) refl ph,
        sent,
      )
  Good-review_asked (some id) r v before n = before n

overtaken-notice_asked :
    (out : Send × Option Text) (v : SendPage) → (notice_asked out v).overtaken ≡ v.overtaken
overtaken-notice_asked (s, none) v = refl
overtaken-notice_asked (s, some id) v = refl

overtaken-review_asked :
    (r : Review) (out : Send × Option Text) (v : SendPage)
    → (review_asked r out v).overtaken ≡ v.overtaken
overtaken-review_asked r (s, none) v = refl
overtaken-review_asked r (s, some id) v = refl

module _ (signer : Signer) (exceeds : Exceeds) (address : Option Text)
    (request : Option PaymentRequest) where
  Step-Good :
      {v w : Screen}
      → Step signer exceeds address request v w
      → (AllNamed v.signed → Good address v)
      → AllNamed w.signed
      → Good address w
  Step-Good (edits v x y z form) before n =
      let (ph, sent) = before n in (phase-edits address v x y z ph form, sent)
  Step-Good {w = w} (reviews v wallet form) before n =
      let out = prepare signer exceeds (at_address signer exceeds address request wallet) v.send in
      let k =
        Kept-prepare signer exceeds (at_address signer exceeds address request wallet) v.send in
      let same = SameLogs-prepare out v in
      let (ph, sent) = before (named-SameLogs v w same n) in
      (phase-review address v out k ph form, sent-SameLogs v w same sent)
  Step-Good (prepares v q reply asked) before n =
      let (ph, sent) = before n in (phase-prepares address v q reply ph asked, sent)
  Step-Good (goes_back v r shown free idle) before n =
      let (ph, sent) = before n in (phase-back address v r ph shown free, sent)
  Step-Good (confirms v now wallet r shown) before n =
      let out = confirm signer now (at_address signer exceeds address request wallet) v.send in
      let c =
        Confirmed-confirm signer now (at_address signer exceeds address request wallet) v.send in
      let (ph, sent) = before (named-before r v.send.pending_payment out v n) in
      (
        phase-confirm address v r out c ph shown (named-new r address out v c n),
        AllIn-confirm address r out v c ph sent,
      )
  Step-Good (submits v r p reply flown) before n =
      let (ph, sent) = before n in (phase-submits address v r p reply ph flown, sent)
  Step-Good (starts_over v result ended) before n =
      let (ph, sent) = before n in (phase-over address v request result ph ended, sent)

  Reach-Good :
      {storage : Storage} {v : SendPage}
      → Reach signer exceeds address request storage v
      → v.overtaken ≡ false
      → AllNamed v.screen.signed
      → Good address v.screen
  unfolding check
  Reach-Good {storage} opens timely n = (calm tt (opened-free request address storage) tt, tt)
  Reach-Good (acts v w reach step) timely n = Step-Good step (Reach-Good reach timely) n
  Reach-Good (asks_notice v reach form idle) timely n =
      let before = sym (overtaken-notice_asked (check address v.screen.send) v) ∙ timely in
      Good-notice_asked address (recorded address v.screen.send.storage) v (Reach-Good reach before)
        n
  Reach-Good (asks_review v r p reach shown kept free idle) timely n =
      let before = sym (overtaken-review_asked r (check address v.screen.send) v) ∙ timely in
      Good-review_asked address (recorded address v.screen.send.storage) r v
        (Reach-Good reach before) n
  Reach-Good (answers_notice v id reply reach asked) timely n =
      let (before, now) = in_time v.overtaken (is_final reply) _ timely in
      let final = ap (λ c. is_timely address c v.screen.send) (sym asked) in
      Good-notice_answered address v.screen id reply
        (elim now [ inl waits ↦ inl waits | inr t ↦ inr (final ∙ t) ]) (Reach-Good reach before n)
  Reach-Good (answers_review v r id reply reach asked) timely n =
      let (before, now) = in_time v.overtaken (is_final reply) _ timely in
      let final = ap (λ c. is_timely address c v.screen.send) (sym asked) in
      Good-review_answered address v.screen r id reply
        (elim now [ inl waits ↦ inl waits | inr t ↦ inr (final ∙ t) ]) (Reach-Good reach before n)
  Reach-Good (reloads v reach) timely n =
      let (ph, sent) = Reach-Good reach timely n in
      (phase-reloads address v.screen request ph, sent)

  -- On a page that is left only by loading it anew, in whatever order events happen and
  -- submissions and status checks are answered: any two submitted payments whose intents the
  -- server has not called settled are the same signed envelope, if the intents of the signed
  -- payments have names that are not empty, and if no final answer of a status check came late. It
  -- is late if its payment is no longer the recorded one, or if the form from whose notice it was
  -- asked is no longer shown, or the payment signed for the review is gone or is being submitted
  -- again.
  pub one_unsettled :
      {storage : Storage} (v : SendPage) (p q : SignedPayment)
      → Reach signer exceeds address request storage v
      → v.overtaken ≡ false
      → AllNamed v.screen.signed
      → In p v.screen.submitted
      → In q v.screen.submitted
      → ¬ Settled v.screen.settled p.id
      → ¬ Settled v.screen.settled q.id
      → p ≡ q
  one_unsettled v p q reach timely named p_sent q_sent p_open q_open =
      let w = v.screen in
      let (ph, sent) = Reach-Good reach timely named in
      last ph (all_in-In w.signed w.submitted p sent p_sent)
        (all_in-In w.signed w.submitted q sent q_sent)
    where
      last : Phase address v.screen → In p v.screen.signed → In q v.screen.signed → p ≡ q
      last (calm a free f) mp mq =
          absurd (p_open (AllSettled-In v.screen.settled v.screen.signed p a mp))
      last (left x rest e a k n1 n2 n3) mp mq =
          sym (is_last v.screen.settled v.screen.signed rest x p e a mp p_open)
          ∙ is_last v.screen.settled v.screen.signed rest x q e a mq q_open
      last (held x rest r e a k n1 n2 n3 n4) mp mq =
          sym (is_last v.screen.settled v.screen.signed rest x p e a mp p_open)
          ∙ is_last v.screen.settled v.screen.signed rest x q e a mq q_open
