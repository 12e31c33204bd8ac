-- ===== src/Browser/Send/Logs.antt =====
-- The payments signed and submitted so far, and what each event adds to them: `SendFlow` of
-- frontend/src/components/wallet/SendFlow.tsx.
use afri_pay.Base.{
  ◌≡◌, refl, sym, ap, ◌∙◌, inl, inr, subst, false, List, [], ◌∷◌, Option, none, some, Text,
  is_empty, Option-cases,
}
use afri_pay.Stellar.Validation.Accepts.{Some}
use afri_pay.Browser.Send.{
  Review, SignedPayment, Send, PaymentRequest, IntentRequest, Storage, reload_pending,
}
use afri_pay.Browser.Send.Handlers.{Confirmed, refused, repeated, signs}
use afri_pay.Browser.Send.Screen.{Screen, opened, start_submitting, sign_new, start_preparing}
use afri_pay.Browser.Send.Phases.{Settled, AllSettled, Phase, calm, left, held}

abbrev pub In : SignedPayment → List SignedPayment → Type 0
In p ps = Some (λ q. q ≡ p) ps

-- The server names its intents.
abbrev pub AllNamed : List SignedPayment → Type 0
AllNamed [] = Unit
AllNamed (p ∷ ps) = (is_empty p.id ≡ false) × AllNamed ps

-- What a confirmation adds.
pub named-before :
    (r : Review) (old : Option SignedPayment) (out : Send × Option SignedPayment) (w : Screen)
    → AllNamed (start_submitting r old out w).signed
    → AllNamed w.signed
named-before r old (s, none) w h = h
named-before r none (s, some p) w h = h.1
named-before r (some q) (s, some p) w h = h

pub named-new :
    (r : Review) (address : Option Text) (out : Send × Option SignedPayment) (w : Screen)
    → Confirmed address w.send out
    → AllNamed (start_submitting r w.send.pending_payment out w).signed
    → w.send.pending_payment ≡ none
    → (p : SignedPayment) → out.1 ≡ some p
    → is_empty p.id ≡ false
named-new r address (s, none) w c h free p e = absurd (cc)
named-new r address (s, some q) w c h free p e =
    let signed : sign_new w.send.pending_payment q w.signed ≡ q ∷ w.signed = rw free refl in
    let same : q ≡ p = cc in ap (λ x. is_empty x.id) (sym same) ∙ (subst AllNamed signed h).0

-- The last payment that was submitted is signed, and so are those before.
abbrev pub AllIn : List SignedPayment → List SignedPayment → Type 0
AllIn signed [] = Unit
AllIn signed (p ∷ ps) = In p signed × AllIn signed ps

AllIn-more :
    (p : SignedPayment) (signed ps : List SignedPayment) → AllIn signed ps → AllIn (p ∷ signed) ps
AllIn-more p signed [] h = tt
AllIn-more p signed (q ∷ ps) (h, hs) = (inr h, AllIn-more p signed ps hs)

pub AllIn-confirm :
    (address : Option Text) (r : Review) (out : Send × Option SignedPayment) (w : Screen)
    → Confirmed address w.send out
    → Phase address w
    → AllIn w.signed w.submitted
    → let w' = start_submitting r w.send.pending_payment out w in AllIn w'.signed w'.submitted
AllIn-confirm address r (s, none) w c ph h = h
AllIn-confirm address r (s, some q) w c ph h = elim (Option-cases w.send.pending_payment) [
  | inl free ↦
      subst (λ x. AllIn x (q ∷ w.submitted)) (sym (ap (λ o. sign_new o q w.signed) free))
        (inl refl, AllIn-more q w.signed w.submitted h)
  | inr (old, kept) ↦
      subst (λ x. AllIn x (q ∷ w.submitted)) (sym (ap (λ o. sign_new o q w.signed) kept))
        (repeats old kept c ph, h)
]
  where
    repeats :
        (old : SignedPayment)
        → w.send.pending_payment ≡ some old
        → Confirmed address w.send (s, some q)
        → Phase address w
        → In q w.signed
    repeats old kept (refused nothing u b) ph' = absurd (cc)
    repeats old kept (signs p free x1 x2 x3 x4 x5 x6) ph' = absurd (cc)
    repeats old kept (repeated p has sent u b) (calm a free f) = absurd (cc)
    repeats old kept (repeated p has sent u b) (left p' rest e a key free no_review f) = absurd (cc)
    repeats old kept (repeated p has sent u b) (held p' rest r' e a key kept' shown live f) =
        let same : p' ≡ q = cc in subst (In q) (sym e) (inl same)

-- Events that sign nothing leave the lists of payments.
pub record SameLogs (v w : Screen) : Type 0 where
  pub signed : w.signed ≡ v.signed
  pub submitted : w.submitted ≡ v.submitted

pub SameLogs-prepare :
    (out : Send × Option IntentRequest) (v : Screen) → SameLogs v (start_preparing out v)
SameLogs-prepare (s, none) v = record { signed = refl; submitted = refl }
SameLogs-prepare (s, some q) v = record { signed = refl; submitted = refl }

pub named-SameLogs : (v w : Screen) → SameLogs v w → AllNamed w.signed → AllNamed v.signed
named-SameLogs v w same n = subst AllNamed same.signed n

pub sent-SameLogs :
    (v w : Screen) → SameLogs v w → AllIn v.signed v.submitted → AllIn w.signed w.submitted
sent-SameLogs v w same h =
    subst (AllIn w.signed) (sym same.submitted)
      (subst (λ x. AllIn x v.submitted) (sym same.signed) h)

pub opened-free :
    (request : Option PaymentRequest) (address : Option Text) (storage : Storage)
    → (opened request address storage).pending_payment ≡ none
unfolding reload_pending
opened-free none address storage = refl
opened-free (some request) address storage = refl

pub all_in-In :
    (signed ps : List SignedPayment) (p : SignedPayment) → AllIn signed ps → In p ps → In p signed
all_in-In signed [] p h m = absurd m
all_in-In signed (q ∷ ps) p (h, hs) (inl e) = subst (λ x. In x signed) e h
all_in-In signed (q ∷ ps) p (h, hs) (inr m) = all_in-In signed ps p hs m

pub AllSettled-In :
    (settled : List Text) (ps : List SignedPayment) (p : SignedPayment)
    → AllSettled settled ps
    → In p ps
    → Settled settled p.id
AllSettled-In settled [] p h m = absurd m
AllSettled-In settled (q ∷ ps) p (h, hs) (inl e) = subst (λ x. Settled settled x.id) e h
AllSettled-In settled (q ∷ ps) p (h, hs) (inr m) = AllSettled-In settled ps p hs m

-- An unsettled payment is the last one signed.
pub is_last :
    (settled : List Text) (signed rest : List SignedPayment) (q p : SignedPayment)
    → signed ≡ q ∷ rest
    → AllSettled settled rest
    → In p signed
    → ¬ Settled settled p.id
    → q ≡ p
is_last settled signed rest q p e h m unsettled = elim (subst (In p) e m) [
  | inl same ↦ same
  | inr later ↦ absurd (unsettled (AllSettled-In settled rest p h later))
]
