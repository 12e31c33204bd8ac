-- ===== src/Payments/Service/Create.antt =====
-- Idempotent creation of intents, over the in-memory store.
use afri_pay.Base.{
  ◌≡◌, refl, sym, ap, ◌∙◌, ◌≢◌, inl, inr, true, false, some, arith, ℕ, Text, text_eq_iff,
  text_eq_refl, get, get-set_self, set, find_value, find_value-get, find_value-none, find_value-set,
  ok, err, Error, conflict, Option-cases, Bool-cases, Result-cases,
}
use afri_pay.Base.Actions.{◌>>=◌}
use afri_pay.Stellar.Amount.{stroops}
use afri_pay.Stellar.Sdk.{Sdk}
use afri_pay.Stellar.Validation.{validate_payment}
use afri_pay.Stellar.Validation.Accepts.{IsPayment, validate_payment_iff}
use afri_pay.Payments.{PaymentIntent}
use afri_pay.Payments.Memory.{Memory, memory, has_key, create_intent}
use afri_pay.Payments.Memory.Invariant.{IsValid}
use afri_pay.Payments.Input.{CreateInput, requested, new_intent, has_other_details, memo_or_empty}
use afri_pay.Payments.Service.{create, is_bad_key}

-- What a successful `create` has gone through.
create_steps :
    (sdk : Sdk) (id now : Text) (input : CreateInput) (m : Memory) {saved : PaymentIntent}
    → (create memory sdk id now input m).0 ≡ ok saved
    → (validate_payment sdk (requested input) ≡ ok tt)
      × (is_bad_key input.idempotency_key ≡ false)
      × ((create_intent (new_intent id now input) m).0 ≡ ok saved)
      × (has_other_details saved input ≡ ok false)
      × ((create memory sdk id now input m).1 ≡ (create_intent (new_intent id now input) m).1)
unfolding create ◌>>=◌
create_steps sdk id now input m {saved} e = ground arith

-- The intent answers the request: the same parties, asset, memo and units, under the same key.
pub record Answers (saved : PaymentIntent) (input : CreateInput) : Type 0 where
  pub key : saved.idempotency_key ≡ input.idempotency_key
  pub sender : saved.sender ≡ input.sender
  pub recipient : saved.recipient ≡ input.recipient
  pub asset : saved.asset ≡ input.asset
  pub memo : memo_or_empty saved.memo ≡ memo_or_empty input.memo
  pub units : ℕ
  pub saved_units : stroops saved.amount ≡ ok units
  pub input_units : stroops input.amount ≡ ok units

details_agree :
    (saved : PaymentIntent) (input : CreateInput)
    → has_other_details saved input ≡ ok false
    → saved.idempotency_key ≡ input.idempotency_key
    → Answers saved input
unfolding has_other_details
details_agree saved input h k = elim (Result-cases (stroops saved.amount)) [
  | inr (x, e) ↦ absurd (ground arith)
  | inl (a, e) ↦ elim (Result-cases (stroops input.amount)) [
    | inr (x, e') ↦ absurd (ground arith)
    | inl (b, e') ↦
        let memos = text_eq_iff (memo_or_empty saved.memo) (memo_or_empty input.memo) in
        record {
          key = k;
          sender = ground (arith, text_eq_iff saved.sender input.sender);
          recipient = ground (arith, text_eq_iff saved.recipient input.recipient);
          asset = ground (arith, text_eq_iff saved.asset input.asset);
          memo = ground (arith, memos);
          units = a;
          saved_units = e;
          input_units = ground arith;
        }
  ]
]

-- The store returns an intent with the key of the one that it is given, and holds it.
create_intent-stored :
    (intent : PaymentIntent) (m : Memory) {saved : PaymentIntent}
    → IsValid m.intents
    → (create_intent intent m).0 ≡ ok saved
    → (saved.idempotency_key ≡ intent.idempotency_key)
      × (get saved.id (create_intent intent m).1.intents ≡ some saved)
unfolding create_intent
create_intent-stored intent m {saved} v e =
    let same = has_key intent.idempotency_key in
    elim (Option-cases (find_value same m.intents)) [
      | inl unused ↦
          let now_saved : intent ≡ saved = ground arith in
          rw (← now_saved)
            (refl, rw (unused, create_intent) (get-set_self intent.id intent m.intents))
      | inr (old, used) ↦
          let was_saved : old ≡ saved = ground arith in
          let (k, found, agrees) = find_value-get same m.intents v.distinct used in
          let key : old.id ≡ k = v.keyed k old found in
          rw (← was_saved) (
            (text_eq_iff old.idempotency_key intent.idempotency_key).0 agrees,
            rw (used, create_intent) (ap (λ t. get t m.intents) key ∙ found),
          )
    ]

-- When `create` returns an intent from a valid store, the store holds that intent, which has the
-- idempotency key, parties, asset and memo of the request and the same number of units.
pub create_sound :
    (sdk : Sdk) (id now : Text) (input : CreateInput) (m : Memory) {saved : PaymentIntent}
    → IsValid m.intents
    → (create memory sdk id now input m).0 ≡ ok saved
    → (get saved.id (create memory sdk id now input m).1.intents ≡ some saved) × Answers saved input
create_sound sdk id now input m {saved} v e =
    let (_, _, stored, agree, state) = create_steps sdk id now input m e in
    let (key, held) = create_intent-stored (new_intent id now input) m v stored in
    (rw state held, details_agree saved input agree key)

-- A second store call with the same key finds what the first one saved.
create_intent-again :
    (intent intent' : PaymentIntent) (m : Memory) {saved : PaymentIntent}
    → intent'.idempotency_key ≡ intent.idempotency_key
    → (create_intent intent m).0 ≡ ok saved
    → create_intent intent' (create_intent intent m).1 ≡ (ok saved, (create_intent intent m).1)
unfolding create_intent
create_intent-again intent intent' m {saved} k e =
    let same = has_key intent.idempotency_key in
    elim (Option-cases (find_value same m.intents)) [
      | inl unused ↦
          let kept = find_value-set same intent.id intent m.intents unused (text_eq_refl _) in
          let found : find_value (has_key intent'.idempotency_key) (set intent.id intent m.intents)
              ≡ some intent =
            ap (λ key. find_value (has_key key) (set intent.id intent m.intents)) k ∙ kept in
          ground arith
      | inr (old, used) ↦
          let found : find_value (has_key intent'.idempotency_key) m.intents ≡ some old =
            ap (λ key. find_value (has_key key) m.intents) k ∙ used in
          ground arith
    ]

-- After a `create` that returned an intent, the same request, with any other identifier and time,
-- returns that intent and changes nothing.
pub create_retry :
    (sdk : Sdk) (id now id' now' : Text) (input : CreateInput) (m : Memory) {saved : PaymentIntent}
    → (create memory sdk id now input m).0 ≡ ok saved
    → create memory sdk id' now' input (create memory sdk id now input m).1
      ≡ (ok saved, (create memory sdk id now input m).1)
unfolding create ◌>>=◌
create_retry sdk id now id' now' input m {saved} e =
    let (valid, key, stored, agree, state) = create_steps sdk id now input m e in
    let again =
      create_intent-again (new_intent id now input) (new_intent id' now' input) m refl stored in
    rw state (ground arith)

-- In a valid store the search by key finds the only intent with that key.
find_value-key :
    (key k : Text) (m : Memory) (old : PaymentIntent)
    → IsValid m.intents
    → get k m.intents ≡ some old
    → old.idempotency_key ≡ key
    → find_value (has_key key) m.intents ≡ some old
find_value-key key k m old v held e = elim (Option-cases (find_value (has_key key) m.intents)) [
  | inl unused ↦
      let missed = find_value-none (has_key key) m.intents k unused held in
      absurd (ground (arith, text_eq_iff old.idempotency_key key))
  | inr (other, used) ↦
      let (j, found, agrees) = find_value-get (has_key key) m.intents v.distinct used in
      let same_key : other.idempotency_key ≡ key =
        (text_eq_iff other.idempotency_key key).0 agrees in
      let same : j ≡ k = v.idempotent j k other old found held (same_key ∙ sym e) in
      let both : some other ≡ some old = sym found ∙ ap (λ t. get t m.intents) same ∙ held in
      used ∙ both
]

has_other_details_total :
    (old : PaymentIntent) (input : CreateInput) (a b : ℕ) (x : Error)
    → stroops old.amount ≡ ok a
    → stroops input.amount ≡ ok b
    → has_other_details old input ≢ err x
unfolding has_other_details
has_other_details_total old input a b x ea eb e = ground arith

other_details :
    (old : PaymentIntent) (input : CreateInput) (a b : ℕ)
    → stroops old.amount ≡ ok a
    → stroops input.amount ≡ ok b
    → old.idempotency_key ≡ input.idempotency_key
    → ¬ Answers old input
    → has_other_details old input ≡ ok true
other_details old input a b ea eb k differs = elim (Result-cases (has_other_details old input)) [
  | inl (d, e) ↦ elim (Bool-cases d) [
    | inl yes_other ↦ e ∙ ap ok yes_other
    | inr agree ↦ absurd (differs (details_agree old input (e ∙ ap ok agree) k))
  ]
  | inr (x, e) ↦ absurd (has_other_details_total old input a b x ea eb e)
]

-- In a valid store, a valid request whose idempotency key belongs to an intent with a readable
-- amount that does not answer the request is refused with a conflict, and nothing changes.
pub create_conflict :
    (sdk : Sdk) (id now : Text) (input : CreateInput) (m : Memory) (k : Text) (old : PaymentIntent)
    (units : ℕ)
    → IsValid m.intents
    → get k m.intents ≡ some old
    → stroops old.amount ≡ ok units
    → IsPayment sdk (requested input)
    → is_bad_key input.idempotency_key ≡ false
    → old.idempotency_key ≡ input.idempotency_key
    → ¬ Answers old input
    → create memory sdk id now input m
      ≡ (err (conflict "Idempotency key reused with different payment details"), m)
unfolding create create_intent ◌>>=◌
create_conflict sdk id now input m k old units v held amount payment key same differs = ground (
  arith,
  (validate_payment_iff sdk (requested input)).1 payment,
  find_value-key input.idempotency_key k m old v held same,
  other_details old input units payment.units amount payment.amount same differs,
)
