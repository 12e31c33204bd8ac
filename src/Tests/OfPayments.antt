-- ===== src/Tests/OfPayments.antt =====
-- Intents: creating, submitting, reconciling, and sequences of steps.
use Prim.Native.String.{String}
use afri_pay.Base.{
  ℕ, ◌≡◌, ◌↔◌, true, false, refl, sym, ap, inr, List, [], ◌∷◌, Option, none, some, arith, codes,
  get, set, find_value, text_eq, text_eq_iff, trim, conflict, ok, err, length,
}
use afri_pay.Base.Actions.{◌>>=◌}
use afri_pay.Stellar.Amount.{stroops, is_decimal, units}
use afri_pay.Stellar.Sdk.{Envelope, transaction, fee_bump, to_hex}
use afri_pay.Stellar.Validation.{parse_payment, validate_payment}
use afri_pay.Stellar.Validation.Accepts.{IsPayment, parse_payment_iff}
use afri_pay.Stellar.Service.{succeeded, failed, outcome, is_hash}
use afri_pay.Payments.{PaymentIntent}
use afri_pay.Payments.Memory.{Memory, memory, create_intent, settle, claimed, settled}
use afri_pay.Payments.Memory.Invariant.{IsValid, create_intent-IsValid, settle-IsValid}
use afri_pay.Payments.Memory.Growth.{Grows}
use afri_pay.Payments.Input.{CreateInput, requested, has_other_details}
use afri_pay.Payments.Service.{create, submit, reconcile}
use afri_pay.Payments.Service.Create.{Answers, create_sound, create_retry}
use afri_pay.Payments.Service.Submit.{IsReady, IsFree, submit_settles, submit_conflict}
use afri_pay.Payments.Service.Reconcile.{Reports, reconcile_settles}
use afri_pay.Payments.Service.Steps.{HasDigests, submit-Reach}
use afri_pay.Payments.History.{Reach, IsSound, Reach-IsSound, Reach-Grows}
use afri_pay.Tests.Samples.{
  digest, tx, sdk, payment, payment-IsPayment, tx-Authorises, request, intent, claimed_intent,
  empty, waiting, in_flight, empty-IsValid, waiting-IsValid, in_flight-IsValid, at_rest, service,
  horizon, apart,
}

created : (create memory sdk (codes "p1") (codes "t0") request empty).0 ≡ ok intent
unfolding create ◌>>=◌ validate_payment stroops is_decimal units text_eq create_intent find_value
    has_other_details trim
created = refl

create_sound_example :
    (get (codes "p1") (create memory sdk (codes "p1") (codes "t0") request empty).1.intents
      ≡ some intent)
    × Answers intent request
create_sound_example =
    create_sound sdk (codes "p1") (codes "t0") request empty empty-IsValid created

create_retry_example :
    create memory sdk
      (codes "p2")
      (codes "t9")
      request
      (create memory sdk (codes "p1") (codes "t0") request empty).1
    ≡ (ok intent, (create memory sdk (codes "p1") (codes "t0") request empty).1)
create_retry_example =
    create_retry sdk (codes "p1") (codes "t0") (codes "p2") (codes "t9") request empty created

-- The same key for another amount.
abbrev dearer : CreateInput
dearer = record request { amount = codes "2" }

dearer-IsPayment : IsPayment sdk (requested dearer)
unfolding stroops is_decimal units
dearer-IsPayment = record {
  sender_valid = refl;
  recipient_valid = refl;
  distinct = payment-IsPayment.distinct;
  xlm = refl;
  units = 20000000;
  amount = refl;
  positive = omega arith;
  memo = tt;
}

dearer_differs : ¬ Answers intent dearer
unfolding stroops is_decimal units
dearer_differs answer = ground (arith, answer.saved_units, answer.input_units)

ready : IsReady service (codes "p1") (codes "AAAA") (at_rest waiting) intent tx
unfolding get text_eq trim is_hash to_hex
ready = record {
  found = refl;
  still = refl;
  testnet = refl;
  given = refl;
  decoded = refl;
  authorised = tx-Authorises;
  hash = refl;
}

free : IsFree (codes "p1") (to_hex digest) (at_rest waiting) intent
unfolding get
free = record {
  unbound = λ h e. absurd (cc);
  unused = λ k j held bound. ground (arith, text_eq_iff (codes "p1") k);
}

submit_settles_example :
    let final =
      settled
        (codes "t2")
        (outcome (to_hex digest) (horizon (to_hex digest)))
        (claimed (codes "t1") (to_hex digest) intent) in
    let (result, w) =
      submit memory service horizon
        (codes "t1")
        (codes "t2")
        (codes "p1")
        (codes "AAAA")
        (at_rest waiting) in
    (result ≡ ok final)
    × (get (codes "p1") w.store.intents ≡ some final)
    × (w.network ≡ to_hex digest ∷ [])
submit_settles_example =
    submit_settles service horizon (codes "t1") (codes "t2") (codes "p1") (codes "AAAA")
      (at_rest waiting) intent tx waiting-IsValid ready free

-- Another intent that already holds the hash.
abbrev second : PaymentIntent
second = record intent { id = codes "p2"; idempotency_key = codes "order-0002" }

abbrev both : Memory
both = record { intents = (codes "p1", claimed_intent) ∷ (codes "p2", second) ∷ []; links = [] }

both-IsValid : IsValid both.intents
unfolding create_intent find_value set get text_eq
both-IsValid = create_intent-IsValid second in_flight in_flight-IsValid refl refl refl

parsed : parse_payment sdk (codes "AAAA") (some payment) ≡ ok tx
parsed = (parse_payment_iff sdk (codes "AAAA") payment tx).1 (refl, tx-Authorises)

submit_conflict_example :
    (s : String) × (submit memory service horizon
        (codes "t1")
        (codes "t2")
        (codes "p2")
        (codes "AAAA")
        (at_rest both)
      ≡ (err (conflict s), at_rest both))
unfolding get text_eq
submit_conflict_example =
    submit_conflict service horizon (codes "t1") (codes "t2") (codes "p2") (codes "AAAA")
      (at_rest both) second tx both-IsValid refl parsed
      (inr (codes "p1", claimed_intent, refl, apart (codes "p1") (codes "p2") refl, refl))

-- The intent once it has succeeded.
abbrev paid : PaymentIntent
paid = record claimed_intent { status = succeeded }

abbrev done : Memory
done = record { intents = (codes "p1", record paid { updated_at = codes "t2" }) ∷ []; links = [] }

done-IsValid : IsValid done.intents
unfolding settle get set text_eq to_hex
done-IsValid =
    settle-IsValid (codes "t2") (codes "p1") (to_hex digest) succeeded in_flight in_flight-IsValid

reconcile_settles_example :
    (j : PaymentIntent) × (reconcile memory service horizon (codes "t3") (codes "p1") in_flight
      ≡ (ok j, record in_flight { intents = set (codes "p1") j in_flight.intents }))
    × (j ≡ record claimed_intent { status = j.status; updated_at = codes "t3" })
    × ((j.status ≡ succeeded) ↔ Reports (horizon (to_hex digest)) (to_hex digest) true)
    × ((j.status ≡ failed) ↔ Reports (horizon (to_hex digest)) (to_hex digest) false)
unfolding get text_eq is_hash to_hex
reconcile_settles_example =
    reconcile_settles service horizon (codes "t3") (codes "p1") in_flight claimed_intent
      (to_hex digest) refl refl refl refl refl

abbrev hash_of : Option Envelope → List ℕ
hash_of none = []
hash_of (some fee_bump) = []
hash_of (some (transaction t)) = t.hash

sdk-HasDigests : HasDigests sdk
sdk-HasDigests [] tx' e = absurd (cc)
sdk-HasDigests (c ∷ xdr) tx' e = sym (ap (λ x. length (hash_of x)) e)

submit-Reach_example :
    Reach
      (at_rest waiting)
      (submit memory service horizon
        (codes "t1")
        (codes "t2")
        (codes "p1")
        (codes "AAAA")
        (at_rest waiting)).1
submit-Reach_example =
    submit-Reach service horizon (codes "t1") (codes "t2") (codes "p1") (codes "AAAA")
      (at_rest waiting) sdk-HasDigests

waiting-IsSound : IsSound (at_rest waiting)
waiting-IsSound = record { valid = waiting-IsValid; recorded = tt }

Reach-IsSound_example :
    IsSound
      (submit memory service horizon
        (codes "t1")
        (codes "t2")
        (codes "p1")
        (codes "AAAA")
        (at_rest waiting)).1
Reach-IsSound_example =
    Reach-IsSound
      (submit-Reach service horizon (codes "t1") (codes "t2") (codes "p1") (codes "AAAA")
        (at_rest waiting) sdk-HasDigests)
      waiting-IsSound

Reach-Grows_example :
    Grows waiting.intents
      (submit memory service horizon
        (codes "t1")
        (codes "t2")
        (codes "p1")
        (codes "AAAA")
        (at_rest waiting)).1.store.intents
Reach-Grows_example = Reach-Grows (
    submit-Reach service horizon (codes "t1") (codes "t2") (codes "p1") (codes "AAAA")
      (at_rest waiting) sdk-HasDigests)
