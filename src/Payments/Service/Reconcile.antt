-- ===== src/Payments/Service/Reconcile.antt =====
-- What `reconcile` of backend/src/payments/payment-intent.service.ts does with an intent that is
-- PENDING, over the in-memory store.
use afri_pay.Base.{
  ℕ, ◌≡◌, refl, ◌≢◌, ◌↔◌, Bool, true, false, Option, none, some, arith, Text, codes, text_eq_iff,
  text_eq_refl, get, set, ok, Option-cases, inl, inr, if◌then◌else◌,
}
use afri_pay.Base.Actions.{◌>>=◌}
use afri_pay.Stellar.Service.{
  StellarService, Horizon, LedgerTransaction, pending, succeeded, failed, is_hash, outcome,
}
use afri_pay.Payments.{PaymentIntent}
use afri_pay.Payments.Memory.{Memory, memory, find_intent, settle, settled}
use afri_pay.Payments.Service.{reconcile}
use afri_pay.Payments.Service.Submit.{verify_testnet}

-- The ledger answers with the transaction of a hash, which was successful or not.
abbrev pub Reports : Option LedgerTransaction → Text → Bool → Type 0
Reports reply hash successful =
    (t : LedgerTransaction) × (n : ℕ) × (reply ≡ some t)
    × (t.hash ≡ hash)
    × (t.ledger ≡ some n)
    × (n ≢ 0)
    × (t.successful ≡ successful)

outcome-succeeded :
    (hash : Text) (reply : Option LedgerTransaction)
    → outcome hash reply ≡ succeeded
    → Reports reply hash true
unfolding outcome
outcome-succeeded hash none e = absurd (cc)
outcome-succeeded hash (some t) e = elim (Option-cases t.ledger) [
  | inl nothing ↦ absurd (ground arith)
  | inr (n, at) ↦
      (t, n, refl, ground (arith, text_eq_iff t.hash hash), at, ground arith, ground arith)
]

outcome-failed :
    (hash : Text) (reply : Option LedgerTransaction)
    → outcome hash reply ≡ failed
    → Reports reply hash false
unfolding outcome
outcome-failed hash none e = absurd (cc)
outcome-failed hash (some t) e = elim (Option-cases t.ledger) [
  | inl nothing ↦ absurd (ground arith)
  | inr (n, at) ↦
      (t, n, refl, ground (arith, text_eq_iff t.hash hash), at, ground arith, ground arith)
]

outcome-reported :
    (hash : Text) (reply : Option LedgerTransaction) (b : Bool)
    → Reports reply hash b
    → outcome hash reply ≡ (if b then succeeded else failed)
unfolding outcome
outcome-reported hash reply b (t, n, there, same, at, some_ledger, verdict) =
    rw (there, at, verdict) (ground (arith, text_eq_iff t.hash hash))

reconcile_run :
    (stellar : StellarService) (horizon : Horizon) (time id : Text) (m : Memory) (i : PaymentIntent)
    (hash : Text)
    → get id m.intents ≡ some i
    → i.status ≡ pending
    → i.transaction_hash ≡ some hash
    → stellar.network ≡ codes "testnet"
    → is_hash hash ≡ true
    → reconcile memory stellar horizon time id m ≡ (
      ok (settled time (outcome hash (horizon hash)) i),
      record m { intents = set id (settled time (outcome hash (horizon hash)) i) m.intents },
    )
unfolding reconcile find_intent settle is_hash ◌>>=◌
reconcile_run stellar horizon time id m i hash found still bound net good =
    ground (arith, text_eq_refl hash, verify_testnet stellar horizon hash net good)

-- On the test network, `reconcile` of a PENDING intent with a well-formed hash returns and stores
-- the intent with a new status and time, all else unchanged: SUCCEEDED exactly if the ledger
-- answers with a transaction of that hash in a ledger other than 0 that was successful, and FAILED
-- exactly if with such a transaction that was not.
pub reconcile_settles :
    (stellar : StellarService) (horizon : Horizon) (time id : Text) (m : Memory) (i : PaymentIntent)
    (hash : Text)
    → get id m.intents ≡ some i
    → i.status ≡ pending
    → i.transaction_hash ≡ some hash
    → stellar.network ≡ codes "testnet"
    → is_hash hash ≡ true
    → (j : PaymentIntent) × (reconcile memory stellar horizon time id m
        ≡ (ok j, record m { intents = set id j m.intents }))
      × (j ≡ record i { status = j.status; updated_at = time })
      × ((j.status ≡ succeeded) ↔ Reports (horizon hash) hash true)
      × ((j.status ≡ failed) ↔ Reports (horizon hash) hash false)
reconcile_settles stellar horizon time id m i hash found still bound net good =
    let reply = horizon hash in
    (
      settled time (outcome hash reply) i,
      reconcile_run stellar horizon time id m i hash found still bound net good,
      refl,
      (outcome-succeeded hash reply, outcome-reported hash reply true),
      (outcome-failed hash reply, outcome-reported hash reply false),
    )
