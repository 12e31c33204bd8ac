-- ===== src/Payments/Postgres/Methods.antt =====
-- `create` and `reconcile` of backend/src/payments/payment-intent.service.ts over the two branches
-- of the store.
use afri_pay.Base.{
  ◌≡◌, refl, sym, subst, Bool, true, Option, none, some, Text, Map, get, Result, ok, conflict,
  throw_if,
}
use afri_pay.Base.Actions.{Action, ◌>>=◌, ◌>>◌, lift, pure}
use afri_pay.Stellar.Amount.{stroops}
use afri_pay.Stellar.Sdk.{Sdk}
use afri_pay.Stellar.Service.{StellarService, Horizon, verify_transaction}
use afri_pay.Stellar.Validation.{validate_payment}
use afri_pay.Payments.{PaymentIntent, PaymentLink, IntentStore}
use afri_pay.Payments.Memory.{Memory, memory, create_intent, settle}
use afri_pay.Payments.Input.{CreateInput, requested, new_intent, has_other_details}
use afri_pay.Payments.Service.{get_intent, open_hash, create, reconcile, is_bad_key}
use afri_pay.Payments.Postgres.{Postgres, postgres, insert_or_get, settle_row, read_intent, row_of}
use afri_pay.Payments.Postgres.Simulates.{tables_of, create_simulates, settle_simulates}
use afri_pay.Payments.Postgres.Meets.{Meets-bind}
use afri_pay.Payments.Postgres.Stores.{
  StoresMeet, Anything, Simulated-Meets, lift-Meets, pure-Meets, guarded-Meets, open_hash-read,
  open_hash-has_hash, same_details, get-Meets,
}

module _ (db : Postgres) (links : Map PaymentLink) (up : db.is_up ≡ true) where
  module _ (stellar : StellarService) (horizon : Horizon) (time id : Text) where
    -- `reconcile` once the intent is read.
    abbrev settle_open :
        {S : Type 0} → IntentStore S → PaymentIntent → Option Text → Action S PaymentIntent
    settle_open store intent o = elim o [
      | none ↦ pure intent
      | some hash ↦ do
        status ← lift (verify_transaction stellar horizon hash)
        store.settle time id hash status
    ]

    settle_open-Meets :
        (i : PaymentIntent) (o : Option Text) (m : Memory)
        → open_hash i ≡ o
        → get id m.intents ≡ some i
        → StoresMeet db links
            (settle_open memory i o m)
            (settle_open (postgres db) (read_intent (row_of db i)) o (tables_of db links m))
    settle_open-Meets i none m e found = pure-Meets db links i m
    settle_open-Meets i (some hash) m e found =
        let verdict = verify_transaction stellar horizon hash in
        Meets-bind (lift verdict) (lift verdict) _ _ m (tables_of db links m)
          (lift-Meets db links verdict m)
          (λ status n status' t h.
            rw (h.0, h.1, h.2)
              (Simulated-Meets db links (Anything db links) (settle time id hash status m)
                (settle_row db time id hash status (tables_of db links m))
                (settle_simulates db links m time id hash status i up found
                  (open_hash-has_hash db links i hash e))
                (λ j got. tt)))

    opened-Meets :
        (i : PaymentIntent) (m : Memory)
        → get id m.intents ≡ some i
        → let j = read_intent (row_of db i) in
          StoresMeet db links
            (settle_open memory i (open_hash i) m)
            (settle_open (postgres db) j (open_hash j) (tables_of db links m))
    opened-Meets i m found =
        subst
          (λ o.
            StoresMeet db links (settle_open memory i (open_hash i) m)
              (settle_open (postgres db) (read_intent (row_of db i)) o (tables_of db links m)))
          (sym (open_hash-read db links i)) (settle_open-Meets i (open_hash i) m refl found)

    -- On tables that hold what the store in memory holds, if the database answers: `reconcile`
    -- leaves tables that hold what the store in memory then holds, with the same intent as the
    -- database prints it, with a conflict in both, or with the same error.
    pub reconcile_simulates :
        (m : Memory)
        → StoresMeet db links
            (reconcile memory stellar horizon time id m)
            (reconcile (postgres db) stellar horizon time id (tables_of db links m))
    unfolding reconcile
    reconcile_simulates m =
        Meets-bind (get_intent memory id) (get_intent (postgres db) id) _ _ m (tables_of db links m)
          (get-Meets db links up id m)
          (λ i n j t h.
            let (same, held, (found, kept)) = h in
            rw (held, kept)
              (subst
                (λ x.
                  StoresMeet db links (settle_open memory i (open_hash i) m)
                    (settle_open (postgres db) x (open_hash x) (tables_of db links m)))
                (sym same) (opened-Meets i m found)))

  -- The rest of `create` once the intent is saved.
  abbrev checked_details : {S : Type 0} → PaymentIntent → Result Bool → Action S PaymentIntent
  checked_details saved details = do
    differs ← lift details
    lift (throw_if differs (conflict "Idempotency key reused with different payment details"))
    pure saved

  checked-Meets :
      (i : PaymentIntent) (details : Result Bool) (m : Memory)
      → StoresMeet db links
          (checked_details i details m)
          (checked_details (read_intent (row_of db i)) details (tables_of db links m))
  checked-Meets i details m =
      Meets-bind (lift details) (lift details) _ _ m (tables_of db links m)
        (lift-Meets db links details m)
        (λ differs n differs' t h.
          rw (h.0, h.1, h.2)
            (guarded-Meets db links
              (throw_if differs (conflict "Idempotency key reused with different payment details"))
              (pure i) (pure (read_intent (row_of db i))) m (pure-Meets db links i m)))

  abbrev saved_details :
      {S : Type 0} → IntentStore S → PaymentIntent → CreateInput → Action S PaymentIntent
  saved_details store new input = do
    saved ← store.create_intent new
    checked_details saved (has_other_details saved input)

  saved-Meets :
      (new : PaymentIntent) (input : CreateInput) (m : Memory)
      → get new.id m.intents ≡ none
      → new.transaction_hash ≡ none
      → ((i : PaymentIntent)
          → (create_intent new m).0 ≡ ok i
          → stroops (read_intent (row_of db i)).amount ≡ stroops i.amount)
      → StoresMeet db links
          (saved_details memory new input m)
          (saved_details (postgres db) new input (tables_of db links m))
  saved-Meets new input m fresh unbound read =
      Meets-bind (create_intent new) (insert_or_get db new) _ _ m (tables_of db links m)
        (Simulated-Meets db links
          (λ i n. stroops (read_intent (row_of db i)).amount ≡ stroops i.amount)
          (create_intent new m) (insert_or_get db new (tables_of db links m))
          (create_simulates db links m new up fresh unbound) read)
        (λ i n j t h.
          rw (h.0, h.1, same_details db links i input h.2)
            (checked-Meets i (has_other_details i input) n))

  -- On tables that hold what the store in memory holds, if the database answers, the new
  -- identifier is not stored, and the amount of the intent that is saved is printed as one of the
  -- same stroops: `create` leaves tables that hold what the store in memory then holds, with the
  -- same intent as the database prints it, with a conflict in both, or with the same error.
  pub service_create_simulates :
      (sdk : Sdk) (id now : Text) (input : CreateInput) (m : Memory)
      → get id m.intents ≡ none
      → ((i : PaymentIntent)
          → (create_intent (new_intent id now input) m).0 ≡ ok i
          → stroops (read_intent (row_of db i)).amount ≡ stroops i.amount)
      → StoresMeet db links
          (create memory sdk id now input m)
          (create (postgres db) sdk id now input (tables_of db links m))
  unfolding create
  service_create_simulates sdk id now input m fresh read =
      let new = new_intent id now input in
      let key = throw_if (is_bad_key input.idempotency_key) (conflict "Invalid idempotency key") in
      let valid = validate_payment sdk (requested input) in
      guarded-Meets db links valid (lift key >> saved_details memory new input)
        (lift key >> saved_details (postgres db) new input) m
        (guarded-Meets db links key (saved_details memory new input)
          (saved_details (postgres db) new input) m (saved-Meets new input m fresh refl read))
