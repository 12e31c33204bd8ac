-- ===== src/Payments/Postgres/Simulates.antt =====
-- The two branches of backend/src/payments/payment-intent.store.ts beside each other.
use afri_pay.Base.{
  ◌≡◌, refl, sym, ap, ◌∙◌, ◌≢◌, subst, inl, inr, true, not, [], ◌∷◌, Option, none, some, arith,
  Text, Map, get, set, find_value, is_some, get-set_self, Bool-cases, Option-cases, Result, ok, err,
  conflict,
}
use afri_pay.Base.MapValues.{
  map_given, map_values, get-map_values, set-map_values, find_value-map_values, is_some-map_given,
}
use afri_pay.Base.Actions.{then-ok, Action, ◌>>=◌, lift}
use afri_pay.Payments.{PaymentIntentStatus, PaymentIntent, PaymentLink, is_pending}
use afri_pay.Payments.Memory.{
  Memory, create_intent, claim_hash, settle, has_key, has_hash, is_taken, claimed, settled,
  is_bound_elsewhere,
}
use afri_pay.Payments.Postgres.{
  Tables, Postgres, taken, expect_row, query, update_hash, update_found, insert_intent,
  update_status, read_intent, row_of, insert_or_get, bind_hash, settle_row, find_row, is_free,
}

-- The two answers: the same intent, as the database prints it, or both a conflict.
abbrev pub Agrees : Postgres → Result PaymentIntent → Result PaymentIntent → Type 0
Agrees db (ok i) (ok j) = j ≡ read_intent (row_of db i)
Agrees db (err (conflict a)) (err (conflict b)) = Unit
Agrees db r s = ⊥

-- The tables that hold what a store in memory holds.
abbrev pub tables_of : Postgres → Map PaymentLink → Memory → Tables
tables_of db links m = record { intents = map_values (row_of db) m.intents; links = links }

is_free-not :
    (o : Option Text) (hash : Text) → o ≢ some [] → is_free o hash ≡ not (is_bound_elsewhere o hash)
is_free-not none hash h = refl
is_free-not (some []) hash h = absurd (h refl)
is_free-not (some (c ∷ s)) hash h = ground arith

lifted : (i : PaymentIntent) (t : Tables) → lift (expect_row (some i)) t ≡ (ok i, t)
unfolding ◌>>=◌
lifted i t = refl

module _ (db : Postgres) (links : Map PaymentLink) where
  -- The two outcomes of a method, from what each ends with.
  abbrev pub Simulated : Result PaymentIntent × Memory → Result PaymentIntent × Tables → Type 0
  Simulated out out' = Agrees db out.0 out'.0 × (out'.1 ≡ tables_of db links out.1)

  simulated :
      (out : Result PaymentIntent × Memory) (out' : Result PaymentIntent × Tables)
      (r : Result PaymentIntent) (m : Memory) (r' : Result PaymentIntent)
      → out ≡ (r, m)
      → out' ≡ (r', tables_of db links m)
      → Agrees db r r'
      → Simulated out out'
  simulated out out' r m r' e e' h =
      subst (λ x. Simulated x out') (sym e) (subst (λ y. Simulated (r, m) y) (sym e') (h, refl))

  query-up :
      {A : Type 0} (statement : Action Tables A) (t : Tables)
      → db.is_up ≡ true
      → query db statement t ≡ statement t
  query-up statement t up = rw up refl

  found_row :
      (id : Text) (row : PaymentIntent) (t : Tables)
      → db.is_up ≡ true
      → get id t.intents ≡ some row
      → find_row db id t ≡ (ok (some (read_intent row)), t)
  unfolding find_row
  found_row id row t up found = ground (arith, up, found)

  module _ (m : Memory) where
    claim_found :
        (now id hash : Text) (i : PaymentIntent)
        → get id m.intents ≡ some i
        → i.transaction_hash ≢ some []
        → Simulated
            (claim_hash now id hash m)
            (update_found now id hash (some (row_of db i)) (tables_of db links m))
    unfolding claim_hash
    claim_found now id hash i found full =
        let free = is_free-not i.transaction_hash hash full in
        let search = find_value-map_values (row_of db) (is_taken id hash) m.intents (λ v. refl) in
        let hit =
          ap is_some search
          ∙ is_some-map_given (row_of db) (find_value (is_taken id hash) m.intents) in
        let out = claim_hash now id hash m in
        let out' = update_found now id hash (some (row_of db i)) (tables_of db links m) in
        let bound_message = conflict "Intent is already bound to another transaction" in
        elim (Bool-cases (is_bound_elsewhere i.transaction_hash hash)) [
          | inl bound ↦
              simulated out out' (err bound_message) m (err bound_message)
                (ground (arith, found, bound)) (ground (arith, free, bound)) tt
          | inr unbound ↦ elim (Bool-cases (is_some (find_value (is_taken id hash) m.intents))) [
            | inl clash ↦
                simulated out out' (err (conflict "Transaction already belongs to another intent"))
                  m taken (ground (arith, found, unbound, clash))
                  (ground (arith, free, unbound, hit, clash)) tt
            | inr clear ↦
                let i' = claimed now hash i in
                let updated : out' ≡ (
                  ok (read_intent (row_of db i')),
                  record {
                    intents = set id (row_of db i') (map_values (row_of db) m.intents);
                    links = links;
                  },
                ) =
                  ground (arith, free, unbound, hit, clear) in
                let written = set-map_values (row_of db) id i' m.intents in
                simulated out out' (ok i') (record m { intents = set id i' m.intents })
                  (ok (read_intent (row_of db i'))) (ground (arith, found, unbound, clear))
                  (updated
                    ∙ ap
                        (λ x.
                          (ok (read_intent (row_of db i')), record { intents = x; links = links }))
                        written)
                  refl
          ]
        ]

    -- On tables that hold what the store in memory holds, if the database answers and the intent
    -- is stored with a hash that is missing or not empty, the update of `claimHash` leaves tables
    -- that hold what the store in memory then holds, with an answer that is the same intent as the
    -- database prints it, or both are a conflict.
    pub claim_simulates :
        (now id hash : Text) (i : PaymentIntent)
        → db.is_up ≡ true
        → get id m.intents ≡ some i
        → i.transaction_hash ≢ some []
        → Simulated (claim_hash now id hash m) (bind_hash db now id hash (tables_of db links m))
    unfolding bind_hash
    claim_simulates now id hash i up found full =
        let row = get-map_values (row_of db) id m.intents ∙ ap (map_given (row_of db)) found in
        subst (Simulated (claim_hash now id hash m))
          (sym (
            query-up (update_hash now id hash) (tables_of db links m) up
            ∙ ap (λ o. update_found now id hash o (tables_of db links m)) row))
          (claim_found now id hash i found full)

    settle_runs :
        (now id hash : Text) (status : PaymentIntentStatus) (row : PaymentIntent) (new : Tables)
        → db.is_up ≡ true
        → update_status now id hash status (tables_of db links m) ≡ (ok tt, new)
        → get id new.intents ≡ some row
        → settle_row db now id hash status (tables_of db links m) ≡ (ok (read_intent row), new)
    unfolding settle_row
    settle_runs now id hash status row new up updates found =
        let old = tables_of db links m in
        then-ok (query db (update_status now id hash status)) _ old new tt
          (query-up (update_status now id hash status) old up ∙ updates)
        ∙ then-ok (find_row db id) _ new new (some (read_intent row))
            (found_row id row new up found)
        ∙ lifted (read_intent row) new

    -- On tables that hold what the store in memory holds, if the database answers and the intent
    -- is stored with the given hash, the update of `settle` with its read leaves tables that hold
    -- what the store in memory then holds, with an answer that is the same intent as the database
    -- prints it, or both are a conflict.
    pub settle_simulates :
        (now id hash : Text) (status : PaymentIntentStatus) (i : PaymentIntent)
        → db.is_up ≡ true
        → get id m.intents ≡ some i
        → has_hash i.transaction_hash hash ≡ true
        → Simulated
            (settle now id hash status m)
            (settle_row db now id hash status (tables_of db links m))
    unfolding settle
    settle_simulates now id hash status i up found same =
        let row = get-map_values (row_of db) id m.intents ∙ ap (map_given (row_of db)) found in
        let out = settle now id hash status m in
        let out' = settle_row db now id hash status (tables_of db links m) in
        elim (Bool-cases (is_pending i.status)) [
          | inr closed ↦
              simulated out out' (ok i) m (ok (read_intent (row_of db i)))
                (ground (arith, found, same, closed))
                (settle_runs now id hash status (row_of db i) (tables_of db links m) up
                  (ground (arith, row, same, closed)) row)
                refl
          | inl waits ↦
              let i' = settled now status i in
              let rows = set id (row_of db i') (map_values (row_of db) m.intents) in
              let updated =
                settle_runs now id hash status (row_of db i')
                  (record { intents = rows; links = links }) up (ground (arith, row, same, waits))
                  (get-set_self id (row_of db i') (map_values (row_of db) m.intents)) in
              let written = set-map_values (row_of db) id i' m.intents in
              simulated out out' (ok i') (record m { intents = set id i' m.intents })
                (ok (read_intent (row_of db i'))) (ground (arith, found, same, waits))
                (updated
                  ∙ ap
                      (λ x.
                        (ok (read_intent (row_of db i')), record { intents = x; links = links }))
                      written)
                refl
        ]

    create_found :
        (intent : PaymentIntent)
        → db.is_up ≡ true
        → get intent.id m.intents ≡ none
        → Simulated
            (create_intent intent m)
            (query db (insert_intent (row_of db intent)) (tables_of db links m))
    unfolding create_intent
    create_found intent up fresh =
        let row =
          get-map_values (row_of db) intent.id m.intents ∙ ap (map_given (row_of db)) fresh in
        let search =
          find_value-map_values (row_of db) (has_key intent.idempotency_key) m.intents
            (λ v. refl) in
        let out = create_intent intent m in
        let out' = query db (insert_intent (row_of db intent)) (tables_of db links m) in
        elim (Option-cases (find_value (has_key intent.idempotency_key) m.intents)) [
          | inr (old, hit) ↦
              let hit' = search ∙ ap (map_given (row_of db)) hit in
              simulated out out' (ok old) m (ok (read_intent (row_of db old))) (ground (arith, hit))
                (ground (arith, up, hit')) refl
          | inl miss ↦
              let miss' = search ∙ ap (map_given (row_of db)) miss in
              let updated : out' ≡ (
                ok (read_intent (row_of db intent)),
                record {
                  intents = set intent.id (row_of db intent) (map_values (row_of db) m.intents);
                  links = links;
                },
              ) =
                ground (arith, up, row, miss') in
              let written = set-map_values (row_of db) intent.id intent m.intents in
              simulated out out' (ok intent) (record m { intents = set intent.id intent m.intents })
                (ok (read_intent (row_of db intent))) (ground (arith, miss))
                (updated
                  ∙ ap
                      (λ x. (
                        ok (read_intent (row_of db intent)),
                        record { intents = x; links = links },
                      ))
                      written)
                refl
        ]

    -- On tables that hold what the store in memory holds, if the database answers and the intent
    -- has no hash and an identifier that is not stored, the insertion of `createIntent` leaves
    -- tables that hold what the store in memory then holds, with an answer that is the same intent
    -- as the database prints it, or both are a conflict.
    pub create_simulates :
        (intent : PaymentIntent)
        → db.is_up ≡ true
        → get intent.id m.intents ≡ none
        → intent.transaction_hash ≡ none
        → Simulated (create_intent intent m) (insert_or_get db intent (tables_of db links m))
    unfolding insert_or_get
    create_simulates intent up fresh unbound =
        subst
          (λ h. Simulated (create_intent intent m) (
            query db (insert_intent (record (row_of db intent) { transaction_hash = h }))
              (tables_of db links m)))
          unbound (create_found intent up fresh)
