-- ===== src/Payments/Postgres/Worlds.antt =====
-- A world with a database beside one without: steps of
-- backend/src/payments/payment-intent.service.ts that meet.
use afri_pay.Base.{
  ◌≡◌, refl, ap, true, Option, none, some, Text, Map, get, Result, ok, err, conflict,
}
use afri_pay.Base.MapValues.{map_given, get-map_values}
use afri_pay.Base.Actions.{Action, ◌>>=◌, lift}
use afri_pay.Stellar.Service.{Network}
use afri_pay.Payments.{PaymentIntent, PaymentLink}
use afri_pay.Payments.Memory.{Memory, memory, find_intent}
use afri_pay.Payments.Service.{World, on_store, on_network, get_intent, expect_intent}
use afri_pay.Payments.Postgres.{
  Postgres, Tables, postgres, find_row, read_intent, row_of, first_row,
}
use afri_pay.Payments.Postgres.Simulates.{tables_of, Simulated}
use afri_pay.Payments.Postgres.Meets.{Meets, end_well, conflict_both, fail_alike}

module _ (db : Postgres) (links : Map PaymentLink) where
  -- The world with a database that holds what the world without one holds.
  abbrev pub shadow : World Memory → World Tables
  shadow w = record { store = tables_of db links w.store; network = w.network }

  abbrev pub Holds : World Memory → World Tables → Type 0
  Holds w w' = w' ≡ shadow w

  -- The intent that the database prints, with what is known of it and of the store.
  abbrev pub Answers :
      (PaymentIntent → Memory → Type 0)
      → PaymentIntent
      → World Memory
      → PaymentIntent
      → World Tables
      → Type 0
  Answers Known i w j w' = (j ≡ read_intent (row_of db i)) × (w' ≡ shadow w) × Known i w.store

  abbrev pub NothingMore : PaymentIntent → Memory → Type 0
  NothingMore i m = Unit

  abbrev pub WorldsMeet :
      Result PaymentIntent × World Memory → Result PaymentIntent × World Tables → Type 0
  WorldsMeet = Meets (Answers NothingMore) Holds

  Simulated-Meets :
      (Known : PaymentIntent → Memory → Type 0) (x : Result PaymentIntent × Memory)
      (x' : Result PaymentIntent × Tables) (n : Network)
      → Simulated db links x x'
      → ((i : PaymentIntent) → x.0 ≡ ok i → Known i x.1)
      → Meets
          (Answers Known)
          Holds
          (x.0, record { store = x.1; network = n })
          (x'.0, record { store = x'.1; network = n })
  Simulated-Meets Known (ok i, m) (ok j, t) n (agree, same) known =
      end_well i _ j _ (agree, ap (λ s. record { store = s; network = n }) same, known i refl)
  Simulated-Meets Known (err (conflict a), m) (err (conflict b), t) n (agree, same) known =
      conflict_both a b _ _ (ap (λ s. record { store = s; network = n }) same)
  Simulated-Meets Known x x' n (agree, same) known = absurd agree

  -- A method of the store, where it simulates the other one.
  pub on_store-Meets :
      (Known : PaymentIntent → Memory → Type 0) (act : Action Memory PaymentIntent)
      (act' : Action Tables PaymentIntent) (w : World Memory)
      → Simulated db links (act w.store) (act' (tables_of db links w.store))
      → ((i : PaymentIntent) → (act w.store).0 ≡ ok i → Known i (act w.store).1)
      → Meets (Answers Known) Holds (on_store act w) (on_store act' (shadow w))
  unfolding ◌>>=◌
  on_store-Meets Known act act' w alike known =
      Simulated-Meets Known (act w.store) (act' (tables_of db links w.store)) w.network alike known

  called-Meets :
      {A : Type 0} (x : Result A × Network) (m : Memory)
      → Meets
          (λ a (w : World Memory) a' (w' : World Tables).
            (a' ≡ a) × (w' ≡ shadow w) × (w.store ≡ m))
          Holds
          (x.0, record { store = m; network = x.1 })
          (x.0, record { store = tables_of db links m; network = x.1 })
  called-Meets (ok a, n) m = end_well a _ a _ (refl, refl, refl)
  called-Meets (err e, n) m = fail_alike e _ _ refl

  -- A call of the network is the same one.
  pub on_network-Meets :
      {A : Type 0} (act : Action Network A) (w : World Memory)
      → Meets
          (λ a (v : World Memory) a' (v' : World Tables).
            (a' ≡ a) × (v' ≡ shadow v) × (v.store ≡ w.store))
          Holds
          (on_network act w)
          (on_network act (shadow w))
  unfolding ◌>>=◌
  on_network-Meets act w = called-Meets (act w.network) w.store

  pub lift-Meets :
      {A : Type 0} (r : Result A) (w : World Memory)
      → Meets
          (λ a (v : World Memory) a' (v' : World Tables). (a' ≡ a) × (v ≡ w) × (v' ≡ shadow w))
          Holds
          (lift r w)
          (lift r (shadow w))
  unfolding ◌>>=◌
  lift-Meets (ok a) w = end_well a _ a _ (refl, refl, refl)
  lift-Meets (err e) w = fail_alike e _ _ refl

  abbrev pub IsStored : Text → PaymentIntent → Memory → Type 0
  IsStored id i m = get id m.intents ≡ some i

  expect-Meets :
      (id : Text) (o : Option PaymentIntent) (w : World Memory)
      → get id w.store.intents ≡ o
      → Meets
          (λ i v j v'. Answers (IsStored id) i v j v' × (v ≡ w))
          Holds
          (expect_intent o, w)
          (expect_intent (first_row (map_given (row_of db) o)), shadow w)
  expect-Meets id none w e = fail_alike _ _ _ refl
  expect-Meets id (some i) w e = end_well i _ _ _ ((refl, refl, e), refl)

  module _ (up : db.is_up ≡ true) where
    get_intent-memory :
        (id : Text) (w : World Memory)
        → on_store (get_intent memory id) w ≡ (expect_intent (get id w.store.intents), w)
    unfolding get_intent find_intent ◌>>=◌
    get_intent-memory id w = refl

    get_intent-postgres :
        (id : Text) (w : World Tables)
        → on_store (get_intent (postgres db) id) w
          ≡ (expect_intent (first_row (get id w.store.intents)), w)
    unfolding get_intent find_row ◌>>=◌
    get_intent-postgres id w = rw up refl

    pub get-Meets :
        (id : Text) (w : World Memory)
        → Meets
            (λ i v j v'. Answers (IsStored id) i v j v' × (v ≡ w))
            Holds
            (on_store (get_intent memory id) w)
            (on_store (get_intent (postgres db) id) (shadow w))
    get-Meets id w =
        rw
          (
            get_intent-memory id w,
            get_intent-postgres id (shadow w),
            get-map_values (row_of db) id w.store.intents,
          )
          (expect-Meets id (get id w.store.intents) w refl)
