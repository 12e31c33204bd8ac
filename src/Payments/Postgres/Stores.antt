-- ===== src/Payments/Postgres/Stores.antt =====
-- A store with a database beside one without: steps of
-- backend/src/payments/payment-intent.service.ts that meet.
use afri_pay.Base.{
  ◌≡◌, refl, true, not, ◌||◌, Option, none, some, [], ◌∷◌, arith, Text, Map, get, is_empty,
  text_eq_refl, Result, ok, err, conflict, if◌then◌else◌,
}
use afri_pay.Base.MapValues.{map_given, given, get-map_values}
use afri_pay.Base.Actions.{Action, ◌>>=◌, ◌>>◌, lift, pure}
use afri_pay.Stellar.Amount.{stroops}
use afri_pay.Payments.{PaymentIntent, PaymentLink, is_pending}
use afri_pay.Payments.Memory.{Memory, memory, find_intent, has_hash}
use afri_pay.Payments.Input.{CreateInput, memo_or_empty, has_other_details}
use afri_pay.Payments.Service.{get_intent, expect_intent, open_hash}
use afri_pay.Payments.Postgres.{
  Postgres, Tables, postgres, find_row, read_intent, row_of, first_row,
}
use afri_pay.Payments.Postgres.Simulates.{tables_of, Simulated}
use afri_pay.Payments.Postgres.Meets.{Meets, end_well, conflict_both, fail_alike, Meets-bind}

module _ (db : Postgres) (links : Map PaymentLink) where
  -- The tables hold what the store in memory holds.
  abbrev pub Mirrors : Memory → Tables → Type 0
  Mirrors m t = t ≡ tables_of db links m

  abbrev pub SameIntent :
      (PaymentIntent → Memory → Type 0) → PaymentIntent → Memory → PaymentIntent → Tables → Type 0
  SameIntent Known i m j t = (j ≡ read_intent (row_of db i)) × Mirrors m t × Known i m

  abbrev pub Anything : PaymentIntent → Memory → Type 0
  Anything i m = Unit

  abbrev pub StoresMeet : Result PaymentIntent × Memory → Result PaymentIntent × Tables → Type 0
  StoresMeet = Meets (SameIntent Anything) Mirrors

  pub Simulated-Meets :
      (Known : PaymentIntent → Memory → Type 0) (x : Result PaymentIntent × Memory)
      (x' : Result PaymentIntent × Tables)
      → Simulated db links x x'
      → ((i : PaymentIntent) → x.0 ≡ ok i → Known i x.1)
      → Meets (SameIntent Known) Mirrors x x'
  Simulated-Meets Known (ok i, m) (ok j, t) (agree, same) known =
      end_well i m j t (agree, same, known i refl)
  Simulated-Meets Known (err (conflict a), m) (err (conflict b), t) (agree, same) known =
      conflict_both a b m t same
  Simulated-Meets Known x x' (agree, same) known = absurd agree

  pub lift-Meets :
      {A : Type 0} (r : Result A) (m : Memory)
      → Meets
          (λ a (n : Memory) a' t. (a' ≡ a) × (n ≡ m) × Mirrors m t)
          Mirrors
          (lift r m)
          (lift r (tables_of db links m))
  unfolding ◌>>=◌
  lift-Meets (ok a) m = end_well a m a _ (refl, refl, refl)
  lift-Meets (err e) m = fail_alike e m _ refl

  pub pure-Meets :
      (i : PaymentIntent) (m : Memory)
      → StoresMeet (pure i m) (pure (read_intent (row_of db i)) (tables_of db links m))
  unfolding ◌>>=◌
  pure-Meets i m = end_well i m _ _ (refl, refl, tt)

  -- A check before steps that meet.
  pub guarded-Meets :
      (check : Result (Unit {0})) (rest : Action Memory PaymentIntent)
      (rest' : Action Tables PaymentIntent) (m : Memory)
      → StoresMeet (rest m) (rest' (tables_of db links m))
      → StoresMeet ((lift check >> rest) m) ((lift check >> rest') (tables_of db links m))
  guarded-Meets check rest rest' m h =
      Meets-bind (lift check) (lift check) (λ _. rest) (λ _. rest') m (tables_of db links m)
        (lift-Meets check m) (λ u n u' t k. rw (k.1, k.2) h)

  abbrev pub IsFound : Text → Memory → PaymentIntent → Memory → Type 0
  IsFound id m i n = (get id m.intents ≡ some i) × (n ≡ m)

  expect-Meets :
      (id : Text) (o : Option PaymentIntent) (m : Memory)
      → get id m.intents ≡ o
      → Meets
          (SameIntent (IsFound id m))
          Mirrors
          (expect_intent o, m)
          (expect_intent (first_row (map_given (row_of db) o)), tables_of db links m)
  expect-Meets id none m e = fail_alike _ m _ refl
  expect-Meets id (some i) m e = end_well i m _ _ (refl, refl, (e, refl))

  pub open_hash-read : (i : PaymentIntent) → open_hash (read_intent (row_of db i)) ≡ open_hash i
  unfolding open_hash read_intent
  open_hash-read i = hash_case i.transaction_hash
    where
      hash_case :
          (o : Option Text)
          → elim (given o) as (λ _. Option Text) [
            | none ↦ none
            | some hash ↦ if is_empty hash || not (is_pending i.status) then none else some hash
          ]
            ≡ elim o as (λ _. Option Text) [
              | none ↦ none
              | some hash ↦ if is_empty hash || not (is_pending i.status) then none else some hash
            ]
      hash_case none = refl
      hash_case (some []) = refl
      hash_case (some (c ∷ s)) = refl

  pub open_hash-has_hash :
      (i : PaymentIntent) (hash : Text)
      → open_hash i ≡ some hash
      → has_hash i.transaction_hash hash ≡ true
  unfolding open_hash
  open_hash-has_hash i hash e = ground (arith, text_eq_refl hash)

  pub same_details :
      (i : PaymentIntent) (input : CreateInput)
      → stroops (read_intent (row_of db i)).amount ≡ stroops i.amount
      → has_other_details (read_intent (row_of db i)) input ≡ has_other_details i input
  unfolding has_other_details read_intent
  same_details i input read = rw (read, same_memo i.memo) refl
    where
      same_memo : (o : Option Text) → memo_or_empty (given o) ≡ memo_or_empty o
      same_memo none = refl
      same_memo (some []) = refl
      same_memo (some (c ∷ s)) = refl

  module _ (up : db.is_up ≡ true) where
    get_intent-memory :
        (id : Text) (m : Memory) → get_intent memory id m ≡ (expect_intent (get id m.intents), m)
    unfolding get_intent find_intent ◌>>=◌
    get_intent-memory id m = refl

    get_intent-postgres :
        (id : Text) (t : Tables)
        → get_intent (postgres db) id t ≡ (expect_intent (first_row (get id t.intents)), t)
    unfolding get_intent find_row ◌>>=◌
    get_intent-postgres id t = rw up refl

    pub get-Meets :
        (id : Text) (m : Memory)
        → Meets
            (SameIntent (IsFound id m))
            Mirrors
            (get_intent memory id m)
            (get_intent (postgres db) id (tables_of db links m))
    get-Meets id m =
        rw
          (
            get_intent-memory id m,
            get_intent-postgres id (tables_of db links m),
            get-map_values (row_of db) id m.intents,
          )
          (expect-Meets id (get id m.intents) m refl)
