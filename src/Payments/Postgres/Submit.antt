-- ===== src/Payments/Postgres/Submit.antt =====
-- `submit` of backend/src/payments/payment-intent.service.ts over the two branches of the store.
use afri_pay.Base.{
  ◌≡◌, refl, sym, ap, ◌∙◌, ◌≢◌, subst, Bool, true, false, [], some, arith, Text, Map, get,
  text_eq_refl, get-set_self, ok, if◌then◌else◌,
}
use afri_pay.Base.Actions.{Action, ◌>>=◌, lift, pure}
use afri_pay.Stellar.Amount.{stroops}
use afri_pay.Stellar.Sdk.{to_hex}
use afri_pay.Stellar.Validation.{parse_payment}
use afri_pay.Stellar.Service.{StellarService, Horizon, Submission, submit_signed_transaction}
use afri_pay.Payments.{PaymentIntent, PaymentLink, IntentStore, native_payment, is_pending}
use afri_pay.Payments.Memory.{Memory, memory, claim_hash, settle, has_hash, claimed}
use afri_pay.Payments.Service.{World, on_store, on_network, get_intent, submit}
use afri_pay.Payments.Postgres.{
  Postgres, Tables, postgres, bind_hash, settle_row, read_intent, row_of,
}
use afri_pay.Payments.Postgres.Simulates.{claim_simulates, settle_simulates}
use afri_pay.Payments.Postgres.Meets.{end_well, Meets-bind}
use afri_pay.Payments.Postgres.Reread.{parse_payment-reread, submit_signed-reread}
use afri_pay.Payments.Postgres.Worlds.{
  shadow, Answers, WorldsMeet, NothingMore, on_store-Meets, on_network-Meets, lift-Meets, get-Meets,
}

module _ (db : Postgres) (links : Map PaymentLink) (up : db.is_up ≡ true) where
  settle-Meets :
      (time id hash : Text) (a : PaymentIntent) (m : Memory) (result result' : Submission)
      (t : World Memory) (t' : World Tables)
      → get id m.intents ≡ some a
      → has_hash a.transaction_hash hash ≡ true
      → (result' ≡ result) × (t' ≡ shadow db links t) × (t.store ≡ m)
      → WorldsMeet db links
          (on_store (settle time id hash result.status) t)
          (on_store (settle_row db time id hash result'.status) t')
  settle-Meets time id hash a m result result' t t' found bound (same, held, kept) =
      rw (same, held)
        (on_store-Meets db links (NothingMore db links) (settle time id hash result.status)
          (settle_row db time id hash result.status) t
          (settle_simulates db links t.store time id hash result.status a up
            (ap (λ s. get id s.intents) kept ∙ found) bound)
          (λ i e. tt))

  module _ (stellar : StellarService) (horizon : Horizon) (time id xdr : Text) where
    -- The second half of `submit`, for an intent as it was first read.
    abbrev send_and_settle :
        {S : Type 0} → IntentStore S → Text → PaymentIntent → Action (World S) PaymentIntent
    send_and_settle store hash intent = do
      result ← on_network (
          submit_signed_transaction stellar horizon xdr (some intent.sender)
            (some (native_payment intent)))
      on_store (store.settle time id hash result.status)

    send-Meets :
        (hash : Text) (i a : PaymentIntent) (w : World Memory)
        → stroops (read_intent (row_of db i)).amount ≡ stroops i.amount
        → get id w.store.intents ≡ some a
        → has_hash a.transaction_hash hash ≡ true
        → WorldsMeet db links
            (send_and_settle memory hash i w)
            (send_and_settle (postgres db) hash (read_intent (row_of db i)) (shadow db links w))
    unfolding read_intent
    send-Meets hash i a w read found bound =
        let j = read_intent (row_of db i) in
        let call =
          submit_signed_transaction stellar horizon xdr (some i.sender) (some (native_payment i)) in
        let same =
          submit_signed-reread stellar horizon xdr (some i.sender) j.amount (native_payment i)
            read in
        subst
          (λ call'. WorldsMeet db links (send_and_settle memory hash i w) (
            (on_network call' >>= λ result. on_store (settle_row db time id hash result.status))
              (shadow db links w)))
          (sym same)
          (Meets-bind (on_network call) (on_network call) _ _ w (shadow db links w)
            (on_network-Meets db links call w)
            (λ result t result' t' h.
              settle-Meets time id hash a w.store result result' t t' found bound h))

    pure-Meets :
        (a : PaymentIntent) (t : World Memory)
        → WorldsMeet db links (pure a t) (pure (read_intent (row_of db a)) (shadow db links t))
    unfolding ◌>>=◌
    pure-Meets a t = end_well a t _ _ (refl, refl, tt)

    if-Meets :
        (b : Bool) (f g : Action (World Memory) PaymentIntent)
        (f' g' : Action (World Tables) PaymentIntent) (t : World Memory) (t' : World Tables)
        → WorldsMeet db links (f t) (f' t')
        → WorldsMeet db links (g t) (g' t')
        → WorldsMeet db links ((if b then f else g) t) ((if b then f' else g') t')
    if-Meets true f g f' g' t t' h k = h
    if-Meets false f g f' g' t t' h k = k

    abbrev IsClaimed : Text → PaymentIntent → Memory → Type 0
    IsClaimed hash a m = (get id m.intents ≡ some a) × (has_hash a.transaction_hash hash ≡ true)

    claim-IsClaimed :
        (claim_time hash : Text) (m : Memory) (a : PaymentIntent)
        → (claim_hash claim_time id hash m).0 ≡ ok a
        → IsClaimed hash a (claim_hash claim_time id hash m).1
    unfolding claim_hash
    claim-IsClaimed claim_time hash m a e =
        (ground (arith, get-set_self id a m.intents), ground (arith, text_eq_refl hash))

    -- `submit` from the claim on.
    abbrev claim_and_send :
        {S : Type 0} → IntentStore S → Text → Text → PaymentIntent → Action (World S) PaymentIntent
    claim_and_send store claim_time hash intent = do
      claimed ← on_store (store.claim_hash claim_time id hash)
      if is_pending claimed.status then send_and_settle store hash intent else pure claimed

    after_claim :
        (hash : Text) (i : PaymentIntent)
        → stroops (read_intent (row_of db i)).amount ≡ stroops i.amount
        → (a : PaymentIntent) (t : World Memory) (a' : PaymentIntent) (t' : World Tables)
        → Answers db links (IsClaimed hash) a t a' t'
        → WorldsMeet db links
            ((if is_pending a.status then send_and_settle memory hash i else pure a) t)
            ((if is_pending a'.status
                then send_and_settle (postgres db) hash (read_intent (row_of db i))
                else pure a')
              t')
    unfolding read_intent
    after_claim hash i read a t a' t' (same, held, (stored, bound)) =
        rw (same, held)
          (if-Meets (is_pending a.status) (send_and_settle memory hash i) (pure a)
            (send_and_settle (postgres db) hash (read_intent (row_of db i)))
            (pure (read_intent (row_of db a))) t (shadow db links t)
            (send-Meets hash i a t read stored bound) (pure-Meets a t))

    claim-Meets :
        (claim_time hash : Text) (i : PaymentIntent) (w : World Memory)
        → stroops (read_intent (row_of db i)).amount ≡ stroops i.amount
        → i.transaction_hash ≢ some []
        → get id w.store.intents ≡ some i
        → WorldsMeet db links (claim_and_send memory claim_time hash i w) (
            claim_and_send
              (postgres db)
              claim_time
              hash
              (read_intent (row_of db i))
              (shadow db links w))
    claim-Meets claim_time hash i w read full found =
        Meets-bind (on_store (claim_hash claim_time id hash))
          (on_store (bind_hash db claim_time id hash)) _ _ w (shadow db links w)
          (on_store-Meets db links (IsClaimed hash) (claim_hash claim_time id hash)
            (bind_hash db claim_time id hash) w
            (claim_simulates db links w.store claim_time id hash i up found full)
            (claim-IsClaimed claim_time hash w.store))
          (after_claim hash i read)

    abbrev parse_and_send :
        {S : Type 0} → IntentStore S → Text → PaymentIntent → Action (World S) PaymentIntent
    parse_and_send store claim_time intent = do
      tx ← lift (parse_payment stellar.sdk xdr (some (native_payment intent)))
      claim_and_send store claim_time (to_hex tx.hash) intent

    parse-Meets :
        (claim_time : Text) (i : PaymentIntent) (w : World Memory)
        → (i.transaction_hash ≢ some [])
          × (stroops (read_intent (row_of db i)).amount ≡ stroops i.amount)
        → get id w.store.intents ≡ some i
        → WorldsMeet db links (parse_and_send memory claim_time i w) (
            parse_and_send (postgres db) claim_time (read_intent (row_of db i)) (shadow db links w))
    unfolding read_intent
    parse-Meets claim_time i w (full, read) found =
        let j = read_intent (row_of db i) in
        let parsed = parse_payment stellar.sdk xdr (some (native_payment i)) in
        subst
          (λ r. WorldsMeet db links (parse_and_send memory claim_time i w) (
            (lift r >>= λ tx. claim_and_send (postgres db) claim_time (to_hex tx.hash) j)
              (shadow db links w)))
          (sym (parse_payment-reread stellar.sdk j.amount (native_payment i) read xdr))
          (Meets-bind (lift parsed) (lift parsed) _ _ w (shadow db links w)
            (lift-Meets db links parsed w)
            (λ tx t tx' t' h.
              rw (h.0, h.1, h.2) (claim-Meets claim_time (to_hex tx.hash) i w read full found)))

    -- On a world with a database that answers and that holds what a world without one holds, where
    -- the intent, if it is stored, has a hash that is missing or not empty and an amount that the
    -- database prints as one of the same stroops: `submit` sends the same transactions in both and
    -- ends in worlds that again hold the same, with the same intent as the database prints it,
    -- with a conflict in both, or with the same error.
    pub submit_simulates :
        (claim_time : Text) (w : World Memory)
        → ((i : PaymentIntent)
            → get id w.store.intents ≡ some i
            → (i.transaction_hash ≢ some [])
              × (stroops (read_intent (row_of db i)).amount ≡ stroops i.amount))
        → WorldsMeet db links
            (submit memory stellar horizon claim_time time id xdr w)
            (submit (postgres db) stellar horizon claim_time time id xdr (shadow db links w))
    unfolding submit
    submit_simulates claim_time w stored =
        Meets-bind (on_store (get_intent memory id)) (on_store (get_intent (postgres db) id)) _ _ w
          (shadow db links w) (get-Meets db links up id w)
          (λ i v j v' h.
            let ((same, held, found), kept) = h in
            let kept_store = ap (λ (u : World Memory). get id u.store.intents) kept in
            rw (same, held) (parse-Meets claim_time i v (stored i (sym kept_store ∙ found)) found))
