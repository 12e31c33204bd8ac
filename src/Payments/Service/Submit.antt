-- ===== src/Payments/Service/Submit.antt =====
-- What `submit` and `reconcile` do on each branch, over the in-memory store.
use Prim.Native.String.{String}
use afri_pay.Base.{
  ◌≡◌, refl, ap, ◌≢◌, true, false, ◌∷◌, Option, none, some, arith, Text, codes, text_eq_iff,
  text_eq_refl, is_empty, trim, get, get-set_self, set, find_value, find_value-get, find_value-none,
  is_some, ok, err, conflict, ◌⊎◌, Option-cases, Bool-cases, inl, inr,
}
use afri_pay.Base.Actions.{◌>>=◌}
use afri_pay.Stellar.Sdk.{Transaction, transaction, to_hex}
use afri_pay.Stellar.Validation.{parse_payment}
use afri_pay.Stellar.Validation.Accepts.{Authorises, parse_payment_iff}
use afri_pay.Stellar.Service.{
  StellarService, Horizon, pending, is_hash, outcome, verify_transaction, submit_signed_transaction,
  submission, Network,
}
use afri_pay.Payments.{PaymentIntent, native_payment}
use afri_pay.Payments.Memory.{
  Memory, memory, find_intent, claim_hash, settle, is_bound_elsewhere, is_taken, claimed, settled,
}
use afri_pay.Payments.Memory.Invariant.{IsValid}
use afri_pay.Payments.Service.{World, submit, reconcile}

-- On the test network, what the ledger says of a well-formed hash.
pub verify_testnet :
    (stellar : StellarService) (horizon : Horizon) (hash : Text)
    → stellar.network ≡ codes "testnet"
    → is_hash hash ≡ true
    → verify_transaction stellar horizon hash ≡ ok (outcome hash (horizon hash))
unfolding verify_transaction
verify_testnet stellar horizon hash net good =
    ground (arith, text_eq_iff stellar.network (codes "testnet"))

-- An authorised transaction is sent once, and its outcome is read from the ledger.
submit_signed_lem :
    (stellar : StellarService) (horizon : Horizon) (xdr : Text) (i : PaymentIntent)
    (tx : Transaction) (n : Network)
    → stellar.network ≡ codes "testnet"
    → is_empty (trim xdr) ≡ false
    → parse_payment stellar.sdk xdr (some (native_payment i)) ≡ ok tx
    → tx.source ≡ i.sender
    → is_hash (to_hex tx.hash) ≡ true
    → submit_signed_transaction stellar horizon xdr (some i.sender) (some (native_payment i)) n ≡ (
      ok (submission tx (outcome (to_hex tx.hash) (horizon (to_hex tx.hash)))),
      to_hex tx.hash ∷ n,
    )
unfolding submit_signed_transaction ◌>>=◌
submit_signed_lem stellar horizon xdr i tx n net full parsed source good = ground (
  arith,
  text_eq_iff stellar.network (codes "testnet"),
  text_eq_iff tx.source i.sender,
  verify_testnet stellar horizon (to_hex tx.hash) net good,
)

-- A request to submit that finds its intent and a transaction that authorises it, on the test
-- network.
pub record IsReady (stellar : StellarService) (id xdr : Text) (w : World Memory) (i : PaymentIntent)
    (tx : Transaction) : Type 0 where
  pub found : get id w.store.intents ≡ some i
  pub still : i.status ≡ pending
  pub testnet : stellar.network ≡ codes "testnet"
  pub given : is_empty (trim xdr) ≡ false
  pub decoded : stellar.sdk.from_xdr xdr ≡ some (transaction tx)
  pub authorised : Authorises stellar.sdk (native_payment i) tx
  pub hash : is_hash (to_hex tx.hash) ≡ true

-- No other hash is bound to the intent, and no other intent has this hash.
pub record IsFree (id hash : Text) (w : World Memory) (i : PaymentIntent) : Type 0 where
  pub unbound : (h : Text) → i.transaction_hash ≡ some h → h ≡ hash
  pub unused :
      (k : Text) (j : PaymentIntent)
      → get k w.store.intents ≡ some j
      → j.transaction_hash ≡ some hash
      → k ≡ id

free-unbound :
    (id hash : Text) (w : World Memory) (i : PaymentIntent)
    → IsFree id hash w i
    → is_bound_elsewhere i.transaction_hash hash ≡ false
free-unbound id hash w i f = go i.transaction_hash refl
  where
    go : (o : Option Text) → i.transaction_hash ≡ o → is_bound_elsewhere o hash ≡ false
    go none e = refl
    go (some h) e = rw (f.unbound h e) (ground (arith, text_eq_refl hash))

free-unused :
    (id hash : Text) (w : World Memory) (i : PaymentIntent)
    → IsValid w.store.intents
    → IsFree id hash w i
    → find_value (is_taken id hash) w.store.intents ≡ none
free-unused id hash w i v f = elim (Option-cases (find_value (is_taken id hash) w.store.intents)) [
  | inl none_taken ↦ none_taken
  | inr (j, taken) ↦
      let (k, held, other) = find_value-get (is_taken id hash) w.store.intents v.distinct taken in
      absurd (taken_elsewhere k j held other)
]
  where
    taken_elsewhere :
        (k : Text) (j : PaymentIntent)
        → get k w.store.intents ≡ some j
        → is_taken id hash j ≡ true
        → ⊥
    taken_elsewhere k j held other = elim (Option-cases j.transaction_hash) [
      | inl unset ↦ ground arith
      | inr (h, bound) ↦
          ground
            (arith, text_eq_iff j.id id, text_eq_iff h hash, f.unused k j held, v.keyed k j held)
    ]

-- On the test network and in a valid store, `submit` of a transaction that authorises a PENDING
-- intent, with a well-formed hash that no other intent has, and where the intent has no other
-- hash, hands that transaction to the network once, and returns and stores the intent with its
-- hash and the outcome that the ledger reports.
pub submit_settles :
    (stellar : StellarService) (horizon : Horizon) (claim_time settle_time id xdr : Text)
    (w : World Memory) (i : PaymentIntent) (tx : Transaction)
    → IsValid w.store.intents
    → IsReady stellar id xdr w i tx
    → IsFree id (to_hex tx.hash) w i
    → let hash = to_hex tx.hash in
      let final = settled settle_time (outcome hash (horizon hash)) (claimed claim_time hash i) in
      let (result, w') = submit memory stellar horizon claim_time settle_time id xdr w in
      (result ≡ ok final) × (get id w'.store.intents ≡ some final) × (w'.network ≡ hash ∷ w.network)
unfolding submit find_intent claim_hash settle ◌>>=◌
submit_settles stellar horizon claim_time settle_time id xdr w i tx v r f =
    let hash = to_hex tx.hash in
    let parsed =
      (parse_payment_iff stellar.sdk xdr (native_payment i) tx).1 (r.decoded, r.authorised) in
    let after = set id (claimed claim_time hash i) w.store.intents in
    ground (
      arith,
      free-unbound id hash w i f,
      free-unused id hash w i v f,
      text_eq_refl hash,
      get-set_self id (claimed claim_time hash i) w.store.intents,
      get-set_self id
          (settled settle_time (outcome hash (horizon hash)) (claimed claim_time hash i)) after,
      submit_signed_lem stellar horizon xdr i tx w.network r.testnet r.given parsed
          r.authorised.source r.hash,
    )

taken_found :
    (id hash : Text) (w : World Memory) (k : Text) (j : PaymentIntent)
    → get k w.store.intents ≡ some j
    → is_taken id hash j ≡ true
    → is_some (find_value (is_taken id hash) w.store.intents) ≡ true
taken_found id hash w k j held taken =
    elim (Option-cases (find_value (is_taken id hash) w.store.intents)) [
      | inl unused ↦
          let missed = find_value-none (is_taken id hash) w.store.intents k unused held in
          absurd (ground arith)
      | inr (other, used) ↦ ap is_some used
    ]

-- In a valid store, `submit` of an authorised transaction throws a conflict, sends nothing and
-- changes nothing if the intent holds another hash that is not empty, or if another intent holds
-- the hash of the transaction.
pub submit_conflict :
    (stellar : StellarService) (horizon : Horizon) (claim_time settle_time id xdr : Text)
    (w : World Memory) (i : PaymentIntent) (tx : Transaction)
    → IsValid w.store.intents
    → get id w.store.intents ≡ some i
    → parse_payment stellar.sdk xdr (some (native_payment i)) ≡ ok tx
    → ((h : Text) × (i.transaction_hash ≡ some h) × (is_empty h ≡ false) × (h ≢ to_hex tx.hash))
      ⊎ ((k : Text) × (j : PaymentIntent) × (get k w.store.intents ≡ some j)
          × (k ≢ id)
          × (j.transaction_hash ≡ some (to_hex tx.hash)))
    → (s : String) × (submit memory stellar horizon claim_time settle_time id xdr w
        ≡ (err (conflict s), w))
unfolding submit find_intent claim_hash ◌>>=◌
submit_conflict stellar horizon claim_time settle_time id xdr w i tx v found parsed
      (inl (h, bound, full, other)) =
    (
      "Intent is already bound to another transaction",
      ground (arith, text_eq_iff h (to_hex tx.hash)),
    )
submit_conflict stellar horizon claim_time settle_time id xdr w i tx v found parsed
      (inr (k, j, held, other, bound)) =
    elim (Bool-cases (is_bound_elsewhere i.transaction_hash (to_hex tx.hash))) [
      | inl elsewhere ↦ ("Intent is already bound to another transaction", ground arith)
      | inr free ↦
          let hash = to_hex tx.hash in
          let taken : is_taken id hash j ≡ true =
            ground (arith, v.keyed k j held, text_eq_iff j.id id, text_eq_refl hash) in
          (
            "Transaction already belongs to another intent",
            ground (arith, taken_found id hash w k j held taken),
          )
    ]

-- In a valid store, `submit` of the authorised transaction that an intent holds, once its status
-- is not PENDING, returns the intent with a new time of update, and sends nothing.
pub submit_final :
    (stellar : StellarService) (horizon : Horizon) (claim_time settle_time id xdr : Text)
    (w : World Memory) (i : PaymentIntent) (tx : Transaction)
    → IsValid w.store.intents
    → get id w.store.intents ≡ some i
    → parse_payment stellar.sdk xdr (some (native_payment i)) ≡ ok tx
    → i.transaction_hash ≡ some (to_hex tx.hash)
    → i.status ≢ pending
    → let (result, w') = submit memory stellar horizon claim_time settle_time id xdr w in
      (result ≡ ok (claimed claim_time (to_hex tx.hash) i)) × (w'.network ≡ w.network)
unfolding submit find_intent claim_hash ◌>>=◌
submit_final stellar horizon claim_time settle_time id xdr w i tx v found parsed bound left =
    let hash = to_hex tx.hash in
    let f : IsFree id hash w i = record {
      unbound = λ h e. cc;
      unused = λ k j held e. v.unshared k id j i hash held found e bound;
    } in
    ground (arith, free-unbound id hash w i f, free-unused id hash w i v f)

-- `reconcile` of an intent without a hash, or with a status that is not PENDING, returns it and
-- changes nothing.
pub reconcile_closed :
    (stellar : StellarService) (horizon : Horizon) (time id : Text) (m : Memory) (i : PaymentIntent)
    → get id m.intents ≡ some i
    → (i.transaction_hash ≡ none) ⊎ (i.status ≢ pending)
    → reconcile memory stellar horizon time id m ≡ (ok i, m)
unfolding reconcile find_intent ◌>>=◌
reconcile_closed stellar horizon time id m i found closed = ground arith
