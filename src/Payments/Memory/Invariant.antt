-- ===== src/Payments/Memory/Invariant.antt =====
-- What the in-memory store keeps: the uniqueness that idempotent creation and single settlement
-- rest on.
use afri_pay.Base.{
  ◌≡◌, refl, ◌≢◌, ◌⊎◌, inl, inr, true, false, none, some, arith, Text, text_eq_iff, text_eq_refl,
  Map, get, set, get-set, set-Distinct, Distinct, find_value, find_value-none, Option-cases,
  Bool-cases,
}
use afri_pay.Payments.{PaymentIntentStatus, PaymentIntent, is_pending}
use afri_pay.Stellar.Service.{pending}
use afri_pay.Payments.Memory.{
  Memory, has_key, create_intent, claim_hash, settle, has_hash, is_bound_elsewhere, claimed,
  settled, is_taken,
}

-- Every intent stands under its own id, two intents share neither an idempotency key nor a
-- transaction hash, and only an intent with a hash has left PENDING.
pub record IsValid (intents : Map PaymentIntent) : Type 0 where
  pub distinct : Distinct intents
  pub keyed : (k : Text) (i : PaymentIntent) → get k intents ≡ some i → i.id ≡ k
  pub idempotent :
      (j k : Text) (x y : PaymentIntent)
      → get j intents ≡ some x
      → get k intents ≡ some y
      → x.idempotency_key ≡ y.idempotency_key
      → j ≡ k
  pub unshared :
      (j k : Text) (x y : PaymentIntent) (h : Text)
      → get j intents ≡ some x
      → get k intents ≡ some y
      → x.transaction_hash ≡ some h
      → y.transaction_hash ≡ some h
      → j ≡ k
  pub settled_bound :
      (k : Text) (i : PaymentIntent)
      → get k intents ≡ some i
      → i.status ≢ pending
      → i.transaction_hash ≢ none

-- Writing one intent keeps the invariant if the new intent agrees with the others.
set-IsValid :
    (intents : Map PaymentIntent) (id : Text) (new : PaymentIntent)
    → IsValid intents
    → new.id ≡ id
    → ((k : Text) (y : PaymentIntent)
        → get k intents ≡ some y
        → k ≢ id
        → y.idempotency_key ≢ new.idempotency_key)
    → ((k : Text) (y : PaymentIntent) (h : Text)
        → get k intents ≡ some y
        → k ≢ id
        → new.transaction_hash ≡ some h
        → y.transaction_hash ≢ some h)
    → (new.status ≢ pending → new.transaction_hash ≢ none)
    → IsValid (set id new intents)
set-IsValid intents id new v same fresh_key fresh_hash bound = record {
  distinct = set-Distinct id new intents v.distinct;
  keyed = λ k i g. ground (arith, get-set id k new intents, text_eq_iff id k, v.keyed k i);
  idempotent = λ j k x y gx gy e. ground (
    arith,
    get-set id j new intents,
    get-set id k new intents,
    text_eq_iff id j,
    text_eq_iff id k,
    v.idempotent j k x y,
    fresh_key j x,
    fresh_key k y,
  );
  unshared = λ j k x y h gx gy ex ey. ground (
    arith,
    get-set id j new intents,
    get-set id k new intents,
    text_eq_iff id j,
    text_eq_iff id k,
    v.unshared j k x y h,
    fresh_hash j x h,
    fresh_hash k y h,
  );
  settled_bound =
      λ k i g left. ground (arith, get-set id k new intents, text_eq_iff id k, v.settled_bound k i);
}

-- On both branches of `createIntent`, given an intent that is PENDING and without a hash under a
-- fresh id, the store stays valid: keys and ids agree, idempotency keys and transaction hashes are
-- unique, and an intent that is not PENDING has a hash.
pub create_intent-IsValid :
    (intent : PaymentIntent) (m : Memory)
    → IsValid m.intents
    → get intent.id m.intents ≡ none
    → intent.status ≡ pending
    → intent.transaction_hash ≡ none
    → IsValid (create_intent intent m).1.intents
unfolding create_intent
create_intent-IsValid intent m v fresh new unbound =
    let same_key = has_key intent.idempotency_key in
    elim (Option-cases (find_value same_key m.intents)) [
      | inl unused ↦
          let free = λ (k : Text) (y : PaymentIntent) (g : get k m.intents ≡ some y).
            find_value-none same_key m.intents k unused g in
          rw (unused, create_intent)
            (set-IsValid m.intents intent.id intent v refl
              (λ k y g _.
                ground (arith, free k y g, text_eq_iff y.idempotency_key intent.idempotency_key))
              (λ k y h g _ e. ground arith) (λ left. absurd (left new)))
      | inr (found, used) ↦ rw (used, create_intent) v
    ]

-- A claim leaves the intents alone, or it writes the hash to an intent that has no other one.
pub claim_hash_cases :
    (now id hash : Text) (m : Memory)
    → ((claim_hash now id hash m).1.intents ≡ m.intents)
      ⊎ ((intent : PaymentIntent) × (get id m.intents ≡ some intent)
          × (is_bound_elsewhere intent.transaction_hash hash ≡ false)
          × (find_value (is_taken id hash) m.intents ≡ none)
          × ((claim_hash now id hash m).1.intents ≡ set id (claimed now hash intent) m.intents))
unfolding claim_hash
claim_hash_cases now id hash m = elim (Option-cases (get id m.intents)) [
  | inl missing ↦ inl (rw (missing, claim_hash))
  | inr (intent, found) ↦ elim (Bool-cases (is_bound_elsewhere intent.transaction_hash hash)) [
    | inl elsewhere ↦ inl (rw (found, claim_hash) (rw elsewhere))
    | inr free ↦ elim (Option-cases (find_value (is_taken id hash) m.intents)) [
      | inl unused ↦ inr (intent, found, free, unused, rw (found, claim_hash) (rw free (rw unused)))
      | inr (other, used) ↦ inl (rw (found, claim_hash) (rw free (rw used)))
    ]
  ]
]

-- A settlement leaves the intents alone, or it moves a PENDING intent with that hash.
pub settle_cases :
    (now id hash : Text) (status : PaymentIntentStatus) (m : Memory)
    → ((settle now id hash status m).1.intents ≡ m.intents)
      ⊎ ((intent : PaymentIntent) × (get id m.intents ≡ some intent)
          × (has_hash intent.transaction_hash hash ≡ true)
          × (is_pending intent.status ≡ true)
          × ((settle now id hash status m).1.intents
              ≡ set id (settled now status intent) m.intents))
unfolding settle
settle_cases now id hash status m = elim (Option-cases (get id m.intents)) [
  | inl missing ↦ inl (rw (missing, settle))
  | inr (intent, found) ↦ elim (Bool-cases (has_hash intent.transaction_hash hash)) [
    | inr other ↦ inl (rw (found, settle) (rw other))
    | inl bound ↦ elim (Bool-cases (is_pending intent.status)) [
      | inl still ↦ inr (intent, found, bound, still, rw (found, settle) (rw bound (rw still)))
      | inr left ↦ inl (rw (found, settle) (rw bound (rw left)))
    ]
  ]
]

-- On every branch of `claimHash`, the store stays valid: keys and ids agree, idempotency keys and
-- transaction hashes are unique, and an intent that is not PENDING has a hash.
pub claim_hash-IsValid :
    (now id hash : Text) (m : Memory)
    → IsValid m.intents
    → IsValid (claim_hash now id hash m).1.intents
unfolding claim_hash
claim_hash-IsValid now id hash m v = elim (claim_hash_cases now id hash m) [
  | inl kept ↦ rw kept v
  | inr (intent, found, free, unused, written) ↦ rw written (
      set-IsValid m.intents id (claimed now hash intent) v (v.keyed id intent found)
        (λ k y g other e. other (v.idempotent k id y intent g found e))
        (λ k y h g other e taken. ground (
          arith,
          find_value-none (is_taken id hash) m.intents k unused g,
          v.keyed k y g,
          text_eq_iff y.id id,
          text_eq_iff h hash,
          text_eq_refl hash,
        ))
        (λ left. cc))
]

-- On every branch of `settle`, the store stays valid: keys and ids agree, idempotency keys and
-- transaction hashes are unique, and an intent that is not PENDING has a hash.
pub settle-IsValid :
    (now id hash : Text) (status : PaymentIntentStatus) (m : Memory)
    → IsValid m.intents
    → IsValid (settle now id hash status m).1.intents
unfolding settle
settle-IsValid now id hash status m v = elim (settle_cases now id hash status m) [
  | inl kept ↦ rw kept v
  | inr (intent, found, bound, still, written) ↦ rw written (
      set-IsValid m.intents id (settled now status intent) v (v.keyed id intent found)
        (λ k y g other e. other (v.idempotent k id y intent g found e))
        (λ k y h g other e taken. other (v.unshared k id y intent h g found taken e))
        (λ left. ground arith))
]
