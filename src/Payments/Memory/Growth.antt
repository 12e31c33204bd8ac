-- ===== src/Payments/Memory/Growth.antt =====
-- How the intents of the in-memory store may change: none goes away, a hash stays, and an outcome
-- stays.
use afri_pay.Base.{
  ◌≡◌, refl, ◌≢◌, ◌∙◌, inl, inr, none, some, arith, Text, text_eq, text_eq_iff, Map, get, set,
  get-set, find_value, Option-cases, Bool-cases, true, false, subst, sym, is_empty,
}
use afri_pay.Stellar.Service.{pending}
use afri_pay.Payments.{PaymentIntentStatus, PaymentIntent, is_pending}
use afri_pay.Payments.Memory.{
  Memory, has_key, create_intent, claim_hash, settle, is_bound_elsewhere, claimed, settled,
}
use afri_pay.Payments.Memory.Invariant.{claim_hash_cases, settle_cases}

-- `b` is a later version of the intent `a`.
pub record Extends (a b : PaymentIntent) : Type 0 where
  pub id : b.id ≡ a.id
  pub idempotency_key : b.idempotency_key ≡ a.idempotency_key
  pub sender : b.sender ≡ a.sender
  pub recipient : b.recipient ≡ a.recipient
  pub amount : b.amount ≡ a.amount
  pub asset : b.asset ≡ a.asset
  pub memo : b.memo ≡ a.memo
  pub created_at : b.created_at ≡ a.created_at
  pub bound :
      (h : Text) → a.transaction_hash ≡ some h → is_empty h ≡ false → b.transaction_hash ≡ some h
  pub final : a.status ≢ pending → b.status ≡ a.status

pub Extends-refl : (a : PaymentIntent) → Extends a a
Extends-refl a = record {
  id = refl;
  idempotency_key = refl;
  sender = refl;
  recipient = refl;
  amount = refl;
  asset = refl;
  memo = refl;
  created_at = refl;
  bound = λ h e _. e;
  final = λ _. refl;
}

pub Extends-trans : {a b c : PaymentIntent} → Extends a b → Extends b c → Extends a c
Extends-trans {a} {b} {c} p q = record {
  id = q.id ∙ p.id;
  idempotency_key = q.idempotency_key ∙ p.idempotency_key;
  sender = q.sender ∙ p.sender;
  recipient = q.recipient ∙ p.recipient;
  amount = q.amount ∙ p.amount;
  asset = q.asset ∙ p.asset;
  memo = q.memo ∙ p.memo;
  created_at = q.created_at ∙ p.created_at;
  bound = λ h e full. q.bound h (p.bound h e full) full;
  final = λ left. ground (arith, p.final left, q.final);
}

-- Every intent of the first map is in the second one, in this or a later version.
abbrev pub Grows : Map PaymentIntent → Map PaymentIntent → Type 0
Grows m n =
    (k : Text) (i : PaymentIntent)
    → get k m ≡ some i
    → (j : PaymentIntent) × (get k n ≡ some j) × Extends i j

pub Grows-refl : (m : Map PaymentIntent) → Grows m m
Grows-refl m k i g = (i, g, Extends-refl i)

pub Grows-trans : (l m n : Map PaymentIntent) → Grows l m → Grows m n → Grows l n
Grows-trans l m n p q k i g =
    let (j, g', e) = p k i g in let (c, g'', e') = q k j g' in (c, g'', Extends-trans e e')

-- Writing a later version of an intent, or one under a fresh id, makes the map grow.
set-Grows :
    (m : Map PaymentIntent) (id : Text) (new : PaymentIntent)
    → ((old : PaymentIntent) → get id m ≡ some old → Extends old new)
    → Grows m (set id new m)
set-Grows m id new later k i g = elim (Bool-cases (text_eq id k)) [
  | inl same ↦
      let e : id ≡ k = (text_eq_iff id k).0 same in
      (new, get-set id k new m ∙ (rw same), later i (subst (λ t. get t m ≡ some i) (sym e) g))
  | inr other ↦ (i, get-set id k new m ∙ (rw other g), Extends-refl i)
]

-- Creating an intent under a fresh id changes no other one.
pub create_intent-Grows :
    (intent : PaymentIntent) (m : Memory)
    → get intent.id m.intents ≡ none
    → Grows m.intents (create_intent intent m).1.intents
unfolding create_intent
create_intent-Grows intent m fresh =
    elim (Option-cases (find_value (has_key intent.idempotency_key) m.intents)) [
      | inl unused ↦
          rw (unused, create_intent)
            (set-Grows m.intents intent.id intent (λ old g. absurd (ground arith)))
      | inr (found, used) ↦ rw (used, create_intent) (Grows-refl m.intents)
    ]

claimed-Extends :
    (now hash : Text) (intent : PaymentIntent)
    → is_bound_elsewhere intent.transaction_hash hash ≡ false
    → Extends intent (claimed now hash intent)
claimed-Extends now hash intent free = record {
  id = refl;
  idempotency_key = refl;
  sender = refl;
  recipient = refl;
  amount = refl;
  asset = refl;
  memo = refl;
  created_at = refl;
  bound = λ h e full. ground (arith, text_eq_iff h hash);
  final = λ _. refl;
}

settled-Extends :
    (now : Text) (status : PaymentIntentStatus) (intent : PaymentIntent)
    → is_pending intent.status ≡ true
    → Extends intent (settled now status intent)
settled-Extends now status intent still = record {
  id = refl;
  idempotency_key = refl;
  sender = refl;
  recipient = refl;
  amount = refl;
  asset = refl;
  memo = refl;
  created_at = refl;
  bound = λ h e _. e;
  final = λ left. ground arith;
}

-- A claim binds a hash for good, and changes nothing else but the time of the update.
pub claim_hash-Grows :
    (now id hash : Text) (m : Memory) → Grows m.intents (claim_hash now id hash m).1.intents
claim_hash-Grows now id hash m = elim (claim_hash_cases now id hash m) [
  | inl kept ↦ rw kept (Grows-refl m.intents)
  | inr (intent, found, free, unused, written) ↦ rw written (
      set-Grows m.intents id (claimed now hash intent) (λ old g.
        subst (λ o. Extends o (claimed now hash intent)) (ground arith)
          (claimed-Extends now hash intent free)))
]

-- A settlement moves an intent out of PENDING, and never one that has left it.
pub settle-Grows :
    (now id hash : Text) (status : PaymentIntentStatus) (m : Memory)
    → Grows m.intents (settle now id hash status m).1.intents
settle-Grows now id hash status m = elim (settle_cases now id hash status m) [
  | inl kept ↦ rw kept (Grows-refl m.intents)
  | inr (intent, found, bound, still, written) ↦ rw written (
      set-Grows m.intents id (settled now status intent) (λ old g.
        subst (λ o. Extends o (settled now status intent)) (ground arith)
          (settled-Extends now status intent still)))
]
