-- ===== src/Payments/History.antt =====
-- Interleavings of requests on the in-memory store: each step is one call of the store or of the
-- network, between two of which a server may serve other requests.
use afri_pay.Base.{◌≡◌, false, List, [], ◌∷◌, none, some, Text, is_empty, get, Map, All}
use afri_pay.Stellar.Service.{pending}
use afri_pay.Payments.{PaymentIntentStatus, PaymentIntent, PaymentLink}
use afri_pay.Payments.Memory.{Memory, create_intent, claim_hash, settle, save_link}
use afri_pay.Payments.Memory.Invariant.{
  IsValid, create_intent-IsValid, claim_hash-IsValid, settle-IsValid,
}
use afri_pay.Payments.Memory.Growth.{
  Grows, Grows-refl, Grows-trans, create_intent-Grows, claim_hash-Grows, settle-Grows,
}
use afri_pay.Payments.Service.{World}

-- Some intent holds the hash.
abbrev pub IsBound : Map PaymentIntent → Text → Type 0
IsBound intents hash =
    (k : Text) × (i : PaymentIntent) × (get k intents ≡ some i)
    × (i.transaction_hash ≡ some hash)
    × (is_empty hash ≡ false)

abbrev pub with_store : Memory → World Memory → World Memory
with_store m w = record w { store = m }

-- A request may send a transaction once its hash is bound.
pub data Step (w : World Memory) : World Memory → Type 0 where
  creates :
      (intent : PaymentIntent)
      → get intent.id w.store.intents ≡ none
      → intent.status ≡ pending
      → intent.transaction_hash ≡ none
      → Step w (with_store (create_intent intent w.store).1 w)
  claims : (now id hash : Text) → Step w (with_store (claim_hash now id hash w.store).1 w)
  sends :
      (hash : Text)
      → IsBound w.store.intents hash
      → Step w (record w { network = hash ∷ w.network })
  settles :
      (now id hash : Text) (status : PaymentIntentStatus)
      → Step w (with_store (settle now id hash status w.store).1 w)
  saves : (l : PaymentLink) → Step w (with_store (save_link l w.store).1 w)

pub data Reach (w : World Memory) : World Memory → Type 0 where
  here : Reach w w
  next : {u v : World Memory} → Reach w u → Step u v → Reach w v

pub Reach-trans : {u v w : World Memory} → Reach u v → Reach v w → Reach u w
Reach-trans r here = r
Reach-trans r (next s step) = next (Reach-trans r s) step

-- The store is valid, and every transaction that was sent is bound to an intent.
pub record IsSound (w : World Memory) : Type 0 where
  pub valid : IsValid w.store.intents
  pub recorded : All (IsBound w.store.intents) w.network

IsBound-Grows :
    (m n : Map PaymentIntent) (hash : Text) → Grows m n → IsBound m hash → IsBound n hash
IsBound-Grows m n hash g (k, i, found, bound, full) =
    let (j, found', later) = g k i found in (k, j, found', later.bound hash bound full, full)

recorded-Grows :
    (m n : Map PaymentIntent) (sent : List Text)
    → Grows m n
    → All (IsBound m) sent
    → All (IsBound n) sent
recorded-Grows m n [] g h = tt
recorded-Grows m n (hash ∷ sent) g (h, hs) =
    (IsBound-Grows m n hash g h, recorded-Grows m n sent g hs)

Step-Grows : {u v : World Memory} → Step u v → Grows u.store.intents v.store.intents
unfolding save_link
Step-Grows {u} (creates intent fresh new unbound) = create_intent-Grows intent u.store fresh
Step-Grows {u} (claims now id hash) = claim_hash-Grows now id hash u.store
Step-Grows {u} (sends hash bound) = Grows-refl u.store.intents
Step-Grows {u} (settles now id hash status) = settle-Grows now id hash status u.store
Step-Grows {u} (saves l) = Grows-refl u.store.intents

Step-IsValid : {u v : World Memory} → Step u v → IsValid u.store.intents → IsValid v.store.intents
unfolding save_link
Step-IsValid {u} (creates intent fresh new unbound) s =
    create_intent-IsValid intent u.store s fresh new unbound
Step-IsValid {u} (claims now id hash) s = claim_hash-IsValid now id hash u.store s
Step-IsValid {u} (sends hash bound) s = s
Step-IsValid {u} (settles now id hash status) s = settle-IsValid now id hash status u.store s
Step-IsValid {u} (saves l) s = s

Step-recorded :
    {u v : World Memory}
    → Step u v
    → All (IsBound v.store.intents) u.network
    → All (IsBound v.store.intents) v.network
Step-recorded (creates intent fresh new unbound) h = h
Step-recorded (claims now id hash) h = h
Step-recorded (sends hash bound) h = (bound, h)
Step-recorded (settles now id hash status) h = h
Step-recorded (saves l) h = h

Step-IsSound : {u v : World Memory} → Step u v → IsSound u → IsSound v
Step-IsSound {u} {v} step s = record {
  valid = Step-IsValid step s.valid;
  recorded =
      Step-recorded step
        (recorded-Grows u.store.intents v.store.intents u.network (Step-Grows step) s.recorded);
}

-- In every state that steps of the in-memory store and the network reach from a sound one, in any
-- order: keys and ids agree, idempotency keys and transaction hashes are unique, an intent that is
-- not PENDING has a hash, and every transaction that was sent is bound to an intent. A step
-- creates a PENDING intent without a hash under a fresh id, claims a hash, sends a transaction
-- whose hash is bound, settles, or saves a link.
pub Reach-IsSound : {u v : World Memory} → Reach u v → IsSound u → IsSound v
Reach-IsSound here s = s
Reach-IsSound (next r step) s = Step-IsSound step (Reach-IsSound r s)

-- Over any steps of the in-memory store and the network, no intent goes away or changes its id,
-- idempotency key, parties, amount, asset, memo or time of creation; a hash that is not empty
-- stays, and so does a status that is not PENDING.
pub Reach-Grows : {u v : World Memory} → Reach u v → Grows u.store.intents v.store.intents
Reach-Grows {u} here = Grows-refl u.store.intents
Reach-Grows {u} {v} (next {u = t} r step) =
    Grows-trans u.store.intents t.store.intents v.store.intents (Reach-Grows r) (Step-Grows step)
