-- ===== src/Browser/Send/Handlers.antt =====
-- What `prepare` and `confirm` of frontend/src/components/wallet/SendFlow.tsx change.
use afri_pay.Base.{
  ℕ, ◌≡◌, refl, inl, inr, Bool, true, false, ◌||◌, Option, none, some, arith, Text, is_empty,
  text_eq_iff, Bool-cases, Result-cases, if◌then◌else◌,
}
use afri_pay.Browser.Sign.{Signer, sign_transaction_xdr}
use afri_pay.Browser.Send.{
  Review, SignedPayment, Send, WalletView, IntentRequest, Storage, recorded, reload_pending,
  pending_payment_key, with_error, set_item, working,
}
use afri_pay.Browser.Send.Form.{Exceeds, prepare, can_prepare, prepare_as, prepare_for}
use afri_pay.Browser.Send.Confirm.{
  confirm, shown_payment, confirm_with, confirm_shown, confirm_signed,
}

-- What `prepare` leaves alone, and when it asks.
pub record Kept (address : Option Text) (s : Send) (out : Send × Option IntentRequest)
    : Type 0 where
  pub pending : out.0.pending_payment ≡ s.pending_payment
  pub review : out.0.review ≡ s.review
  pub storage : out.0.storage ≡ s.storage
  pub asks : (q : IntentRequest) → out.1 ≡ some q → recorded address s.storage ≡ none

Kept-same :
    (address : Option Text) (s s' : Send)
    → s'.pending_payment ≡ s.pending_payment
    → s'.review ≡ s.review
    → s'.storage ≡ s.storage
    → Kept address s (s', none)
Kept-same address s s' p r k = record {
  pending = p;
  review = r;
  storage = k;
  asks = λ q h. absurd (cc);
}

Kept-prepare_for :
    (address : Text) (o : Option Text) (s : Send)
    → recorded (some address) s.storage ≡ o
    → Kept (some address) s (prepare_for address o s)
unfolding reload_pending
Kept-prepare_for address (some id) s e =
    Kept-same (some address) s (prepare_for address (some id) s).0 refl refl refl
Kept-prepare_for address none s e = record {
  pending = refl;
  review = refl;
  storage = refl;
  asks = λ q h. e;
}

Kept-if :
    (address : Option Text) (s : Send) (b : Bool) (x y : Send × Option IntentRequest)
    → Kept address s x
    → Kept address s y
    → Kept address s (if b then x else y)
Kept-if address s true x y h k = h
Kept-if address s false x y h k = k

Kept-prepare_as : (address : Option Text) (s : Send) → Kept address s (prepare_as address s)
Kept-prepare_as none s = Kept-same none s (prepare_as none s).0 refl refl refl
Kept-prepare_as (some address) s =
    Kept-if (some address) s (is_empty address) _ _
      (Kept-same (some address) s (with_error "Unlock your wallet before sending." s) refl refl
        refl)
      (Kept-prepare_for address (recorded (some address) s.storage) s refl)

pub Kept-prepare :
    (signer : Signer) (exceeds : Exceeds) (wallet : WalletView) (s : Send)
    → Kept wallet.address s (prepare signer exceeds wallet s)
unfolding prepare
Kept-prepare signer exceeds wallet s =
    let tried = record s { attempted = true } in
    let k = Kept-prepare_as wallet.address tried in
    Kept-if wallet.address s s.busy _ _ (Kept-same wallet.address s s refl refl refl) (
      Kept-if wallet.address s (can_prepare signer exceeds wallet s) _ _
        (record { pending = k.pending; review = k.review; storage = k.storage; asks = k.asks })
        (Kept-same wallet.address s tried refl refl refl))

-- How `confirm` ends: with no request, with the envelope that is in memory, or with a new one, which
-- is then in memory and whose identifier is recorded.
pub record Unmoved (s s' : Send) : Type 0 where
  pub pending : s'.pending_payment ≡ s.pending_payment
  pub review : s'.review ≡ s.review
  pub storage : s'.storage ≡ s.storage
  pub result : s'.result ≡ s.result

pub data Confirmed (address : Option Text) (s : Send) (out : Send × Option SignedPayment)
    : Type 0 where
  refused :
      out.1 ≡ none → Unmoved s out.0 → (s.busy ≡ true → out.0.busy ≡ true) → Confirmed address s out
  repeated :
      (p : SignedPayment)
      → s.pending_payment ≡ some p
      → out.1 ≡ some p
      → Unmoved s out.0
      → out.0.busy ≡ true
      → Confirmed address s out
  signs :
      (p : SignedPayment)
      → s.pending_payment ≡ none
      → out.1 ≡ some p
      → out.0.pending_payment ≡ some p
      → out.0.review ≡ s.review
      → out.0.result ≡ s.result
      → out.0.busy ≡ true
      → (is_empty p.id ≡ false → recorded address out.0.storage ≡ some p.id)
      → Confirmed address s out

recorded-remember :
    (address id : Text) (storage : Storage)
    → is_empty address ≡ false
    → is_empty id ≡ false
    → recorded (some address) (set_item (pending_payment_key address) id storage) ≡ some id
unfolding recorded
recorded-remember address id storage a i =
    rw (a, (text_eq_iff (pending_payment_key address) (pending_payment_key address)).1 refl, i) refl

Confirmed-signed :
    (signer : Signer) (now : ℕ) (address secret : Text) (r : Review) (o : Option SignedPayment)
    (s : Send)
    → s.busy ≡ false
    → is_empty address ≡ false
    → s.pending_payment ≡ o
    → Confirmed (some address) s (confirm_signed signer now address secret r o (working s))
Confirmed-signed signer now address secret r (some p) s free a e =
    repeated p e refl (record { pending = refl; review = refl; storage = refl; result = refl }) refl
Confirmed-signed signer now address secret r none s free a e =
    elim (Result-cases (sign_transaction_xdr signer now secret r.xdr (shown_payment r))) [
      | inr (x, failed) ↦
          rw (failed, confirm_signed)
            (refused refl (record { pending = refl; review = refl; storage = refl; result = refl })
              (λ b. absurd (cc)))
      | inl (xdr, ok_xdr) ↦
          let p : SignedPayment = record { id = r.id; signed_xdr = xdr } in
          rw (ok_xdr, confirm_signed)
            (signs p e refl refl refl refl refl (λ i. recorded-remember address r.id s.storage a i))
    ]

Confirmed-refused :
    (address : Option Text) (s : Send)
    → Confirmed address s (with_error "Unlock your wallet before signing." s, none)
Confirmed-refused address s =
    refused refl (record { pending = refl; review = refl; storage = refl; result = refl }) (λ b. b)

Confirmed-same : (address : Option Text) (s : Send) → Confirmed address s (s, none)
Confirmed-same address s =
    refused refl (record { pending = refl; review = refl; storage = refl; result = refl }) (λ b. b)

Confirmed-with :
    (signer : Signer) (now : ℕ) (address secret : Option Text) (r : Review) (s : Send)
    → s.busy ≡ false
    → Confirmed address s (confirm_with signer now address secret r s)
Confirmed-with signer now none secret r s free = Confirmed-refused none s
Confirmed-with signer now (some address) none r s free = Confirmed-refused (some address) s
Confirmed-with signer now (some address) (some secret) r s free =
    elim (Bool-cases (is_empty address || is_empty secret)) [
      | inl e ↦ rw e (Confirmed-refused (some address) s)
      | inr e ↦ rw e (
          Confirmed-signed signer now address secret r s.pending_payment s free (ground arith) refl)
    ]

Confirmed-shown :
    (signer : Signer) (now : ℕ) (wallet : WalletView) (o : Option Review) (s : Send)
    → Confirmed wallet.address s (confirm_shown signer now wallet o s)
Confirmed-shown signer now wallet none s = Confirmed-same wallet.address s
Confirmed-shown signer now wallet (some r) s = elim (Bool-cases s.busy) [
  | inl e ↦ simp e (Confirmed-same wallet.address s)
  | inr e ↦ simp e (Confirmed-with signer now wallet.address wallet.secret r s e)
]

pub Confirmed-confirm :
    (signer : Signer) (now : ℕ) (wallet : WalletView) (s : Send)
    → Confirmed wallet.address s (confirm signer now wallet s)
unfolding confirm
Confirmed-confirm signer now wallet s = Confirmed-shown signer now wallet s.review s
