-- ===== src/Payments/Service/Steps.antt =====
-- The service's methods are paths of the step relation, so what holds of every interleaving holds of
-- them.
use afri_pay.Base.{
  ◌≡◌, refl, ◌⊎◌, inl, inr, sym, ap, ◌∙◌, List, [], false, ◌∷◌, Option, none, some, arith, ℕ, Text,
  is_empty, get, get-set_self, ok, Option-cases, length,
}
use afri_pay.Base.Actions.{
  Action, ◌>>=◌, pure, Ends, Ends-pure, Ends-bind_lift, Ends-modify, Ends-if, Ends-bind_to,
}
use afri_pay.Stellar.Sdk.{Sdk, Transaction, transaction, to_hex}
use afri_pay.Stellar.Validation.{NativePayment, parse_payment}
use afri_pay.Stellar.Validation.Accepts.{parse_payment_iff}
use afri_pay.Stellar.Service.{StellarService, Horizon, Network, submit_signed_transaction}
use afri_pay.Payments.{PaymentIntent, native_payment, is_pending}
use afri_pay.Payments.Memory.{Memory, memory, find_intent, claim_hash, create_intent}
use afri_pay.Payments.Input.{CreateInput, new_intent}
use afri_pay.Payments.Service.{
  World, on_store, on_network, get_intent, create, submit, open_hash, reconcile,
}
use afri_pay.Payments.History.{
  IsBound, with_store, creates, claims, sends, settles, Reach, here, next,
}

-- Reading an intent changes nothing.
get_intent_keeps : (id : Text) (m : Memory) → (get_intent memory id m).1 ≡ m
unfolding get_intent find_intent ◌>>=◌
get_intent_keeps id m = refl

-- What the claim of a request has written stays for its next step.
claim_hash-IsBound :
    (now id hash : Text) (m : Memory) {i : PaymentIntent}
    → (claim_hash now id hash m).0 ≡ ok i
    → is_empty hash ≡ false
    → IsBound (claim_hash now id hash m).1.intents hash
unfolding claim_hash
claim_hash-IsBound now id hash m {i} e full =
    (id, i, ground (arith, get-set_self id i m.intents), ground arith, full)

-- The network sees nothing, or the transaction that was parsed.
submit_signed_cases :
    (stellar : StellarService) (horizon : Horizon) (xdr : Text) (key : Option Text)
    (p : Option NativePayment) (n : Network)
    → ((submit_signed_transaction stellar horizon xdr key p n).1 ≡ n)
      ⊎ ((tx : Transaction) × (parse_payment stellar.sdk xdr p ≡ ok tx)
          × ((submit_signed_transaction stellar horizon xdr key p n).1 ≡ to_hex tx.hash ∷ n))
unfolding submit_signed_transaction
submit_signed_cases stellar horizon xdr key p n =
    let P = λ (n' : Network).
      (n' ≡ n)
      ⊎ ((tx : Transaction) × (parse_payment stellar.sdk xdr p ≡ ok tx)
          × (n' ≡ to_hex tx.hash ∷ n)) in
    let ends : Ends P (submit_signed_transaction stellar horizon xdr key p) n =
      Ends-bind_lift _ _ n (inl refl) λ _ _. Ends-bind_lift _ _ n (inl refl) λ _ _.
        Ends-bind_lift _ _ n (inl refl) λ tx e. Ends-bind_lift _ _ n (inl refl) λ _ _.
          Ends-modify _ _ n (
            Ends-bind_lift _ _ _ (inr (tx, e, refl))
              λ status _. Ends-pure _ _ (inr (tx, e, refl))) in
    ends.at

-- Transaction hashes are SHA-256 digests.
abbrev pub HasDigests : Sdk → Type 0
HasDigests sdk =
    (xdr : Text) (tx : Transaction) → sdk.from_xdr xdr ≡ some (transaction tx) → length tx.hash ≡ 32

-- A method of the store, seen from the world.
on_store_state :
    {A : Type 0} (m : Action Memory A) (w : World Memory) {t : Memory}
    → (m w.store).1 ≡ t
    → (on_store m w).1 ≡ with_store t w
unfolding ◌>>=◌
on_store_state m w e = rw e

Ends-on_store :
    {A : Type 0} {P : World Memory → Type 0} (m : Action Memory A) (w : World Memory)
    → P (with_store (m w.store).1 w)
    → Ends P (on_store m) w
unfolding ◌>>=◌
Ends-on_store m w h = record { at = h }

on_store_result :
    {A : Type 0} (m : Action Memory A) (w : World Memory) → (on_store m w).0 ≡ (m w.store).0
unfolding ◌>>=◌
on_store_result m w = refl

on_network_state :
    {A : Type 0} (m : Action Network A) (w : World Memory) {n : Network}
    → (m w.network).1 ≡ n
    → (on_network m w).1 ≡ record w { network = n }
unfolding ◌>>=◌
on_network_state m w e = rw e

parsed-filled :
    (sdk : Sdk) (xdr : Text) (p : NativePayment) (tx : Transaction)
    → HasDigests sdk
    → parse_payment sdk xdr (some p) ≡ ok tx
    → is_empty (to_hex tx.hash) ≡ false
unfolding to_hex
parsed-filled sdk xdr p tx digests e =
    filled tx.hash (digests xdr tx ((parse_payment_iff sdk xdr p tx).0 e).0)
  where
    filled : (hash : List ℕ) → length hash ≡ 32 → is_empty (to_hex hash) ≡ false
    filled [] h = absurd (omega arith)
    filled (b ∷ bs) h = refl

-- The part of `submit` after the claim.
submit_claimed :
    (stellar : StellarService) (horizon : Horizon) (time id xdr : Text) (p : NativePayment)
    (tx : Transaction) (key : Option Text) (w u : World Memory)
    → Reach w u
    → parse_payment stellar.sdk xdr (some p) ≡ ok tx
    → IsBound u.store.intents (to_hex tx.hash)
    → Ends
        (Reach w)
        (on_network (submit_signed_transaction stellar horizon xdr key (some p)) >>= λ result.
          on_store (memory.settle time id (to_hex tx.hash) result.status))
        u
submit_claimed stellar horizon time id xdr p tx key w u r parsed bound =
    elim (submit_signed_cases stellar horizon xdr key (some p) u.network) [
      | inl unseen ↦
          Ends-bind_to _ _ u u (on_network_state _ u unseen) r
            λ result _. Ends-on_store _ u (next r (settles time id (to_hex tx.hash) result.status))
      | inr (tx', parsed', seen) ↦
          let same : tx' ≡ tx = cc in
          let v : World Memory = record u { network = to_hex tx.hash ∷ u.network } in
          let send = submit_signed_transaction stellar horizon xdr key (some p) in
          let seen' : (send u.network).1 ≡ to_hex tx.hash ∷ u.network =
            seen ∙ ap (λ x. to_hex x.hash ∷ u.network) same in
          Ends-bind_to _ _ u v (on_network_state _ u seen') (next r (sends (to_hex tx.hash) bound))
            λ result _. Ends-on_store _ v (
              next (next r (sends (to_hex tx.hash) bound))
                (settles time id (to_hex tx.hash) result.status))
    ]

-- Whether `submit` returns or throws, the state that it leaves is reached by steps, in which a
-- hash is bound before its transaction is sent. Transaction hashes have 32 bytes.
pub submit-Reach :
    (stellar : StellarService) (horizon : Horizon) (claim_time settle_time id xdr : Text)
    (w : World Memory)
    → HasDigests stellar.sdk
    → Reach w (submit memory stellar horizon claim_time settle_time id xdr w).1
unfolding submit
submit-Reach stellar horizon claim_time settle_time id xdr w digests =
    let ends : Ends (Reach w) (submit memory stellar horizon claim_time settle_time id xdr) w =
      Ends-bind_to _ _ w w (on_store_state _ w (get_intent_keeps id w.store)) here λ intent _.
        Ends-bind_lift _ _ w here λ tx parsed.
          let hash = to_hex tx.hash in
          let u : World Memory = with_store (claim_hash claim_time id hash w.store).1 w in
          let r : Reach w u = next here (claims claim_time id hash) in
          Ends-bind_to _ _ w u (on_store_state _ w refl) r λ claimed granted.
            Ends-if (is_pending claimed.status) _ (pure claimed) u
              (λ still.
                submit_claimed stellar horizon settle_time id xdr (native_payment intent) tx
                  (some intent.sender) w u r parsed
                  (claim_hash-IsBound claim_time id hash w.store
                    (sym (on_store_result (claim_hash claim_time id hash) w) ∙ granted)
                    (parsed-filled stellar.sdk xdr (native_payment intent) tx digests parsed)))
              (λ left. Ends-pure claimed u r) in
    ends.at

-- Whether `create` returns or throws, the state that it leaves is reached by steps, if its
-- identifier is fresh.
pub create-Reach :
    (sdk : Sdk) (id now : Text) (input : CreateInput) (w : World Memory)
    → get id w.store.intents ≡ none
    → Reach w (on_store (create memory sdk id now input) w).1
unfolding create
create-Reach sdk id now input w fresh =
    let m = w.store in
    let saved = (create_intent (new_intent id now input) m).1 in
    let r : Reach w (with_store saved w) =
      next here (creates (new_intent id now input) fresh refl refl) in
    let P = λ (t : Memory). Reach w (with_store t w) in
    let ends : Ends P (create memory sdk id now input) m = Ends-bind_lift _ _ m here λ _ _.
      Ends-bind_lift _ _ m here λ _ _. Ends-bind_to _ _ m saved refl r λ found _.
        Ends-bind_lift _ _ saved r
          λ differs _. Ends-bind_lift _ _ saved r λ _ _. Ends-pure found saved r in
    (Ends-on_store {P = Reach w} (create memory sdk id now input) w ends.at).at

-- Whether `reconcile` returns or throws, the state that it leaves is reached by steps.
pub reconcile-Reach :
    (stellar : StellarService) (horizon : Horizon) (time id : Text) (w : World Memory)
    → Reach w (on_store (reconcile memory stellar horizon time id) w).1
unfolding reconcile
reconcile-Reach stellar horizon time id w =
    let m = w.store in
    let P = λ (t : Memory). Reach w (with_store t w) in
    let ends : Ends P (reconcile memory stellar horizon time id) m =
      Ends-bind_to _ _ m m (get_intent_keeps id m) here λ intent _.
        elim (Option-cases (open_hash intent)) [
          | inl closed ↦ rw closed (Ends-pure intent m here)
          | inr (hash, waiting) ↦ rw waiting (
              Ends-bind_lift _ _ m here
                λ status _. record { at = next here (settles time id hash status) })
        ] in
    (Ends-on_store {P = Reach w} (reconcile memory stellar horizon time id) w ends.at).at
