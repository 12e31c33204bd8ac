-- ===== src/Momo/Service/Retries.antt =====
-- A request for a payment whose external id the service holds: `requestToPay` of
-- backend/src/momo/momo.service.ts.
use afri_pay.Base.{
  ◌≡◌, refl, sym, ap, ◌∙◌, Bool, true, false, some, arith, Text, text_eq_iff, get, find_value,
  find_value-get, find_value-none, ok, err, conflict, Option-cases, Bool-cases, inl, inr, ◌↔◌, ◌⊎◌,
}
use afri_pay.Base.Actions.{◌>>=◌}
use afri_pay.Momo.{MomoTransactionType, MomoTransactionRecord, PaymentDto, same_type}
use afri_pay.Momo.Config.{Env}
use afri_pay.Momo.Memory.{Memory, memory, has_external_id, find_by_external_id}
use afri_pay.Momo.Memory.Invariant.{IsValid}
use afri_pay.Momo.Wire.{Provider, Times, World}
use afri_pay.Momo.Service.{request_to_pay, differs, replay}

type_iff :
    (t : MomoTransactionType)
    → (same_type t MomoTransactionType.collection ≡ true) ↔ (t ≡ MomoTransactionType.collection)
type_iff MomoTransactionType.collection = (λ e. refl, λ e. refl)
type_iff MomoTransactionType.disbursement = (λ e. absurd (cc), λ e. absurd (cc))

has_external_id_iff :
    (external_id : Text) (r : MomoTransactionRecord)
    → (has_external_id external_id MomoTransactionType.collection r ≡ true)
      ↔ ((r.external_id ≡ external_id) × (r.tx_type ≡ MomoTransactionType.collection))
has_external_id_iff external_id r = (
  λ e. ground (arith, text_eq_iff r.external_id external_id, type_iff r.tx_type),
  λ e. ground (arith, text_eq_iff r.external_id external_id, type_iff r.tx_type),
)

-- A valid store finds the collection that it holds under an external id.
found_collection :
    (m : Memory) (id : Text) {r : MomoTransactionRecord}
    → IsValid m
    → get id m ≡ some r
    → r.tx_type ≡ MomoTransactionType.collection
    → find_value (has_external_id r.external_id MomoTransactionType.collection) m ≡ some r
found_collection m id {r} v holds kind =
    let p = has_external_id r.external_id MomoTransactionType.collection in
    let hit : p r ≡ true = (has_external_id_iff r.external_id r).1 (refl, kind) in
    elim (Option-cases (find_value p m)) [
      | inl nothing ↦ let miss = find_value-none p m id nothing holds in absurd (cc)
      | inr (s, found) ↦
          let (k, there, good) = find_value-get p m v.distinct found in
          let (same_id, same_kind) = (has_external_id_iff r.external_id s).0 good in
          let same = v.unique k id s r there holds (same_kind ∙ sym kind) same_id in cc
    ]

module _ (env : Env) (provider : Provider) (same_number : Text → Text → Bool) where
  -- The same payment as the one that is held.
  abbrev pub IsSame : MomoTransactionRecord → PaymentDto → Type 0
  IsSame r dto =
      (same_number r.amount dto.amount ≡ true)
      × (r.currency ≡ dto.currency)
      × (r.party_id ≡ dto.msisdn)

  differs_iff :
      (r : MomoTransactionRecord) (dto : PaymentDto)
      → (differs same_number r dto ≡ false) ↔ IsSame r dto
  unfolding differs
  differs_iff r dto =
      ground (arith, text_eq_iff r.currency dto.currency, text_eq_iff r.party_id dto.msisdn)

  replayed :
      (times : Times) (reference_id : Text) (dto : PaymentDto) (w : World Memory)
      (r : MomoTransactionRecord)
      → find_value (has_external_id dto.external_id MomoTransactionType.collection) w.store ≡ some r
      → request_to_pay memory env provider same_number times reference_id dto w
        ≡ (replay same_number dto r, w)
  unfolding request_to_pay find_by_external_id ◌>>=◌
  replayed times reference_id dto w r held = rw held refl

  replay_cases :
      (dto : PaymentDto) (r : MomoTransactionRecord)
      → ((replay same_number dto r ≡ ok r) × IsSame r dto)
        ⊎ ((replay same_number dto r
              ≡ err (conflict "Reference reused with different payment details"))
            × ¬ IsSame r dto)
  unfolding replay
  replay_cases dto r = elim (Bool-cases (differs same_number r dto)) [
    | inl other ↦ inr (rw other refl, λ same. let e = (differs_iff r dto).1 same in absurd (cc))
    | inr same ↦ inl (rw same refl, (differs_iff r dto).0 same)
  ]

  -- `requestToPay` with the external id of a collection in a valid store changes nothing and asks
  -- the provider for nothing: it returns that record if its amount is the same number and its
  -- currency and payer are those of the request, and a conflict if not.
  pub request_to_pay_retry :
      (times : Times) (reference_id : Text) (dto : PaymentDto) (w : World Memory) (id : Text)
      {r : MomoTransactionRecord}
      → IsValid w.store
      → get id w.store ≡ some r
      → r.tx_type ≡ MomoTransactionType.collection
      → r.external_id ≡ dto.external_id
      → let out = request_to_pay memory env provider same_number times reference_id dto w in
        (out.1 ≡ w)
        × (((out.0 ≡ ok r) × IsSame r dto)
            ⊎ ((out.0 ≡ err (conflict "Reference reused with different payment details"))
                × ¬ IsSame r dto))
  request_to_pay_retry times reference_id dto w id {r} v holds kind same =
      let found = found_collection w.store id v holds kind in
      let held =
        ap (λ x. find_value (has_external_id x MomoTransactionType.collection) w.store) (sym same)
        ∙ found in
      rw (replayed times reference_id dto w r held) (refl, replay_cases dto r)
