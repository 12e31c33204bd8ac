-- ===== src/Momo/Service/Answers.antt =====
-- What the service answers to the provider's callback: backend/src/momo/momo.service.ts.
use afri_pay.Base.{
  ◌≡◌, Bool, true, false, some, if◌then◌else◌, arith, Text, text_eq, text_eq_iff, get, get-set,
  get-set_self, set, Result-cases, find_value, ok, Option-cases, inl, inr,
}
use afri_pay.Base.Actions.{◌>>=◌}
use afri_pay.Momo.{
  MomoTransactionType, MomoTransactionStatus, MomoTransactionRecord, MomoStatusResource,
  StatusPatch, read_status,
}
use afri_pay.Momo.Config.{Env}
use afri_pay.Momo.Memory.{
  Memory, memory, has_external_id, find, find_reference_id_by_external_id, upsert_status, patched,
  is_refused, reference_of,
}
use afri_pay.Momo.Wire.{Provider, Times, World, reason_text, expect_reference}
use afri_pay.Momo.Service.{apply_callback, validate_resource}

module _ (env : Env) (provider : Provider) (same_number : Text → Text → Bool) where
  -- What a callback is accepted for.
  pub record Settles (times : Times) (tx_type : MomoTransactionType) (payload : MomoStatusResource)
      (m m' : Memory) (r : MomoTransactionRecord) : Type 0 where
    pub old : MomoTransactionRecord
    pub id : Text
    pub status : MomoTransactionStatus
    pub holds : get id m ≡ some old
    pub external_id : payload.external_id ≡ old.external_id
    pub currency : payload.currency ≡ old.currency
    pub amount : same_number payload.amount old.amount ≡ true
    pub read : read_status payload.status ≡ some status
    pub answer : r ≡ (
        if is_refused old (record { status = status; reason = reason_text payload.reason })
        then old
        else patched times.updated
            (record { status = status; reason = reason_text payload.reason })
            old)
    pub kept : get id m' ≡ some r
    pub others : (j : Text) → text_eq id j ≡ false → get j m' ≡ get j m

  validate_resource_sound :
      (payload : MomoStatusResource) (old : MomoTransactionRecord) {status : MomoTransactionStatus}
      → validate_resource same_number (some payload) (some old) ≡ ok status
      → (read_status payload.status ≡ some status)
        × (payload.external_id ≡ old.external_id)
        × (payload.currency ≡ old.currency)
        × (same_number payload.amount old.amount ≡ true)
  unfolding validate_resource
  validate_resource_sound payload old e = ground (
    arith,
    text_eq_iff payload.external_id old.external_id,
    text_eq_iff payload.currency old.currency,
  )

  -- The method once its three checks have passed.
  apply_callback_run :
      (times : Times) (tx_type : MomoTransactionType) (payload : MomoStatusResource)
      (w : World Memory) (id : Text) (old : MomoTransactionRecord) (status : MomoTransactionStatus)
      → expect_reference
          (reference_of (find_value (has_external_id payload.external_id tx_type) w.store))
        ≡ ok id
      → get id w.store ≡ some old
      → validate_resource same_number (some payload) (some old) ≡ ok status
      → apply_callback memory env provider same_number times tx_type payload w ≡ (
          if is_refused old (record { status = status; reason = reason_text payload.reason })
          then (ok old, w)
          else (
            ok (
                patched times.updated
                  (record { status = status; reason = reason_text payload.reason })
                  old),
            record w {
              store =
                  set id
                    (patched times.updated
                      (record { status = status; reason = reason_text payload.reason })
                      old)
                    w.store;
            },
          ))
  unfolding apply_callback ◌>>=◌ find find_reference_id_by_external_id upsert_status
  apply_callback_run times tx_type payload w id old status e1 e2 e3 = ground arith

  -- A callback that is answered with a record has passed them.
  apply_callback_checks :
      (times : Times) (tx_type : MomoTransactionType) (payload : MomoStatusResource)
      (w : World Memory) {r : MomoTransactionRecord}
      → (apply_callback memory env provider same_number times tx_type payload w).0 ≡ ok r
      → (id : Text) × (old : MomoTransactionRecord) × (status : MomoTransactionStatus)
        × (expect_reference
              (reference_of (find_value (has_external_id payload.external_id tx_type) w.store))
            ≡ ok id)
        × (get id w.store ≡ some old)
        × (validate_resource same_number (some payload) (some old) ≡ ok status)
  unfolding apply_callback ◌>>=◌ find find_reference_id_by_external_id validate_resource
  apply_callback_checks times tx_type payload w e =
      elim (Result-cases (
        expect_reference
          (reference_of (find_value (has_external_id payload.external_id tx_type) w.store)))) [
            | inr (x, e1) ↦ absurd (ground arith)
            | inl (id, e1) ↦ elim (Option-cases (get id w.store)) [
              | inl e2 ↦ absurd (ground arith)
              | inr (old, e2) ↦
                  elim (Result-cases (validate_resource same_number (some payload) (some old))) [
                    | inr (x, e3) ↦ absurd (ground arith)
                    | inl (status, e3) ↦ (id, old, status, e1, e2, e3)
                  ]
            ]
          ]

  -- If a callback is answered with a record, the store held a record whose external id and
  -- currency are those of the payload, and whose amount is the same number; the payload's status
  -- is one of the three; the answer is the record as it was if its status is final and the
  -- payload's differs, and the record with the new status, reason and time else; the store holds
  -- the answer, and its other records are as before.
  pub apply_callback_sound :
      (times : Times) (tx_type : MomoTransactionType) (payload : MomoStatusResource)
      (w : World Memory) {r : MomoTransactionRecord}
      → (apply_callback memory env provider same_number times tx_type payload w).0 ≡ ok r
      → Settles times tx_type payload w.store
          (apply_callback memory env provider same_number times tx_type payload w).1.store
          r
  apply_callback_sound times tx_type payload w {r} e =
      let (id, old, status, e1, e2, e3) = apply_callback_checks times tx_type payload w e in
      let (read, same_x, same_c, same_a) = validate_resource_sound payload old e3 in
      let patch : StatusPatch = record { status = status; reason = reason_text payload.reason } in
      let run = apply_callback_run times tx_type payload w id old status e1 e2 e3 in
      let new = patched times.updated patch old in
      record {
        old = old;
        id = id;
        status = status;
        holds = e2;
        external_id = same_x;
        currency = same_c;
        amount = same_a;
        read = read;
        answer = ground arith;
        kept = ground (arith, get-set_self id new w.store);
        others = λ j other. ground (arith, get-set id j new w.store);
      }
