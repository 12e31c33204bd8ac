-- ===== src/Momo/Service/Once.antt =====
-- Each method of the service keeps the bound on what is asked of the provider, and so does any
-- sequence of them.
use mathlib.Core.Path.{subst}
use afri_pay.Base.{
  ◌≡◌, refl, sym, ◌∙◌, Bool, true, List, [], ◌∷◌, none, arith, Text, text_eq_refl, get, set,
  find_value, find_value-set, ok, Option-cases, Result-cases, inl, inr,
}
use afri_pay.Base.Actions.{
  Action, ◌>>=◌, Ends, Ends-pure, Ends-lift, Ends-bind_lift, Ends-modify, Ends-bind, Ends-bind_to,
}
use afri_pay.Momo.{
  MomoTransactionType, MomoTransactionRecord, PaymentDto, MomoStatusResource, StatusPatch,
}
use afri_pay.Momo.Auth.{Tokens, get_token}
use afri_pay.Momo.Config.{MomoProduct, collection, disbursement, Env}
use afri_pay.Momo.Memory.{
  Memory, memory, save, find, find_by_external_id, find_reference_id_by_external_id,
  has_external_id, upsert_status, list_pending,
}
use afri_pay.Momo.Memory.Invariant.{same_type_refl}
use afri_pay.Momo.Wire.{
  reason_text, product_of, Role, payer, payee, PaymentBody, Provider, Times, World, on_store,
  on_tokens, type_of, new_record, body_of,
}
use afri_pay.Momo.Service.{
  call_momo, start, existing_or, replay, reason_of, try_refresh, request_to_pay, transfer,
  refresh_status, apply_callback, refresh_all, reconcile_pending,
}
use afri_pay.Momo.Service.Charges.{
  count, held, role_type, IsSound, save-IsCharged, upsert-IsCharged, send-IsCharged,
}

-- The methods of the parts, seen from the world.
on_store_state :
    {A : Type 0} (m : Action Memory A) (w : World Memory)
    → (on_store m w).1 ≡ record w { store = (m w.store).1 }
unfolding ◌>>=◌
on_store_state m w = refl

on_store_result :
    {A : Type 0} (m : Action Memory A) (w : World Memory) → (on_store m w).0 ≡ (m w.store).0
unfolding ◌>>=◌
on_store_result m w = refl

-- A method of the tokens leaves the store and the requests alone.
on_tokens_state :
    {A : Type 0} (m : Action Tokens A) (w : World Memory)
    → (on_tokens m w).1 ≡ record w { tokens = (m w.tokens).1 }
unfolding ◌>>=◌
on_tokens_state m w = refl

save-ok :
    (r : MomoTransactionRecord) (m : Memory) {saved : MomoTransactionRecord}
    → (save r m).0 ≡ ok saved
    → (save r m).1 ≡ set r.reference_id r m
unfolding save
save-ok r m e = ground arith

none-not-held :
    (role : Role) (x : Text) (m : Memory)
    → find_value (has_external_id x (role_type role)) m ≡ none
    → held role x m ≡ 0
none-not-held role x m absent = rw absent refl

module _ (env : Env) (provider : Provider) where
  -- The call of the provider, once its record is saved.
  call_momo-IsSound :
      (product : MomoProduct) (url reference_id token : Text) (body : PaymentBody)
      (w : World Memory)
      → IsSound w
      → count body.role body.external_id w.posts ≡ 0
      → held body.role body.external_id w.store ≡ 1
      → Ends IsSound (call_momo env provider product url reference_id token body) w
  unfolding call_momo
  call_momo-IsSound product url reference_id token body w s unasked saved =
      Ends-bind_lift _ _ w s λ config _.
        Ends-modify _ _ w (Ends-lift _ _ (send-IsCharged w.store w.posts _ s unasked saved))

  -- A payment that the store holds no record of.
  start-IsSound :
      (product : MomoProduct) (role : Role) (times : Times) (reference_id : Text) (dto : PaymentDto)
      (w : World Memory)
      → IsSound w
      → role_type role ≡ type_of product
      → get reference_id w.store ≡ none
      → find_value (has_external_id dto.external_id (role_type role)) w.store ≡ none
      → Ends IsSound (start memory env provider product role times reference_id dto) w
  unfolding start
  start-IsSound product role times reference_id dto w s matching fresh absent =
      let r = new_record (type_of product) reference_id times dto in
      let m = (save r w.store).1 in
      let u : World Memory = record w { store = m } in
      let x = dto.external_id in
      Ends-bind_lift _ _ w s λ config _.
        Ends-bind_to _ _ w u (on_store_state _ w) (save-IsCharged r w.store w.posts s fresh)
          λ reserved done.
            let written : m ≡ set reference_id r w.store =
              save-ok r w.store (sym (on_store_result (save r) w) ∙ done) in
            let hit : has_external_id x (role_type role) r ≡ true =
              ground (arith, text_eq_refl x, same_type_refl (role_type role)) in
            let saved : held role x m ≡ 1 =
              rw
                (
                  written,
                  find_value-set (has_external_id x (role_type role)) reference_id r w.store absent
                      hit,
                )
                refl in
            let unasked : count role x w.posts ≡ 0 =
              omega (arith, s.charged role x, none-not-held role x w.store absent) in
            let request =
              get_token env times.now times.later (provider.token_reply product) product in
            let v : World Memory = record u { tokens = (request u.tokens).1 } in
            let s' = save-IsCharged r w.store w.posts s fresh in
            Ends-bind_to _ _ u v (on_tokens_state request u) s' λ token _.
              let called =
                call_momo-IsSound product _ reference_id token (body_of role dto) v s' unasked
                  saved in
              Ends-bind _ _ v called λ _ _. Ends-pure reserved _ called.at

  module _ (same_number : Text → Text → Bool) where
    -- What `requestToPay` and `transfer` share.
    begin-IsSound :
        (product : MomoProduct) (role : Role) (times : Times) (reference_id : Text)
        (dto : PaymentDto) (w : World Memory)
        → IsSound w
        → role_type role ≡ type_of product
        → get reference_id w.store ≡ none
        → Ends IsSound
            (on_store (find_by_external_id dto.external_id (role_type role)) >>= λ existing.
              existing_or same_number dto
                (start memory env provider product role times reference_id dto)
                existing)
            w
    unfolding find_by_external_id
    begin-IsSound product role times reference_id dto w s matching fresh =
        let look = find_by_external_id dto.external_id (role_type role) in
        Ends-bind_to _ _ w w (on_store_state look w) s λ existing found.
          elim (Option-cases existing) [
            | inr (r, e) ↦ rw e (Ends-lift (replay same_number dto r) w s)
            | inl e ↦ rw e (
                start-IsSound product role times reference_id dto w s matching fresh
                  (ground (arith, on_store_result look w)))
          ]

    pub request_to_pay-IsSound :
        (times : Times) (reference_id : Text) (dto : PaymentDto) (w : World Memory)
        → IsSound w
        → get reference_id w.store ≡ none
        → IsSound (request_to_pay memory env provider same_number times reference_id dto w).1
    unfolding request_to_pay
    request_to_pay-IsSound times reference_id dto w s fresh =
        (begin-IsSound collection payer times reference_id dto w s refl fresh).at

    pub transfer-IsSound :
        (times : Times) (reference_id : Text) (dto : PaymentDto) (w : World Memory)
        → IsSound w
        → get reference_id w.store ≡ none
        → IsSound (transfer memory env provider same_number times reference_id dto w).1
    unfolding transfer
    transfer-IsSound times reference_id dto w s fresh =
        (begin-IsSound disbursement payee times reference_id dto w s refl fresh).at

    pub refresh_status-IsSound :
        (times : Times) (product : MomoProduct) (reference_id : Text) (w : World Memory)
        → IsSound w
        → IsSound (refresh_status memory env provider same_number times product reference_id w).1
    unfolding refresh_status find
    refresh_status-IsSound times product reference_id w s =
        let ends : Ends IsSound
            (refresh_status memory env provider same_number times product reference_id) w =
          Ends-bind_to _ _ w w (on_store_state (find reference_id) w) s λ found _.
            Ends-bind_lift _ _ w s λ existing _. Ends-bind_lift _ _ w s λ _ _.
              Ends-bind_lift _ _ w s λ _ _.
                let request =
                  get_token env times.now times.later (provider.token_reply product) product in
                let v : World Memory = record w { tokens = (request w.tokens).1 } in
                Ends-bind_to _ _ w v (on_tokens_state request w) s λ _ _.
                  Ends-bind_lift _ _ v s λ answer _. Ends-bind_lift _ _ v s λ status _.
                    let patch : StatusPatch = record {
                      status = status;
                      reason = reason_of answer;
                    } in
                    let u : World Memory = record v {
                      store = (upsert_status times.updated reference_id patch w.store).1;
                    } in
                    let s' = upsert-IsCharged times.updated reference_id patch w.store w.posts s in
                    Ends-bind_to _ _ v u
                      (on_store_state (upsert_status times.updated reference_id patch) v) s'
                      λ updated _. Ends-pure _ u s' in
        ends.at

    pub apply_callback-IsSound :
        (times : Times) (tx_type : MomoTransactionType) (payload : MomoStatusResource)
        (w : World Memory)
        → IsSound w
        → IsSound (apply_callback memory env provider same_number times tx_type payload w).1
    unfolding apply_callback find find_reference_id_by_external_id
    apply_callback-IsSound times tx_type payload w s =
        let ends : Ends IsSound
            (apply_callback memory env provider same_number times tx_type payload) w =
          Ends-bind_to _ _ w w
            (on_store_state (find_reference_id_by_external_id payload.external_id tx_type) w) s
            λ found _. Ends-bind_lift _ _ w s λ reference_id _.
              Ends-bind_to _ _ w w (on_store_state (find reference_id) w) s λ existing _.
                Ends-bind_lift _ _ w s λ status _.
                  let patch : StatusPatch = record {
                    status = status;
                    reason = reason_text payload.reason;
                  } in
                  let u : World Memory = record w {
                    store = (upsert_status times.updated reference_id patch w.store).1;
                  } in
                  let s' = upsert-IsCharged times.updated reference_id patch w.store w.posts s in
                  Ends-bind_to _ _ w u
                    (on_store_state (upsert_status times.updated reference_id patch) w) s'
                    λ updated _. Ends-lift _ u s' in
        ends.at

    try_refresh_state :
        (times : Times) (r : MomoTransactionRecord) (w : World Memory)
        → (try_refresh memory env provider same_number times r w).1
          ≡ (refresh_status memory env provider same_number times
              (product_of r.tx_type)
              r.reference_id
              w).1
    unfolding try_refresh
    try_refresh_state times r w =
        elim (Result-cases
          (refresh_status memory env provider same_number times (product_of r.tx_type)
            r.reference_id w).0) [
              | inl (a, e) ↦ rw (e, try_refresh) refl
              | inr (x, e) ↦ rw (e, try_refresh) refl
            ]

    refresh_all-IsSound :
        (times : Text → Times) (rs : List MomoTransactionRecord) (w : World Memory)
        → IsSound w
        → IsSound (refresh_all memory env provider same_number times rs w).1
    unfolding refresh_all
    refresh_all-IsSound times [] w s = s
    refresh_all-IsSound times (r ∷ rs) w s =
        let once =
          refresh_status-IsSound (times r.reference_id) (product_of r.tx_type) r.reference_id w s in
        refresh_all-IsSound times rs
          (try_refresh memory env provider same_number (times r.reference_id) r w).1
          (subst IsSound (sym (try_refresh_state (times r.reference_id) r w)) once)

    pub reconcile_pending-IsSound :
        (times : Text → Times) (w : World Memory)
        → IsSound w
        → IsSound (reconcile_pending memory env provider same_number times w).1
    unfolding reconcile_pending list_pending
    reconcile_pending-IsSound times w s =
        let ends : Ends IsSound (reconcile_pending memory env provider same_number times) w =
          Ends-bind_to _ _ w w (on_store_state list_pending w) s
            λ waiting _. record { at = refresh_all-IsSound times waiting w s } in
        ends.at
