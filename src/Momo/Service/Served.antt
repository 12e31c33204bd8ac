-- ===== src/Momo/Service/Served.antt =====
-- The service over time: any sequence of its methods, each with its own answers of the provider and
-- its own readings of the clock.
use afri_pay.Base.{Bool, true, ◌≤◌, ◌≡◌, none, is_some, arith, Text, get, find_value}
use afri_pay.Momo.{MomoTransactionType, MomoStatusResource, PaymentDto}
use afri_pay.Momo.Config.{MomoProduct, Env}
use afri_pay.Momo.Memory.{Memory, memory, has_external_id}
use afri_pay.Momo.Wire.{Role, Provider, Times, World}
use afri_pay.Momo.Service.{
  request_to_pay, transfer, refresh_status, apply_callback, reconcile_pending,
}
use afri_pay.Momo.Service.Charges.{count, role_type, IsSound}
use afri_pay.Momo.Service.Once.{
  request_to_pay-IsSound, transfer-IsSound, refresh_status-IsSound, apply_callback-IsSound,
  reconcile_pending-IsSound,
}

module _ (env : Env) (same_number : Text → Text → Bool) where
  -- The states that a run of the service passes through. `randomUUID` draws a fresh reference.
  pub data Served (w : World Memory) : World Memory → Type 0 where
    here : Served w w
    pays :
        {v : World Memory}
        → Served w v
        → (provider : Provider) (times : Times) (reference_id : Text) (dto : PaymentDto)
        → get reference_id v.store ≡ none
        → Served w (request_to_pay memory env provider same_number times reference_id dto v).1
    transfers :
        {v : World Memory}
        → Served w v
        → (provider : Provider) (times : Times) (reference_id : Text) (dto : PaymentDto)
        → get reference_id v.store ≡ none
        → Served w (transfer memory env provider same_number times reference_id dto v).1
    refreshes :
        {v : World Memory}
        → Served w v
        → (provider : Provider) (times : Times) (product : MomoProduct) (reference_id : Text)
        → Served w (refresh_status memory env provider same_number times product reference_id v).1
    calls_back :
        {v : World Memory}
        → Served w v
        → (provider : Provider) (times : Times) (tx_type : MomoTransactionType)
          (payload : MomoStatusResource)
        → Served w (apply_callback memory env provider same_number times tx_type payload v).1
    reconciles :
        {v : World Memory}
        → Served w v
        → (provider : Provider) (times : Text → Times)
        → Served w (reconcile_pending memory env provider same_number times v).1

  pub Served-IsSound : {w v : World Memory} → Served w v → IsSound w → IsSound v
  Served-IsSound here s = s
  Served-IsSound (pays {v} run provider times reference_id dto fresh) s =
      request_to_pay-IsSound env provider same_number times reference_id dto v
        (Served-IsSound run s) fresh
  Served-IsSound (transfers {v} run provider times reference_id dto fresh) s =
      transfer-IsSound env provider same_number times reference_id dto v (Served-IsSound run s)
        fresh
  Served-IsSound (refreshes {v} run provider times product reference_id) s =
      refresh_status-IsSound env provider same_number times product reference_id v
        (Served-IsSound run s)
  Served-IsSound (calls_back {v} run provider times tx_type payload) s =
      apply_callback-IsSound env provider same_number times tx_type payload v (Served-IsSound run s)
  Served-IsSound (reconciles {v} run provider times) s =
      reconcile_pending-IsSound env provider same_number times v (Served-IsSound run s)

  -- Over the in-memory store, from a sound state and after any sequence of requests to pay,
  -- transfers, status refreshes, callbacks and reconciliations, each with its own answers of the
  -- provider and its own clock, and where each new reference is fresh: the provider has been asked
  -- to move money at most once in one direction under one external id, and if it has, the store
  -- holds a record of that type and external id.
  pub asked_once :
      {w v : World Memory} (role : Role) (external_id : Text)
      → IsSound w
      → Served w v
      → (count role external_id v.posts ≤ 1)
        × ((1 ≤ count role external_id v.posts)
            → is_some (find_value (has_external_id external_id (role_type role)) v.store) ≡ true)
  asked_once {w} {v} role external_id s run =
      let bound = (Served-IsSound run s).charged role external_id in
      (ground arith, λ some_. ground arith)
