-- ===== src/Momo/Webhook.antt =====
-- The callbacks of the provider: momo-webhook.guard.ts and momo-webhook.controller.ts of
-- backend/src/momo.
use afri_pay.Base.{
  ◌≡◌, ◌≢◌, refl, sym, inl, inr, Bool-cases, text_eq_sound, Bool, true, false, not, Option, none,
  some, [], ◌∷◌, arith, Text, codes, text_eq, is_empty, utf8, Result, ok, err, unauthorized,
  throw_if,
}
use afri_pay.Base.Actions.{Action, ◌>>=◌, ◌>>◌, lift, pure}
use afri_pay.Momo.{
  MomoTransactionRecord, MomoTransactionType, MomoTransactionStatus, MomoWebhookPayload, MomoStore,
}
use afri_pay.Momo.Config.{Env, MomoConfig, get_momo_config}
use afri_pay.Momo.Wire.{Provider, Times, World}
use afri_pay.Momo.Service.{apply_callback}

-- `process.env.NODE_ENV !== 'production'`
abbrev pub is_development : Option Text → Bool
is_development none = true
is_development (some name) = not (text_eq name (codes "production"))

-- `!providedToken`, and the comparison of the bytes, of which the equality of the lengths is a part.
abbrev pub same_token : Text → Option Text → Bool
same_token webhook_token none = false
same_token webhook_token (some []) = false
same_token webhook_token (some (c ∷ provided)) = text_eq (utf8 webhook_token) (utf8 (c ∷ provided))

abbrev pub admits : Env → Option Text → Option Text → Bool
admits env none provided_token = is_development env.node_env
admits env (some []) provided_token = is_development env.node_env
admits env (some (c ∷ webhook_token)) provided_token = same_token (c ∷ webhook_token) provided_token

unfoldable pub verify_webhook_token : Env → Option Text → Result Bool
verify_webhook_token env provided_token = elim (get_momo_config env) [
  | ok config ↦ ok (admits env config.webhook_token provided_token)
  | err e ↦ err e
]

abbrev pub refuse : Result Bool → Result (Unit {0})
refuse (ok verified) =
    throw_if (not verified) (unauthorized "Invalid or missing MTN MoMo webhook token")
refuse (err e) = err e

unfoldable pub assert_webhook_token : Env → Option Text → Result (Unit {0})
assert_webhook_token env provided_token = refuse (verify_webhook_token env provided_token)

text_eq_differs : (s t : Text) → s ≢ t → text_eq s t ≡ false
text_eq_differs s t other = elim (Bool-cases (text_eq s t)) [
  | inl same ↦ absurd (other (text_eq_sound s t same))
  | inr differs ↦ differs
]

-- `{ received: true, referenceId, status }`
pub record Receipt : Type 0 where
  pub received : Bool
  pub reference_id : Text
  pub status : MomoTransactionStatus

module _ {S : Type 0} (store : MomoStore S) (env : Env) (provider : Provider)
    (same_number : Text → Text → Bool) where
  abbrev pub handle_collection_callback :
      Times → MomoWebhookPayload → Action (World S) MomoTransactionRecord
  handle_collection_callback times payload =
      apply_callback store env provider same_number times MomoTransactionType.collection payload

  abbrev pub handle_disbursement_callback :
      Times → MomoWebhookPayload → Action (World S) MomoTransactionRecord
  handle_disbursement_callback times payload =
      apply_callback store env provider same_number times MomoTransactionType.disbursement payload

  abbrev handle :
      MomoTransactionType → Times → MomoWebhookPayload → Action (World S) MomoTransactionRecord
  handle MomoTransactionType.collection = handle_collection_callback
  handle MomoTransactionType.disbursement = handle_disbursement_callback

  -- The two callbacks, which differ in the service's method that they call.
  unfoldable pub callback :
      MomoTransactionType → Times → MomoWebhookPayload → Option Text → Action (World S) Receipt
  callback tx_type times payload token = do
    lift (assert_webhook_token env token)
    r ← handle tx_type times payload
    pure (record { received = true; reference_id = r.reference_id; status = r.status })

  unfoldable pub collection_callback :
      Times → MomoWebhookPayload → Option Text → Action (World S) Receipt
  unfolding callback
  collection_callback = callback MomoTransactionType.collection

  unfoldable pub disbursement_callback :
      Times → MomoWebhookPayload → Option Text → Action (World S) Receipt
  unfolding callback
  disbursement_callback = callback MomoTransactionType.disbursement

  -- Where a webhook token that is not empty is configured, a callback without a token, or with one
  -- of other UTF-8 bytes, is refused as unauthorized, and nothing changes.
  pub callback_refused :
      (tx_type : MomoTransactionType) (times : Times) (payload : MomoWebhookPayload)
      (token : Option Text) (w : World S) (secret : Text) {config : MomoConfig}
      → get_momo_config env ≡ ok config
      → config.webhook_token ≡ some secret
      → is_empty secret ≡ false
      → ((provided : Text) → token ≡ some provided → utf8 provided ≢ utf8 secret)
      → callback tx_type times payload token w
        ≡ (err (unauthorized "Invalid or missing MTN MoMo webhook token"), w)
  unfolding callback assert_webhook_token verify_webhook_token ◌>>=◌
  callback_refused tx_type times payload token w [] read set full other = absurd (cc)
  callback_refused tx_type times payload none w (c ∷ secret) read set full other = ground arith
  callback_refused tx_type times payload (some []) w (c ∷ secret) read set full other = ground arith
  callback_refused tx_type times payload (some (d ∷ provided)) w (c ∷ secret) read set full other =
      let differs =
        text_eq_differs (utf8 (c ∷ secret)) (utf8 (d ∷ provided))
          (λ e. other (d ∷ provided) refl (sym e)) in
      ground arith
