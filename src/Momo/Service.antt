-- ===== src/Momo/Service.antt =====
-- `MomoService` of backend/src/momo/momo.service.ts, over any store.
pub mod Charges
pub mod Answers
pub mod Retries
pub mod Once
pub mod Served
use afri_pay.Base.{
  Bool, true, false, not, ◌||◌, List, [], ◌∷◌, ◌++◌, Option, none, some, Text, codes, text_eq,
  Result, ok, err, bad_request, conflict, not_found, plain, throw_if, if◌then◌else◌,
}
use afri_pay.Base.Actions.{Action, ◌>>=◌, ◌>>◌, lift, pure}
use afri_pay.Momo.{
  MomoTransactionType, MomoTransactionStatus, MomoTransactionRecord, MomoStatusResource, PaymentDto,
  RequestToPayDto, TransferDto, StatusPatch, same_type, read_status, MomoStore,
}
use afri_pay.Momo.Config.{
  MomoProduct, collection, disbursement, Env, get_momo_config, product_config, MomoConfig,
}
use afri_pay.Momo.Auth.{get_token}
use afri_pay.Momo.Wire.{
  Role, payer, payee, PaymentBody, Post, Provider, Times, World, on_store, on_tokens, send, type_of,
  product_of, new_record, body_of, if_given, accepted, reason_text, read_resource, expect_record,
  expect_reference,
}

-- `Number(a) === Number(b)` is a parameter: there are no floats here.
module _ (same_number : Text → Text → Bool) where
  -- `Number(existing.amount) !== Number(dto.amount) || …`
  unfoldable pub differs : MomoTransactionRecord → PaymentDto → Bool
  differs existing dto =
      not (same_number existing.amount dto.amount)
      || not (text_eq existing.currency dto.currency)
      || not (text_eq existing.party_id dto.msisdn)

  -- `if (existing) { … return existing; }`
  unfoldable pub replay : PaymentDto → MomoTransactionRecord → Result MomoTransactionRecord
  unfolding differs
  replay dto existing =
      if differs existing dto
      then err (conflict "Reference reused with different payment details")
      else ok existing

  -- Whether a resource fails to describe the stored transaction.
  unfoldable pub mismatches : MomoStatusResource → MomoTransactionRecord → Bool
  mismatches r existing =
      not (text_eq r.external_id existing.external_id)
      || not (text_eq r.currency existing.currency)
      || not (same_number r.amount existing.amount)

  abbrev compared :
      MomoStatusResource
      → MomoTransactionStatus
      → Option MomoTransactionRecord
      → Result MomoTransactionStatus
  compared r status none = err (plain "TypeError")
  compared r status (some existing) =
      if mismatches r existing
      then err (bad_request "Provider payment details do not match stored transaction")
      else ok status

  abbrev with_status :
      MomoStatusResource
      → Option MomoTransactionStatus
      → Option MomoTransactionRecord
      → Result MomoTransactionStatus
  with_status r none existing =
      err (bad_request "Provider payment details do not match stored transaction")
  with_status r (some status) existing = compared r status existing

  -- The status that the resource reports, if it is valid for the record; `existing` is none where
  -- the source reads a field of `undefined`.
  unfoldable pub validate_resource :
      Option MomoStatusResource → Option MomoTransactionRecord → Result MomoTransactionStatus
  unfolding mismatches
  validate_resource none existing =
      err (bad_request "Provider payment details do not match stored transaction")
  validate_resource (some r) existing = with_status r (read_status r.status) existing

abbrev reason_of : Option MomoStatusResource → Option Text
reason_of none = none
reason_of (some r) = reason_text r.reason

-- `/collection/v1_0/requesttopay` or `/disbursement/v1_0/transfer`.
abbrev pub post_path : MomoProduct → Text
post_path collection = codes "/collection/v1_0/requesttopay"
post_path disbursement = codes "/disbursement/v1_0/transfer"

abbrev wrong_product : MomoTransactionRecord → MomoProduct → Bool
wrong_product existing product = not (same_type existing.tx_type (type_of product))

-- `upsertStatus(…) ?? existing`
abbrev or_existing : MomoTransactionRecord → Option MomoTransactionRecord → MomoTransactionRecord
or_existing existing none = existing
or_existing existing (some updated) = updated

abbrev existing_or :
    {S : Type 0}
    → (Text → Text → Bool)
    → PaymentDto
    → Action (World S) MomoTransactionRecord
    → Option MomoTransactionRecord
    → Action (World S) MomoTransactionRecord
existing_or same_number dto new none = new
existing_or same_number dto new (some existing) = lift (replay same_number dto existing)

module _ {S : Type 0} (env : Env) (provider : Provider) where
  unfoldable pub call_momo :
      MomoProduct → Text → Text → Text → PaymentBody → Action (World S) (Unit {0})
  call_momo product url reference_id token body = do
    config ← lift (get_momo_config env)
    let post : Post = record {
      url = url;
      reference_id = reference_id;
      token = token;
      target_environment = config.target_environment;
      subscription_key = (product_config config product).subscription_key;
      callback_url = if_given config.callback_url;
      body = body;
    }
    send post
    lift (accepted (provider.post_reply post))

module _ {S : Type 0} (store : MomoStore S) (env : Env) (provider : Provider) where
  -- What follows the search for an existing record in `requestToPay` and `transfer`: the record is
  -- saved before the provider is asked.
  unfoldable pub start :
      MomoProduct → Role → Times → Text → PaymentDto → Action (World S) MomoTransactionRecord
  start product role times reference_id dto = do
    config ← lift (get_momo_config env)
    reserved ← on_store (store.save (new_record (type_of product) reference_id times dto))
    token ← on_tokens (get_token env times.now times.later (provider.token_reply product) product)
    call_momo env provider product (config.base_url ++ post_path product) reference_id token
        (body_of role dto)
    pure reserved

  module _ (same_number : Text → Text → Bool) where
    unfoldable pub request_to_pay :
        Times → Text → RequestToPayDto → Action (World S) MomoTransactionRecord
    request_to_pay times reference_id dto = do
      existing ← on_store (store.find_by_external_id dto.external_id MomoTransactionType.collection)
      existing_or same_number dto (start collection payer times reference_id dto) existing

    unfoldable pub transfer : Times → Text → TransferDto → Action (World S) MomoTransactionRecord
    transfer times reference_id dto = do
      existing ←
          on_store (store.find_by_external_id dto.external_id MomoTransactionType.disbursement)
      existing_or same_number dto (start disbursement payee times reference_id dto) existing

    unfoldable pub refresh_status :
        Times → MomoProduct → Text → Action (World S) MomoTransactionRecord
    refresh_status times product reference_id = do
      found ← on_store (store.find reference_id)
      existing ← lift (expect_record found)
      lift (throw_if (wrong_product existing product) (bad_request "Transaction product mismatch"))
      lift (get_momo_config env)
      on_tokens (get_token env times.now times.later (provider.token_reply product) product)
      answer ← lift (read_resource (provider.status_reply product reference_id))
      status ← lift (validate_resource same_number answer (some existing))
      updated ← on_store (
          store.upsert_status times.updated reference_id
            (record { status = status; reason = reason_of answer }))
      pure (or_existing existing updated)

    unfoldable pub apply_callback :
        Times → MomoTransactionType → MomoStatusResource → Action (World S) MomoTransactionRecord
    apply_callback times tx_type payload = do
      found ← on_store (store.find_reference_id_by_external_id payload.external_id tx_type)
      reference_id ← lift (expect_reference found)
      existing ← on_store (store.find reference_id)
      status ← lift (validate_resource same_number (some payload) existing)
      updated ← on_store (
          store.upsert_status times.updated reference_id
            (record { status = status; reason = reason_text payload.reason }))
      lift (expect_record updated)

    -- One round of the loop of `reconcilePending`, with its `try`.
    unfoldable pub try_refresh :
        Times → MomoTransactionRecord → World S → List MomoTransactionRecord × World S
    try_refresh times r w =
        let (result, w') = refresh_status times (product_of r.tx_type) r.reference_id w in
        elim result [ ok updated ↦ (updated ∷ [], w') | err e ↦ ([], w') ]

    unfoldable pub refresh_all :
        (Text → Times) → List MomoTransactionRecord → World S → List MomoTransactionRecord × World S
    unfolding try_refresh
    refresh_all times [] w = ([], w)
    refresh_all times (r ∷ rs) w =
        let (done, w') = try_refresh (times r.reference_id) r w in
        let (rest, w'') = refresh_all times rs w' in (done ++ rest, w'')

    unfoldable pub reconcile_pending :
        (Text → Times) → Action (World S) (List MomoTransactionRecord)
    unfolding refresh_all
    reconcile_pending times = do
      waiting ← on_store store.list_pending
      λ w. let (results, w') = refresh_all times waiting w in (ok results, w')

    unfoldable pub get_collection_status : Times → Text → Action (World S) MomoTransactionRecord
    get_collection_status times reference_id = refresh_status times collection reference_id

    unfoldable pub get_disbursement_status : Times → Text → Action (World S) MomoTransactionRecord
    get_disbursement_status times reference_id = refresh_status times disbursement reference_id

    abbrev pub get_transaction : Text → Action (World S) (Option MomoTransactionRecord)
    get_transaction reference_id = on_store (store.find reference_id)
