-- ===== src/Tests/OfMomo.antt =====
-- MTN MoMo: the store, the tokens, the service and the callbacks.
use afri_pay.Base.{
  ◌⊎◌, ◌≤◌, ◌≡◌, refl, true, [], ◌∷◌, none, some, arith, codes, text_eq, is_some, get, set,
  find_value, ok, err, unauthorized, conflict,
}
use afri_pay.Base.Actions.{◌>>=◌}
use afri_pay.Momo.{
  MomoTransactionType, successful, MomoTransactionRecord, PaymentDto, MomoStatusResource, absent,
  StatusPatch, read_status,
}
use afri_pay.Momo.Config.{
  MomoProduct, Env, MomoConfig, MomoProductConfig, get_momo_config, assert_product_config,
  sandbox_url,
}
use afri_pay.Momo.Auth.{Tokens, token, get_token, MomoTokenResponse}
use afri_pay.Momo.Memory.{
  Memory, memory, save, has_external_id, upsert_status, find_by_external_id, find,
  find_reference_id_by_external_id,
}
use afri_pay.Momo.Memory.Invariant.{IsValid, save-IsValid}
use afri_pay.Momo.Wire.{payer, StatusReply, Provider, Times, World, new_record}
use afri_pay.Momo.Service.{request_to_pay, apply_callback, start, call_momo, validate_resource}
use afri_pay.Momo.Service.Charges.{count, IsSound}
use afri_pay.Momo.Service.Served.{Served, here, pays, asked_once}
use afri_pay.Momo.Service.Answers.{Settles, apply_callback_sound}
use afri_pay.Momo.Service.Retries.{IsSame, request_to_pay_retry}
use afri_pay.Momo.Webhook.{callback, callback_refused}

abbrev env : Env
env = record {
  target_environment = none;
  base_url = none;
  callback_url = none;
  webhook_token = some (codes "secret");
  api_key = some (codes "key");
  collection_api_user = some (codes "user");
  collection_api_secret = some (codes "pass");
  disbursement_api_user = none;
  disbursement_api_secret = none;
  node_env = none;
}

abbrev reply : MomoTokenResponse
reply = record { access_token = codes "tok"; expires_in = 3600 }

abbrev provider : Provider
provider = record {
  token_reply = λ product. token reply;
  post_reply = λ post. some 202;
  status_reply = λ product reference_id. StatusReply.unreachable;
}

abbrev times : Times
times = record { created = codes "t0"; updated = codes "t1"; now = 1000; later = 1200 }

abbrev dto : PaymentDto
dto = record {
  amount = codes "5";
  currency = codes "EUR";
  external_id = codes "x1";
  msisdn = codes "2348000";
  payer_message = none;
  payee_note = none;
}

abbrev no_tokens : Tokens
no_tokens = record { collection = none; disbursement = none; requests = [] }

abbrev start_of_day : World Memory
start_of_day = record { store = []; tokens = no_tokens; posts = [] }

abbrev reserved : MomoTransactionRecord
reserved = new_record MomoTransactionType.collection (codes "r1") times dto

abbrev held_store : Memory
held_store = (codes "r1", reserved) ∷ []

abbrev holding : World Memory
holding = record { store = held_store; tokens = no_tokens; posts = [] }

empty-IsValid : IsValid []
unfolding get
empty-IsValid = record {
  distinct = tt;
  keyed = λ k r g. absurd (cc);
  unique = λ j k x y g g' e e'. absurd (cc);
}

held-IsValid : IsValid held_store
unfolding save find_value set
held-IsValid = save-IsValid reserved [] empty-IsValid

start-IsSound : IsSound start_of_day
unfolding count
start-IsSound = record { valid = empty-IsValid; charged = λ role x. omega arith }

abbrev no_keys : MomoProductConfig
no_keys = record { subscription_key = codes "key"; api_user = []; api_key = [] }

abbrev config : MomoConfig
config = record {
  base_url = sandbox_url;
  target_environment = codes "sandbox";
  callback_url = none;
  webhook_token = some (codes "secret");
  collection = record no_keys { api_user = codes "user"; api_key = codes "pass" };
  disbursement = no_keys;
}

configured : get_momo_config env ≡ ok config
unfolding get_momo_config
configured = refl

abbrev success : StatusPatch
success = record { status = successful; reason = none }

-- Two requests for the same payment.
abbrev first : World Memory
first = (request_to_pay memory env provider text_eq times (codes "r1") dto start_of_day).1

abbrev again : World Memory
again = (request_to_pay memory env provider text_eq times (codes "r2") dto first).1

first-fresh : get (codes "r2") first.store ≡ none
unfolding request_to_pay start call_momo find_by_external_id find_value save get set ◌>>=◌ get_token
    get_momo_config assert_product_config text_eq
first-fresh = refl

run : Served env text_eq start_of_day again
unfolding get
run =
    pays (pays here provider times (codes "r1") dto refl) provider times (codes "r2") dto
      first-fresh

asked_once_example :
    (count payer (codes "x1") again.posts ≤ 1)
    × ((1 ≤ count payer (codes "x1") again.posts)
        → is_some
            (find_value (has_external_id (codes "x1") MomoTransactionType.collection) again.store)
          ≡ true)
asked_once_example = asked_once env text_eq payer (codes "x1") start-IsSound run

request_to_pay_retry_example :
    let out = request_to_pay memory env provider text_eq times (codes "r2") dto holding in
    (out.1 ≡ holding)
    × (((out.0 ≡ ok reserved) × IsSame env provider text_eq reserved dto)
        ⊎ ((out.0 ≡ err (conflict "Reference reused with different payment details"))
            × ¬ IsSame env provider text_eq reserved dto))
unfolding get text_eq
request_to_pay_retry_example =
    request_to_pay_retry env provider text_eq times (codes "r2") dto holding (codes "r1")
      {r = reserved} held-IsValid refl refl refl

-- The provider reports the payment.
abbrev payload : MomoStatusResource
payload = record {
  amount = codes "5";
  currency = codes "EUR";
  external_id = codes "x1";
  status = codes "SUCCESSFUL";
  reason = absent;
}

abbrev settled_record : MomoTransactionRecord
settled_record = record reserved { status = successful; updated_at = codes "t1" }

apply_callback_sound_example :
    Settles env provider text_eq times MomoTransactionType.collection payload held_store
      (apply_callback memory env provider text_eq times MomoTransactionType.collection payload
        holding).1.store
      settled_record
unfolding apply_callback ◌>>=◌ find find_reference_id_by_external_id find_value get text_eq
    upsert_status validate_resource read_status
apply_callback_sound_example =
    apply_callback_sound env provider text_eq times MomoTransactionType.collection payload holding
      {r = settled_record} refl

callback_refused_example :
    callback memory env provider text_eq MomoTransactionType.collection times payload none holding
    ≡ (err (unauthorized "Invalid or missing MTN MoMo webhook token"), holding)
callback_refused_example =
    callback_refused memory env provider text_eq MomoTransactionType.collection times payload none
      holding (codes "secret") {config = config} configured refl refl (λ provided e. absurd (cc))

fetched :
    (get_token env 1000 1200 (token reply) MomoProduct.collection no_tokens).0 ≡ ok (codes "tok")
unfolding get_token get_momo_config assert_product_config ◌>>=◌
fetched = refl
