-- ===== src/Momo/Wire.antt =====
-- What `MomoService` (backend/src/momo/momo.service.ts) sends, what comes back, and what it reads off
-- it.
use afri_pay.Base.{
  ℕ, not, List, [], ◌∷◌, Option, none, some, Text, Result, ok, err, not_found, plain, momo_api,
  throw_if, ◌==◌,
}
use afri_pay.Base.Actions.{Action, modify, focus}
use afri_pay.Momo.{
  MomoTransactionType, pending, MomoTransactionRecord, Reason, absent, message, string,
  MomoStatusResource, PaymentDto,
}
use afri_pay.Momo.Config.{MomoProduct, collection, disbursement}
use afri_pay.Momo.Auth.{Tokens, TokenReply}

-- `payer` or `payee` of a body.
pub data Role : Type 0 where
  payer payee : Role

pub record PaymentBody : Type 0 where
  pub amount : Text
  pub currency : Text
  pub external_id : Text
  pub role : Role
  pub party_id : Text
  pub payer_message : Text
  pub payee_note : Text

-- A request to move money.
pub record Post : Type 0 where
  pub url : Text
  pub reference_id : Text
  pub token : Text
  pub target_environment : Text
  pub subscription_key : Text
  pub callback_url : Option Text
  pub body : PaymentBody

-- How a request for a status ends.
pub data StatusReply : Type 0 where
  unreachable : StatusReply
  rejected : ℕ → StatusReply
  malformed : StatusReply
  resource : Option MomoStatusResource → StatusReply

-- The provider during a call: its answers to each request; a request to move money gets a status, or
-- none where it is not reached.
pub record Provider : Type 0 where
  pub token_reply : MomoProduct → TokenReply
  pub post_reply : Post → Option ℕ
  pub status_reply : MomoProduct → Text → StatusReply

-- The readings of the clock during a call.
pub record Times : Type 0 where
  pub created : Text
  pub updated : Text
  pub now : ℕ
  pub later : ℕ

-- The store, the token cache, and the requests to move money, the last one first.
pub record World (S : Type 0) : Type 0 where
  pub store : S
  pub tokens : Tokens
  pub posts : List Post

abbrev pub on_store : {S A : Type 0} → Action S A → Action (World S) A
on_store m = focus (λ w. w.store) (λ s w. record w { store = s }) m

abbrev pub on_tokens : {S A : Type 0} → Action Tokens A → Action (World S) A
on_tokens m = focus (λ w. w.tokens) (λ t w. record w { tokens = t }) m

abbrev pub send : {S : Type 0} → Post → Action (World S) (Unit {0})
send post = modify (λ w. record w { posts = post ∷ w.posts })

-- `product === 'collection' ? 'COLLECTION' : 'DISBURSEMENT'`
abbrev pub type_of : MomoProduct → MomoTransactionType
type_of collection = MomoTransactionType.collection
type_of disbursement = MomoTransactionType.disbursement

abbrev pub product_of : MomoTransactionType → MomoProduct
product_of MomoTransactionType.collection = collection
product_of MomoTransactionType.disbursement = disbursement

abbrev pub new_record : MomoTransactionType → Text → Times → PaymentDto → MomoTransactionRecord
new_record tx_type reference_id times dto = record {
  reference_id = reference_id;
  tx_type = tx_type;
  status = pending;
  amount = dto.amount;
  currency = dto.currency;
  external_id = dto.external_id;
  party_id = dto.msisdn;
  reason = none;
  created_at = times.created;
  updated_at = times.updated;
}

-- `value ?? ''`
abbrev pub or_empty : Option Text → Text
or_empty none = []
or_empty (some s) = s

abbrev pub body_of : Role → PaymentDto → PaymentBody
body_of role dto = record {
  amount = dto.amount;
  currency = dto.currency;
  external_id = dto.external_id;
  role = role;
  party_id = dto.msisdn;
  payer_message = or_empty dto.payer_message;
  payee_note = or_empty dto.payee_note;
}

-- `config.callbackUrl ? { 'X-Callback-Url': … } : {}`
abbrev pub if_given : Option Text → Option Text
if_given none = none
if_given (some []) = none
if_given (some url) = some url

abbrev pub accepted : Option ℕ → Result (Unit {0})
accepted none = err (momo_api "Unable to reach MTN MoMo service" none)
accepted (some status) = throw_if (not (status == 202)) (
    momo_api "MTN MoMo request rejected; check the existing reference before retrying"
      (some status))

-- `typeof reason === 'string' ? reason : reason?.message`
abbrev pub reason_text : Reason → Option Text
reason_text absent = none
reason_text (message m) = m
reason_text (string s) = some s

abbrev pub read_resource : StatusReply → Result (Option MomoStatusResource)
read_resource unreachable = err (momo_api "Unable to reach MTN MoMo service" none)
read_resource (rejected status) = err (momo_api "MTN MoMo status check failed" (some status))
read_resource malformed = err (plain "SyntaxError")
read_resource (resource r) = ok r

abbrev pub expect_record : Option MomoTransactionRecord → Result MomoTransactionRecord
expect_record none = err (not_found "Unknown transaction reference")
expect_record (some r) = ok r

abbrev pub expect_reference : Option Text → Result Text
expect_reference none = err (not_found "No matching transaction for externalId")
expect_reference (some []) = err (not_found "No matching transaction for externalId")
expect_reference (some reference_id) = ok reference_id
