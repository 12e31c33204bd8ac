-- ===== src/Momo/Auth.antt =====
-- backend/src/momo/momo-auth.service.ts: one access token for each product, cached until shortly
-- before it expires.
pub mod Cache
use afri_pay.Base.{
  ℕ, ◌+◌, ◌-◌, ◌*◌, Bool, true, false, List, [], ◌∷◌, Option, none, some, Text, Result, ok, err,
  plain, momo_api, ltb, if◌then◌else◌,
}
use afri_pay.Base.Actions.{Action, ◌>>=◌, ◌>>◌, lift, pure, modify}
use afri_pay.Momo.Config.{
  MomoProduct, collection, disbursement, Env, get_momo_config, product_config,
  assert_product_config,
}

pub record CachedToken : Type 0 where
  pub access_token : Text
  pub expires_at : ℕ

pub record MomoTokenResponse : Type 0 where
  pub access_token : Text
  pub expires_in : ℕ

-- How a request for a token ends: no answer, a status that is not ok, a body that is no JSON, or one
-- that is.
pub data TokenReply : Type 0 where
  unreachable : TokenReply
  rejected : ℕ → TokenReply
  malformed : TokenReply
  token : MomoTokenResponse → TokenReply

-- The cache, with one place for each product, and the requests that were made, the last one first.
pub record Tokens : Type 0 where
  pub collection : Option CachedToken
  pub disbursement : Option CachedToken
  pub requests : List MomoProduct

abbrev pub expiry_buffer_ms : ℕ
expiry_buffer_ms = 60000

abbrev pub cached : MomoProduct → Tokens → Option CachedToken
cached collection t = t.collection
cached disbursement t = t.disbursement

abbrev pub store_token : MomoProduct → CachedToken → Tokens → Tokens
store_token collection c t = record t { collection = some c }
store_token disbursement c t = record t { disbursement = some c }

abbrev pub read_token : TokenReply → Result MomoTokenResponse
read_token unreachable = err (momo_api "Unable to reach MTN MoMo service" none)
read_token (rejected status) = err (momo_api "MTN MoMo authentication failed" (some status))
read_token malformed = err (plain "SyntaxError")
read_token (token t) = ok t

-- `cached && cached.expiresAt > Date.now()`
abbrev pub usable : ℕ → Option CachedToken → Option Text
usable now none = none
usable now (some c) = if ltb now c.expires_at then some c.access_token else none

unfoldable pub request_token : MomoProduct → TokenReply → Action Tokens MomoTokenResponse
request_token product reply = do
  modify (λ t. record t { requests = product ∷ t.requests })
  lift (read_token reply)

-- The part of `getToken` after the cache. An expiry that would be negative is 0, which is past as
-- well.
unfoldable pub fetch_token : Env → ℕ → TokenReply → MomoProduct → Action Tokens Text
unfolding request_token
fetch_token env now reply product = do
  config ← lift (get_momo_config env)
  lift (assert_product_config (product_config config product))
  answer ← request_token product reply
  modify (
      store_token product (record {
        access_token = answer.access_token;
        expires_at = now + answer.expires_in * 1000 - expiry_buffer_ms;
      }))
  pure answer.access_token

-- `Date.now()` is read before the request and once it has ended.
unfoldable pub get_token : Env → ℕ → ℕ → TokenReply → MomoProduct → Action Tokens Text
unfolding fetch_token
get_token env now later reply product t = elim (usable now (cached product t)) [
  | some access_token ↦ (ok access_token, t)
  | none ↦ fetch_token env later reply product t
]

unfoldable pub reset : Action Tokens (Unit {0})
reset t = (ok tt, record t { collection = none; disbursement = none })
