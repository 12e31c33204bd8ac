-- ===== src/Momo/Auth/Cache.antt =====
-- When a token is reused, and when it is asked for again.
use afri_pay.Base.{ℕ, ◌+◌, ◌*◌, ◌≤◌, ◌<◌, ◌≡◌, none, arith, Text, ok}
use afri_pay.Base.Actions.{◌>>=◌}
use afri_pay.Momo.Config.{MomoProduct, collection, disbursement, Env}
use afri_pay.Momo.Auth.{
  TokenReply, token, MomoTokenResponse, Tokens, cached, usable, fetch_token, get_token,
}

-- If no cached token was usable and `getToken` has returned one, a later call returns the same one
-- and requests nothing, as long as more than 60000 milliseconds are left until its expiry.
pub get_token_reuse :
    (env : Env) (now later now' later' : ℕ) (r : MomoTokenResponse) (reply : TokenReply)
    (product : MomoProduct) (t : Tokens) (access_token : Text)
    → usable now (cached product t) ≡ none
    → (get_token env now later (token r) product t).0 ≡ ok access_token
    → now' + 60000 < later + r.expires_in * 1000
    → get_token env now' later' reply product (get_token env now later (token r) product t).1
      ≡ (ok access_token, (get_token env now later (token r) product t).1)
unfolding get_token ◌>>=◌
get_token_reuse env now later now' later' r reply collection t access_token stale e alive =
    ground arith
get_token_reuse env now later now' later' r reply disbursement t access_token stale e alive =
    ground arith

-- If no cached token was usable and `getToken` has returned one, a later call requests a token
-- anew once 60000 milliseconds or less are left until its expiry.
pub get_token_refresh :
    (env : Env) (now later now' later' : ℕ) (r : MomoTokenResponse) (reply : TokenReply)
    (product : MomoProduct) (t : Tokens) (access_token : Text)
    → usable now (cached product t) ≡ none
    → (get_token env now later (token r) product t).0 ≡ ok access_token
    → later + r.expires_in * 1000 ≤ now' + 60000
    → let t' = (get_token env now later (token r) product t).1 in
      get_token env now' later' reply product t' ≡ fetch_token env later' reply product t'
unfolding get_token ◌>>=◌
get_token_refresh env now later now' later' r reply collection t access_token stale e over =
    ground arith
get_token_refresh env now later now' later' r reply disbursement t access_token stale e over =
    ground arith
