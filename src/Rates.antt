-- ===== src/Rates.antt =====
-- Exchange rates: backend/src/rates. A rate is a number that the code passes on and never computes
-- with, so its type is a parameter.
pub mod Cache
use afri_pay.Base.{
  ℕ, Bool, true, false, List, [], ◌∷◌, ◌++◌, Option, none, some, Text, codes, is_empty, Result, ok,
  err, bad_request, plain,
}
use afri_pay.Base.Actions.{Action, ◌>>=◌, ◌>>◌, lift, pure, modify}

pub record RateResult (R : Type 0) : Type 0 where
  pub from : Text
  pub to : Text
  pub rate : R
  pub source : Text
  pub timestamp : Text

-- `60 * 15`
abbrev pub cache_ttl_seconds : ℕ
cache_ttl_seconds = 900

-- How a read of Redis ends: a throw, nothing (or an empty text), a text that is not JSON, or a result.
pub data CacheReply (R : Type 0) : Type 0 where
  failed : CacheReply R
  missing : CacheReply R
  malformed : CacheReply R
  hit : RateResult R → CacheReply R

-- How a request to the provider ends: unreachable, a status that is not ok, a body that is not JSON,
-- or the rate under a symbol, where there is one that is a number.
pub data RateReply (R : Type 0) : Type 0 where
  unreachable : RateReply R
  rejected : ℕ → RateReply R
  malformed : RateReply R
  rates : Option R → RateReply R

-- What a call does to the outside: a request to the provider for two currencies, or a write to Redis
-- under a key with its lifetime; the last one first.
pub data Effect (R : Type 0) : Type 0 where
  asked : Text → Text → Effect R
  written : Text → RateResult R → ℕ → Effect R

-- Redis and the provider during a call; `to_upper` is `toUpperCase`, which needs Unicode's tables,
-- and `read` gives the answer of Redis under a key.
pub record Outside (R : Type 0) : Type 0 where
  pub to_upper : Text → Text
  pub read : Text → CacheReply R
  pub provider : Text → Text → RateReply R
  pub now : Text

module _ {R : Type 0} (outside : Outside R) where
  unfoldable pub cache_key : Text → Text → Text
  cache_key from to = codes "rate:" ++ outside.to_upper from ++ codes ":" ++ outside.to_upper to

  abbrev pub read_rate : Text → Text → RateReply R → Result (RateResult R)
  read_rate from to unreachable = err (plain "TypeError")
  read_rate from to (rejected status) = err (plain "Exchange rate provider error")
  read_rate from to malformed = err (plain "SyntaxError")
  read_rate from to (rates none) = err (plain "No rate found")
  read_rate from to (rates (some rate)) = ok (record {
    from = outside.to_upper from;
    to = outside.to_upper to;
    rate = rate;
    source = codes "openexchangerates.org";
    timestamp = outside.now;
  })

  unfoldable pub fetch_from_provider : Text → Text → Action (List (Effect R)) (RateResult R)
  fetch_from_provider from to = do
    modify (λ effects. asked (outside.to_upper from) (outside.to_upper to) ∷ effects)
    lift (read_rate from to (outside.provider (outside.to_upper from) (outside.to_upper to)))

  -- The cached result; a throw of the read or of `JSON.parse` counts as none.
  abbrev pub cached_result : CacheReply R → Option (RateResult R)
  cached_result failed = none
  cached_result missing = none
  cached_result malformed = none
  cached_result (hit result) = some result

  -- A throw of the write is swallowed.
  unfoldable pub fetch_and_store : Text → Text → Action (List (Effect R)) (RateResult R)
  unfolding fetch_from_provider cache_key
  fetch_and_store from to = do
    result ← fetch_from_provider from to
    modify (λ effects. written (cache_key from to) result cache_ttl_seconds ∷ effects)
    pure result

  unfoldable pub get_rate : Text → Text → Action (List (Effect R)) (RateResult R)
  unfolding fetch_and_store
  get_rate from to = elim (cached_result (outside.read (cache_key from to))) [
    | some result ↦ pure result
    | none ↦ fetch_and_store from to
  ]

  -- `RatesController.getRate`: both parameters are required.
  unfoldable pub handle_get_rate :
      Option Text → Option Text → Action (List (Effect R)) (RateResult R)
  handle_get_rate (some (f ∷ from)) (some (t ∷ to)) = get_rate (f ∷ from) (t ∷ to)
  handle_get_rate (some (f ∷ from)) (some []) =
      lift (err (bad_request "Both from and to query params are required"))
  handle_get_rate (some (f ∷ from)) none =
      lift (err (bad_request "Both from and to query params are required"))
  handle_get_rate (some []) to =
      lift (err (bad_request "Both from and to query params are required"))
  handle_get_rate none to = lift (err (bad_request "Both from and to query params are required"))
