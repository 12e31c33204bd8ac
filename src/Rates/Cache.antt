-- ===== src/Rates/Cache.antt =====
-- When the provider is asked, and what is cached.
use afri_pay.Base.{◌≡◌, List, ◌∷◌, none, some, arith, Text, ok}
use afri_pay.Base.Actions.{◌>>=◌}
use afri_pay.Rates.{
  RateResult, hit, rates, Effect, asked, written, Outside, cache_key, cached_result,
  fetch_from_provider, fetch_and_store, get_rate,
}

module _ {R : Type 0} (outside : Outside R) where
  -- If Redis holds a result under the key of two currencies, `getRate` returns it, asks the
  -- provider for nothing and writes nothing.
  pub get_rate_hit :
      (from to : Text) (effects : List (Effect R)) (result : RateResult R)
      → outside.read (cache_key outside from to) ≡ hit result
      → get_rate outside from to effects ≡ (ok result, effects)
  unfolding get_rate ◌>>=◌
  get_rate_hit from to effects result e = ground arith

  -- If Redis gives no result and `getRate` returns one, the result names the two currencies in
  -- capitals and has the rate that the provider gave for them; the provider was asked once, and
  -- then the result was written under their key for 900 seconds.
  pub get_rate_miss :
      (from to : Text) (effects : List (Effect R)) {result : RateResult R}
      → cached_result outside (outside.read (cache_key outside from to)) ≡ none
      → (get_rate outside from to effects).0 ≡ ok result
      → (result.from ≡ outside.to_upper from)
        × (result.to ≡ outside.to_upper to)
        × (outside.provider (outside.to_upper from) (outside.to_upper to)
            ≡ rates (some result.rate))
        × ((get_rate outside from to effects).1
            ≡ written (cache_key outside from to) result 900
              ∷ asked (outside.to_upper from) (outside.to_upper to)
              ∷ effects)
  unfolding get_rate fetch_and_store fetch_from_provider ◌>>=◌
  get_rate_miss from to effects {result} e h = ground arith
