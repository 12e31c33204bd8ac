-- ===== src/Momo/Config.antt =====
-- backend/src/momo/momo.config.ts: the settings of the sandbox, read from the environment.
use afri_pay.Base.{
  ◌≡◌, refl, Bool, false, not, ◌||◌, ◌&&◌, [], Option, none, some, Text, codes, text_eq,
  text_eq_iff, is_empty, arith, ◌∷◌, Result, ok, plain, throw_if,
}
use afri_pay.Base.Results.{◌>>◌, guard-eq-ok}

-- `type MomoProduct` of momo-auth.service.ts.
pub data MomoProduct : Type 0 where
  collection disbursement : MomoProduct

-- The variables of `process.env` that the code reads; `none` is unset.
pub record Env : Type 0 where
  pub target_environment : Option Text
  pub base_url : Option Text
  pub callback_url : Option Text
  pub webhook_token : Option Text
  pub api_key : Option Text
  pub collection_api_user : Option Text
  pub collection_api_secret : Option Text
  pub disbursement_api_user : Option Text
  pub disbursement_api_secret : Option Text
  pub node_env : Option Text

pub record MomoProductConfig : Type 0 where
  pub subscription_key : Text
  pub api_user : Text
  pub api_key : Text

pub record MomoConfig : Type 0 where
  pub base_url : Text
  pub target_environment : Text
  pub callback_url : Option Text
  pub webhook_token : Option Text
  pub collection : MomoProductConfig
  pub disbursement : MomoProductConfig

abbrev pub sandbox_url : Text
sandbox_url = codes "https://sandbox.momodeveloper.mtn.com"

-- `value || fallback`
abbrev pub or_else : Option Text → Text → Text
or_else none fallback = fallback
or_else (some []) fallback = fallback
or_else (some value) fallback = value

-- `value && value !== expected`
abbrev pub is_other : Option Text → Text → Bool
is_other none expected = false
is_other (some value) expected = not (is_empty value) && not (text_eq value expected)

unfoldable pub get_momo_config : Env → Result MomoConfig
get_momo_config env = do
  throw_if (is_other env.target_environment (codes "sandbox") || is_other env.base_url sandbox_url)
      (plain "Only the official MTN MoMo sandbox is enabled")
  ok (record {
    base_url = or_else env.base_url sandbox_url;
    target_environment = or_else env.target_environment (codes "sandbox");
    callback_url = env.callback_url;
    webhook_token = env.webhook_token;
    collection = record {
      subscription_key = or_else env.api_key [];
      api_user = or_else env.collection_api_user [];
      api_key = or_else env.collection_api_secret [];
    };
    disbursement = record {
      subscription_key = or_else env.api_key [];
      api_user = or_else env.disbursement_api_user [];
      api_key = or_else env.disbursement_api_secret [];
    };
  })

-- `config[product]`
abbrev pub product_config : MomoConfig → MomoProduct → MomoProductConfig
product_config config collection = config.collection
product_config config disbursement = config.disbursement

unfoldable pub assert_product_config : MomoProductConfig → Result (Unit {0})
assert_product_config product =
    throw_if
      (is_empty product.subscription_key || is_empty product.api_user || is_empty product.api_key)
      (plain "MTN MoMo is not configured")

or_else-eq : (o : Option Text) (t : Text) → is_other o t ≡ false → or_else o t ≡ t
or_else-eq none t h = refl
or_else-eq (some []) t h = refl
or_else-eq (some (c ∷ s)) t h = ground (arith, text_eq_iff (c ∷ s) t)

-- A configuration that `getMomoConfig` returns has the URL of the official sandbox and the target
-- environment `sandbox`, whatever the environment holds.
pub get_momo_config-sandbox :
    (env : Env) {config : MomoConfig}
    → get_momo_config env ≡ ok config
    → (config.base_url ≡ sandbox_url) × (config.target_environment ≡ codes "sandbox")
unfolding get_momo_config
get_momo_config-sandbox env {config} e =
    let (home, made) =
      guard-eq-ok
        (is_other env.target_environment (codes "sandbox") || is_other env.base_url sandbox_url) _ _
        e in
    ground (
      arith,
      or_else-eq env.base_url sandbox_url,
      or_else-eq env.target_environment (codes "sandbox"),
    )
