-- ===== src/ReturnRisk/Extract.antt =====
-- return_risk/feature_engine.py: the features of the user and of the merchant. A read that raises
-- gives `none`. `loads` stands for `json.loads`.
use pay_shield.Prelude.{
  find_key, ℕ, ◌+◌, ◌*◌, String, Bool, true, false, ◌&&◌, Option, none, some, List, [], ◌∷◌, leb,
  ltb, length, filter, get_or, if◌then◌else◌,
}
use pay_shield.Client.{CallResult, taken, refused, raises}
use pay_shield.Prelude.Float.{Float, lit, of_ℕ, div, flt}
use pay_shield.ReturnRisk.Rules.{Raw, number, flag, text, object, null, Feature, Features}
use pay_shield.ReturnRisk.Store.{UserHash, UserKeys, MerchantHash, MerchantKeys, Calls}

-- the value of a call that `_safe_redis` awaits, with the default none
abbrev pub safe_redis {ℓ} : {A : Type ℓ} → Bool → A → Option A
safe_redis answered a = if answered then some a else none

-- `_safe_redis(self.redis.hgetall(key), default=None)`: a hash that is not there is {}
abbrev pub read_hash : {A : Type 0} → CallResult → Option A → Option (Option A)
read_hash taken h = some h
read_hash refused h = some none
read_hash raises h = none

-- `_count_returns_in_window`
abbrev pub count_returns_in_window : Option (List (String × ℕ)) → ℕ → ℕ → ℕ
count_returns_in_window none days now = 0
count_returns_in_window (some returns) days now =
    length (filter (λ (order, at). leb now (at + days * 86_400)) returns)

-- what the registry's file holds for this engine
pub record Priors (F : Type 0) : Type 0 where
  pub default_prior : F
  pub default_priors : List (String × F)

module _ {F : Type 0} ⦃f : Float F⦄ where
  abbrev pub feature : String → Raw F → String → String × Feature F
  feature name v source = (name, record { value = v; source = source })

  abbrev pub population_aov : F
  population_aov = of_ℕ 74_500

  -- `CATEGORY_BASELINES`
  abbrev pub category_baselines : List (String × F)
  category_baselines =
      ("fashion", lit 3_200)
      ∷ ("electronics", lit 1_200)
      ∷ ("groceries", lit 400)
      ∷ ("home", lit 1_800)
      ∷ ("beauty", lit 1_500)
      ∷ ("sports", lit 2_000)
      ∷ ("footwear", lit 2_500)
      ∷ ("furniture", lit 550)
      ∷ ("default", lit 1_500)
      ∷ []

  -- `{**CATEGORY_BASELINES, **registry.default_priors}`, where a category of neither table has the
  -- value of "default"
  abbrev pub category_prior : Priors F → String → F
  category_prior p c = get_or (find_key c p.default_priors) (
      get_or (find_key c category_baselines)
        (get_or (find_key "default" p.default_priors) (lit 1_500)))

  abbrev neutral : F → String → Features F
  neutral prior source =
      feature "user_return_rate_30d" (number prior) source
      ∷ feature "user_return_rate_90d" (number prior) source
      ∷ feature "user_return_rate_lifetime" (number prior) source
      ∷ feature "user_total_orders" (number (lit 0)) source
      ∷ feature "user_total_returns" (number (lit 0)) source
      ∷ feature "user_serial_returner_flag" (flag false) source
      ∷ feature "user_return_velocity_7d" (number (lit 0)) source
      ∷ feature "user_cod_refusal_rate" (number (lit 0)) source
      ∷ feature "user_cod_orders" (number (lit 0)) source
      ∷ feature "user_avg_return_value" (number (lit 0)) source
      ∷ feature "user_return_reason_distribution" (object "{}") source
      ∷ feature "user_is_new" (flag true) "inferred"
      ∷ feature "user_avg_order_value" (number population_aov) source
      ∷ feature "user_last_activity" null source
      ∷ []

  -- `a / b if b > 0 else 0.0` of two counts
  abbrev pub rate : ℕ → ℕ → F
  rate a b = if ltb 0 b then div (of_ℕ a) (of_ℕ b) else lit 0

  abbrev pub serial_returner : F → ℕ → Bool
  serial_returner lifetime orders = flt (lit 5_000) lifetime && leb 3 orders

  abbrev known_aov : Option F → F
  known_aov o = get_or o population_aov

  abbrev aov_source : Option F → String
  aov_source none = "computed"
  aov_source (some x) = "redis_hash"

  abbrev activity : Option String → Raw F
  activity none = null
  activity (some s) = text s

  module _ (loads : String → Option String) where
    abbrev pub known : UserHash F → ℕ → Features F
    known h velocity =
        let orders = get_or h.total_orders 0 in
        let returns = get_or h.total_returns 0 in
        let refusals = get_or h.cod_refusals 0 in
        let cod = get_or h.cod_orders refusals in
        let reasons = get_or (loads (get_or h.return_reason_distribution "{}")) "{}" in
        feature "user_return_rate_30d" (number (get_or h.return_rate_30d (lit 0))) "redis_hash"
        ∷ feature "user_return_rate_90d" (number (get_or h.return_rate_90d (lit 0))) "redis_hash"
        ∷ feature "user_return_rate_lifetime" (number (f.round4 (rate returns orders))) "computed"
        ∷ feature "user_total_orders" (number (of_ℕ orders)) "redis_hash"
        ∷ feature "user_total_returns" (number (of_ℕ returns)) "redis_hash"
        ∷ feature "user_serial_returner_flag" (flag (serial_returner (rate returns orders) orders))
            "computed"
        ∷ feature "user_return_velocity_7d" (number (of_ℕ velocity)) "redis_zset"
        ∷ feature "user_cod_refusal_rate" (number (f.round4 (rate refusals cod))) "computed"
        ∷ feature "user_cod_orders" (number (of_ℕ cod)) "redis_hash"
        ∷ feature "user_avg_return_value" (number (get_or h.avg_return_value (lit 0))) "redis_hash"
        ∷ feature "user_return_reason_distribution" (object reasons) "redis_hash"
        ∷ feature "user_is_new" (flag false) "inferred"
        ∷ feature "user_avg_order_value" (number (f.round2 (known_aov h.avg_order_value)))
            (aov_source h.avg_order_value)
        ∷ feature "user_last_activity" (activity h.last_activity) "redis_hash"
        ∷ []

    abbrev pub user_features : F → Option (Option (UserHash F)) → ℕ → Features F
    user_features prior none velocity = neutral prior "default_redis_error"
    user_features prior (some none) velocity = neutral prior "default_new_user"
    user_features prior (some (some h)) velocity = known h velocity

    -- `_extract_user_features`
    abbrev pub extract_user : F → Calls → UserKeys F → ℕ → Features F
    extract_user prior calls keys now =
        let returns = safe_redis calls.zrangebyscore keys.returns in
        user_features prior (read_hash calls.hgetall_user keys.hash)
          (count_returns_in_window returns 7 now)

  -- `_merchant_category_rate`
  abbrev pub merchant_category_rate : Priors F → Bool → MerchantKeys F → String → F
  merchant_category_rate p answered keys c =
      if answered
      then get_or (find_key c keys.category) (category_prior p c)
      else category_prior p c

  abbrev no_merchant_features : Priors F → String → String → Features F
  no_merchant_features p c source =
      feature "merchant_return_rate_30d" (number p.default_prior) source
      ∷ feature "merchant_return_fraud_rate" (number (lit 0)) source
      ∷ feature "merchant_avg_resolution_time" (number (of_ℕ 72)) source
      ∷ feature "merchant_category_return_rate" (number (category_prior p c)) "lookup_table"
      ∷ []

  abbrev known_merchant : MerchantHash F → F → Features F
  known_merchant h category_rate =
      let fraud = get_or h.fraud_rate (get_or h.return_fraud_rate (lit 0)) in
      let hours = get_or h.avg_resolution_time (get_or h.avg_resolution_hours (of_ℕ 72)) in
      feature "merchant_return_rate_30d" (number (get_or h.return_rate_30d (lit 1_500)))
        "redis_hash"
      ∷ feature "merchant_return_fraud_rate" (number fraud) "redis_hash"
      ∷ feature "merchant_avg_resolution_time" (number hours) "redis_hash"
      ∷ feature "merchant_category_return_rate" (number category_rate) "redis_zset"
      ∷ []

  abbrev pub merchant_features :
      Priors F → String → F → Option (Option (MerchantHash F)) → Features F
  merchant_features p c category_rate none = no_merchant_features p c "default_redis_error"
  merchant_features p c category_rate (some none) = no_merchant_features p c "default"
  merchant_features p c category_rate (some (some h)) = known_merchant h category_rate

  -- `_extract_merchant_features`
  abbrev pub extract_merchant : Priors F → Calls → MerchantKeys F → String → Features F
  extract_merchant p calls keys c =
      merchant_features p c (merchant_category_rate p calls.zscore keys c)
        (read_hash calls.hgetall_merchant keys.hash)
