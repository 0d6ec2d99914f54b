-- ===== src/ReturnRisk/Store.antt =====
-- The keys of Redis that return_risk/feature_engine.py reads and writes, as its module comment lists
-- them, and what the calls of one request give. A hash of Redis with no fields is a
-- hash that is not there. Times are in seconds.
use pay_shield.Prelude.{
  ℕ, String, Bool, Option, none, List, [], ◌∷◌, ◌++◌, any, str_eq, if◌then◌else◌,
}
use pay_shield.Client.{CallResult}

-- `return_risk:user:{user_id}`
pub record UserHash (F : Type 0) : Type 0 where
  pub total_orders : Option ℕ
  pub total_returns : Option ℕ
  pub cod_orders : Option ℕ
  pub cod_refusals : Option ℕ
  pub return_rate_30d : Option F
  pub return_rate_90d : Option F
  pub avg_return_value : Option F
  pub avg_order_value : Option F
  pub return_reason_distribution : Option String
  pub last_activity : Option String

-- with `:returns`, the times of the returned orders, and `:reasons`
pub record UserKeys (F : Type 0) : Type 0 where
  pub hash : Option (UserHash F)
  pub returns : List (String × ℕ)
  pub reasons : List (String × ℕ)

-- `return_risk:merchant:{merchant_id}`
pub record MerchantHash (F : Type 0) : Type 0 where
  pub return_rate_30d : Option F
  pub fraud_rate : Option F
  pub return_fraud_rate : Option F
  pub avg_resolution_time : Option F
  pub avg_resolution_hours : Option F

-- with `:category`
pub record MerchantKeys (F : Type 0) : Type 0 where
  pub hash : Option (MerchantHash F)
  pub category : List (String × F)

pub record Redis (F : Type 0) : Type 0 where
  pub users : List (String × UserKeys F)
  pub merchants : List (String × MerchantKeys F)
  pub addresses : List (String × List String)

-- the calls of one request: for the others than the hashes it is the same whether the client refuses
-- or raises
pub record Calls : Type 0 where
  pub hgetall_user : CallResult
  pub zrangebyscore : Bool
  pub hgetall_merchant : CallResult
  pub zscore : Bool
  pub sadd : Bool
  pub smembers : Bool

abbrev pub no_hash : {F : Type 0} → UserHash F
no_hash = record {
  total_orders = none;
  total_returns = none;
  cod_orders = none;
  cod_refusals = none;
  return_rate_30d = none;
  return_rate_90d = none;
  avg_return_value = none;
  avg_order_value = none;
  return_reason_distribution = none;
  last_activity = none;
}

abbrev pub no_merchant : {F : Type 0} → MerchantKeys F
no_merchant = record { hash = none; category = [] }

abbrev pub no_keys : {F : Type 0} → UserKeys F
no_keys = record { hash = none; returns = []; reasons = [] }

-- `sadd`
abbrev pub add_member : String → List String → List String
add_member u us = if any (str_eq u) us then us else us ++ u ∷ []
