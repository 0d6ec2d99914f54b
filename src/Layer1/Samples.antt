-- ===== src/Layer1/Samples.antt =====
-- A transaction and a configuration for runs, over numbers with four decimals.
use pay_shield.Prelude.{true, false, none, some, [], ◌∷◌}
use pay_shield.Prelude.Int.{ℤ, pos}
use pay_shield.Layer1.Rules.{Velocity}
use pay_shield.Layer1.Gate.{Config, StatisticalFilter, Transaction}

abbrev pub config : Config ℤ
config = record {
  velocity_zscore = pos 35_000;
  tiny = pos 0;
  geo_config = record {
    haversine = λ a b c d. pos 0;
    max_velocity_kmh = pos 9_000_000;
    high_risk_countries = "XX" ∷ [];
  };
  benford_config = record {
    expected = pos 3_010 ∷ [];
    critical_005 = pos 155_070;
    critical_001 = pos 200_900;
    min_samples = 30;
    whitelist = [];
  };
  has_redis = true;
}

abbrev pub filters : StatisticalFilter ℤ
filters = record { merchants = λ m. none; audit_log = [] }

-- 25 transactions of three users on one device in a day
abbrev pub velocity_features : Velocity ℤ
velocity_features = record {
  txn_count_5m = none;
  txn_count_1h = none;
  amount_total_1h = none;
  device_txn_count_24h = some (pos 250_000);
  distinct_users_last_24h = some (pos 30_000);
  ip_txn_count_5m = none;
  distinct_merchants_1h = none;
}

abbrev pub transaction : Transaction ℤ
transaction = record {
  velocity_features = velocity_features;
  deviation_features = none;
  current_loc = none;
  last_loc = none;
  baseline = none;
  account_age_days = pos 3_000_000;
  user_country = none;
  txn_country = none;
  merchant_id = some "shop";
  amount = b'2' ∷ b'5' ∷ [];
  is_shell_merchant = false;
}
