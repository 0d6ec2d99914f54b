-- ===== src/Score/Layers.antt =====
-- api/routes/score.py: the calls of the first layer, of the second and of the fusion, with the default
-- results that the route falls back on.
use pay_shield.Prelude.{ℕ, Bool, true, false, Option, none, some, List, [], str_eq, if◌then◌else◌}
use pay_shield.Prelude.Float.{Float, lit, of_ℕ}
use pay_shield.Layer1.Rules.{Decision, allow, Velocity, Deviation}
use pay_shield.Layer1.Geo.{GeoPoint, Baseline}
use pay_shield.Layer1.Gate.{Layer1Result, Config, StatisticalFilter, Transaction, evaluate}
use pay_shield.Ensemble.{LayerName, l2_gnn, Layer2Result, Engine, EnsembleResult, fuse}
use pay_shield.Score.History.{ScoreRequest, Place, RouteFeatures}

-- engine/constants.py, `L2Status`
pub data L2Status : Type 0 where
  success skipped_no_graph timeout model_unavailable failed : L2Status

-- what the graph model does when it is called: it may not be loaded, and may raise
pub data L2Call (F : Type 0) : Type 0 where
  not_loaded raised : L2Call F
  predicted : L2Status → F → L2Call F

module _ {F : Type 0} where
  abbrev no_features : Velocity F
  no_features = record {
    txn_count_5m = none;
    txn_count_1h = none;
    amount_total_1h = none;
    device_txn_count_24h = none;
    distinct_users_last_24h = none;
    ip_txn_count_5m = none;
    distinct_merchants_1h = none;
  }

  -- `velocity_features, deviation_features, last_loc, baseline`, with the defaults of the handler
  abbrev pub velocity_of : Option (RouteFeatures F) → Velocity F
  velocity_of none = no_features
  velocity_of (some x) = x.velocity_features

  abbrev pub deviation_of : Option (RouteFeatures F) → Option (Deviation F)
  deviation_of none = none
  deviation_of (some x) = some x.deviation_features

  abbrev last_loc_of : Option (RouteFeatures F) → Option (GeoPoint F)
  last_loc_of none = none
  last_loc_of (some x) = x.last_loc

  abbrev baseline_of : Option (RouteFeatures F) → Option (Baseline F)
  baseline_of none = none
  baseline_of (some x) = x.baseline

  abbrev current_point : F → Option (Place F) → Option (GeoPoint F)
  current_point now none = none
  current_point now (some p) = some (record { lat = p.lat; lon = p.lon; timestamp = now })

  -- `fraud_probability` is kept only from a SUCCESS
  abbrev probability : L2Status → F → Option F
  probability success p = some p
  probability _ p = none

  -- `_run_l2_inference`
  unfoldable pub run_l2_inference : L2Call F → Layer2Result F × L2Status
  run_l2_inference not_loaded = (record { fraud_probability = none }, model_unavailable)
  run_l2_inference raised = (record { fraud_probability = none }, failed)
  run_l2_inference (predicted s p) = (record { fraud_probability = probability s p }, s)

-- what the route reads of the result of the fusion
pub record Fused (F : Type 0) : Type 0 where
  pub decision : Decision
  pub confidence : F
  pub source : LayerName

module _ {F : Type 0} ⦃f : Float F⦄ where
  -- `Layer1Result()` and `EnsembleResult()`
  abbrev pub default_layer1 : Layer1Result F
  default_layer1 = record {
    decision = allow;
    confidence = lit 0;
    triggered_rules = [];
    rule_details = [];
    velocity_result = none;
    geo_result = none;
    benford_result = none;
  }

  abbrev pub default_fused : Fused F
  default_fused = record { decision = allow; confidence = lit 0; source = l2_gnn }

  -- the arguments of `stat_filter.evaluate`; `digits` are the characters of the amount
  abbrev pub transaction : (F → List ℕ) → ScoreRequest F → Option (RouteFeatures F) → Transaction F
  transaction digits t fs = record {
    velocity_features = velocity_of fs;
    deviation_features = deviation_of fs;
    current_loc = current_point t.timestamp t.location;
    last_loc = last_loc_of fs;
    baseline = baseline_of fs;
    account_age_days = of_ℕ 365;
    user_country = none;
    txn_country = none;
    merchant_id = if str_eq t.merchant_id "" then none else some t.merchant_id;
    amount = digits t.amount;
    is_shell_merchant = false;
  }

  -- the first layer: there may be no filter, and it may raise
  unfoldable pub run_layer1 :
      Option (Config F)
      → Bool
      → StatisticalFilter F
      → Transaction F
      → Layer1Result F × StatisticalFilter F
  run_layer1 none raises s t = (default_layer1, s)
  run_layer1 (some c) true s t = (default_layer1, s)
  run_layer1 (some c) false s t = evaluate c s t

  abbrev pub fused : EnsembleResult F → Fused F
  fused r = record { decision = r.decision; confidence = r.confidence; source = r.source }

  -- the fusion: there may be no engine, and it may raise
  unfoldable pub run_ensemble :
      Bool → Option (Engine F) → Layer1Result F → Layer2Result F → Fused F × Option (Engine F)
  run_ensemble raises none l1 l2 = (default_fused, none)
  run_ensemble true (some e) l1 l2 = (default_fused, some e)
  run_ensemble false (some e) l1 l2 = let (r, e') = fuse e l1 (some l2) in (fused r, some e')
