-- ===== src/Layer1/Gate.antt =====
-- engine/statistical_filter.py: `DecisionGate.compose` and `StatisticalFilter.evaluate`.
use pay_shield.Prelude.{
  ℕ, zero, suc, String, Bool, Option, none, some, List, [], ◌∷◌, ◌++◌, str_eq, if◌then◌else◌,
}
use pay_shield.Prelude.Float.{Float}
use pay_shield.Layer1.Rules.{
  Decision, RuleName, Detail, FilterResult, Velocity, Deviation, velocity, gate_action,
  gate_confidence, velocity_filter,
}
use pay_shield.Layer1.Geo.{GeoPoint, Baseline, GeoConfig, geo_filter}
use pay_shield.Layer1.Benford.{Counts, BenfordConfig, benford_filter}

module _ {F : Type 0} where
  abbrev pub all_rules : List (FilterResult F) → List RuleName
  all_rules [] = []
  all_rules (r ∷ rs) = r.triggered_rules ++ all_rules rs

  abbrev pub all_details : List (FilterResult F) → List Detail
  all_details [] = []
  all_details (r ∷ rs) = r.rule_details ++ all_details rs

  -- `results[i] if len(results) > i else None`
  abbrev pub get_elem? : List (FilterResult F) → ℕ → Option (FilterResult F)
  get_elem? [] i = none
  get_elem? (r ∷ rs) zero = some r
  get_elem? (r ∷ rs) (suc i) = get_elem? rs i

module _ {F : Type 0} ⦃f : Float F⦄ where
  unfoldable pub compose : List (FilterResult F) → FilterResult F
  unfolding gate_action gate_confidence
  compose rs = record {
    action = gate_action (all_details rs);
    stage = velocity;
    triggered_rules = all_rules rs;
    rule_details = all_details rs;
    confidence = f.round4 (gate_confidence (all_details rs));
  }

pub record Layer1Result (F : Type 0) : Type 0 where
  pub decision : Decision
  pub confidence : F
  pub triggered_rules : List RuleName
  pub rule_details : List Detail
  pub velocity_result : Option (FilterResult F)
  pub geo_result : Option (FilterResult F)
  pub benford_result : Option (FilterResult F)

-- what one call of `evaluate` is given
pub record Transaction (F : Type 0) : Type 0 where
  pub velocity_features : Velocity F
  pub deviation_features : Option (Deviation F)
  pub current_loc : Option (GeoPoint F)
  pub last_loc : Option (GeoPoint F)
  pub baseline : Option (Baseline F)
  pub account_age_days : F
  pub user_country : Option String
  pub txn_country : Option String
  pub merchant_id : Option String
  pub amount : List ℕ
  pub is_shell_merchant : Bool

pub record Config (F : Type 0) : Type 0 where
  pub velocity_zscore : F
  pub tiny : F
  pub geo_config : GeoConfig F
  pub benford_config : BenfordConfig F
  pub has_redis : Bool

-- the filter object with the part of Redis that it owns
pub record StatisticalFilter (F : Type 0) : Type 0 where
  pub merchants : String → Option Counts
  pub audit_log : List (Layer1Result F)

module _ {F : Type 0} ⦃f : Float F⦄ where
  abbrev pub run_velocity : Config F → Transaction F → FilterResult F
  run_velocity c t = velocity_filter c.velocity_zscore t.velocity_features t.deviation_features

  -- `if current_loc:`
  abbrev pub run_geo : Config F → Transaction F → Option (GeoPoint F) → List (FilterResult F)
  run_geo c t none = []
  run_geo c t (some now) =
      geo_filter c.tiny c.geo_config now t.last_loc t.baseline t.account_age_days t.user_country
        t.txn_country
      ∷ []

  abbrev merchant_counts : StatisticalFilter F → String → Option Counts → String → Option Counts
  merchant_counts s m counts m' = if str_eq m m' then counts else s.merchants m'

  -- `if merchant_id:`
  abbrev pub run_benford :
      Config F
      → StatisticalFilter F
      → Transaction F
      → Option String
      → List (FilterResult F) × StatisticalFilter F
  run_benford c s t none = ([], s)
  run_benford c s t (some m) =
      let (r, counts) =
        benford_filter c.benford_config c.has_redis m t.amount t.is_shell_merchant
          (s.merchants m) in
      (r ∷ [], record s { merchants = merchant_counts s m counts })

  abbrev pub results : Config F → StatisticalFilter F → Transaction F → List (FilterResult F)
  results c s t =
      run_velocity c t ∷ run_geo c t t.current_loc ++ (run_benford c s t t.merchant_id).0

  -- the result, whose three last fields are taken from the list by position
  abbrev pub layer1_result : List (FilterResult F) → Layer1Result F
  layer1_result rs =
      let composed = compose rs in
      record {
        decision = composed.action;
        confidence = composed.confidence;
        triggered_rules = composed.triggered_rules;
        rule_details = composed.rule_details;
        velocity_result = get_elem? rs 0;
        geo_result = get_elem? rs 1;
        benford_result = get_elem? rs 2;
      }

  unfoldable pub evaluate :
      Config F → StatisticalFilter F → Transaction F → Layer1Result F × StatisticalFilter F
  unfolding compose
  evaluate c s t =
      let r = layer1_result (results c s t) in
      let s' = (run_benford c s t t.merchant_id).1 in
      (r, record s' { audit_log = s'.audit_log ++ r ∷ [] })
