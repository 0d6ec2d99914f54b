-- ===== src/ReturnRisk/Scorer.antt =====
-- return_risk/scorer.py: the weighted composite, the tier, the confidence and `score`. The trained
-- model is a parameter, a function of its seven inputs. `none` is an exception of `float`.
use pay_shield.Prelude.{
  ℕ, ◌+◌, String, Bool, not, ◌||◌, ◌&&◌, Option, none, some, List, [], ◌∷◌, any, str_eq,
  starts_with, length, filter, get_or, ◌>>=◌, if◌then◌else◌,
}
use pay_shield.Prelude.Float.{Float, lit, of_ℕ, add, sub, mul, div, fle, fmin, fmax, fabs}
use pay_shield.ReturnRisk.Rules.{Raw, Feature, Features, get_feature, ReturnRule, Trigger, evaluate}
use pay_shield.ReturnRisk.Recommend.{Tier, low, medium, high, Recommendation, recommend}
use pay_shield.ReturnRisk.Values.{to_float, truthy, raw_value, val, xgb_features, is_readable}

pub record Breakdown (F : Type 0) : Type 0 where
  pub feature : String
  pub value : Raw F
  pub normalized_value : F
  pub weight : F
  pub contribution : F
  pub source : String

-- the values that `max_score` has in the configured tiers
pub record Scorer (F : Type 0) : Type 0 where
  pub weights : List (String × F)
  pub low_max : F
  pub medium_max : F
  pub high_max : F
  pub rules : List ReturnRule
  pub model : Option (List F → F)

pub data EngineName : Type 0 where
  hand_weighted xgboost : EngineName

pub record Assessment (F : Type 0) : Type 0 where
  pub return_risk_score : F
  pub risk_tier : Tier
  pub confidence : F
  pub feature_breakdown : List (Breakdown F)
  pub rules_triggered : List Trigger
  pub recommendations : List Recommendation
  pub engine : EngineName

abbrev pub is_override : Trigger → Bool
is_override t = str_eq (get_or t.action "") "OVERRIDE_SCORE"

module _ {F : Type 0} ⦃f : Float F⦄ where
  abbrev scaled : Option F → Option F
  scaled none = none
  scaled (some x) = some (fmin (lit 10_000) (div x (lit 50_000)))

  unfoldable pub normalize_feature : String → Raw F → Option F
  normalize_feature name v =
      if str_eq name "user_serial_returner_flag"
      then some (if truthy v then lit 10_000 else lit 0)
      else if str_eq name "user_return_velocity_7d"
      then scaled (to_float v)
      else some (get_or (to_float v) (lit 0))

  abbrev raw_source : Option (Feature F) → String
  raw_source none = "unknown"
  raw_source (some x) = x.source

  abbrev weigh : String → F → Option (Feature F) → F → Breakdown F
  weigh name w x n = record {
    feature = name;
    value = raw_value x;
    normalized_value = f.round4 n;
    weight = w;
    contribution = f.round4 (mul n w);
    source = raw_source x;
  }

  -- the loop over the weights, with the score so far
  unfoldable pub weighted_sum : Features F → List (String × F) → F → Option (F × List (Breakdown F))
  unfolding normalize_feature
  weighted_sum fs [] acc = some (acc, [])
  weighted_sum fs ((name, w) ∷ ws) acc = do
    let x = get_feature name fs
    n ← normalize_feature name (raw_value x)
    (total, rest) ← weighted_sum fs ws (add acc (mul n w))
    some (total, weigh name w x n ∷ rest)

  -- `RULE_BOOST`
  abbrev boost_of : String → F
  boost_of r =
      if str_eq r "R-RULE-01"
      then lit 1_500
      else if str_eq r "R-RULE-02"
      then lit 1_000
      else if str_eq r "R-RULE-03"
      then lit 1_500
      else if str_eq r "R-RULE-04"
      then lit 500
      else if str_eq r "R-RULE-05"
      then lit 1_000
      else if str_eq r "R-RULE-08"
      then f.neg (lit 500)
      else lit 0

  boost_sum : List Trigger → F → F
  boost_sum [] acc = acc
  boost_sum (t ∷ ts) acc = boost_sum ts (if t.triggered then add acc (boost_of t.rule_id) else acc)

  unfoldable pub promotion_score : List Trigger → F
  unfolding boost_sum
  promotion_score ts = fmax (f.neg (lit 500)) (fmin (lit 2_500) (boost_sum ts (lit 0)))

  -- `max(0.0, min(1.0, x))`
  abbrev pub clamp : F → F
  clamp x = fmax (lit 0) (fmin (lit 10_000) x)

  unfoldable pub compute_score :
      Scorer F → Features F → List Trigger → Option (F × List (Breakdown F))
  unfolding weighted_sum promotion_score
  compute_score s fs ts = do
    (total, breakdown) ← weighted_sum fs s.weights (lit 0)
    some (clamp (add total (promotion_score ts)), breakdown)

  unfoldable pub determine_tier : Scorer F → F → Tier
  determine_tier s x = if fle x s.low_max then low else if fle x s.medium_max then medium else high

  abbrev is_real : String × Feature F → Bool
  is_real (k, x) =
      not (starts_with x.source "default")
      && not (str_eq x.source "placeholder" || str_eq x.source "unknown" || str_eq x.source "")

  abbrev provenance : Features F → F
  provenance [] = lit 0
  provenance (x ∷ fs) = div (of_ℕ (length (filter is_real (x ∷ fs)))) (of_ℕ (length (x ∷ fs)))

  abbrev is_missing : Option (Feature F) → ℕ
  is_missing none = 1
  is_missing (some x) = 0

  abbrev pub missing : Features F → ℕ
  missing fs =
      is_missing (get_feature "user_return_rate_30d" fs)
      + is_missing (get_feature "merchant_return_rate_30d" fs)
      + is_missing (get_feature "txn_category_return_baseline" fs)

  unfoldable pub calculate_confidence : Features F → F → F
  calculate_confidence fs score =
      let history_depth = fmin (lit 10_000) (div (val fs "user_total_orders") (lit 100_000)) in
      let decisiveness =
        fmin (lit 10_000) (fmax (lit 0) (mul (fabs (sub score (lit 5_000))) (lit 20_000))) in
      let confidence =
        add (add (mul (lit 4_000) decisiveness) (mul (lit 3_500) (provenance fs)))
          (mul (lit 2_500) history_depth) in
      clamp (sub confidence (mul (of_ℕ (missing fs)) (lit 1_000)))

  -- the model's score where there is a model, else the composite
  abbrev pub engine_score : Option (List F → F) → Features F → F → F × EngineName
  engine_score none fs x = (x, hand_weighted)
  engine_score (some predict) fs x = (predict (xgb_features fs), xgboost)

  -- the abuse-ring floor
  unfoldable pub floored : List Trigger → F → F
  floored ts x = if any is_override ts then fmax x (lit 8_500) else x

  abbrev pub assess : Scorer F → Features F → List Trigger → F × List (Breakdown F) → Assessment F
  assess s fs ts (composite, breakdown) =
      let (x, engine) = engine_score s.model fs composite in
      let final = floored ts x in
      let tier = determine_tier s final in
      record {
        return_risk_score = f.round4 final;
        risk_tier = tier;
        confidence = f.round4 (calculate_confidence fs final);
        feature_breakdown = breakdown;
        rules_triggered = ts;
        recommendations = recommend tier ts (truthy (raw_value (get_feature "txn_cod_flag" fs)));
        engine = engine;
      }

  -- `score`, on the extracted features; none is an exception
  unfoldable pub score :
      (String → List (String × Raw F) → Option Bool) → Scorer F → Features F → Option (Assessment F)
  unfolding evaluate compute_score floored determine_tier calculate_confidence recommend
  score eval s fs = do
    let ts = evaluate eval s.rules fs
    r ← compute_score s fs ts
    if is_readable s.model fs then some (assess s fs ts r) else none
