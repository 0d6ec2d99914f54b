-- ===== src/ReturnRisk/Values.antt =====
-- return_risk/scorer.py: how the scorer reads the features. Where `float` raises, `to_float` is none.
use pay_shield.Prelude.{
  String, Bool, true, false, not, ◌||◌, ◌&&◌, Option, none, some, List, [], ◌∷◌, map, str_eq,
  get_or,
}
use pay_shield.Prelude.Float.{Float, lit, flt}
use pay_shield.ReturnRisk.Rules.{
  Raw, number, flag, text, object, null, Feature, Features, get_feature,
}

-- the features that the model reads
abbrev xgb_names : List String
xgb_names =
    "user_return_rate_30d" ∷ "user_return_rate_90d" ∷ "txn_amount_vs_user_aov_ratio"
    ∷ "txn_category_return_baseline" ∷ "txn_payment_method_risk" ∷ "txn_device_fingerprint_match"
    ∷ "txn_days_since_last_order" ∷ []

module _ {F : Type 0} ⦃f : Float F⦄ where
  -- Python's `float(value)`; the texts among the features are timestamps, on which it raises
  abbrev pub to_float : Raw F → Option F
  to_float (number x) = some x
  to_float (flag true) = some (lit 10_000)
  to_float (flag false) = some (lit 0)
  to_float _ = none

  abbrev pub truthy : Raw F → Bool
  truthy (number x) = flt x (lit 0) || flt (lit 0) x
  truthy (flag b) = b
  truthy (text s) = not (str_eq s "")
  truthy (object s) = not (str_eq s "{}")
  truthy null = false

  abbrev pub raw_value : Option (Feature F) → Raw F
  raw_value none = number (lit 0)
  raw_value (some x) = x.value

  -- `_val`: 0 for a missing or null value; where `float` raises, `reads_model` is false
  abbrev pub val : Features F → String → F
  val fs name = get_or (to_float (raw_value (get_feature name fs))) (lit 0)

  -- `float(value) if value is not None else default` does not raise
  abbrev reads : Raw F → Bool
  reads (number x) = true
  reads (flag b) = true
  reads null = true
  reads _ = false

  -- nor does `float(value or 0)`
  abbrev reads_or_zero : Raw F → Bool
  reads_or_zero (text s) = str_eq s ""
  reads_or_zero (object s) = str_eq s "{}"
  reads_or_zero _ = true

  abbrev all_read : Features F → List String → Bool
  all_read fs [] = true
  all_read fs (n ∷ ns) = reads (raw_value (get_feature n fs)) && all_read fs ns

  abbrev pub reads_model : Features F → Bool
  reads_model fs = all_read fs xgb_names

  abbrev pub reads_orders : Features F → Bool
  reads_orders fs = reads_or_zero (raw_value (get_feature "user_total_orders" fs))

  -- what the model reads, where there is one, and what the confidence reads
  abbrev pub is_readable : Option (List F → F) → Features F → Bool
  is_readable none fs = reads_orders fs
  is_readable (some predict) fs = reads_model fs && reads_orders fs

  abbrev pub xgb_features : Features F → List F
  xgb_features fs = map (val fs) xgb_names
