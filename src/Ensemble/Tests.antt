-- ===== src/Ensemble/Tests.antt =====
-- Runs of the fusion engine on small inputs, over numbers with four decimals.
use pay_shield.Prelude.{◌≡◌, refl, Option, none, some, []}
use pay_shield.Prelude.Int.{ℤ, pos}
use pay_shield.Prelude.Float.Fixed.{fixed, ℤ-IsOrdered}
use pay_shield.Layer1.Rules.{allow, block, velocity_filter, fires, gated, gate_action}
use pay_shield.Layer1.Gate.{Layer1Result, evaluate}
use pay_shield.Layer1.Samples.{config, filters, transaction}
use pay_shield.Ensemble.{Layer2Result, Engine, Fitted, fuse}
use pay_shield.Ensemble.Decide.{fuse-evaluate}
use pay_shield.Ensemble.Floor.{fuse-floor}

abbrev engine : Engine ℤ
engine = record {
  layer1_weight = pos 3_000;
  layer2_weight = pos 7_000;
  fraud_threshold = pos 8_000;
  review_threshold = pos 6_000;
  calibrator = none;
  disagreements = [];
}

abbrev layer1 : Layer1Result ℤ
layer1 = record {
  decision = allow;
  confidence = pos 0;
  triggered_rules = [];
  rule_details = [];
  velocity_result = none;
  geo_result = none;
  benford_result = none;
}

abbrev layer2 : Option (Layer2Result ℤ)
layer2 = some (record { fraud_probability = some (pos 9_000) })

fuse-evaluate_example :
    let l1 = (evaluate config filters transaction).0 in
    ((fuse engine l1 layer2).0.decision ≡ block) × ((fuse engine l1 layer2).1 ≡ engine)
unfolding velocity_filter fires gated gate_action
fuse-evaluate_example = fuse-evaluate engine config filters transaction layer2 refl

abbrev fitted : Fitted ℤ
fitted = record { support_max = pos 7_000; predict = λ x. pos 9_000 }

fuse-floor_example : (fuse engine layer1 layer2).0.decision ≡ block
fuse-floor_example = fuse-floor ℤ ℤ-IsOrdered engine layer1 (pos 9_000) refl refl tt
