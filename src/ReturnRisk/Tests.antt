-- ===== src/ReturnRisk/Tests.antt =====
-- Runs of the return-risk scorer on small inputs, over numbers with four decimals.
use pay_shield.Prelude.{
  ◌≡◌, refl, String, Bool, true, Option, none, some, List, [], ◌∷◌, get_or, str_eq, if◌then◌else◌,
}
use pay_shield.Prelude.Int.{ℤ, pos}
use pay_shield.Prelude.Float.{◌≼◌}
use pay_shield.Prelude.Float.Fixed.{fixed, ℤ-IsOrdered}
use pay_shield.ReturnRisk.Rules.{
  Raw, number, Features, ReturnRule, Trigger, fired, insert, sort, triggers, evaluate,
}
use pay_shield.ReturnRisk.Recommend.{high}
use pay_shield.ReturnRisk.Scorer.{
  Scorer, Assessment, normalize_feature, weighted_sum, compute_score, assess, score,
}
use pay_shield.ReturnRisk.Bounds.{score-bounds}
use pay_shield.ReturnRisk.Tiers.{score_floor}

-- every condition holds but the empty one, which raises
abbrev eval : String → List (String × Raw ℤ) → Option Bool
eval c flat = if str_eq c "" then none else some true

abbrev review : ReturnRule
review = record {
  rule_id = "R-RULE-04";
  condition = "c";
  action = "FLAG_FOR_REVIEW";
  severity = 3;
  enabled = true;
}

abbrev ring : ReturnRule
ring = record {
  rule_id = "R-RULE-09";
  condition = "c";
  action = "OVERRIDE_SCORE";
  severity = 5;
  enabled = true;
}

abbrev features : Features ℤ
features = ("user_return_rate_30d", record { value = number (pos 1_000); source = "redis" }) ∷ []

abbrev scorer : Scorer ℤ
scorer = record {
  weights = ("user_return_rate_30d", pos 2_500) ∷ [];
  low_max = pos 3_000;
  medium_max = pos 7_000;
  high_max = pos 10_000;
  rules = review ∷ ring ∷ [];
  model = none;
}

abbrev found : List Trigger
found = fired ring ∷ fired review ∷ []

abbrev assessed : Assessment ℤ
assessed = assess scorer features found (get_or (compute_score scorer features found) (pos 0, []))

score-assessed : score eval scorer features ≡ some assessed
unfolding score evaluate triggers sort insert compute_score weighted_sum normalize_feature
score-assessed = refl

score-bounds_example :
    ((pos 0 ≼ assessed.return_risk_score) × (assessed.return_risk_score ≼ pos 10_000))
    × ((pos 0 ≼ assessed.confidence) × (assessed.confidence ≼ pos 10_000))
score-bounds_example =
    score-bounds ℤ ℤ-IsOrdered eval scorer features assessed (λ p e. absurd (cc e)) score-assessed

score_floor_example : (assessed.risk_tier ≡ high) × (pos 8_500 ≼ assessed.return_risk_score)
score_floor_example =
    score_floor ℤ ℤ-IsOrdered eval scorer features assessed refl refl refl score-assessed
