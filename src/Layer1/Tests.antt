-- ===== src/Layer1/Tests.antt =====
-- Runs of the first layer on small inputs, over numbers with four decimals.
use pay_shield.Prelude.{◌≤◌, ◌≡◌, List, [], ◌∷◌, any, All}
use pay_shield.Prelude.Float.Fixed.{fixed}
use pay_shield.Layer1.Rules.{block, escalate, Detail, detail, is_block, v_rule_01, v_rule_03}
use pay_shield.Layer1.Gate.{results, evaluate}
use pay_shield.Layer1.Samples.{config, filters, transaction}
use pay_shield.Layer1.Order.{rank}
use pay_shield.Layer1.Compose.{evaluate_strictest}

abbrev escalating : List Detail
escalating = detail v_rule_03 4 escalate ∷ []

abbrev more : List Detail
more = detail v_rule_01 5 block ∷ []

evaluate_strictest_example :
    All
      (λ r. rank r.action ≤ rank (evaluate config filters transaction).0.decision)
      (results config filters transaction)
    × (is_block (evaluate config filters transaction).0.decision
        ≡ any (λ r. is_block r.action) (results config filters transaction))
evaluate_strictest_example = evaluate_strictest config filters transaction
