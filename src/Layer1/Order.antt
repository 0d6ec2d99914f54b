-- ===== src/Layer1/Order.antt =====
-- The gate's verdict grows with the rules that fired, and does not depend on their order.
use pay_shield.Prelude.{
  ℕ, ◌+◌, ◌≤◌, ◌≡◌, true, List, [], ◌∷◌, ◌++◌, arith, any-append, ltb, if◌then◌else◌,
}
use pay_shield.Prelude.Float.{Float}
use pay_shield.Layer1.Rules.{
  Decision, allow, review, block, escalate, Detail, is_block, has_block, max_severity, severity_sum,
  gate_action, gate_confidence,
}

-- ALLOW, then REVIEW, then ESCALATE, then BLOCK
abbrev pub rank : Decision → ℕ
rank allow = 0
rank review = 1
rank escalate = 2
rank block = 3

max_severity-append :
    (xs ys : List Detail)
    → (max_severity xs ≤ max_severity (xs ++ ys))
      × (max_severity ys ≤ max_severity (xs ++ ys))
      × (max_severity (xs ++ ys) ≤ max_severity xs + max_severity ys)
max_severity-append [] ys = omega arith
max_severity-append (x ∷ xs) ys = ground (arith, max_severity-append xs ys)

severity_sum-append :
    (xs ys : List Detail) → severity_sum (xs ++ ys) ≡ severity_sum xs + severity_sum ys
severity_sum-append [] ys = omega arith
severity_sum-append (x ∷ xs) ys = omega (arith, severity_sum-append xs ys)

-- Rules that fire beside others never lower the verdict.
pub gate_action_mono :
    (xs ys : List Detail)
    → (rank (gate_action xs) ≤ rank (gate_action (xs ++ ys)))
      × (rank (gate_action ys) ≤ rank (gate_action (xs ++ ys)))
unfolding gate_action
gate_action_mono xs ys = ground (
  arith,
  any-append (λ (d : Detail). is_block d.action) xs ys,
  max_severity-append xs ys,
  severity_sum-append xs ys,
)

max_severity-append_eq :
    (xs ys : List Detail)
    → max_severity (xs ++ ys)
      ≡ (if ltb (max_severity xs) (max_severity ys) then max_severity ys else max_severity xs)
max_severity-append_eq [] ys = ground arith
max_severity-append_eq (x ∷ xs) ys = ground (arith, max_severity-append_eq xs ys)

-- what the gate reads of a list of details
has_block_comm : (xs ys : List Detail) → has_block (xs ++ ys) ≡ has_block (ys ++ xs)
has_block_comm xs ys = ground (
  arith,
  any-append (λ (d : Detail). is_block d.action) xs ys,
  any-append (λ (d : Detail). is_block d.action) ys xs,
)

max_severity_comm : (xs ys : List Detail) → max_severity (xs ++ ys) ≡ max_severity (ys ++ xs)
max_severity_comm xs ys = ground (arith, max_severity-append_eq xs ys, max_severity-append_eq ys xs)

severity_sum_comm : (xs ys : List Detail) → severity_sum (xs ++ ys) ≡ severity_sum (ys ++ xs)
severity_sum_comm xs ys = omega (arith, severity_sum-append xs ys, severity_sum-append ys xs)

-- The gate's action and confidence are the same whichever of two groups of rules comes first.
pub gate_comm :
    {F : Type 0} ⦃f : Float F⦄ (xs ys : List Detail)
    → (gate_action (xs ++ ys) ≡ gate_action (ys ++ xs))
      × (gate_confidence {F = F} (xs ++ ys) ≡ gate_confidence (ys ++ xs))
unfolding gate_action gate_confidence
gate_comm xs ys = (
  rw (has_block_comm xs ys, max_severity_comm xs ys, severity_sum_comm xs ys),
  rw (has_block_comm xs ys, max_severity_comm xs ys, severity_sum_comm xs ys),
)

-- A blocking rule is what blocks, and nothing else.
pub gate_action-eq-block : (ds : List Detail) → ((gate_action ds ≡ block) → has_block ds ≡ true)
unfolding gate_action
gate_action-eq-block ds h = ground arith
