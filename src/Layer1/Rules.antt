-- ===== src/Layer1/Rules.antt =====
-- engine/statistical_filter.py: decisions, rule details and the three filters.
use pay_shield.Prelude.{
  ℕ, ◌+◌, Bool, true, false, ◌&&◌, ◌||◌, Option, none, some, List, [], ◌∷◌, map, ltb, leb, any,
  filter, get_or, if◌then◌else◌,
}
use pay_shield.Prelude.Float.{Float, lit, of_ℕ, mul, div, flt, fmin, fabs}

-- engine/constants.py, `Decision`
pub data Decision : Type 0 where
  allow review block escalate : Decision

pub data Stage : Type 0 where
  velocity geo benford : Stage

pub data RuleName : Type 0 where
  v_rule_01 v_rule_02 v_rule_03 v_rule_04 v_rule_05 v_rule_06 : RuleName
  g_rule_01 g_rule_02 g_rule_03 g_rule_04 : RuleName
  b_rule_01 b_rule_02 : RuleName

-- an item of `rule_details`
pub record Detail : Type 0 where
  pub name : RuleName
  pub severity : ℕ
  pub action : Decision

abbrev pub detail : RuleName → ℕ → Decision → Detail
detail n s a = record { name = n; severity = s; action = a }

pub record FilterResult (F : Type 0) : Type 0 where
  pub action : Decision
  pub stage : Stage
  pub triggered_rules : List RuleName
  pub rule_details : List Detail
  pub confidence : F

abbrev pub is_block : Decision → Bool
is_block block = true
is_block _ = false

abbrev pub max_severity : List Detail → ℕ
max_severity [] = 0
max_severity (d ∷ ds) = let m = max_severity ds in if ltb d.severity m then m else d.severity

abbrev pub severity_sum : List Detail → ℕ
severity_sum [] = 0
severity_sum (d ∷ ds) = d.severity + severity_sum ds

abbrev pub has_block : List Detail → Bool
has_block = any (λ d. is_block d.action)

-- `max_severity >= 4 or severity_sum >= 7`
abbrev pub is_severe : List Detail → Bool
is_severe ds = leb 4 (max_severity ds) || leb 7 (severity_sum ds)

unfoldable pub gate_action : List Detail → Decision
gate_action ds = if has_block ds then block else if is_severe ds then escalate else allow

module _ {F : Type 0} ⦃f : Float F⦄ where
  -- `min(1.0, severity_sum / 10.0)`
  abbrev pub graded : List Detail → F
  graded ds = fmin (lit 10_000) (div (of_ℕ (severity_sum ds)) (lit 100_000))

  -- the confidence that goes with `gate_action`
  unfoldable pub gate_confidence : List Detail → F
  gate_confidence ds =
      if has_block ds then lit 10_000 else if is_severe ds then graded ds else lit 0

  abbrev pub passed : Stage → FilterResult F
  passed s = record {
    action = allow;
    stage = s;
    triggered_rules = [];
    rule_details = [];
    confidence = lit 0;
  }

  -- the result of the velocity and geographic filters, from the rules that fired
  unfoldable pub gated : Stage → List Detail → FilterResult F
  unfolding gate_action gate_confidence
  gated s [] = passed s
  gated s (d ∷ ds) = record {
    action = gate_action (d ∷ ds);
    stage = s;
    triggered_rules = map (λ x. x.name) (d ∷ ds);
    rule_details = d ∷ ds;
    confidence = f.round4 (gate_confidence (d ∷ ds));
  }

pub record Velocity (F : Type 0) : Type 0 where
  pub txn_count_5m : Option F
  pub txn_count_1h : Option F
  pub amount_total_1h : Option F
  pub device_txn_count_24h : Option F
  pub distinct_users_last_24h : Option F
  pub ip_txn_count_5m : Option F
  pub distinct_merchants_1h : Option F

-- `deviation_features`, which may be `None` or empty
pub record Deviation (F : Type 0) : Type 0 where
  pub baseline_txn_count_24h : Option F
  pub median_amount_30d : Option F
  pub amount_z_score : Option F

abbrev pub key : {F A : Type 0} → (A → Option F) → Option A → F → F
key k none d = d
key k (some a) d = get_or (k a) d

-- `RULES`, in the order in which `sorted` by falling severity leaves them
abbrev pub velocity_rules : List Detail
velocity_rules =
    detail v_rule_01 5 block
    ∷ detail v_rule_04 5 block
    ∷ detail v_rule_03 4 escalate
    ∷ detail v_rule_06 4 escalate
    ∷ detail v_rule_02 3 escalate
    ∷ detail v_rule_05 3 escalate
    ∷ []

module _ {F : Type 0} ⦃f : Float F⦄ where
  abbrev pub over : F → ℕ → Bool
  over x n = flt (of_ℕ n) x

  -- `_zscore_rule`
  abbrev zscore_rule : F → Option (Deviation F) → Bool
  zscore_rule limit none = false
  zscore_rule limit (some d) = flt limit (fabs (get_or d.amount_z_score (lit 0)))

  -- the condition of each velocity rule; `limit` is the configured z-score threshold
  unfoldable pub fires : F → Velocity F → Option (Deviation F) → RuleName → Bool
  fires limit v d v_rule_01 =
      over (get_or v.txn_count_5m (lit 0)) 10
      && flt (key (λ x. x.baseline_txn_count_24h) d (of_ℕ 999)) (of_ℕ 5)
  fires limit v d v_rule_02 = zscore_rule limit d
  fires limit v d v_rule_03 =
      flt (mul (of_ℕ 5) (key (λ x. x.median_amount_30d) d (of_ℕ 500)))
        (get_or v.amount_total_1h (lit 0))
      && over (get_or v.txn_count_1h (lit 0)) 3
  fires limit v d v_rule_04 =
      over (get_or v.device_txn_count_24h (lit 0)) 20
      && over (get_or v.distinct_users_last_24h (of_ℕ 1)) 1
  fires limit v d v_rule_05 = over (get_or v.ip_txn_count_5m (lit 0)) 15
  fires limit v d v_rule_06 = over (get_or v.distinct_merchants_1h (lit 0)) 10
  fires limit v d _ = false

  unfoldable pub velocity_filter : F → Velocity F → Option (Deviation F) → FilterResult F
  unfolding fires gated
  velocity_filter limit v d = gated velocity (filter (λ r. fires limit v d r.name) velocity_rules)

-- `if condition: triggered.append(rule)`
abbrev pub when : {A : Type 0} → Bool → A → List A
when true a = a ∷ []
when false a = []
