-- ===== src/ReturnRisk/Recommend.antt =====
-- return_risk/scorer.py, `_generate_recommendations`. The constructors stand in the order of the
-- texts that they name, so that `sorted` lists them so.
use pay_shield.Prelude.{
  ℕ, String, Bool, true, false, List, [], ◌∷◌, ◌++◌, any, str_eq, filter, ◌==◌, if◌then◌else◌,
}
use pay_shield.ReturnRisk.Rules.{Trigger}

pub data Tier : Type 0 where
  low medium high : Tier

pub data Recommendation : Type 0 where
  block_cod : Recommendation  -- "Block COD for this user - require prepaid payment"
  convert_cod : Recommendation  -- "Consider converting COD to prepaid with discount incentive"
  manual_review : Recommendation  -- "Flag order for manual review before dispatch"
  prepaid : Recommendation  -- "Require prepaid payment (no COD) for this user"
  signature : Recommendation  -- "Require signature on delivery"
  reminder : Recommendation  -- "Send return policy reminder at checkout"
  standard : Recommendation  -- "Standard processing - no additional measures required"
  limit_orders : Recommendation  -- "Temporarily limit order frequency for this user"
  verify_contact : Recommendation  -- "Verify phone number and email before dispatch"

abbrev pub place : Recommendation → ℕ
place block_cod = 0
place convert_cod = 1
place manual_review = 2
place prepaid = 3
place signature = 4
place reminder = 5
place standard = 6
place limit_orders = 7
place verify_contact = 8

abbrev pub same : Recommendation → Recommendation → Bool
same a b = place a == place b

abbrev pub everything : List Recommendation
everything =
    block_cod ∷ convert_cod ∷ manual_review ∷ prepaid ∷ signature ∷ reminder ∷ standard
    ∷ limit_orders ∷ verify_contact ∷ []

-- `sorted(set(xs))`
unfoldable pub sorted_set : List Recommendation → List Recommendation
sorted_set xs = filter (λ r. any (same r) xs) everything

abbrev pub for_tier : Tier → List Recommendation
for_tier high = prepaid ∷ manual_review ∷ signature ∷ []
for_tier medium = manual_review ∷ reminder ∷ []
for_tier low = standard ∷ []

abbrev pub for_rule : String → List Recommendation
for_rule r =
    if str_eq r "R-RULE-03"
    then block_cod ∷ []
    else if str_eq r "R-RULE-04"
    then limit_orders ∷ []
    else if str_eq r "R-RULE-05"
    then verify_contact ∷ []
    else []

abbrev pub for_rules : List Trigger → List Recommendation
for_rules [] = []
for_rules (t ∷ ts) = (if t.triggered then for_rule t.rule_id else []) ++ for_rules ts

abbrev pub is_low : Tier → Bool
is_low low = true
is_low _ = false

abbrev pub for_cod : Bool → Tier → List Recommendation
for_cod cod low = []
for_cod cod _ = if cod then convert_cod ∷ [] else []

unfoldable pub recommend : Tier → List Trigger → Bool → List Recommendation
unfolding sorted_set
recommend tier ts cod = sorted_set (for_tier tier ++ for_rules ts ++ for_cod cod tier)
