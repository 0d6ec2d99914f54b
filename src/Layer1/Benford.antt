-- ===== src/Layer1/Benford.antt =====
-- engine/statistical_filter.py, `BenfordFilter`: the first digits of a merchant's amounts, counted in
-- Redis. `counts` is the hash of the merchant, `none` before its first increment; `expected` holds
-- the nine values log10(1 + 1/d).
use pay_shield.Prelude.{
  ℕ, ◌+◌, ◌-◌, String, Bool, ◌&&◌, ◌||◌, Option, none, some, List, [], ◌∷◌, ◌++◌, map, any, leb,
  ltb, ◌==◌, if◌then◌else◌, str_eq,
}
use pay_shield.Prelude.Float.{Float, lit, of_ℕ, add, mul, div, sub, flt}
use pay_shield.Layer1.Rules.{
  Detail, detail, FilterResult, passed, gate_action, graded, has_block, benford, block, escalate,
  b_rule_01, b_rule_02, when,
}

abbrev strip_zeros : List ℕ → List ℕ
strip_zeros [] = []
strip_zeros (c ∷ cs) = let rest = strip_zeros cs in if c == b'0' then rest else c ∷ cs

abbrev drop_dots : List ℕ → List ℕ
drop_dots [] = []
drop_dots (c ∷ cs) = let rest = drop_dots cs in if c == b'.' then rest else c ∷ rest

abbrev digit_of : List ℕ → ℕ
digit_of [] = 1
digit_of (c ∷ cs) = c - b'0'

-- `first_digit`, from the characters of `str(abs(amount))`
unfoldable pub first_digit : List ℕ → ℕ
first_digit s = digit_of (drop_dots (strip_zeros s))

-- the hash `benford:{merchant}`: the counts of the digits 1 to 9, and the total
pub record Counts : Type 0 where
  pub digit : ℕ → ℕ
  pub total : ℕ

abbrev pub no_counts : Counts
no_counts = record { digit = λ d. 0; total = 0 }

abbrev pub counts_or_none : Option Counts → Counts
counts_or_none none = no_counts
counts_or_none (some c) = c

abbrev pub count_digit : ℕ → Counts → Counts
count_digit d c = record {
  digit = λ i. if i == d then c.digit i + 1 else c.digit i;
  total = c.total + 1;
}

-- `update_merchant_distribution` for a merchant that is not on the whitelist, on the first digit
abbrev pub record_digit : ℕ → Option Counts → Option Counts
record_digit d counts =
    if ltb d 1 || ltb 9 d then counts else some (count_digit d (counts_or_none counts))

unfoldable pub update_distribution : List ℕ → Option Counts → Option Counts
update_distribution s counts = record_digit (first_digit s) counts

abbrev pub observed : Counts → List ℕ
observed c =
    c.digit 1
    ∷ c.digit 2
    ∷ c.digit 3
    ∷ c.digit 4
    ∷ c.digit 5
    ∷ c.digit 6
    ∷ c.digit 7
    ∷ c.digit 8
    ∷ c.digit 9
    ∷ []

abbrev pub sum : List ℕ → ℕ
sum [] = 0
sum (n ∷ ns) = n + sum ns

pub record BenfordConfig (F : Type 0) : Type 0 where
  pub expected : List F
  pub critical_005 : F
  pub critical_001 : F
  pub min_samples : ℕ
  pub whitelist : List String

pub record BenfordStats (F : Type 0) : Type 0 where
  pub total_transactions : ℕ
  pub chi2_statistic : F
  pub is_anomalous : Bool

module _ {F : Type 0} ⦃f : Float F⦄ where
  -- the sum of `(o - e) ** 2 / e` over the pairs with `e > 0`
  chi2_terms : F → List ℕ → List F → F → F
  chi2_terms n [] es acc = acc
  chi2_terms n os [] acc = acc
  chi2_terms n (o ∷ os) (p ∷ ps) acc =
      let e = mul n p in
      let gap = sub (of_ℕ o) e in
      chi2_terms n os ps (if flt (lit 0) e then add acc (div (mul gap gap) e) else acc)

  unfoldable pub benford_chi2 : List F → List ℕ → F
  unfolding chi2_terms
  benford_chi2 expected os =
      if sum os == 0 then lit 0 else f.round4 (chi2_terms (of_ℕ (sum os)) os expected (lit 0))

  -- `get_merchant_stats`
  unfoldable pub merchant_stats : BenfordConfig F → Option Counts → Option (BenfordStats F)
  unfolding benford_chi2
  merchant_stats c none = none
  merchant_stats c (some k) =
      let chi2 = benford_chi2 c.expected (observed k) in
      if ltb k.total c.min_samples
      then none
      else some (record {
        total_transactions = k.total;
        chi2_statistic = chi2;
        is_anomalous = flt c.critical_005 chi2;
      })

  -- the two rules
  unfoldable pub benford_rules : BenfordConfig F → Option (BenfordStats F) → Bool → List Detail
  benford_rules c none shell = []
  benford_rules c (some s) shell =
      if leb c.min_samples s.total_transactions
      then when (flt c.critical_001 s.chi2_statistic && shell) (detail b_rule_02 5 block)
        ++ when (flt c.critical_001 s.chi2_statistic) (detail b_rule_01 4 escalate)
      else []

  -- the result from the rules that fired
  unfoldable pub benford_gated : List Detail → FilterResult F
  unfolding gate_action
  benford_gated [] = passed benford
  benford_gated (d ∷ ds) = record {
    action = gate_action (d ∷ ds);
    stage = benford;
    triggered_rules = map (λ x. x.name) (d ∷ ds);
    rule_details = d ∷ ds;
    confidence = f.round4 (if has_block (d ∷ ds) then lit 10_000 else graded (d ∷ ds));
  }

  -- the rules that fire on the counts, with none where there is no Redis
  unfoldable pub benford_details : BenfordConfig F → Bool → Bool → Option Counts → List Detail
  unfolding merchant_stats benford_rules
  benford_details c redis shell counts =
      benford_rules c (if redis then merchant_stats c counts else none) shell

  -- `evaluate`: the result, and the hash of the merchant afterwards. `redis` says whether there is a
  -- Redis client at all.
  unfoldable pub benford_filter :
      BenfordConfig F
      → Bool
      → String
      → List ℕ
      → Bool
      → Option Counts
      → FilterResult F × Option Counts
  unfolding update_distribution benford_details benford_gated
  benford_filter c redis merchant amount shell counts =
      let counts' = if redis then update_distribution amount counts else counts in
      if any (str_eq merchant) c.whitelist
      then (passed benford, counts)
      else (benford_gated (benford_details c redis shell counts'), counts')
