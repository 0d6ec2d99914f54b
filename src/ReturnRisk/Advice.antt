-- ===== src/ReturnRisk/Advice.antt =====
-- return_risk/scorer.py, `_generate_recommendations`: which advice is given when.
use pay_shield.Prelude.{
  ◌≡◌, refl, ◌∙◌, ap, String, Bool, true, false, not, ◌&&◌, ◌||◌, List, [], ◌∷◌, ◌++◌, arith, any,
  any-append, filter, Bool-cases, inl, inr,
}
use pay_shield.ReturnRisk.Rules.{Trigger}
use pay_shield.ReturnRisk.Recommend.{
  Tier, low, medium, high, Recommendation, block_cod, prepaid, signature, reminder, limit_orders,
  verify_contact, manual_review, standard, convert_cod, same, is_low, for_tier, for_rule, for_rules,
  for_cod, everything, sorted_set, recommend,
}

-- whether a recommendation is given
abbrev pub has : Recommendation → List Recommendation → Bool
has r = any (same r)

or_false : (b : Bool) → (b || false) ≡ b
or_false true = refl
or_false false = refl

any-filter :
    (q p : Recommendation → Bool) (xs : List Recommendation)
    → any q (filter p xs) ≡ any (λ x. q x && p x) xs
any-filter q p [] = refl
any-filter q p (x ∷ xs) = ground (arith, any-filter q p xs)

-- no rule gives this advice
abbrev IsForNoRule : Recommendation → Type 0
IsForNoRule r = (id : String) → has r (for_rule id) ≡ false

has-for_rules :
    (r : Recommendation) (ts : List Trigger) → IsForNoRule r → has r (for_rules ts) ≡ false
has-for_rules r [] h = refl
has-for_rules r (t ∷ ts) h = elim (Bool-cases t.triggered) [
  | inl e ↦ rw e (
      any-append (same r) (for_rule t.rule_id) (for_rules ts)
      ∙ rw (h t.rule_id) (has-for_rules r ts h))
  | inr e ↦ rw e (has-for_rules r ts h)
]

review_free : IsForNoRule manual_review
review_free id = ground arith

standard_free : IsForNoRule standard
standard_free id = ground arith

convert_free : IsForNoRule convert_cod
convert_free id = ground arith

-- what is given without the rules
has-list :
    (r : Recommendation) (tier : Tier) (ts : List Trigger) (cod : Bool)
    → IsForNoRule r
    → has r (for_tier tier ++ for_rules ts ++ for_cod cod tier)
      ≡ has r (for_tier tier) || has r (for_cod cod tier)
has-list r tier ts cod h =
    any-append (same r) (for_tier tier ++ for_rules ts) (for_cod cod tier)
    ∙ ap (λ b. b || has r (for_cod cod tier))
        (any-append (same r) (for_tier tier) (for_rules ts)
          ∙ ap (λ b. has r (for_tier tier) || b) (has-for_rules r ts h)
          ∙ or_false (has r (for_tier tier)))

has-sorted_set : (r : Recommendation) (xs : List Recommendation) → has r (sorted_set xs) ≡ has r xs
unfolding sorted_set
has-sorted_set r xs = any-filter (same r) (λ x. has x xs) everything ∙ listed r
  where
    listed : (r : Recommendation) → any (λ x. same r x && has x xs) everything ≡ has r xs
    listed block_cod = or_false (has block_cod xs)
    listed convert_cod = or_false (has convert_cod xs)
    listed manual_review = or_false (has manual_review xs)
    listed prepaid = or_false (has prepaid xs)
    listed signature = or_false (has signature xs)
    listed reminder = or_false (has reminder xs)
    listed standard = or_false (has standard xs)
    listed limit_orders = or_false (has limit_orders xs)
    listed verify_contact = or_false (has verify_contact xs)

has-recommend :
    (r : Recommendation) (tier : Tier) (ts : List Trigger) (cod : Bool)
    → IsForNoRule r
    → has r (recommend tier ts cod) ≡ has r (for_tier tier) || has r (for_cod cod tier)
unfolding recommend
has-recommend r tier ts cod h =
    has-sorted_set r (for_tier tier ++ for_rules ts ++ for_cod cod tier) ∙ has-list r tier ts cod h

-- Whichever rules fired, the standard advice is given exactly for the tier LOW, a manual review
-- exactly for the others, and the conversion of cash on delivery exactly for such an order of
-- another tier.
pub recommend_lem :
    (tier : Tier) (ts : List Trigger) (cod : Bool)
    → let given = recommend tier ts cod in
      (has standard given ≡ is_low tier)
      × (has manual_review given ≡ not (is_low tier))
      × (has convert_cod given ≡ cod && not (is_low tier))
recommend_lem tier ts cod = (
  has-recommend standard tier ts cod standard_free ∙ on_standard tier cod,
  has-recommend manual_review tier ts cod review_free ∙ on_review tier cod,
  has-recommend convert_cod tier ts cod convert_free ∙ on_convert tier cod,
)
  where
    on_standard :
        (tier : Tier) (cod : Bool)
        → has standard (for_tier tier) || has standard (for_cod cod tier) ≡ is_low tier
    on_standard low cod = refl
    on_standard medium true = refl
    on_standard medium false = refl
    on_standard high true = refl
    on_standard high false = refl

    on_review :
        (tier : Tier) (cod : Bool)
        → has manual_review (for_tier tier) || has manual_review (for_cod cod tier)
          ≡ not (is_low tier)
    on_review low cod = refl
    on_review medium cod = refl
    on_review high cod = refl

    on_convert :
        (tier : Tier) (cod : Bool)
        → has convert_cod (for_tier tier) || has convert_cod (for_cod cod tier)
          ≡ cod && not (is_low tier)
    on_convert low true = refl
    on_convert low false = refl
    on_convert medium true = refl
    on_convert medium false = refl
    on_convert high true = refl
    on_convert high false = refl
