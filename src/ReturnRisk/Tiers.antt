-- ===== src/ReturnRisk/Tiers.antt =====
-- return_risk/scorer.py: what tiers, the abuse-ring floor and recommendations promise.
use pay_shield.Prelude.{
  ℕ, ◌≤◌, ◌≡◌, refl, subst, ◌∙◌, ap, String, Bool, true, false, not, ◌&&◌, ◌||◌, Option, none, some,
  List, [], ◌∷◌, arith, any, Bool-cases, inl, inr, bind_some, if_some, if◌then◌else◌, get_or,
  str_eq,
}
use pay_shield.Prelude.Float.{Float, IsOrdered, ◌≼◌, lit, flt, fle, fmax}
use pay_shield.Prelude.Float.Order.{le-fmax_right, lt_le_trans, lt→not_le}
use pay_shield.ReturnRisk.Rules.{
  Raw, Features, ReturnRule, Trigger, outcome, flatten, triggers, evaluate,
}
use pay_shield.ReturnRisk.Recommend.{Tier, low, medium, high}
use pay_shield.ReturnRisk.Scorer.{
  Scorer, Assessment, compute_score, determine_tier, engine_score, is_override, floored, assess,
  score,
}
use pay_shield.ReturnRisk.Values.{is_readable}
use pay_shield.ReturnRisk.Sorted.{any-sort}

abbrev pub rank : Tier → ℕ
rank low = 0
rank medium = 1
rank high = 2

module _ (F : Type 0) ⦃f : Float F⦄ (o : IsOrdered F) where
  -- A higher score never has a lower tier, whatever the limits of the tiers are.
  pub determine_tier_mono :
      (s : Scorer F) (x y : F) → x ≼ y → rank (determine_tier s x) ≤ rank (determine_tier s y)
  unfolding determine_tier
  determine_tier_mono s x y h = elim (Bool-cases (fle y s.low_max)) [
    | inl p ↦ rw (p, o.le_trans x y s.low_max h p) (omega arith)
    | inr p ↦ elim (Bool-cases (fle y s.medium_max)) [
      | inl q ↦ rw (p, q, o.le_trans x y s.medium_max h q) (ground arith)
      | inr q ↦ rw (p, q) (ground arith)
    ]
  ]

  override_high :
      (s : Scorer F) (ts : List Trigger) (x : F)
      → any is_override ts ≡ true
      → flt s.low_max (lit 8_500) ≡ true
      → flt s.medium_max (lit 8_500) ≡ true
      → (lit 8_500 ≼ floored ts x) × (determine_tier s (floored ts x) ≡ high)
  unfolding floored determine_tier
  override_high s ts x a h k =
      let up = le-fmax_right F o x (lit 8_500) in
      let over = λ (m : F) (g : flt m (lit 8_500) ≡ true).
        lt→not_le F o m _ (lt_le_trans F o m (lit 8_500) (fmax x (lit 8_500)) g up) in
      rw (a, over s.low_max h, over s.medium_max k) (up, refl)

-- the rule is enabled, overrides the score, and its condition holds
abbrev pub overrides :
    {F : Type 0}
    → (String → List (String × Raw F) → Option Bool)
    → List (String × Raw F)
    → ReturnRule
    → Bool
overrides eval flat r =
    r.enabled && (str_eq r.action "OVERRIDE_SCORE" && get_or (eval r.condition flat) false)

override_step :
    (r : ReturnRule) (rest : List Trigger) (b : Bool) (x : Option Bool)
    → any is_override (if not b then rest else outcome r x rest)
      ≡ (b && (str_eq r.action "OVERRIDE_SCORE" && get_or x false)) || any is_override rest
override_step r rest false x = refl
override_step r rest true none = ground arith
override_step r rest true (some true) = ground arith
override_step r rest true (some false) = ground arith

module _ {F : Type 0} where
  any-triggers :
      (eval : String → List (String × Raw F) → Option Bool) (rs : List ReturnRule)
      (flat : List (String × Raw F))
      → any is_override (triggers eval rs flat) ≡ any (overrides eval flat) rs
  unfolding triggers
  any-triggers eval [] flat = refl
  any-triggers eval (r ∷ rs) flat =
      override_step r (triggers eval rs flat) r.enabled (eval r.condition flat)
      ∙ ap (λ q. overrides eval flat r || q) (any-triggers eval rs flat)

module _ (F : Type 0) ⦃f : Float F⦄ (o : IsOrdered F) where
  -- If an enabled rule that overrides the score fires, and the limits of LOW and MEDIUM are below
  -- 0.85, then every assessment has the tier HIGH and a score of at least 0.85, whatever the model
  -- and the weights say.
  pub score_floor :
      (eval : String → List (String × Raw F) → Option Bool) (s : Scorer F) (fs : Features F)
      (a : Assessment F)
      → any (overrides eval (flatten fs)) s.rules ≡ true
      → flt s.low_max (lit 8_500) ≡ true
      → flt s.medium_max (lit 8_500) ≡ true
      → score eval s fs ≡ some a
      → (a.risk_tier ≡ high) × (lit 8_500 ≼ a.return_risk_score)
  unfolding score evaluate
  score_floor eval s fs a h k l e =
      let ts = evaluate eval s.rules fs in
      let (r, (_, g)) =
        bind_some (compute_score s fs ts)
          (λ q. if is_readable s.model fs then some (assess s fs ts q) else none) a e in
      let fires =
        any-sort is_override (triggers eval s.rules (flatten fs))
        ∙ any-triggers eval s.rules (flatten fs)
        ∙ h in
      let (up, tier) = override_high F o s ts (engine_score s.model fs r.0).0 fires k l in
      subst (λ z. (z.risk_tier ≡ high) × (lit 8_500 ≼ z.return_risk_score))
        (if_some (is_readable s.model fs) g)
        (tier, o.le_trans _ _ _ (o.round4_lit 8_500).1 (o.round4_mono _ _ up))
