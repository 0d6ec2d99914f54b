-- ===== src/Layer1/Compose.antt =====
-- What the composed verdict of the first layer owes to the three filters.
use pay_shield.Prelude.{
  ℕ, ◌≤◌, ◌≡◌, refl, ◌∙◌, Bool-cases, inl, inr, str_eq, if◌then◌else◌, Bool, Option, none, some,
  String, List, [], ◌∷◌, ◌++◌, arith, any, filter, All, All-append, any-append,
}
use native.Mathlib.Nat.{le_trans}
use pay_shield.Prelude.Float.{Float}
use pay_shield.Layer1.Rules.{
  Stage, velocity, geo as geo_stage, Detail, FilterResult, is_block, has_block, gate_action, gated,
  velocity_filter, velocity_rules, fires, Velocity, Deviation,
}
use pay_shield.Layer1.Geo.{geo_filter, geo_details, GeoPoint}
use pay_shield.Layer1.Benford.{
  BenfordConfig, benford_gated, benford_filter, benford_details, update_distribution, Counts,
}
use pay_shield.Layer1.Gate.{
  all_details, Config, StatisticalFilter, Transaction, run_geo, run_benford, results, evaluate,
}
use pay_shield.Layer1.Order.{rank, gate_action_mono}

-- The action of a result is the gate's action on its details.
abbrev pub IsGated : {F : Type 0} → FilterResult F → Type 0
IsGated r = r.action ≡ gate_action r.rule_details

is_block-gate : (ds : List Detail) → is_block (gate_action ds) ≡ has_block ds
unfolding gate_action
is_block-gate ds = ground arith

module _ (F : Type 0) ⦃f : Float F⦄ where
  gated-IsGated : (s : Stage) (ds : List Detail) → IsGated {F = F} (gated s ds)
  unfolding gated gate_action
  gated-IsGated s [] = refl
  gated-IsGated s (d ∷ ds) = refl

  benford_gated-IsGated : (ds : List Detail) → IsGated {F = F} (benford_gated ds)
  unfolding benford_gated gate_action
  benford_gated-IsGated [] = refl
  benford_gated-IsGated (d ∷ ds) = refl

  velocity_filter-IsGated :
      (limit : F) (v : Velocity F) (d : Option (Deviation F)) → IsGated (velocity_filter limit v d)
  unfolding velocity_filter
  velocity_filter-IsGated limit v d =
      gated-IsGated velocity (filter (λ r. fires limit v d r.name) velocity_rules)

  geo_filter-IsGated :
      (c : Config F) (t : Transaction F) (now : GeoPoint F)
      → IsGated (
          geo_filter c.tiny c.geo_config now t.last_loc t.baseline t.account_age_days t.user_country
            t.txn_country)
  unfolding geo_filter
  geo_filter-IsGated c t now = gated-IsGated geo_stage (
      geo_details c.tiny c.geo_config now t.last_loc t.baseline t.account_age_days t.user_country
        t.txn_country)

  benford_filter-IsGated :
      (c : BenfordConfig F) (redis : Bool) (m : String) (a : List ℕ) (shell : Bool)
      (k : Option Counts)
      → IsGated (benford_filter c redis m a shell k).0
  unfolding benford_filter gate_action
  benford_filter-IsGated c redis m a shell k = elim (Bool-cases (any (str_eq m) c.whitelist)) [
    | inl e ↦ rw e
    | inr e ↦ rw e (
        benford_gated-IsGated
          (benford_details c redis shell (if redis then update_distribution a k else k)))
  ]

module _ {F : Type 0} ⦃f : Float F⦄ where
  results-IsGated :
      (c : Config F) (s : StatisticalFilter F) (t : Transaction F) → All IsGated (results c s t)
  results-IsGated c s t = (
    velocity_filter-IsGated F c.velocity_zscore t.velocity_features t.deviation_features,
    All-append IsGated (run_geo c t t.current_loc) _ (geo t.current_loc) (ben t.merchant_id),
  )
    where
      geo : (now : Option (GeoPoint F)) → All IsGated (run_geo c t now)
      geo none = tt
      geo (some now) = (geo_filter-IsGated F c t now, tt)

      ben : (m : Option String) → All IsGated (run_benford c s t m).0
      ben none = tt
      ben (some m) = (
        benford_filter-IsGated F c.benford_config c.has_redis m t.amount t.is_shell_merchant
            (s.merchants m),
        tt,
      )

  each-le-gate :
      (rs : List (FilterResult F))
      → All IsGated rs
      → All (λ r. rank r.action ≤ rank (gate_action (all_details rs))) rs
  each-le-gate [] h = tt
  each-le-gate (r ∷ rs) (h, hs) =
      let (here, up) = gate_action_mono r.rule_details (all_details rs) in
      (rw h here, widen rs (each-le-gate rs hs) up)
    where
      widen :
          (xs : List (FilterResult F))
          → All (λ x. rank x.action ≤ rank (gate_action (all_details rs))) xs
          → rank (gate_action (all_details rs))
            ≤ rank (gate_action (r.rule_details ++ all_details rs))
          → All (λ x. rank x.action ≤ rank (gate_action (r.rule_details ++ all_details rs))) xs
      widen [] a up = tt
      widen (x ∷ xs) (p, a) up = (le_trans p up, widen xs a up)

  has_block-all_details :
      (rs : List (FilterResult F))
      → All IsGated rs
      → has_block (all_details rs) ≡ any (λ r. is_block r.action) rs
  has_block-all_details [] h = refl
  has_block-all_details (r ∷ rs) (h, hs) = rw (
    any-append (λ (d : Detail). is_block d.action) r.rule_details (all_details rs),
    has_block-all_details rs hs,
    h,
    is_block-gate r.rule_details,
  )

  -- For every transaction, the first layer's decision is at least as strict as that of each filter
  -- that ran, and it is BLOCK exactly when one of them says BLOCK.
  pub evaluate_strictest :
      (c : Config F) (s : StatisticalFilter F) (t : Transaction F)
      → All (λ r. rank r.action ≤ rank (evaluate c s t).0.decision) (results c s t)
        × (is_block (evaluate c s t).0.decision ≡ any (λ r. is_block r.action) (results c s t))
  unfolding evaluate
  evaluate_strictest c s t =
      let g = results-IsGated c s t in
      let rs = results c s t in
      (each-le-gate rs g, is_block-gate (all_details rs) ∙ has_block-all_details rs g)
