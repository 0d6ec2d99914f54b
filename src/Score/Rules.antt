-- ===== src/Score/Rules.antt =====
-- api/routes/score.py with engine/statistical_filter.py: the rules that the first layer triggers when
-- the route calls it.
use pay_shield.Prelude.{
  ℕ, String, ◌≡◌, refl, Bool, true, false, Option, none, some, List, [], ◌∷◌, All, All-append,
  Bool-cases, inl, inr, str_eq, if◌then◌else◌, any, not, ◌&&◌, leb,
}
use pay_shield.Prelude.Float.{Float, IsOrdered, flt}
use pay_shield.Layer1.Rules.{block, escalate, b_rule_01, b_rule_02, Detail, detail, FilterResult}
use pay_shield.Layer1.Geo.{GeoPoint}
use pay_shield.Layer1.Benford.{
  BenfordConfig, BenfordStats, Counts, merchant_stats, benford_rules, benford_details,
  benford_gated, benford_filter, update_distribution,
}
use pay_shield.Layer1.Gate.{
  all_details, compose, Config, StatisticalFilter, run_geo, run_benford, results, evaluate,
}
use pay_shield.Score.History.{
  ScoreRequest, RouteFeatures, History, Maths, Faults, build_features, features_of, derive_features,
  or_record, HistoryEntry, record_txn, record_and_build_features,
}
use pay_shield.Score.Layers.{transaction, run_layer1, velocity_of, deviation_of}
use pay_shield.Score.Route.{first_layer}
use pay_shield.Score.World.{Env, World}
use pay_shield.Score.Live.{
  IsLive, IsQuiet, when-IsLive, when-never, and-false, build_features-IsQuiet, none-IsQuiet,
  velocity_filter-IsLive, geo_filter-IsLive,
}

module _ (F : Type 0) ⦃f : Float F⦄ where
  benford_gated-IsLive :
      (ds : List Detail) → All IsLive ds → All IsLive (benford_gated {F = F} ds).rule_details
  unfolding benford_gated
  benford_gated-IsLive [] h = tt
  benford_gated-IsLive (d ∷ ds) h = h

module _ {F : Type 0} ⦃f : Float F⦄ where
  benford_rules-IsLive :
      (c : BenfordConfig F) (s : Option (BenfordStats F)) → All IsLive (benford_rules c s false)
  unfolding benford_rules
  benford_rules-IsLive c none = tt
  benford_rules-IsLive c (some s) = elim (Bool-cases (leb c.min_samples s.total_transactions)) [
    | inl e ↦
        let strict = flt c.critical_001 s.chi2_statistic in
        rw e (
          All-append IsLive _ _
            (when-never (strict && false) (detail b_rule_02 5 block) (and-false strict false refl))
            (when-IsLive strict (detail b_rule_01 4 escalate) refl))
    | inr e ↦ rw e tt
  ]

  benford_filter-IsLive :
      (c : BenfordConfig F) (redis : Bool) (m : String) (a : List ℕ) (k : Option Counts)
      → All IsLive (benford_filter c redis m a false k).0.rule_details
  unfolding benford_filter benford_details
  benford_filter-IsLive c redis m a k =
      let counts = if redis then update_distribution a k else k in
      let stats = if redis then merchant_stats c counts else none in
      elim (Bool-cases (any (str_eq m) c.whitelist)) [
        | inl e ↦ rw e tt
        | inr e ↦ rw e (
            benford_gated-IsLive F (benford_details c redis false counts)
              (benford_rules-IsLive c stats))
      ]

  all_details-IsLive :
      (rs : List (FilterResult F))
      → All (λ r. All IsLive r.rule_details) rs
      → All IsLive (all_details rs)
  all_details-IsLive [] h = tt
  all_details-IsLive (r ∷ rs) (h, hs) =
      All-append IsLive r.rule_details _ h (all_details-IsLive rs hs)

  -- the features, if there are any, came from `build_features`
  abbrev IsDerived : Maths F → ScoreRequest F → Option (RouteFeatures F) → Type 0
  IsDerived m t none = Unit
  IsDerived m t (some x) =
      (last : Option (GeoPoint F)) × ((us : List (HistoryEntry F)) × ((ds : List (HistoryEntry F))
          × (x ≡ build_features m t last us ds)))

  features_of-IsDerived :
      (m : Maths F) (t : ScoreRequest F) (last : Option (GeoPoint F))
      (us ds : Option (List (HistoryEntry F)))
      → IsDerived m t (features_of m t last us ds)
  features_of-IsDerived m t last none ds = tt
  features_of-IsDerived m t last (some us) none = tt
  features_of-IsDerived m t last (some us) (some ds) = (last, (us, (ds, refl)))

  derive-IsDerived :
      (m : Maths F) (fl : Faults) (h : History F) (t : ScoreRequest F)
      → IsDerived m t (derive_features m fl h t).0
  unfolding derive_features
  derive-IsDerived m fl h t = features_of-IsDerived m t _ _ _

  or_record-IsDerived :
      (m : Maths F) (fl : Faults) (t : ScoreRequest F) (out : Option (RouteFeatures F) × History F)
      → IsDerived m t out.0
      → IsDerived m t (or_record m fl t out).0
  or_record-IsDerived m fl t (none, h) d = derive-IsDerived m fl (record_txn fl h t) t
  or_record-IsDerived m fl t (some x, h) d = d

  build-IsDerived :
      (m : Maths F) (fl : Faults) (h : History F) (t : ScoreRequest F)
      → IsDerived m t (record_and_build_features m fl h t).0
  unfolding record_and_build_features
  build-IsDerived m fl h t = elim (Bool-cases (not fl.dedupe_check && h.seen t.txn_id)) [
    | inl e ↦
        rw e (or_record-IsDerived m fl t (derive_features m fl h t) (derive-IsDerived m fl h t))
    | inr e ↦ rw e (derive-IsDerived m fl (record_txn fl h t) t)
  ]

module _ (F : Type 0) ⦃f : Float F⦄ (o : IsOrdered F) where
  IsDerived-IsQuiet :
      (m : Maths F) (t : ScoreRequest F) (fs : Option (RouteFeatures F))
      → IsDerived m t fs
      → IsQuiet (velocity_of fs) (deviation_of fs)
  IsDerived-IsQuiet m t none d = none-IsQuiet F o _ refl refl
  IsDerived-IsQuiet m t (some x) (last, (us, (ds, e))) =
      rw e (build_features-IsQuiet F o m t last us ds)

  run_geo-IsLive :
      (c : Config F) (digits : F → List ℕ) (t : ScoreRequest F) (fs : Option (RouteFeatures F))
      (now : Option (GeoPoint F))
      → All (λ r. All IsLive r.rule_details) (run_geo c (transaction digits t fs) now)
  run_geo-IsLive c digits t fs none = tt
  run_geo-IsLive c digits t fs (some now) = (geo_filter-IsLive F o c.tiny c.geo_config now _ _, tt)

  run_benford-IsLive :
      (c : Config F) (s : StatisticalFilter F) (digits : F → List ℕ) (t : ScoreRequest F)
      (fs : Option (RouteFeatures F)) (m : Option String)
      → All (λ r. All IsLive r.rule_details) (run_benford c s (transaction digits t fs) m).0
  run_benford-IsLive c s digits t fs none = tt
  run_benford-IsLive c s digits t fs (some m) =
      (benford_filter-IsLive c.benford_config c.has_redis m (digits t.amount) (s.merchants m), tt)

  run_layer1-IsLive :
      (c : Option (Config F)) (raises : Bool) (s : StatisticalFilter F) (m : Maths F)
      (digits : F → List ℕ) (t : ScoreRequest F) (fs : Option (RouteFeatures F))
      → IsDerived m t fs
      → All IsLive (run_layer1 c raises s (transaction digits t fs)).0.rule_details
  unfolding run_layer1 evaluate compose
  run_layer1-IsLive none raises s m digits t fs d = tt
  run_layer1-IsLive (some c) true s m digits t fs d = tt
  run_layer1-IsLive (some c) false s m digits t fs d =
      let x = transaction digits t fs in
      all_details-IsLive (results c s x) (
        velocity_filter-IsLive F o c.velocity_zscore (velocity_of fs) (deviation_of fs)
            (IsDerived-IsQuiet m t fs d),
        All-append (λ r. All IsLive r.rule_details) (run_geo c x x.current_loc) _
            (run_geo-IsLive c digits t fs x.current_loc)
            (run_benford-IsLive c s digits t fs x.merchant_id),
      )

  -- Whatever Redis holds and whatever fails, five of the twelve rules never fire when
  -- `score_transaction` calls the first layer: V-RULE-01, V-RULE-05, G-RULE-03, G-RULE-04 and
  -- B-RULE-02. The laws of the order of floats are assumed.
  pub first_layer-IsLive :
      (v : Env F) (w : World F) (t : ScoreRequest F)
      → All IsLive (first_layer v w t).1.0.rule_details
  unfolding first_layer
  first_layer-IsLive v w t =
      run_layer1-IsLive v.config v.layer1_raises w.filters v.maths v.digits t
        (record_and_build_features v.maths v.faults w.history t).0
        (build-IsDerived v.maths v.faults w.history t)
