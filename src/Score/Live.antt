-- ===== src/Score/Live.antt =====
-- api/routes/score.py with engine/statistical_filter.py: which rules of the first layer can fire on the
-- features and the arguments that the route gives it.
use pay_shield.Prelude.{
  ℕ, ◌≤◌, ◌≡◌, refl, sym, ◌∙◌, Bool, true, false, false≢true, Option, none, some, List, [], ◌∷◌,
  ◌++◌, All, All-append, Bool-cases, inl, inr, length, length-filter_mono, leb, arith, filter, ◌&&◌,
}
use pay_shield.Prelude.Float.{Float, IsOrdered, lit, of_ℕ, flt}
use pay_shield.Prelude.Float.Order.{le→not_lt}
use pay_shield.Layer1.Rules.{
  block, escalate, RuleName, v_rule_01, v_rule_02, v_rule_03, v_rule_04, v_rule_05, v_rule_06,
  g_rule_01, g_rule_02, g_rule_03, g_rule_04, b_rule_01, b_rule_02, Detail, detail, Stage, Velocity,
  Deviation, velocity, geo as geo_stage, gated, over, fires, velocity_filter, velocity_rules, when,
}
use pay_shield.Layer1.Geo.{
  GeoPoint, Baseline, GeoConfig, geo_travel, geo_deviation, geo_country, geo_centroid, geo_details,
  geo_filter, geo_velocity_kmh,
}
use pay_shield.Score.History.{ScoreRequest, HistoryEntry, Maths, past, window, build_features}

-- the rules that can fire
abbrev pub is_live : RuleName → Bool
is_live v_rule_01 = false
is_live v_rule_05 = false
is_live g_rule_03 = false
is_live g_rule_04 = false
is_live b_rule_02 = false
is_live _ = true

abbrev pub IsLive : Detail → Type 0
IsLive d = is_live d.name ≡ true

filter-All :
    {A : Type 0} (P : A → Type 0) (p : A → Bool) (xs : List A)
    → ((x : A) → p x ≡ true → P x)
    → All P (filter p xs)
filter-All P p [] h = tt
filter-All P p (x ∷ xs) h = elim (Bool-cases (p x)) [
  | inl e ↦ rw e (h x e, filter-All P p xs h)
  | inr e ↦ rw e (filter-All P p xs h)
]

pub when-IsLive : (b : Bool) (d : Detail) → IsLive d → All IsLive (when b d)
when-IsLive true d h = (h, tt)
when-IsLive false d h = tt

pub when-never : (b : Bool) (d : Detail) → b ≡ false → All IsLive (when b d)
when-never true d h = absurd (false≢true (sym h))
when-never false d h = tt

and-left : (a b : Bool) → a ≡ false → a && b ≡ false
and-left true b h = absurd (false≢true (sym h))
and-left false b h = refl

pub and-false : (a b : Bool) → b ≡ false → a && b ≡ false
and-false true b h = h
and-false false b h = refl

-- what the route's features promise of two of the velocity rules
abbrev pub IsQuiet : {F : Type 0} → ⦃f : Float F⦄ → Velocity F → Option (Deviation F) → Type 0
IsQuiet {F = F} v d =
    (limit : F) → (fires limit v d v_rule_01 ≡ false) × (fires limit v d v_rule_05 ≡ false)

module _ (F : Type 0) ⦃f : Float F⦄ (o : IsOrdered F) where
  of_ℕ-not_lt : (m n : ℕ) → m ≤ n → flt (of_ℕ {F = F} n) (of_ℕ m) ≡ false
  of_ℕ-not_lt m n h = le→not_lt F o (of_ℕ n) (of_ℕ m) (o.lit_mono _ _ (omega arith))

  -- a longer window starts no later
  window-le :
      (now : F) (m n : ℕ) (es : List (HistoryEntry F))
      → m ≤ n
      → length (window now m es) ≤ length (window now n es)
  window-le now m n es h = length-filter_mono _ _ es (λ e k.
      o.le_trans _ _ _
        (o.add_mono _ _ _ _ (o.le_refl now) (o.neg_mono _ _ (o.lit_mono _ _ (omega arith)))) k)

  pub build_features-IsQuiet :
      (m : Maths F) (t : ScoreRequest F) (last : Option (GeoPoint F))
      (us ds : List (HistoryEntry F))
      → let x = build_features m t last us ds in
        IsQuiet x.velocity_features (some x.deviation_features)
  unfolding build_features fires
  build_features-IsQuiet m t last us ds limit =
      let old = past t.timestamp us in
      let few = window-le t.timestamp 300 86_400 old (omega arith) in
      (
        burst (length (window t.timestamp 300 old)) (length (window t.timestamp 86_400 old)) few,
        of_ℕ-not_lt 0 15 (omega arith),
      )
    where
      burst :
          (n5 n24 : ℕ)
          → n5 ≤ n24
          → over {F = F} (of_ℕ n5) 10 && flt (of_ℕ {F = F} n24) (of_ℕ 5) ≡ false
      burst n5 n24 h = elim (Bool-cases (leb n5 10)) [
        | inl e ↦ rw (of_ℕ-not_lt n5 10 (ground arith)) refl
        | inr e ↦ and-false _ _ (of_ℕ-not_lt 5 n24 (ground arith))
      ]

  pub none-IsQuiet :
      (v : Velocity F) → v.txn_count_5m ≡ none → v.ip_txn_count_5m ≡ none → IsQuiet v none
  unfolding fires
  none-IsQuiet v h k limit =
      (rw h (and-left _ _ (of_ℕ-not_lt 0 10 (omega arith))), rw k (of_ℕ-not_lt 0 15 (omega arith)))

  fires-IsLive :
      (limit : F) (v : Velocity F) (d : Option (Deviation F)) (r : RuleName)
      → IsQuiet v d
      → fires limit v d r ≡ true
      → is_live r ≡ true
  unfolding fires
  fires-IsLive limit v d v_rule_01 q h = absurd (false≢true (sym (q limit).0 ∙ h))
  fires-IsLive limit v d v_rule_02 q h = refl
  fires-IsLive limit v d v_rule_03 q h = refl
  fires-IsLive limit v d v_rule_04 q h = refl
  fires-IsLive limit v d v_rule_05 q h = absurd (false≢true (sym (q limit).1 ∙ h))
  fires-IsLive limit v d v_rule_06 q h = refl
  fires-IsLive limit v d g_rule_01 q h = refl
  fires-IsLive limit v d g_rule_02 q h = refl
  fires-IsLive limit v d g_rule_03 q h = absurd (false≢true h)
  fires-IsLive limit v d g_rule_04 q h = absurd (false≢true h)
  fires-IsLive limit v d b_rule_01 q h = refl
  fires-IsLive limit v d b_rule_02 q h = absurd (false≢true h)

  gated-IsLive :
      (s : Stage) (ds : List Detail) → All IsLive ds → All IsLive (gated {F = F} s ds).rule_details
  unfolding gated
  gated-IsLive s [] h = tt
  gated-IsLive s (d ∷ ds) h = h

  pub velocity_filter-IsLive :
      (limit : F) (v : Velocity F) (d : Option (Deviation F))
      → IsQuiet v d
      → All IsLive (velocity_filter limit v d).rule_details
  unfolding velocity_filter
  velocity_filter-IsLive limit v d q =
      gated-IsLive velocity (filter (λ r. fires limit v d r.name) velocity_rules) (
        filter-All IsLive (λ r. fires limit v d r.name) velocity_rules
          (λ r h. fires-IsLive limit v d r.name q h))

  geo_deviation-IsLive :
      (s : F) (c : GeoConfig F) (last now : GeoPoint F) (b : Option (Baseline F))
      → All IsLive (geo_deviation s c last now b)
  unfolding geo_deviation
  geo_deviation-IsLive s c last now none = tt
  geo_deviation-IsLive s c last now (some b) = when-IsLive _ (detail g_rule_02 4 escalate) refl

  geo_travel-IsLive :
      (tiny : F) (c : GeoConfig F) (now : GeoPoint F) (last : Option (GeoPoint F))
      (b : Option (Baseline F))
      → All IsLive (geo_travel tiny c now last b)
  unfolding geo_travel
  geo_travel-IsLive tiny c now none b = tt
  geo_travel-IsLive tiny c now (some last) b = elim (Bool-cases (flt (lit 0) last.timestamp)) [
    | inl e ↦ rw e (
        All-append IsLive _ _ (when-IsLive _ (detail g_rule_01 5 block) refl)
          (geo_deviation-IsLive (geo_velocity_kmh tiny c last now) c last now b))
    | inr e ↦ rw e tt
  ]

  geo_centroid-IsLive :
      (c : GeoConfig F) (now : GeoPoint F) (b : Option (Baseline F))
      → All IsLive (geo_centroid c now b (of_ℕ 365))
  unfolding geo_centroid
  geo_centroid-IsLive c now none = tt
  geo_centroid-IsLive c now (some b) =
      when-never _ (detail g_rule_04 4 block) (and-left _ _ (of_ℕ-not_lt 7 365 (omega arith)))

  pub geo_filter-IsLive :
      (tiny : F) (c : GeoConfig F) (now : GeoPoint F) (last : Option (GeoPoint F))
      (b : Option (Baseline F))
      → All IsLive (geo_filter tiny c now last b (of_ℕ 365) none none).rule_details
  unfolding geo_filter geo_details geo_country
  geo_filter-IsLive tiny c now last b =
      gated-IsLive geo_stage (geo_details tiny c now last b (of_ℕ 365) none none) (
        All-append IsLive (geo_travel tiny c now last b ++ []) _
          (All-append IsLive (geo_travel tiny c now last b) [] (geo_travel-IsLive tiny c now last b)
            tt)
          (geo_centroid-IsLive c now b))
