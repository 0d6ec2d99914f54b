-- ===== src/Layer1/Geo.antt =====
-- engine/statistical_filter.py, `GeoSpatialFilter`. The great-circle formula is a field of the
-- configuration, since it rests on the trigonometry of Python's `math`.
use pay_shield.Prelude.{
  String, not, ◌&&◌, Option, none, some, List, [], ◌++◌, any, get_or, if◌then◌else◌, str_eq,
}
use pay_shield.Prelude.Float.{Float, lit, of_ℕ, mul, div, sub, flt, fabs}
use pay_shield.Layer1.Rules.{
  Detail, detail, FilterResult, gated, geo, block, escalate, g_rule_01, g_rule_02, g_rule_03,
  g_rule_04, when,
}

pub record GeoPoint (F : Type 0) : Type 0 where
  pub lat : F
  pub lon : F
  pub timestamp : F

pub record Baseline (F : Type 0) : Type 0 where
  pub max_location_distance_km : Option F
  pub centroid_lat : Option F
  pub centroid_lon : Option F

pub record GeoConfig (F : Type 0) : Type 0 where
  pub haversine : F → F → F → F → F
  pub max_velocity_kmh : F
  pub high_risk_countries : List String

module _ {F : Type 0} ⦃f : Float F⦄ where
  abbrev pub distance : GeoConfig F → GeoPoint F → GeoPoint F → F
  distance c a b = c.haversine a.lat a.lon b.lat b.lon

  -- `abs(current.timestamp - last.timestamp) / 3600.0`
  abbrev hours_between : GeoPoint F → GeoPoint F → F
  hours_between last now = div (fabs (sub now.timestamp last.timestamp)) (of_ℕ 3600)

  -- `geo_velocity_kmh`; `tiny` is the literal 1e-9
  unfoldable pub geo_velocity_kmh : F → GeoConfig F → GeoPoint F → GeoPoint F → F
  geo_velocity_kmh tiny c last now =
      let hours = hours_between last now in
      if flt tiny hours then div (distance c last now) hours else lit 0

  unfoldable pub geo_deviation :
      F → GeoConfig F → GeoPoint F → GeoPoint F → Option (Baseline F) → List Detail
  geo_deviation v c last now none = []
  geo_deviation v c last now (some b) =
      when
        (flt (of_ℕ 200) v
          && flt (mul (of_ℕ 3) (get_or b.max_location_distance_km (of_ℕ 100)))
              (distance c last now))
        (detail g_rule_02 4 escalate)

  -- G-RULE-01 and G-RULE-02, which want a last location
  unfoldable pub geo_travel :
      F → GeoConfig F → GeoPoint F → Option (GeoPoint F) → Option (Baseline F) → List Detail
  unfolding geo_velocity_kmh geo_deviation
  geo_travel tiny c now none base = []
  geo_travel tiny c now (some last) base =
      let v = geo_velocity_kmh tiny c last now in
      if flt (lit 0) last.timestamp
      then when (flt c.max_velocity_kmh v) (detail g_rule_01 5 block)
        ++ geo_deviation v c last now base
      else []

  -- G-RULE-03, from the account's age in days and the two countries, `none` for a missing or empty one
  unfoldable pub geo_country : GeoConfig F → F → Option String → Option String → List Detail
  geo_country c age (some user) (some txn) =
      when
        (not (str_eq user txn)
          && flt age (of_ℕ 30)
          && not (any (str_eq user) c.high_risk_countries))
        (detail g_rule_03 3 escalate)
  geo_country c age _ _ = []

  -- G-RULE-04
  unfoldable pub geo_centroid : GeoConfig F → GeoPoint F → Option (Baseline F) → F → List Detail
  geo_centroid c now none age = []
  geo_centroid c now (some b) age =
      when
        (flt age (of_ℕ 7)
          && flt (of_ℕ 500) (
              c.haversine (get_or b.centroid_lat now.lat) (get_or b.centroid_lon now.lon) now.lat
                now.lon))
        (detail g_rule_04 4 block)

  -- the rules that fired, in the order of the code
  unfoldable pub geo_details :
      F
      → GeoConfig F
      → GeoPoint F
      → Option (GeoPoint F)
      → Option (Baseline F)
      → F
      → Option String
      → Option String
      → List Detail
  unfolding geo_travel geo_country geo_centroid
  geo_details tiny c now last base age user txn =
      geo_travel tiny c now last base ++ geo_country c age user txn ++ geo_centroid c now base age

  unfoldable pub geo_filter :
      F
      → GeoConfig F
      → GeoPoint F
      → Option (GeoPoint F)
      → Option (Baseline F)
      → F
      → Option String
      → Option String
      → FilterResult F
  unfolding geo_details gated
  geo_filter tiny c now last base age user txn =
      gated geo (geo_details tiny c now last base age user txn)
