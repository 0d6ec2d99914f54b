-- ===== src/Score/History.antt =====
-- api/routes/score.py: `_record_and_build_features` and `_derive_features`. A list of Redis holds JSON
-- texts, so an item is an entry, or not JSON, or JSON without the keys that the code reads.
use pay_shield.Prelude.{
  ℕ, String, Bool, true, Option, none, some, List, [], ◌∷◌, map, ltb, any, filter, get_or, length,
  take, str_eq, if◌then◌else◌, not, ◌&&◌,
}
use pay_shield.Prelude.Float.{Float, lit, of_ℕ, sub, mul, div, fle, flt, fmax}
use pay_shield.Layer1.Rules.{Velocity, Deviation}
use pay_shield.Layer1.Geo.{GeoPoint, Baseline}

pub record Place (F : Type 0) : Type 0 where
  pub lat : F
  pub lon : F

-- `timestamp` is in seconds
pub record ScoreRequest (F : Type 0) : Type 0 where
  pub txn_id : String
  pub user_id : String
  pub merchant_id : String
  pub amount : F
  pub timestamp : F
  pub device_fingerprint : String
  pub location : Option (Place F)

pub record HistoryEntry (F : Type 0) : Type 0 where
  pub ts : F
  pub amount : F
  pub merchant : String
  pub user : String

pub data HistoryItem (F : Type 0) : Type 0 where
  unreadable keyless : HistoryItem F
  recorded : HistoryEntry F → HistoryItem F

-- the keys of Redis that the features are built from
pub record History (F : Type 0) : Type 0 where
  pub user_txns : String → List (HistoryItem F)
  pub dev_txns : String → List (HistoryItem F)
  pub locations : String → Option (GeoPoint F)
  pub seen : String → Bool

-- Python's `statistics`, `sum` and `round(x, 2)`; the distance is missing if its module cannot be
-- imported
pub record Maths (F : Type 0) : Type 0 where
  pub median : List F → F
  pub pstdev : List F → F
  pub sum : List F → F
  pub round2 : F → F
  pub haversine_km : F → F → F → F → Option F

-- which calls of Redis fail, by an exception or by the default that its client gives
pub record Faults : Type 0 where
  pub dedupe_check : Bool
  pub pipeline : Bool
  pub location_read : Bool
  pub location_write : Bool
  pub user_read : Bool
  pub device_read : Bool

pub record RouteFeatures (F : Type 0) : Type 0 where
  pub velocity_features : Velocity F
  pub inter_arrival_gap_min : F
  pub loc_dist_km : F
  pub merchant_round_share : F
  pub deviation_features : Deviation F
  pub last_loc : Option (GeoPoint F)
  pub baseline : Option (Baseline F)

-- a key of Redis is set
abbrev pub put : {A : Type 0} → (String → A) → String → A → String → A
put m k v k' = if str_eq k k' then v else m k'

abbrev pub device_of : {F : Type 0} → ScoreRequest F → String
device_of t = if str_eq t.device_fingerprint "" then "UNKNOWN_DEVICE" else t.device_fingerprint

-- how many different texts a list has
abbrev distinct : List String → List String
distinct [] = []
distinct (x ∷ xs) = let rest = distinct xs in if any (str_eq x) rest then rest else x ∷ rest

module _ {F : Type 0} where
  -- `lpush` and `ltrim` to 1000 items
  abbrev pub pushed : HistoryItem F → List (HistoryItem F) → List (HistoryItem F)
  pushed e xs = take 1_000 (e ∷ xs)

  abbrev pub history_entry : ScoreRequest F → HistoryItem F
  history_entry t =
      recorded
        (record { ts = t.timestamp; amount = t.amount; merchant = t.merchant_id; user = t.user_id })

  -- the pipeline of writes, which is carried out whole or not at all
  unfoldable pub record_txn : Faults → History F → ScoreRequest F → History F
  record_txn fl h t =
      let e = history_entry t in
      let d = device_of t in
      if fl.pipeline then h else record h {
        user_txns = put h.user_txns t.user_id (pushed e (h.user_txns t.user_id));
        dev_txns = put h.dev_txns d (pushed e (h.dev_txns d));
        seen = put h.seen t.txn_id true;
      }

  -- `parse_entries`; `none` if an item lacks a key, on which the code after it raises
  unfoldable pub parse_entries : List (HistoryItem F) → Option (List (HistoryEntry F))
  parse_entries [] = some []
  parse_entries (unreadable ∷ rs) = parse_entries rs
  parse_entries (keyless ∷ rs) = none
  parse_entries (recorded e ∷ rs) = elim (parse_entries rs) [
    | none ↦ none
    | some es ↦ some (e ∷ es)
  ]

  abbrev pub read_list : Bool → List (HistoryItem F) → List (HistoryItem F)
  read_list failed xs = if failed then [] else xs

  abbrev amounts : List (HistoryEntry F) → List F
  amounts = map (λ e. e.amount)

  -- `if txn.location:`
  abbrev pub write_location : Faults → ScoreRequest F → Option (Place F) → History F → History F
  write_location fl t none h = h
  write_location fl t (some p) h = if fl.location_write then h else record h {
    locations =
        put h.locations t.user_id
          (some (record { lat = p.lat; lon = p.lon; timestamp = t.timestamp }));
  }

module _ {F : Type 0} ⦃f : Float F⦄ where
  -- the entries of the user that are at least a second old
  abbrev pub past : F → List (HistoryEntry F) → List (HistoryEntry F)
  past now = filter (λ e. flt e.ts (sub now (of_ℕ 1)))

  -- the entries of the last w seconds
  abbrev pub window : F → ℕ → List (HistoryEntry F) → List (HistoryEntry F)
  window now w = filter (λ e. fle (sub now (of_ℕ w)) e.ts)

  abbrev newest : F → List (HistoryEntry F) → F
  newest x [] = x
  newest x (e ∷ es) = newest (fmax x e.ts) es

  abbrev gap_min : F → List (HistoryEntry F) → F
  gap_min now [] = of_ℕ 1440
  gap_min now (e ∷ es) = div (sub now (newest e.ts es)) (of_ℕ 60)

  abbrev distance_from : Maths F → Option (Place F) → Option (GeoPoint F) → F
  distance_from m (some p) (some l) = get_or (m.haversine_km l.lat l.lon p.lat p.lon) (lit 0)
  distance_from m _ _ = lit 0

  abbrev median_amount : Maths F → List F → F
  median_amount m [] = of_ℕ 500
  median_amount m (x ∷ xs) = m.median (x ∷ xs)

  abbrev std_amount : Maths F → List F → F
  std_amount m xs = if ltb 1 (length xs) then m.pstdev xs else mul (median_amount m xs) (lit 2_500)

  abbrev z_score : Maths F → F → List F → F
  z_score m x xs =
      let s = std_amount m xs in if flt (lit 0) s then div (sub x (median_amount m xs)) s else lit 0

  abbrev baseline_of : Option (GeoPoint F) → Option (Baseline F)
  baseline_of none = none
  baseline_of (some l) = some (record {
    max_location_distance_km = some (of_ℕ 50);
    centroid_lat = some l.lat;
    centroid_lon = some l.lon;
  })

  -- the features, from the entries of the user and of the device
  unfoldable pub build_features :
      Maths F
      → ScoreRequest F
      → Option (GeoPoint F)
      → List (HistoryEntry F)
      → List (HistoryEntry F)
      → RouteFeatures F
  build_features m t last user_txns dev_txns =
      let now = t.timestamp in
      let old = past now user_txns in
      let window_1h = window now 3600 old in
      let dev_window = window now 86400 dev_txns in
      record {
        velocity_features = record {
          txn_count_5m = some (of_ℕ (length (window now 300 old)));
          txn_count_1h = some (of_ℕ (length window_1h));
          amount_total_1h = some (m.round2 (m.sum (amounts window_1h)));
          device_txn_count_24h = some (of_ℕ (length dev_window));
          distinct_users_last_24h = some (of_ℕ (length (distinct (map (λ e. e.user) dev_window))));
          ip_txn_count_5m = some (of_ℕ 0);
          distinct_merchants_1h = some (of_ℕ (length (distinct (map (λ e. e.merchant) window_1h))));
        };
        inter_arrival_gap_min = m.round2 (gap_min now old);
        loc_dist_km = m.round2 (distance_from m t.location last);
        merchant_round_share = lit 0;
        deviation_features = record {
          baseline_txn_count_24h = some (of_ℕ (length (window now 86400 old)));
          median_amount_30d = some (median_amount m (amounts old));
          amount_z_score = some (f.round4 (z_score m t.amount (amounts old)));
        };
        last_loc = last;
        baseline = baseline_of last;
      }

  -- the features, unless an item lacks a key
  abbrev pub features_of :
      Maths F
      → ScoreRequest F
      → Option (GeoPoint F)
      → Option (List (HistoryEntry F))
      → Option (List (HistoryEntry F))
      → Option (RouteFeatures F)
  features_of m t last (some us) (some ds) = some (build_features m t last us ds)
  features_of m t last _ _ = none

  -- `_derive_features`; `none` is an exception, before which the location has been written
  unfoldable pub derive_features :
      Maths F → Faults → History F → ScoreRequest F → Option (RouteFeatures F) × History F
  unfolding build_features parse_entries
  derive_features m fl h t =
      let last = if fl.location_read then none else h.locations t.user_id in
      let us = parse_entries (read_list fl.user_read (h.user_txns t.user_id)) in
      let ds = parse_entries (read_list fl.device_read (h.dev_txns (device_of t))) in
      (features_of m t last us ds, write_location fl t t.location h)

  -- an exception in the first branch is caught, and the code goes on to record the payment
  abbrev pub or_record :
      Maths F
      → Faults
      → ScoreRequest F
      → Option (RouteFeatures F) × History F
      → Option (RouteFeatures F) × History F
  or_record m fl t (some fs, h) = (some fs, h)
  or_record m fl t (none, h) = derive_features m fl (record_txn fl h t) t

  unfoldable pub record_and_build_features :
      Maths F → Faults → History F → ScoreRequest F → Option (RouteFeatures F) × History F
  unfolding record_txn derive_features
  record_and_build_features m fl h t =
      if not fl.dedupe_check && h.seen t.txn_id
      then or_record m fl t (derive_features m fl h t)
      else derive_features m fl (record_txn fl h t) t
