-- ===== src/Baselines/Store.antt =====
-- store/baselines.py, `BehavioralBaselineStore` and `BehavioralFeatureExtractor`.
use pay_shield.Prelude.{
  ℕ, String, ◌&&◌, ◌||◌, Option, none, some, List, [], ◌∷◌, any, length, ltb, find_key, put_key,
  get_or, str_eq, if◌then◌else◌,
}
use pay_shield.Prelude.Float.{Float, lit, of_ℕ, add, sub, mul, div, flt, fmin, fabs}
use pay_shield.Baselines.Welford.{
  WelfordStats, BehavioralBaseline, StatsMaths, new_baseline, update_stats, stats_z_score, reloaded,
}

pub record DeviationFeatures (F : Type 0) : Type 0 where
  pub amount_z_score : F
  pub time_z_score : F
  pub interarrival_z_score : F
  pub merchant_deviation : F
  pub country_deviation : F
  pub combined_anomaly_score : F
  pub profile_version : ℕ

pub record BaselineStore (F : Type 0) : Type 0 where
  pub baselines : List (String × BehavioralBaseline F)
  pub merchants : List (String × List String)
  pub countries : List (String × List String)
  pub user_devices : List (String × List String)

abbrev pub added : String → String → List (String × List String) → List (String × List String)
added key x sets = put_key key (x ∷ get_or (find_key key sets) []) sets

module _ {F : Type 0} ⦃f : Float F⦄ where
  module _ (py : StatsMaths F) where
    -- the stored baseline, or a new one
    abbrev pub stored_or_new : F → Option (BehavioralBaseline F) → BehavioralBaseline F
    stored_or_new now none = new_baseline now
    stored_or_new now (some b) = reloaded py b

    -- the statistics of the time since the last update, from the second payment on
    abbrev pub add_interarrival : BehavioralBaseline F → F → WelfordStats F
    add_interarrival b now =
        let interarrival = sub now b.last_updated in
        if ltb 1 b.txn_amount_stats.n && flt (lit 0) interarrival
        then update_stats b.interarrival_seconds_stats interarrival now
        else b.interarrival_seconds_stats

    abbrev pub with_amount : BehavioralBaseline F → F → F → F → BehavioralBaseline F
    with_amount b amount hour now = record b {
      txn_amount_stats = update_stats b.txn_amount_stats amount now;
      txn_time_hour_stats = update_stats b.txn_time_hour_stats hour now;
    }

    abbrev pub with_payment : BehavioralBaseline F → F → F → F → BehavioralBaseline F
    with_payment b amount hour now =
        let b2 = with_amount b amount hour now in
        record b2 { interarrival_seconds_stats = add_interarrival b2 now; last_updated = now }

    -- `pfcount`
    abbrev pub pfcount : String → List (String × List String) → ℕ
    pfcount key sets = py.estimate (get_or (find_key key sets) [])

    -- `smembers` of the user's devices after `_record_device`, where there is a device
    abbrev pub with_device : Option String → List String → List String
    with_device none ds = ds
    with_device (some d) ds = if str_eq d "" || any (str_eq d) ds then ds else d ∷ ds

    -- `update_baseline`
    unfoldable pub update_baseline :
        BaselineStore F → String → F → String → String → Option String → F → F → BaselineStore F
    unfolding update_stats reloaded
    update_baseline s user amount merchant country device hour now =
        let b = with_payment (stored_or_new now (find_key user s.baselines)) amount hour now in
        let merchants = added user merchant s.merchants in
        let countries = added user country s.countries in
        let devices = with_device device (get_or (find_key user s.user_devices) []) in
        let b2 = record b {
          merchant_diversity = of_ℕ (pfcount user merchants);
          country_diversity = of_ℕ (pfcount user countries);
          device_count = length devices;
        } in
        record {
          baselines = put_key user b2 s.baselines;
          merchants = merchants;
          countries = countries;
          user_devices = put_key user devices s.user_devices;
        }

    -- `abs(count - diversity) / diversity`
    abbrev pub deviation : ℕ → F → F
    deviation count diversity =
        if flt (lit 0) diversity then div (fabs (sub (of_ℕ count) diversity)) diversity else lit 0

    -- `_compute_combined_score`
    abbrev pub combined_score : F → F → F → F → F → F
    combined_score amount hour gap merchant country =
        let total =
          add
            (add
              (add (add (add (lit 0) (mul (fabs amount) (lit 3_500))) (mul (fabs hour) (lit 1_500)))
                (mul (fabs gap) (lit 2_000)))
              (mul merchant (lit 1_500)))
            (mul country (lit 1_500)) in
        f.round4 (fmin (div total (lit 3_500)) (lit 10_000))

    abbrev pub no_deviation : DeviationFeatures F
    no_deviation = record {
      amount_z_score = lit 0;
      time_z_score = lit 0;
      interarrival_z_score = lit 0;
      merchant_deviation = lit 0;
      country_deviation = lit 0;
      combined_anomaly_score = lit 0;
      profile_version = 0;
    }

    abbrev pub deviation_from :
        BaselineStore F → String → F → F → F → Option (BehavioralBaseline F) → DeviationFeatures F
    deviation_from s user amount hour now none = no_deviation
    deviation_from s user amount hour now (some stored) =
        let b = reloaded py stored in
        let za = stats_z_score py b.txn_amount_stats amount in
        let zh = stats_z_score py b.txn_time_hour_stats hour in
        let gap = b.interarrival_seconds_stats in
        let zg = if ltb 0 gap.n then stats_z_score py gap (sub now b.last_updated) else lit 0 in
        let dm = deviation (pfcount user s.merchants) b.merchant_diversity in
        let dc = deviation (pfcount user s.countries) b.country_diversity in
        record {
          amount_z_score = za;
          time_z_score = zh;
          interarrival_z_score = zg;
          merchant_deviation = dm;
          country_deviation = dc;
          combined_anomaly_score = combined_score za zh zg dm dc;
          profile_version = b.profile_version;
        }

    -- `compute_deviation`
    unfoldable pub compute_deviation : BaselineStore F → String → F → F → F → DeviationFeatures F
    unfolding reloaded
    compute_deviation s user amount hour now =
        deviation_from s user amount hour now (find_key user s.baselines)

    -- `BehavioralFeatureExtractor.extract`, with the readings of the clock by its two parts
    unfoldable pub extract :
        BaselineStore F
        → String
        → F
        → String
        → String
        → F
        → F
        → F
        → BaselineStore F × DeviationFeatures F
    unfolding update_baseline compute_deviation
    extract s user amount merchant country hour now later =
        let s2 = update_baseline s user amount merchant country none hour now in
        (s2, compute_deviation s2 user amount hour later)
