-- ===== src/Baselines/Welford.antt =====
-- store/baselines.py, `WelfordStats` and the form of a baseline in Redis.
use pay_shield.Prelude.{
  ℕ, ◌+◌, ◌-◌, String, Bool, not, ◌||◌, Option, none, some, List, ltb, if◌then◌else◌,
}
use pay_shield.Prelude.Float.{Float, lit, of_ℕ, add, sub, mul, div, flt}

-- an infinite minimum or maximum is none
pub record WelfordStats (F : Type 0) : Type 0 where
  pub n : ℕ
  pub mean : F
  pub m2 : F
  pub min_val : Option F
  pub max_val : Option F
  pub last_updated : F

pub record BehavioralBaseline (F : Type 0) : Type 0 where
  pub txn_amount_stats : WelfordStats F
  pub txn_time_hour_stats : WelfordStats F
  pub interarrival_seconds_stats : WelfordStats F
  pub merchant_diversity : F
  pub country_diversity : F
  pub device_count : ℕ
  pub last_updated : F
  pub profile_version : ℕ

-- what `to_dict` writes of the statistics
pub record StatsDict (F : Type 0) : Type 0 where
  pub n : ℕ
  pub mean : F
  pub std : F
  pub min : Option F
  pub max : Option F
  pub last_updated : F

pub record StatsMaths (F : Type 0) : Type 0 where
  pub sqrt : F → F
  pub estimate : List String → ℕ

-- `max(n - 1, 1)`
abbrev pub degrees : ℕ → ℕ
degrees n = if ltb 1 (n - 1) then n - 1 else 1

module _ {F : Type 0} ⦃f : Float F⦄ where
  abbrev pub new_stats : WelfordStats F
  new_stats = record {
    n = 0;
    mean = lit 0;
    m2 = lit 0;
    min_val = none;
    max_val = none;
    last_updated = lit 0;
  }

  abbrev pub new_baseline : F → BehavioralBaseline F
  new_baseline now = record {
    txn_amount_stats = new_stats;
    txn_time_hour_stats = new_stats;
    interarrival_seconds_stats = new_stats;
    merchant_diversity = lit 0;
    country_diversity = lit 0;
    device_count = 0;
    last_updated = now;
    profile_version = 1;
  }

  abbrev lowered : F → Option F → Option F
  lowered v none = some v
  lowered v (some x) = some (if flt v x then v else x)

  abbrev raised_to : F → Option F → Option F
  raised_to v none = some v
  raised_to v (some x) = some (if flt x v then v else x)

  -- `WelfordStats.update`
  unfoldable pub update_stats : WelfordStats F → F → F → WelfordStats F
  update_stats w v now =
      let delta = sub v w.mean in
      let mean = add w.mean (div delta (of_ℕ (w.n + 1))) in
      record {
        n = w.n + 1;
        mean = mean;
        m2 = add w.m2 (mul delta (sub v mean));
        min_val = lowered v w.min_val;
        max_val = raised_to v w.max_val;
        last_updated = now;
      }

  abbrev pub variance : WelfordStats F → F
  variance w = div w.m2 (of_ℕ (degrees w.n))

  abbrev rounded : Option F → Option F
  rounded none = none
  rounded (some x) = some (f.round4 x)

  module _ (py : StatsMaths F) where
    abbrev pub std : WelfordStats F → F
    std w = py.sqrt (variance w)

    abbrev is_zero : F → Bool
    is_zero x = not (flt x (lit 0) || flt (lit 0) x)

    abbrev pub stats_z_score : WelfordStats F → F → F
    stats_z_score w v =
        if ltb w.n 2 || is_zero (std w) then lit 0 else f.round4 (div (sub v w.mean) (std w))

    abbrev pub to_dict : WelfordStats F → StatsDict F
    to_dict w = record {
      n = w.n;
      mean = f.round4 w.mean;
      std = f.round4 (std w);
      min = rounded w.min_val;
      max = rounded w.max_val;
      last_updated = w.last_updated;
    }

    -- `from_dict` on such a dict, which has no "m2"
    abbrev pub from_dict : StatsDict F → WelfordStats F
    from_dict d = record {
      n = d.n;
      mean = d.mean;
      m2 = mul (mul d.std d.std) (of_ℕ (degrees d.n));
      min_val = d.min;
      max_val = d.max;
      last_updated = d.last_updated;
    }

    -- what is read back of a baseline that was written
    unfoldable pub reloaded : BehavioralBaseline F → BehavioralBaseline F
    reloaded b = record b {
      txn_amount_stats = from_dict (to_dict b.txn_amount_stats);
      txn_time_hour_stats = from_dict (to_dict b.txn_time_hour_stats);
      interarrival_seconds_stats = from_dict (to_dict b.interarrival_seconds_stats);
    }
