-- ===== src/Detect/Params.antt =====
-- The thresholds of internal/detect: Params, ScoreParams, SynthParams, BaseParams and MatchParams,
-- with their defaults. Counts and days are plain numbers.
use roadbook.Prelude.{ℕ}
use roadbook.Floats.{Float, ratio}

pub record ScoreParams (F : Type 0) : Type 0 where
  pub weight_distance : F
  pub weight_dwell : F
  pub weight_density : F
  pub weight_duration : F
  pub distance_full_km : F
  pub dwell_full_hrs : F
  pub density_full_per_day : F
  pub duration_full_days : F
  pub dest_radius_km : F

pub record SynthParams (F : Type 0) : Type 0 where
  pub stay_radius_m : F
  pub stay_min_min : F
  pub stay_max_gap_min : F
  pub home_min_days : ℕ

pub record BaseParams (F : Type 0) : Type 0 where
  pub grid_per_deg : F
  pub merge_m : F
  pub min_visits : ℕ
  pub era_pad_days : ℕ

pub record Params (F : Type 0) : Type 0 where
  pub near_m : F
  pub far_km : F
  pub min_obs : ℕ
  pub min_hrs : F
  pub min_dwell_min : F
  pub max_kmh : F
  pub score : ScoreParams F
  pub synth : SynthParams F
  pub bases : BaseParams F

pub record MatchParams (F : Type 0) : Type 0 where
  pub match_km : F

module _ {F : Type 0} ⦃fl : Float F⦄ where
  open fl use {of_ℕ}

  abbrev pub default_score_params : ScoreParams F
  default_score_params = record {
    weight_distance = ratio 35 100;
    weight_dwell = ratio 30 100;
    weight_density = ratio 20 100;
    weight_duration = ratio 15 100;
    distance_full_km = of_ℕ 1000;
    dwell_full_hrs = of_ℕ 24;
    density_full_per_day = of_ℕ 48;
    duration_full_days = of_ℕ 7;
    dest_radius_km = of_ℕ 60;
  }

  abbrev pub default_synth_params : SynthParams F
  default_synth_params = record {
    stay_radius_m = of_ℕ 200;
    stay_min_min = of_ℕ 30;
    stay_max_gap_min = of_ℕ 240;
    home_min_days = 8;
  }

  abbrev pub default_base_params : BaseParams F
  default_base_params = record {
    grid_per_deg = of_ℕ 20;
    merge_m = of_ℕ 10_000;
    min_visits = 8;
    era_pad_days = 45;
  }

  abbrev pub default_params : Params F
  default_params = record {
    near_m = of_ℕ 25_000;
    far_km = of_ℕ 100;
    min_obs = 5;
    min_hrs = of_ℕ 1;
    min_dwell_min = of_ℕ 60;
    max_kmh = of_ℕ 900;
    score = default_score_params;
    synth = default_synth_params;
    bases = default_base_params;
  }

  abbrev pub default_match_params : MatchParams F
  default_match_params = record { match_km = of_ℕ 50 }
