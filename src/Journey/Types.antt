-- ===== src/Journey/Types.antt =====
-- The types and parameters of internal/journey/journey.go. The first and last point of a leg without
-- points panic in the source: `none`.
use roadbook.Prelude.{ℕ, ◌+◌, Bool, false, ◌&&◌, List, [], ◌∷◌, Option, none, some, if◌then◌else◌}
use roadbook.Floats.{Float}
use roadbook.Times.{Time}
use roadbook.Domain.{LatLng}

pub record Params (F : Type 0) : Type 0 where
  pub gap_threshold_minutes : F
  pub thin_spacing_seconds : F
  pub min_stop_dwell_seconds : F
  pub max_accuracy_m : F
  pub air_speed_min_kmh : F
  pub max_speed_kmh : F
  pub cluster_radius_m : F
  pub divergence_warn_pct : F

abbrev pub default_params : {F : Type 0} ⦃fl : Float F⦄ → Params F
default_params ⦃fl⦄ = record {
  gap_threshold_minutes = fl.of_ℕ 20;
  thin_spacing_seconds = fl.of_ℕ 30;
  min_stop_dwell_seconds = fl.of_ℕ 300;
  max_accuracy_m = fl.of_ℕ 0;
  air_speed_min_kmh = fl.of_ℕ 250;
  max_speed_kmh = fl.of_ℕ 900;
  cluster_radius_m = fl.of_ℕ 1000;
  divergence_warn_pct = fl.of_ℕ 15;
}

pub data LegKind : Type 0 where
  leg_observed leg_gap : LegKind

pub data GapKind : Type 0 where
  gap_none gap_unknown gap_road gap_air : GapKind

pub data PointSource : Type 0 where
  source_trace source_raw : PointSource

pub record TimedPoint (F : Type 0) : Type 0 where
  pub time : Time
  pub loc : LatLng F
  pub source : PointSource

pub record Leg (F : Type 0) : Type 0 where
  pub kind : LegKind
  pub gap_kind : GapKind
  pub points : List (TimedPoint F)
  pub distance_km : F
  pub routed_points : List (LatLng F)
  pub routed_km : F

module _ {F : Type 0} where
  -- The last point of a run that begins with `p`.
  abbrev pub last_of : TimedPoint F → List (TimedPoint F) → TimedPoint F
  last_of p [] = p
  last_of p (q ∷ rest) = last_of q rest

  abbrev pub leg_start : Leg F → Option Time
  leg_start l = elim l.points [ [] ↦ none | p ∷ rest ↦ some p.time ]

  abbrev pub leg_end : Leg F → Option Time
  leg_end l = elim l.points [ [] ↦ none | p ∷ rest ↦ some (last_of p rest).time ]

pub record Stop (F : Type 0) : Type 0 where
  pub start : Time
  pub end : Time
  pub loc : LatLng F
  pub points : ℕ
  pub displacement_km : F

pub record Journey (F : Type 0) : Type 0 where
  pub window_start : Time
  pub window_end : Time
  pub params : Params F
  pub legs : List (Leg F)
  pub stops : List (Stop F)
  pub trace_points_in_window : ℕ
  pub raw_points_in_window : ℕ
  pub trace_points_kept : ℕ
  pub raw_points_kept : ℕ
  pub rejected_null_island : ℕ
  pub rejected_accuracy : ℕ
  pub rejected_speed : ℕ
  pub total_km : F
  pub observed_km : F
  pub inferred_km : F
  pub air_km : F
  pub unknown_km : F
  pub routed_km : F
  pub google_distance_km : F
  pub google_ground_km : F

module _ {F : Type 0} ⦃fl : Float F⦄ where
  open fl use {of_ℕ, add, sub, mul, div, lt, le, abs}

  unfoldable pub ground_km : Journey F → F
  ground_km j = add (add j.observed_km j.routed_km) j.unknown_km

  -- `none` is `ok == false`.
  unfoldable pub divergence_pct : Journey F → Option F
  unfolding ground_km
  divergence_pct j =
      if le j.google_ground_km (of_ℕ 0)
      then none
      else some (mul (div (sub (ground_km j) j.google_ground_km) j.google_ground_km) (of_ℕ 100))

  unfoldable pub divergence_flagged : Journey F → Bool
  unfolding divergence_pct
  divergence_flagged j = elim (divergence_pct j) [
    | none ↦ false
    | some pct ↦
        lt (of_ℕ 0) j.params.divergence_warn_pct && lt j.params.divergence_warn_pct (abs pct)
  ]

  unfoldable pub merged_points : Journey F → ℕ
  merged_points j = j.trace_points_kept + j.raw_points_kept
