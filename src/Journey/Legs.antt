-- ===== src/Journey/Legs.antt =====
-- The leg split of `Assemble`, `observedLeg` and `gapLeg`, and the distance sums over the legs.
pub mod Partition
use roadbook.Prelude.{Bool, ◌&&◌, List, [], ◌∷◌, ◌++◌, foldl, if◌then◌else◌}
use roadbook.Floats.{Float}
use roadbook.Times.{time_sub, minutes, hours}
use roadbook.Geo.{haversine_m}
use roadbook.Journey.Types.{
  Params, LegKind, leg_observed, leg_gap, GapKind, gap_none, gap_unknown, gap_air, TimedPoint, Leg,
}

pub record Totals (F : Type 0) : Type 0 where
  pub observed_km : F
  pub inferred_km : F
  pub air_km : F
  pub unknown_km : F

module _ {F : Type 0} ⦃fl : Float F⦄ where
  open fl use {of_ℕ, add, div, lt, le}

  path_km : F → List (TimedPoint F) → F
  path_km km (a ∷ b ∷ rest) =
      path_km (add km (div (haversine_m a.loc b.loc) (of_ℕ 1000))) (b ∷ rest)
  path_km km _ = km

  unfoldable pub observed_leg : List (TimedPoint F) → Leg F
  unfolding path_km
  observed_leg run = record {
    kind = leg_observed;
    gap_kind = gap_none;
    points = run;
    distance_km = path_km (of_ℕ 0) run;
    routed_points = [];
    routed_km = of_ℕ 0;
  }

  -- The implied speed of a gap meets that of a flight.
  abbrev pub is_flight : TimedPoint F → TimedPoint F → Params F → Bool
  is_flight from to p =
      let km = div (haversine_m from.loc to.loc) (of_ℕ 1000) in
      lt (of_ℕ 0) p.air_speed_min_kmh
      && le p.air_speed_min_kmh (div km (hours (time_sub to.time from.time)))

  unfoldable pub gap_leg : TimedPoint F → TimedPoint F → Params F → Leg F
  gap_leg from to p = record {
    kind = leg_gap;
    gap_kind = if is_flight from to p then gap_air else gap_unknown;
    points = from ∷ to ∷ [];
    distance_km = div (haversine_m from.loc to.loc) (of_ℕ 1000);
    routed_points = [];
    routed_km = of_ℕ 0;
  }

  abbrev pub is_silence : Params F → TimedPoint F → TimedPoint F → Bool
  is_silence p prev pt = lt p.gap_threshold_minutes (minutes (time_sub pt.time prev.time))

  -- The loop: `run` is the open run without its last point `prev`.
  split_from : Params F → List (TimedPoint F) → TimedPoint F → List (TimedPoint F) → List (Leg F)
  unfolding observed_leg gap_leg
  split_from p run prev [] = observed_leg (run ++ (prev ∷ [])) ∷ []
  split_from p run prev (pt ∷ pts) =
      let closed = split_from p [] pt pts in
      let grown = split_from p (run ++ (prev ∷ [])) pt pts in
      if is_silence p prev pt
      then observed_leg (run ++ (prev ∷ [])) ∷ gap_leg prev pt p ∷ closed
      else grown

  unfoldable pub split_legs : Params F → List (TimedPoint F) → List (Leg F)
  unfolding split_from
  split_legs p [] = []
  split_legs p (k ∷ kept) = split_from p [] k kept

  abbrev add_gap : GapKind → F → Totals F → Totals F
  add_gap gap_air km t = record t { inferred_km = add t.inferred_km km; air_km = add t.air_km km }
  add_gap _ km t = record t { inferred_km = add t.inferred_km km; unknown_km = add t.unknown_km km }

  abbrev add_by_kind : LegKind → GapKind → F → Totals F → Totals F
  add_by_kind leg_observed gap km t = record t { observed_km = add t.observed_km km }
  add_by_kind leg_gap gap km t = add_gap gap km t

  add_leg : Totals F → Leg F → Totals F
  add_leg t l = add_by_kind l.kind l.gap_kind l.distance_km t

  unfoldable pub leg_totals : List (Leg F) → Totals F
  unfolding add_leg
  leg_totals legs =
      foldl add_leg
        (record {
          observed_km = of_ℕ 0;
          inferred_km = of_ℕ 0;
          air_km = of_ℕ 0;
          unknown_km = of_ℕ 0;
        })
        legs
