-- ===== src/Journey/Assemble.antt =====
-- `Assemble` of internal/journey/journey.go.
pub mod Accounting
use text.Mathlib.Text.{◌==◌ as str_eq}
use roadbook.Prelude.{◌+◌, List, foldl, keep, not}
use roadbook.Floats.{Float}
use roadbook.Times.{Time}
use roadbook.Domain.{Activity, Observations}
use roadbook.Journey.Types.{Params, Journey, TimedPoint}
use roadbook.Journey.Select.{
  judge_traces, judge_raws, count_verdicts, is_null_island, is_inaccurate, is_selected,
  select_points,
}
use roadbook.Journey.Teleports.{reject_teleports}
use roadbook.Journey.Thin.{thin, count_kept}
use roadbook.Journey.Legs.{split_legs, leg_totals}
use roadbook.Journey.Stops.{find_stops, intersects_window}

module _ {F : Type 0} ⦃fl : Float F⦄ where
  open fl use {of_ℕ, add, div}

  google_km : List (Activity F) → F
  google_km acts = foldl (λ sum a. add sum (div a.distance_m (of_ℕ 1000))) (of_ℕ 0) acts

  -- The thinned stream that the legs are built on.
  unfoldable pub kept_points : Observations F → Time → Time → Params F → List (TimedPoint F)
  kept_points obs win_start win_end p =
      thin p (reject_teleports (select_points obs p win_start win_end) p).0

  unfoldable pub assemble : Observations F → Time → Time → Params F → Journey F
  unfolding google_km kept_points
  assemble obs win_start win_end p =
      let traces = judge_traces obs win_start win_end in
      let raws = judge_raws obs p win_start win_end in
      let (pts, rejected) = reject_teleports (select_points obs p win_start win_end) p in
      let kept = thin p pts in
      let (traces_kept, raws_kept) = count_kept kept in
      let legs = split_legs p kept in
      let totals = leg_totals legs in
      let inside = keep (intersects_window win_start win_end) obs.activities in
      record {
        window_start = win_start;
        window_end = win_end;
        params = p;
        legs = legs;
        stops = find_stops obs.activities kept win_start win_end p;
        trace_points_in_window = count_verdicts is_selected traces;
        raw_points_in_window = count_verdicts is_selected raws;
        trace_points_kept = traces_kept;
        raw_points_kept = raws_kept;
        rejected_null_island =
            count_verdicts is_null_island traces + count_verdicts is_null_island raws;
        rejected_accuracy = count_verdicts is_inaccurate raws;
        rejected_speed = rejected;
        total_km = add totals.observed_km totals.inferred_km;
        observed_km = totals.observed_km;
        inferred_km = totals.inferred_km;
        air_km = totals.air_km;
        unknown_km = totals.unknown_km;
        routed_km = of_ℕ 0;
        google_distance_km = google_km inside;
        google_ground_km = google_km (keep (λ a. not (str_eq a.mode "FLYING")) inside);
      }
