-- ===== src/Journey/Stops.antt =====
-- `findStops` and `intersectsWindow` of internal/journey/journey.go.
use roadbook.Prelude.{Bool, ◌&&◌, not, List, [], ◌∷◌, foldl, length, keep, if◌then◌else◌}
use roadbook.Prelude.Sort.{sort_stable}
use roadbook.Floats.{Float}
use roadbook.Times.{Time, before, after, time_sub, seconds}
use roadbook.Domain.{Activity}
use roadbook.Geo.{haversine_m}
use roadbook.Journey.Types.{Params, TimedPoint, Stop, last_of}

module _ {F : Type 0} where
  unfoldable pub intersects_window : Time → Time → Activity F → Bool
  intersects_window win_start win_end a =
      not (before a.end win_start) && not (after a.start win_end)

  abbrev starts_earlier : Activity F → Activity F → Bool
  starts_earlier a b = before a.start b.start

  -- The kept points inside a halt, its ends included.
  abbrev pub halt_members : Time → Time → List (TimedPoint F) → List (TimedPoint F)
  halt_members halt_start halt_end kept =
      keep (λ k. not (before k.time halt_start) && not (after k.time halt_end)) kept

module _ {F : Type 0} ⦃fl : Float F⦄ where
  open fl use {of_ℕ, add, div, lt}

  -- A stop with no member keeps the zero place and the zero displacement.
  stop_at : Time → Time → List (TimedPoint F) → Stop F
  stop_at start end [] = record {
    start = start;
    end = end;
    loc = record { lat = of_ℕ 0; lon = of_ℕ 0 };
    points = 0;
    displacement_km = of_ℕ 0;
  }
  stop_at start end (m ∷ ms) =
      let n = length (m ∷ ms) in
      record {
        start = start;
        end = end;
        loc = record {
          lat = div (foldl (λ sum k. add sum k.loc.lat) (of_ℕ 0) (m ∷ ms)) (of_ℕ n);
          lon = div (foldl (λ sum k. add sum k.loc.lon) (of_ℕ 0) (m ∷ ms)) (of_ℕ n);
        };
        points = n;
        displacement_km = div (haversine_m m.loc (last_of m ms).loc) (of_ℕ 1000);
      }

  -- The pause is too short to be a stop.
  abbrev pub is_short : Params F → Time → Time → Bool
  is_short p halt_start halt_end =
      lt (seconds (time_sub halt_end halt_start)) p.min_stop_dwell_seconds

  -- The loop over the pairs of consecutive activities.
  stops_between : Params F → List (TimedPoint F) → List (Activity F) → List (Stop F)
  unfolding stop_at
  stops_between p kept (a ∷ b ∷ acts) =
      let rest = stops_between p kept (b ∷ acts) in
      if is_short p a.end b.start
      then rest
      else stop_at a.end b.start (halt_members a.end b.start kept) ∷ rest
  stops_between p kept _ = []

  unfoldable pub find_stops :
      List (Activity F) → List (TimedPoint F) → Time → Time → Params F → List (Stop F)
  unfolding stops_between
  find_stops activities kept win_start win_end p =
      stops_between p kept
        (sort_stable starts_earlier (keep (intersects_window win_start win_end) activities))
