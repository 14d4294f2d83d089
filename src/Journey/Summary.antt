-- ===== src/Journey/Summary.antt =====
-- internal/journey/summary.go: the summary block. A civil date is its number of days, which orders
-- the dates as the texts of their four-digit years do. `none` is the panic of a leg without points.
use roadbook.Prelude.{
  ℕ, ◌+◌, ◌-◌, Bool, true, false, ◌||◌, List, [], ◌∷◌, ◌++◌, Option, none, some, ltb, foldl, length,
  if◌then◌else◌,
}
use roadbook.Floats.{Float}
use roadbook.Times.{Time, time_sub, hours, civil_day}
use roadbook.Journey.Types.{Journey, Leg, LegKind, leg_observed, leg_gap, Stop, leg_start, leg_end}

pub record Summary (F : Type 0) : Type 0 where
  pub span_hours : F
  pub civil_days : ℕ
  pub stops : ℕ
  pub dwell_hours : F
  pub observed_hours : F
  -- `none` is `PaceOK == false`.
  pub observed_pace_kmh : Option F

abbrev is_gap : LegKind → Bool
is_gap leg_gap = true
is_gap leg_observed = false

-- The days seen so far, and one more.
unfoldable pub touch : ℕ × ℕ → Time → ℕ × ℕ
touch days t =
    let d = civil_day t in (if ltb d days.0 then d else days.0, if ltb days.1 d then d else days.1)

module _ {F : Type 0} where
  -- The starts and ends of the legs, in the order in which they are touched.
  leg_times : List (Leg F) → Option (List Time)
  leg_times [] = some []
  leg_times (l ∷ legs) =
      let rest = leg_times legs in
      elim (leg_start l) [
        | none ↦ none
        | some start ↦ elim (leg_end l) [
          | none ↦ none
          | some end ↦ elim rest [ none ↦ none | some times ↦ some (start ∷ end ∷ times) ]
        ]
      ]

  stop_times : List (Stop F) → List Time
  stop_times [] = []
  stop_times (s ∷ stops) = s.start ∷ s.end ∷ stop_times stops

  unfoldable pub civil_days : Journey F → Option ℕ
  unfolding leg_times stop_times touch
  civil_days j = elim (leg_times j.legs) [
    | none ↦ none
    | some times ↦
        let (first, last) =
          foldl touch (civil_day j.window_start, civil_day j.window_end)
            (times ++ stop_times j.stops) in
        some (last - first + 1)
  ]

module _ {F : Type 0} ⦃fl : Float F⦄ where
  open fl use {of_ℕ, add, div, lt, le, eq}

  -- A leg's duration in hours; none for a leg without points.
  abbrev leg_hours : Leg F → Option F
  leg_hours l = elim (leg_start l) [
    | none ↦ none
    | some start ↦ elim (leg_end l) [ none ↦ none | some end ↦ some (hours (time_sub end start)) ]
  ]

  -- A gap or a fix is no moving stretch.
  abbrev pub is_still : Leg F → Bool
  is_still l = is_gap l.kind || (ltb (length l.points) 2 || eq l.distance_km (of_ℕ 0))

  add_stretch : F × F → Leg F → F × F
  add_stretch sums l = if is_still l then sums else elim (leg_hours l) [
    | none ↦ sums
    | some h ↦ if le h (of_ℕ 0) then sums else (add sums.0 h, add sums.1 l.distance_km)
  ]

  unfoldable pub summarize : Journey F → Option (Summary F)
  unfolding civil_days add_stretch
  summarize j = elim (civil_days j) [
    | none ↦ none
    | some days ↦
        let (observed_hours, km) = foldl add_stretch (of_ℕ 0, of_ℕ 0) j.legs in
        some (record {
          span_hours = hours (time_sub j.window_end j.window_start);
          civil_days = days;
          stops = length j.stops;
          dwell_hours = foldl (λ sum s. add sum (hours (time_sub s.end s.start))) (of_ℕ 0) j.stops;
          observed_hours = observed_hours;
          observed_pace_kmh =
              if lt (of_ℕ 0) observed_hours then some (div km observed_hours) else none;
        })
  ]
