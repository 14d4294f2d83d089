-- ===== src/Journey/Place.antt =====
-- internal/journey/place.go: where a journey claims to have been at a photo's instant. The outer
-- `none` of a result is the panic of a leg without points; the inner one is `ok == false`.
pub mod Placed
use roadbook.Prelude.{
  ℕ, suc, Bool, false, ◌&&◌, not, List, [], ◌∷◌, map, Option, none, some, if◌then◌else◌,
}
use roadbook.Floats.{Float}
use roadbook.Times.{Time, before, after}
use roadbook.Domain.{LatLng}
use roadbook.Geo.{haversine_m, point_to_polyline_m}
use roadbook.Journey.Types.{
  Journey, Leg, LegKind, leg_observed, leg_gap, GapKind, gap_road, gap_air, Stop, TimedPoint,
  leg_start, leg_end,
}

pub data PlaceKind : Type 0 where
  place_observed place_road place_unknown place_air place_stop : PlaceKind

-- An index that is -1 in the source is `none`. `distance_m` is `none` where `HasDistance` is false.
pub record Placement (F : Type 0) : Type 0 where
  pub kind : PlaceKind
  pub leg_index : Option ℕ
  pub stop_index : Option ℕ
  pub distance_m : Option F
  pub flagged : Bool

abbrev pub default_photo_far_warn_m : {F : Type 0} ⦃fl : Float F⦄ → F
default_photo_far_warn_m ⦃fl⦄ = fl.of_ℕ 1000

unfoldable pub within : Time → Time → Time → Bool
within t start end = not (before t start) && not (after t end)

-- Which element of the journey a leg stands for.
unfoldable pub place_kind : LegKind → GapKind → PlaceKind
place_kind leg_observed gap = place_observed
place_kind leg_gap gap_air = place_air
place_kind leg_gap gap_road = place_road
place_kind leg_gap _ = place_unknown

abbrev leg_locs : {F : Type 0} → List (TimedPoint F) → List (LatLng F)
leg_locs pts = map (λ pt. pt.loc) pts

module _ {F : Type 0} ⦃fl : Float F⦄ where
  open fl use {lt}

  -- The distance to the geometry that is drawn for a leg of this kind.
  leg_distance : PlaceKind → LatLng F → Leg F → Option F
  leg_distance place_air pos l = none
  leg_distance place_road pos l = some (point_to_polyline_m pos l.routed_points)
  leg_distance _ pos l = some (point_to_polyline_m pos (leg_locs l.points))

  abbrev pub is_flagged : F → Option F → Bool
  is_flagged far_warn_m none = false
  is_flagged far_warn_m (some d) = lt far_warn_m d

  unfoldable pub placed_on_leg : F → LatLng F → ℕ → Leg F → Placement F
  unfolding leg_distance
  placed_on_leg far_warn_m pos i l =
      let kind = place_kind l.kind l.gap_kind in
      let d = leg_distance kind pos l in
      record {
        kind = kind;
        leg_index = some i;
        stop_index = none;
        distance_m = d;
        flagged = is_flagged far_warn_m d;
      }

  unfoldable pub placed_on_stop : F → LatLng F → ℕ → Stop F → Placement F
  placed_on_stop far_warn_m pos i s =
      let d = haversine_m pos s.loc in
      record {
        kind = place_stop;
        leg_index = none;
        stop_index = some i;
        distance_m = some d;
        flagged = lt far_warn_m d;
      }

  -- The loop over the stops, and behind it what `other` gives.
  place_on_stops :
      F
      → Time
      → LatLng F
      → ℕ
      → Option (Option (Placement F))
      → List (Stop F)
      → Option (Option (Placement F))
  place_on_stops far_warn_m t pos i other [] = other
  place_on_stops far_warn_m t pos i other (s ∷ stops) =
      let rest = place_on_stops far_warn_m t pos (suc i) other stops in
      if within t s.start s.end then some (some (placed_on_stop far_warn_m pos i s)) else rest

  place_on_legs : F → Time → LatLng F → ℕ → List (Leg F) → Option (Option (Placement F))
  place_on_legs far_warn_m t pos i [] = some none
  place_on_legs far_warn_m t pos i (l ∷ legs) =
      let rest = place_on_legs far_warn_m t pos (suc i) legs in
      elim (leg_start l) [
        | none ↦ none
        | some start ↦ elim (leg_end l) [
          | none ↦ none
          | some end ↦
              if within t start end then some (some (placed_on_leg far_warn_m pos i l)) else rest
        ]
      ]

  unfoldable pub place_photo : Journey F → Time → LatLng F → F → Option (Option (Placement F))
  unfolding place_on_stops place_on_legs
  place_photo j t pos far_warn_m =
      place_on_stops far_warn_m t pos 0 (place_on_legs far_warn_m t pos 0 j.legs) j.stops
