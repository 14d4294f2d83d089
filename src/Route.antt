-- ===== src/Route.antt =====
-- internal/route/route.go: the routing seam. The cache is a function of the key, and the router that
-- fills it is a parameter. The two points of a gap are read by index, and a gap with fewer panics:
-- `none`. A coordinate in ten-thousandths of a degree fits an int32, so it is a plain integer.
pub mod Keys
pub mod Gaps
use Prim.Native.String.{String}
use text.Mathlib.Text.{◌==◌ as str_eq}
use roadbook.Prelude.{
  ◌+◌, Bool, true, false, ◌&&◌, ◌||◌, List, [], ◌∷◌, ◌++◌, Option, none, some, ◌==◌, if◌then◌else◌,
}
use roadbook.Prelude.Int.{ℤ, pos, negsuc, pos_part, neg_part}
use roadbook.Floats.{Float}
use roadbook.Domain.{LatLng}
use roadbook.Geo.{haversine_m}
use roadbook.Journey.Types.{
  Journey, Leg, LegKind, leg_gap, GapKind, gap_unknown, gap_road, TimedPoint,
}

pub record RoadRoute (F : Type 0) : Type 0 where
  pub points : List (LatLng F)
  pub distance_m : F
  pub duration_s : F

-- What a router answers: a road, `ErrNoRoute`, or any other error.
pub data Answer (F : Type 0) : Type 0 where
  found : RoadRoute F → Answer F
  no_route : Answer F
  failed : Answer F

-- `Null.Route`.
pub null_route : {F : Type 0} → LatLng F → LatLng F → Answer F
null_route from to = no_route

pub record Key : Type 0 where
  pub from_lat_e4 : ℤ
  pub from_lon_e4 : ℤ
  pub to_lat_e4 : ℤ
  pub to_lon_e4 : ℤ
  pub profile : String

pub data Status : Type 0 where
  status_routed status_no_route : Status

pub record Cached (F : Type 0) : Type 0 where
  pub status : Status
  pub points : List (LatLng F)
  pub distance_m : F
  pub duration_s : F

abbrev same_int : ℤ → ℤ → Bool
same_int a b = pos_part a + neg_part b == pos_part b + neg_part a

-- Keys match by equality.
same_key : Key → Key → Bool
same_key k l =
    same_int k.from_lat_e4 l.from_lat_e4
    && (same_int k.from_lon_e4 l.from_lon_e4
        && (same_int k.to_lat_e4 l.to_lat_e4
            && (same_int k.to_lon_e4 l.to_lon_e4 && str_eq k.profile l.profile)))

seen : Key → List Key → Bool
unfolding same_key
seen k [] = false
seen k (l ∷ keys) = same_key l k || seen k keys

-- Only an unknown gap is ever routed.
abbrev pub is_unknown : LegKind → GapKind → Bool
is_unknown leg_gap gap_unknown = true
is_unknown _ _ = false

abbrev is_routed : Status → Bool
is_routed status_routed = true
is_routed status_no_route = false

-- The cached answer, if it is a road.
abbrev pub road_of : {F : Type 0} → Option (Cached F) → Option (Cached F)
road_of none = none
road_of (some c) = if is_routed c.status then some c else none

-- A leg in front of those that the rest of the loop gives.
abbrev cons_leg :
    {F : Type 0} → Leg F → Option (List (Leg F) × F × F) → Option (List (Leg F) × F × F)
cons_leg l none = none
cons_leg l (some (legs, routed_km, unknown_km)) = some (l ∷ legs, routed_km, unknown_km)

module _ {F : Type 0} ⦃fl : Float F⦄ where
  open fl use {of_ℕ, add, mul, div, neg, round, to_int}

  e4 : F → ℤ
  e4 deg = to_int (round (mul deg (of_ℕ 10_000)))

  from_e4 : ℤ → F
  from_e4 (pos n) = div (of_ℕ n) (of_ℕ 10_000)
  from_e4 (negsuc n) = div (neg (of_ℕ (n + 1))) (of_ℕ 10_000)

  pub key_for : LatLng F → LatLng F → String → Key
  unfolding e4
  key_for from to profile = record {
    from_lat_e4 = e4 from.lat;
    from_lon_e4 = e4 from.lon;
    to_lat_e4 = e4 to.lat;
    to_lon_e4 = e4 to.lon;
    profile = profile;
  }

  unfoldable pub key_from : Key → LatLng F
  unfolding from_e4
  key_from k = record { lat = from_e4 k.from_lat_e4; lon = from_e4 k.from_lon_e4 }

  unfoldable pub key_to : Key → LatLng F
  unfolding from_e4
  key_to k = record { lat = from_e4 k.to_lat_e4; lon = from_e4 k.to_lon_e4 }

  pub chord_km : Key → F
  unfolding key_from key_to
  chord_km k = div (haversine_m (key_from k) (key_to k)) (of_ℕ 1000)

  -- The key of a leg's first two points.
  abbrev pub key_of : String → List (TimedPoint F) → Option Key
  key_of profile (a ∷ b ∷ rest) = some (key_for a.loc b.loc profile)
  key_of profile _ = none

  -- The loop over the legs, with the keys found so far.
  unfoldable pub keys_from : String → List Key → List (Leg F) → Option (List Key)
  unfolding seen
  keys_from profile keys [] = some keys
  keys_from profile keys (l ∷ legs) =
      let passed = keys_from profile keys legs in
      let next =
        λ (k : Key). keys_from profile (if seen k keys then keys else keys ++ (k ∷ [])) legs in
      if is_unknown l.kind l.gap_kind
      then elim (key_of profile l.points) [ none ↦ none | some k ↦ next k ]
      else passed

  unfoldable pub unknown_keys : Journey F → String → Option (List Key)
  unfolding keys_from
  unknown_keys j profile = keys_from profile [] j.legs

  -- A leg with the road of its cached answer: the geometry rides beside the two points.
  abbrev pub decorate : Leg F → Cached F → Leg F
  decorate l c = record l {
    gap_kind = gap_road;
    routed_points = c.points;
    routed_km = div c.distance_m (of_ℕ 1000);
  }

  -- The loop of `Apply`: the legs, the routed and the unknown distance.
  apply_legs :
      String
      → (Key → Option (Cached F))
      → (routed_km unknown_km : F) → List (Leg F)
      → Option (List (Leg F) × F × F)
  apply_legs profile lookup routed_km unknown_km [] = some ([], routed_km, unknown_km)
  apply_legs profile lookup routed_km unknown_km (l ∷ legs) =
      let passed = apply_legs profile lookup routed_km unknown_km legs in
      let unanswered = apply_legs profile lookup routed_km (add unknown_km l.distance_km) legs in
      let answered = λ (c : Cached F).
        apply_legs profile lookup (add routed_km (div c.distance_m (of_ℕ 1000))) unknown_km legs in
      if is_unknown l.kind l.gap_kind
      then elim (key_of profile l.points) [
        | none ↦ none
        | some k ↦ elim (road_of (lookup k)) [
          | none ↦ cons_leg l unanswered
          | some c ↦ cons_leg (decorate l c) (answered c)
        ]
      ]
      else cons_leg l passed

  unfoldable pub apply : Journey F → String → (Key → Option (Cached F)) → Option (Journey F)
  unfolding apply_legs
  apply j profile lookup = elim (apply_legs profile lookup (of_ℕ 0) (of_ℕ 0) j.legs) [
    | none ↦ none
    | some (legs, routed_km, unknown_km) ↦
        some (record j { legs = legs; routed_km = routed_km; unknown_km = unknown_km })
  ]
